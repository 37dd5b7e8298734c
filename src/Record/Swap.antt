-- ===== src/Record/Swap.antt =====
-- dict_item_swap: what it does to each attribute, and that it undoes itself.
use mv_git.Base.{
  ℕ, ◌≤◌, true, false, [], none, some, some_inj, ◌≡◌, sym, ap, ◌∙◌, arith, ltb, if◌then◌else◌,
  length, take, get_or, max, Bool-cases, inl, inr, take_all,
}
use mv_git.Bytes.{Bytes, am}
use mv_git.Bytes.Split.{split, join}
use mv_git.Record.{attr, slots, rtrim, is_item, swapped, dict_item_swap}
use mv_git.Record.Attr.{attr-rtrim, rtrim_ext}
use mv_git.Record.Slots.{get_or-take, attr_short, Lacks-take, attr-join-slots}

-- The attributes of the swapped record: 6 and 7 have changed places, and nothing is left of an
-- attribute past the thirty-second.
abbrev pub swap_result : Bytes → ℕ → Bytes
swap_result s k = if ltb (swapped k) 32 then attr am s (swapped k) else []

pub swapped_twice : (k : ℕ) → swapped (swapped k) ≡ k
unfolding swapped
swapped_twice k = ground arith

pub swapped_small : (k : ℕ) → ltb (swapped k) 32 ≡ ltb k 32
unfolding swapped
swapped_small k = ground arith

swapped_late : (n k : ℕ) → max n 7 ≤ k → n ≤ swapped k
unfolding swapped
swapped_late n k h = ground arith

module _ (s : Bytes) where
  past_slots :
      (k : ℕ) → ltb k (max (length (take 32 (split am s))) 7) ≡ false → swap_result s k ≡ []
  past_slots k h =
      sym (get_or-take 32 (swapped k) (split am s))
      ∙ attr_short am s 32 (swapped k) (swapped_late (length _) k (ground arith))

  attr-swapped :
      (k : ℕ)
      → attr am
          (join am (
            slots
              (max (length (take 32 (split am s))) 7)
              0
              (λ i. get_or (take 32 (split am s)) (swapped i) [])))
          k
        ≡ swap_result s k
  attr-swapped k =
      attr-join-slots am _ k _ (omega arith) (λ j. Lacks-take am s 32 (swapped j))
      ∙ elim (Bool-cases (ltb k (max (length (take 32 (split am s))) 7))) [
        | inl e ↦ rw e (get_or-take 32 (swapped k) (split am s))
        | inr e ↦ rw e (sym (past_slots k e))
      ]

swap_join : Bytes → Bytes
swap_join s =
    let att = take 32 (split am s) in
    join am (slots (max (length att) 7) 0 (λ i. get_or att (swapped i) []))

first_attr_kept : (s : Bytes) → get_or (take 32 (split am s)) 0 [] ≡ attr am s 0
first_attr_kept s = get_or-take 32 0 (split am s) ∙ ground arith

swap_item :
    (s : Bytes) → is_item (attr am s 0) ≡ true → dict_item_swap s ≡ some (rtrim am (swap_join s))
unfolding dict_item_swap swap_join
swap_item s h = rw (first_attr_kept s, h)

-- Records that are no D or I items pass through.
pub swap_other : (s : Bytes) → is_item (attr am s 0) ≡ false → dict_item_swap s ≡ none
unfolding dict_item_swap
swap_other s h = rw (first_attr_kept s, h)

pub swap_some-is_item :
    (s : Bytes) {t : Bytes} → dict_item_swap s ≡ some t → is_item (attr am s 0) ≡ true
swap_some-is_item s h = elim (Bool-cases (is_item (attr am s 0))) [
  | inl e ↦ e
  | inr e ↦ cc (h, swap_other s e)
]

swap_join-attr : (s : Bytes) (k : ℕ) → attr am (swap_join s) k ≡ swap_result s k
unfolding swap_join
swap_join-attr s k = attr-swapped s k

swap_eq : (s : Bytes) {t : Bytes} → dict_item_swap s ≡ some t → t ≡ rtrim am (swap_join s)
swap_eq s h = some_inj (sym h ∙ swap_item s (swap_some-is_item s h))

pub attr-dict_item_swap :
    (s : Bytes) {t : Bytes} → dict_item_swap s ≡ some t → (k : ℕ) → attr am t k ≡ swap_result s k
attr-dict_item_swap s h k =
    ap (λ x. attr am x k) (swap_eq s h) ∙ attr-rtrim am (swap_join s) k ∙ swap_join-attr s k

-- dict_item_swap answers for a D or I item. In the result attributes 6 and 7 have changed
-- places, the others among the first 32 are as they were, and there are none past the 32nd.
pub dict_item_swap_lem :
    (s : Bytes)
    → is_item (attr am s 0) ≡ true
    → (t : Bytes) × (dict_item_swap s ≡ some t)
      × ((k : ℕ) → attr am t k ≡ (if ltb (swapped k) 32 then attr am s (swapped k) else []))
dict_item_swap_lem s h =
    (rtrim am (swap_join s), swap_item s h, attr-dict_item_swap s (swap_item s h))

pub attr_past : (s : Bytes) (k : ℕ) → length (split am s) ≤ k → attr am s k ≡ []
attr_past s k h =
    ap (λ ps. get_or ps k []) (sym (take_all k (split am s) h))
    ∙ attr_short am s k k (rw (take_all k (split am s) h) h)

swap_back :
    (s : Bytes) {t : Bytes}
    → length (split am s) ≤ 32
    → dict_item_swap s ≡ some t
    → (k : ℕ) → attr am (swap_join t) k ≡ attr am s k
swap_back s {t} few h k = swap_join-attr t k ∙ elim (Bool-cases (ltb k 32)) [
  | inl e ↦ rw (swapped_small k, e, attr-dict_item_swap s h (swapped k), swapped_twice k, e)
  | inr e ↦ rw (swapped_small k, e) (sym (attr_past s k (ground arith)))
]

pub swap-is_item :
    (s : Bytes) {t : Bytes} → dict_item_swap s ≡ some t → is_item (attr am t 0) ≡ true
swap-is_item s h = ap is_item (attr-dict_item_swap s h 0) ∙ unfold swapped in swap_some-is_item s h

-- Swapping twice gives a D or I item of at most 32 attributes back, but for attribute marks at its
-- end.
pub dict_item_swap-swap :
    (s : Bytes) {t : Bytes}
    → length (split am s) ≤ 32
    → dict_item_swap s ≡ some t
    → dict_item_swap t ≡ some (rtrim am s)
dict_item_swap-swap s {t} few h =
    swap_item t (swap-is_item s h) ∙ ap some (rtrim_ext am (swap_join t) s (swap_back s few h))
