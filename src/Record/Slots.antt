-- ===== src/Record/Slots.antt =====
-- The loops that write a record anew, one attribute for each slot, and what rec_set_attr and
-- rec_set_attr2 do to each attribute.
use mv_git.Base.{
  ℕ, zero, suc, ◌+◌, ◌<◌, ◌≤◌, false, List, [], ◌∷◌, some, some_inj, ◌≡◌, ◌≢◌, refl, sym, ap, ◌∙◌,
  arith, ltb, ◌==◌, if◌then◌else◌, length, take, get_or, max, All, inl, inr, Bool-cases,
  length-take,
}
use native.Mathlib.Nat.{zero-add, add-zero}
use mv_git.Bytes.{Bytes}
use mv_git.Bytes.Split.{split, join, Lacks, split-join, All-split}
use mv_git.Record.{attr, slots, rec_set_attr, rec_set_attr2, set_slot, set_second}

at_place : (write : ℕ → Bytes) {i j : ℕ} → i ≡ j → write i ≡ write j
at_place write = ap write

suc-add : (i k : ℕ) → suc i + k ≡ i + suc k
suc-add i k = omega arith

get_or-slots :
    (n i k : ℕ) (write : ℕ → Bytes)
    → get_or (slots n i write) k [] ≡ (if ltb k n then write (i + k) else [])
unfolding slots
get_or-slots zero i k write = ground arith
get_or-slots (suc n) i zero write = ground (arith, at_place write (add-zero i))
get_or-slots (suc n) i (suc k) write =
    get_or-slots n (suc i) k write ∙ rw (suc-add i k) (ground arith)

pub get_or-take :
    (n k : ℕ) (ps : List Bytes) → get_or (take n ps) k [] ≡ (if ltb k n then get_or ps k [] else [])
get_or-take zero k ps = ground arith
get_or-take (suc n) k [] = ground arith
get_or-take (suc n) zero (p ∷ ps) = ground arith
get_or-take (suc n) (suc k) (p ∷ ps) = get_or-take n k ps ∙ ground arith

module _ (sep : ℕ) where
  pub All-take : (n : ℕ) (ps : List Bytes) → All (Lacks sep) ps → All (Lacks sep) (take n ps)
  All-take zero ps h = tt
  All-take (suc n) [] h = tt
  All-take (suc n) (p ∷ ps) (hp, hps) = (hp, All-take n ps hps)

  pub Lacks-get_or : (ps : List Bytes) (k : ℕ) → All (Lacks sep) ps → Lacks sep (get_or ps k [])
  Lacks-get_or [] k h = tt
  Lacks-get_or (p ∷ ps) zero (hp, hps) = hp
  Lacks-get_or (p ∷ ps) (suc k) (hp, hps) = Lacks-get_or ps k hps

  All-slots :
      (n i : ℕ) (write : ℕ → Bytes)
      → ((k : ℕ) → Lacks sep (write k))
      → All (Lacks sep) (slots n i write)
  unfolding slots
  All-slots zero i write h = tt
  All-slots (suc n) i write h = (h i, All-slots n (suc i) write h)

  slots-ne-nil : (n i : ℕ) (write : ℕ → Bytes) → 0 < n → slots n i write ≢ []
  unfolding slots
  slots-ne-nil zero i write h = absurd (omega arith)
  slots-ne-nil (suc n) i write h = cc

  -- The record written by such a loop has the attributes that were written.
  pub attr-join-slots :
      (n k : ℕ) (write : ℕ → Bytes)
      → 0 < n
      → ((j : ℕ) → Lacks sep (write j))
      → attr sep (join sep (slots n 0 write)) k ≡ (if ltb k n then write k else [])
  attr-join-slots n k write pos h =
      rw (split-join sep _ (slots-ne-nil n 0 write pos) (All-slots n 0 write h))
        (get_or-slots n 0 k write ∙ rw zero-add)

module _ (sep : ℕ) (s : Bytes) where
  attr-take :
      (n k : ℕ) → get_or (take n (split sep s)) k [] ≡ (if ltb k n then attr sep s k else [])
  attr-take n k = get_or-take n k (split sep s)

  -- an attribute that was cut off or never there is empty
  pub attr_short :
      (n k : ℕ) → length (take n (split sep s)) ≤ k → get_or (take n (split sep s)) k [] ≡ []
  attr_short n k h = get_or_short (take n (split sep s)) k h
    where
      get_or_short : (ps : List Bytes) (j : ℕ) → length ps ≤ j → get_or ps j [] ≡ []
      get_or_short [] j h = refl
      get_or_short (p ∷ ps) zero h = absurd (omega arith)
      get_or_short (p ∷ ps) (suc j) h = get_or_short ps j (omega arith)

  pub Lacks-take : (n k : ℕ) → Lacks sep (get_or (take n (split sep s)) k [])
  Lacks-take n k = Lacks-get_or sep _ k (All-take sep n _ (All-split sep s))

-- What is left of attribute `k` when attribute `n`, from 1, is set and the arrays hold 40.
abbrev pub set_result : ℕ → Bytes → ℕ → Bytes → ℕ → Bytes
set_result sep s n val k = if suc k == n then val else if ltb k 40 then attr sep s k else []

module _ (sep : ℕ) (s : Bytes) (n : ℕ) (val : Bytes) where
  set_slot_eq : (k : ℕ) → set_slot (take 40 (split sep s)) n val k ≡ set_result sep s n val k
  set_slot_eq k = rw (attr-take sep s 40 k)

  set_slot-Lacks : Lacks sep val → (k : ℕ) → Lacks sep (set_slot (take 40 (split sep s)) n val k)
  set_slot-Lacks h k = elim (Bool-cases (suc k == n)) [
    | inl e ↦ rw e h
    | inr e ↦ rw e (Lacks-take sep s 40 k)
  ]

  past_slots :
      (k : ℕ)
      → ltb k (max (length (take 40 (split sep s))) n) ≡ false
      → set_result sep s n val k ≡ []
  past_slots k h =
      let short = attr_short sep s 40 k (ground arith) in
      let blank = sym (attr-take sep s 40 k) ∙ short in ground (arith, blank)

  slot_or_blank :
      (k : ℕ)
      → (if ltb k (max (length (take 40 (split sep s))) n)
          then set_slot (take 40 (split sep s)) n val k
          else [])
        ≡ set_result sep s n val k
  slot_or_blank k = elim (Bool-cases (ltb k (max (length (take 40 (split sep s))) n))) [
    | inl e ↦ rw e (set_slot_eq k)
    | inr e ↦ rw e (sym (past_slots k e))
  ]

  few_slots : n ≤ 40 → ltb 40 (max (length (take 40 (split sep s))) n) ≡ false
  few_slots h = ground (arith, length-take 40 (split sep s))

  -- rec_set_attr succeeds for every attribute number up to 40. It writes `val` there, keeps the
  -- other attributes among the first 40 and has no later ones.
  pub rec_set_attr_lem :
      0 < n
      → n ≤ 40
      → Lacks sep val
      → (t : Bytes) × (rec_set_attr s sep n val ≡ some t)
        × ((k : ℕ)
            → attr sep t k ≡ (if suc k == n then val else if ltb k 40 then attr sep s k else []))
  unfolding rec_set_attr
  rec_set_attr_lem pos fits lacks =
      let att = take 40 (split sep s) in
      let count = max (length att) n in
      (
        join sep (slots count 0 (set_slot att n val)),
        rw (few_slots fits),
        λ k. attr-join-slots sep count k _ (omega arith) (set_slot-Lacks lacks) ∙ slot_or_blank k,
      )

-- attribute 2 of the result is `spec`, when there is an attribute 2 to replace
replaced_second :
    (a b spec : Bytes) (rest : List Bytes) (k : ℕ)
    → get_or (a ∷ spec ∷ rest) k [] ≡ (if k == 1 then spec else get_or (a ∷ b ∷ rest) k [])
replaced_second a b spec rest zero = ground arith
replaced_second a b spec rest (suc zero) = ground arith
replaced_second a b spec rest (suc (suc k)) = ground arith

set_second_lem :
    (sep : ℕ) (ps : List Bytes) (spec : Bytes) {t : Bytes}
    → All (Lacks sep) ps
    → Lacks sep spec
    → set_second sep ps spec ≡ some t
    → (k : ℕ) → attr sep t k ≡ (if k == 1 then spec else get_or ps k [])
set_second_lem sep [] spec h hs e k = cc
set_second_lem sep (a ∷ []) spec h hs e k = cc
set_second_lem sep (a ∷ b ∷ rest) spec (ha, (hb, hr)) hs e k =
    ap (λ x. attr sep x k) (sym (some_inj e))
    ∙ rw (split-join sep (a ∷ spec ∷ rest) (cc) (ha, (hs, hr))) (replaced_second a b spec rest k)

-- When rec_set_attr2 answers, attribute 2 of the result is `spec` and every other attribute, however
-- many there are, is as it was.
pub rec_set_attr2_lem :
    (s : Bytes) (sep : ℕ) (spec : Bytes) {t : Bytes}
    → Lacks sep spec
    → rec_set_attr2 s sep spec ≡ some t
    → (k : ℕ) → attr sep t k ≡ (if k == 1 then spec else attr sep s k)
unfolding rec_set_attr2
rec_set_attr2_lem s sep spec h e = set_second_lem sep (split sep s) spec (All-split sep s) h e
