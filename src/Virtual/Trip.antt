-- ===== src/Virtual/Trip.antt =====
-- An expression on its way to UniData's spelling and back (src/mvxgit.c, ispec_to_udt and
-- ispec_to_open).
use mv_git.Base.{
  ℕ, suc, ◌+◌, ◌<◌, ◌≤◌, true, false, List, [], ◌∷◌, ◌++◌, none, some, ◌>>=◌, ◌≡◌, refl, ap, ◌∙◌,
  arith, length, inl, inr, Bool-cases, length-append, Option-cases,
}
use mv_git.Bytes.{Bytes, clip, newline}
use mv_git.Record.{attr_of, rec_is_itype, is_empty}
use mv_git.Session.{leading}
use mv_git.Virtual.{
  trans_split, copy_arg, unquote, quoted, print_trans, or_x, name_or_number, is_num, spell,
  key_name, key_number, bare, spell_open, name_for_attr, find_item, next_link, ispec_expand,
  ispec_to_udt, ispec_to_open,
}
use mv_git.Virtual.Names.{
  IsName, All-IsPlain, All-unquoted, clip_name, copy_arg-IsName, copy_arg-quoted, length-quoted,
  unquote-IsName, unquote-quoted, not_trans,
}
use mv_git.Virtual.Split.{trans_split-print_trans}
use mv_git.Virtual.Whole.{Whole, All-Whole, quoted-Whole}

name_Whole : (n : ℕ) (s : Bytes) → IsName n s → Whole 0 s
name_Whole n s h = All-Whole s (All-IsPlain s h.0)

shorter : (m n : ℕ) (s : Bytes) → m ≤ n → IsName m s → IsName n s
shorter m n s l (h, p, k) = (h, p, omega arith)

copy_name : (n : ℕ) (s : Bytes) → n ≤ 255 → IsName n s → copy_arg s ≡ s
copy_name n s l h = copy_arg-IsName s (shorter n 255 s l h)

clip-IsName : (m n : ℕ) (s : Bytes) → m < n → IsName m s → clip n s ≡ s
clip-IsName m n s l (h, p, k) = clip_name n s (omega arith)

length-print_trans :
    (a b c d : Bytes)
    → length (print_trans a b c d) ≡ 10 + (length a + (length b + (length c + length d)))
length-print_trans a b c d = omega (
  arith,
  length-append a (b',' ∷ (b ++ b',' ∷ (c ++ b',' ∷ (d ++ b')' ∷ [])))),
  length-append b (b',' ∷ (c ++ b',' ∷ (d ++ b')' ∷ []))),
  length-append c (b',' ∷ (d ++ b')' ∷ [])),
  length-append d (b')' ∷ []),
)

is_empty-IsName : (n : ℕ) (s : Bytes) → IsName n s → is_empty s ≡ false
is_empty-IsName n [] (h, p, k) = absurd (omega arith)
is_empty-IsName n (c ∷ s) h = refl

or_x-IsName : (n : ℕ) (s : Bytes) → IsName n s → or_x s ≡ s
or_x-IsName n s h = rw (is_empty-IsName n s h) refl

split_names :
    (a b c d : Bytes)
    → IsName 253 a
    → IsName 253 b
    → IsName 253 c
    → IsName 12 d
    → trans_split (print_trans a b c d) ≡ a ∷ b ∷ c ∷ d ∷ []
split_names a b c d ha hb hc hd =
    trans_split-print_trans a b c d (name_Whole 253 a ha) (name_Whole 253 b hb)
      (name_Whole 253 c hc) (name_Whole 12 d hd)
    ∙ rw
        (
          copy_name 253 a (omega arith) ha,
          copy_name 253 b (omega arith) hb,
          copy_name 253 c (omega arith) hc,
          copy_name 12 d (omega arith) hd,
        )
        refl

name_or_number-Whole : (s : Bytes) → IsName 253 s → Whole 0 (name_or_number s)
name_or_number-Whole s h = elim (Bool-cases (is_num s)) [
  | inl e ↦ rw e (name_Whole 253 s h)
  | inr e ↦ rw e (quoted-Whole s (All-unquoted s h.0))
]

copy_name_or_number : (s : Bytes) → IsName 253 s → copy_arg (name_or_number s) ≡ name_or_number s
copy_name_or_number s h = elim (Bool-cases (is_num s)) [
  | inl e ↦ rw e (copy_name 253 s (omega arith) h)
  | inr e ↦ rw e (copy_arg-quoted s h.2)
]

length-name_or_number : (s : Bytes) → length (name_or_number s) ≤ 2 + length s
length-name_or_number s = elim (Bool-cases (is_num s)) [
  | inl e ↦ rw e (omega arith)
  | inr e ↦ rw e (omega (arith, length-quoted s))
]

bare-IsName : (m n : ℕ) (s : Bytes) → m < n → IsName m s → bare n s ≡ s
unfolding bare
bare-IsName m n s l h = rw (clip-IsName m n s l h) (unquote-IsName s h.0)

bare-quoted : (m n : ℕ) (s : Bytes) → m + 2 < n → IsName m s → bare n (quoted s) ≡ s
unfolding bare
bare-quoted m n s l (h, p, k) =
    let e : clip n (quoted s) ≡ quoted s =
      clip_name n (quoted s) (omega (arith, length-quoted s)) in
    ap unquote e ∙ unquote-quoted s p

bare-name_or_number : (s : Bytes) → IsName 253 s → bare 256 (name_or_number s) ≡ s
bare-name_or_number s h = elim (Bool-cases (is_num s)) [
  | inl e ↦ rw e (bare-IsName 253 256 s (omega arith) h)
  | inr e ↦ rw e (bare-quoted 253 256 s (omega arith) h)
]

-- UniData's spelling of an expression, cut.
split_native :
    (file key target ctl : Bytes)
    → IsName 253 file
    → IsName 253 key
    → IsName 253 target
    → IsName 12 ctl
    → trans_split (print_trans (quoted file) key (name_or_number target) (quoted ctl))
      ≡ quoted file ∷ key ∷ name_or_number target ∷ quoted ctl ∷ []
split_native file key target ctl hf hk ht hc =
    trans_split-print_trans (quoted file) key (name_or_number target) (quoted ctl)
      (quoted-Whole file (All-unquoted file hf.0)) (name_Whole 253 key hk)
      (name_or_number-Whole target ht) (quoted-Whole ctl (All-unquoted ctl hc.0))
    ∙ rw
        (
          copy_arg-quoted file hf.2,
          copy_name 253 key (omega arith) hk,
          copy_name_or_number target ht,
          copy_arg-quoted ctl (omega (arith, hc.2)),
        )
        refl

spell_names :
    (file key target ctl : Bytes)
    → IsName 253 file
    → IsName 253 key
    → IsName 253 target
    → IsName 12 ctl
    → spell file key target ctl ≡ print_trans (quoted file) key (name_or_number target) (quoted ctl)
unfolding spell
spell_names file key target ctl hf hk ht hc = rw (or_x-IsName 12 ctl hc) (
    clip_name 2048 (print_trans (quoted file) key (name_or_number target) (quoted ctl)) (
      omega (
        arith,
        length-print_trans (quoted file) key (name_or_number target) (quoted ctl),
        length-quoted file,
        length-name_or_number target,
        length-quoted ctl,
        hf.2,
        hk.2,
        ht.2,
        hc.2,
      )))

spell_open_names :
    (file num target ctl : Bytes)
    → IsName 253 file
    → IsName 31 num
    → IsName 253 target
    → IsName 12 ctl
    → spell_open file num target ctl ≡ print_trans file num target ctl
unfolding spell_open
spell_open_names file num target ctl hf hn ht hc =
    rw (or_x-IsName 12 ctl hc, clip-IsName 31 32 num (omega arith) hn)
      (clip_name 1024 (print_trans file num target ctl)
        (omega (arith, length-print_trans file num target ctl, hf.2, hn.2, ht.2, hc.2)))

module _ (items : Bytes → List (Bytes × Bytes)) where
  -- The target is an attribute number, or names no I item of its file: the chain ends there.
  abbrev pub EndsChain : Bytes → Bytes → Type 0
  EndsChain file target =
      (text : Bytes) → find_item target (items file) ≡ some text → rec_is_itype text newline ≡ false

  next_link-EndsChain :
      (file key target ctl : Bytes)
      → EndsChain file target
      → next_link items file key target ctl ≡ none
  unfolding next_link
  next_link-EndsChain file key target ctl h = elim (Bool-cases (is_num target)) [
    | inl e ↦ rw e refl
    | inr e ↦ elim (Option-cases (find_item target (items file))) [
      | inl f ↦ rw (e, f) refl
      | inr (text, f) ↦ rw (e, f, h text f) refl
    ]
  ]

  expand_names :
      (n : ℕ) (file key target ctl : Bytes)
      → IsName 253 target
      → EndsChain file target
      → ispec_expand items (suc n) file key target ctl ≡ spell file key target ctl
  unfolding ispec_expand
  expand_names n file key target ctl ht h =
      let e = bare-IsName 253 256 target (omega arith) ht in
      rw (e, next_link-EndsChain file key target ctl h, ispec_expand)
        (ap (λ t. spell file key t ctl) e)

  module _ (self file num name target ctl : Bytes) (hf : IsName 253 file) (hn : IsName 31 num)
      (hk : IsName 253 name) (ht : IsName 253 target) (hc : IsName 12 ctl) where
    to_udt_names :
        key_name (items self) num ≡ some name
        → EndsChain file target
        → ispec_to_udt items self (print_trans file num target ctl)
          ≡ some (print_trans (quoted file) name (name_or_number target) (quoted ctl))
    unfolding ispec_to_udt
    to_udt_names found h =
        rw
          (
            split_names file num target ctl hf (shorter 31 253 num (omega arith) hn) ht hc,
            bare-IsName 31 256 num (omega arith) hn,
            found,
            bare-IsName 253 256 file (omega arith) hf,
            bare-IsName 12 16 ctl (omega arith) hc,
            or_x-IsName 12 ctl hc,
          )
          (ap some (
            ap (λ k. ispec_expand items 8 file k target ctl)
              (clip-IsName 253 256 name (omega arith) hk)
            ∙ expand_names 7 file name target ctl ht h
            ∙ spell_names file name target ctl hf hk ht hc))

    to_open_names :
        key_number items self name ≡ some num
        → ispec_to_open items self
            (print_trans (quoted file) name (name_or_number target) (quoted ctl))
          ≡ some (print_trans file num target ctl)
    unfolding ispec_to_open
    to_open_names found =
        rw
          (
            split_native file name target ctl hf hk ht hc,
            not_trans name hk.0,
            bare-IsName 253 256 name (omega arith) hk,
            found,
            bare-quoted 253 256 file (omega arith) hf,
            bare-quoted 12 16 ctl (omega arith) hc,
            bare-name_or_number target ht,
          )
          (ap some (spell_open_names file num target ctl hf hn ht hc))

    key_number_item :
        (text : Bytes)
        → is_num num ≡ true
        → is_num name ≡ false
        → find_item name (items self) ≡ some text
        → attr_of text newline 2 64 ≡ num
        → key_number items self name ≡ some num
    unfolding key_number
    key_number_item text isn isk f loc =
        rw (isk, f) (rw (loc, isn) (ap some (clip-IsName 31 32 num (omega arith) hn)))

    -- An open expression whose key is a number and whose chain ends at its target, over names without
    -- blanks: in UniData's spelling the key is the name that the dictionary has for its attribute, the
    -- file is quoted and so is a target that is no number. If that name is no number and its item
    -- spells its location as the expression does, translating back gives the expression.
    pub ispec_to_open-ispec_to_udt :
        (text : Bytes)
        → is_num num ≡ true
        → is_num name ≡ false
        → name_for_attr (leading 0 num) (items self) ≡ some name
        → find_item name (items self) ≡ some text
        → attr_of text newline 2 64 ≡ num
        → EndsChain file target
        → (ispec_to_udt items self (print_trans file num target ctl)
            ≡ some (print_trans (quoted file) name (name_or_number target) (quoted ctl)))
          × ((ispec_to_udt items self (print_trans file num target ctl)
                >>= ispec_to_open items self)
              ≡ some (print_trans file num target ctl))
    unfolding key_name
    ispec_to_open-ispec_to_udt text isn isk found f loc h =
        let forth = to_udt_names (rw isn found) h in
        (forth, rw forth (to_open_names (key_number_item text isn isk f loc)))
