-- ===== src/Unidata/Sets.antt =====
-- Two lists of index names (src/udt-git.c, index_set_differs): they are compared as sets, and an
-- account that has what HEAD declares needs no script.
use mv_git.Base.{
  Bool, true, false, ◌||◌, List, [], ◌∷◌, ◌≡◌, ◌≢◌, refl, sym, ◌∙◌, subst, arith, inl, inr, ◌⊎◌,
  ◌↔◌, Bool-cases,
}
use mv_git.Bytes.{Bytes, am, bytes_eq, bytes_eq_iff, bytes_eq_refl}
use mv_git.Bytes.Split.{split}
use mv_git.Furniture.{named_in}
use mv_git.Record.{is_empty}
use mv_git.Unidata.{missing, index_set_differs}

-- a name that is not empty is in the second list when it is in the first
abbrev pub Within : List Bytes → List Bytes → Type 0
Within xs ys = (name : Bytes) → name ≢ [] → named_in xs name ≡ true → named_in ys name ≡ true

Within-tail : (f : Bytes) (xs ys : List Bytes) → Within (f ∷ xs) ys → Within xs ys
unfolding named_in
Within-tail f xs ys h name ne e = h name ne (ground arith)

named_head : (f : Bytes) (xs : List Bytes) → named_in (f ∷ xs) f ≡ true
unfolding named_in
named_head f xs = rw (bytes_eq_refl f) refl

Within-cons :
    (f : Bytes) (xs ys : List Bytes)
    → (f ≡ []) ⊎ (named_in ys f ≡ true)
    → Within xs ys
    → Within (f ∷ xs) ys
unfolding named_in
Within-cons f xs ys hf h name ne e = elim (Bool-cases (bytes_eq name f)) [
  | inl s ↦
      let same : name ≡ f = (bytes_eq_iff name f).0 s in
      elim hf [
        | inl z ↦ absurd (ne (same ∙ z))
        | inr k ↦ subst (λ n. named_in ys n ≡ true) (sym same) k
      ]
  | inr s ↦ h name ne (rw s at e)
]

not_empty : (f : Bytes) → is_empty f ≡ false → f ≢ []
not_empty [] h = cc
not_empty (c ∷ f) h = cc

empty_name : (f : Bytes) → is_empty f ≡ true → f ≡ []
empty_name [] h = refl
empty_name (c ∷ f) h = cc

missing_iff : (ys xs : List Bytes) → (missing ys xs ≡ false) ↔ Within xs ys
unfolding missing
missing_iff ys [] = ((λ h name ne e. no_name name e), (λ h. refl))
  where
    no_name : (name : Bytes) → named_in [] name ≡ true → named_in ys name ≡ true
    no_name name e = unfold named_in in cc
missing_iff ys (f ∷ xs) = elim (Bool-cases (is_empty f)) [
  | inl z ↦ rw z (
    (λ h. Within-cons f xs ys (inl (empty_name f z)) ((missing_iff ys xs).0 h)),
    (λ h. (missing_iff ys xs).1 (Within-tail f xs ys h)),
  )
  | inr z ↦ elim (Bool-cases (named_in ys f)) [
    | inl k ↦
        rw (z, k)
          (
            (λ h. Within-cons f xs ys (inr k) ((missing_iff ys xs).0 h)),
            (λ h. (missing_iff ys xs).1 (Within-tail f xs ys h)),
          )
    | inr k ↦ rw (z, k) ((λ h. cc), (λ h. absurd (apart (h f (not_empty f z) (named_head f xs)) k)))
  ]
]
  where
    apart : {b : Bool} → b ≡ true → b ≡ false → ⊥
    apart e f = cc

or_false : (a b : Bool) → ((a || b) ≡ false) ↔ ((a ≡ false) × (b ≡ false))
or_false true b = ground arith
or_false false b = ground arith

-- The two lists do not differ exactly when every name that is not empty is on both or on neither,
-- whatever their order is and however often a name stands there.
pub index_set_differs_lem :
    (a b : Bytes)
    → (index_set_differs a b ≡ false)
      ↔ (Within (split am a) (split am b) × Within (split am b) (split am a))
unfolding index_set_differs
index_set_differs_lem a b =
    let x = missing_iff (split am b) (split am a) in
    let y = missing_iff (split am a) (split am b) in
    let o = or_false (missing (split am b) (split am a)) (missing (split am a) (split am b)) in
    ((λ h. (x.0 (o.0 h).0, y.0 (o.0 h).1)), (λ h. o.1 (x.1 h.0, y.1 h.1)))
