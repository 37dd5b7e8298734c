-- ===== src/Staging/Same.antt =====
-- An I item's expression that was staged once (src/mvxgit.c, open_dict_ispec): against its own blob
-- it is staged as the same again.
use mv_git.Base.{
  ℕ, true, false, List, [], ◌∷◌, Option, none, some, ◌≡◌, refl, sym, ap, ◌∙◌, subst, inl, inr, ◌⊎◌,
  Bool-cases, Option-cases, some_inj, ◌>>=◌, get_or,
}
use mv_git.Bytes.{Bytes, am, newline, bytes_eq, c_str, clip}
use mv_git.Bytes.Split.{Lacks, split, join, join-split}
use mv_git.Record.{attr, attr_of, rec_is_itype, rec_set_attr2, set_second, blobform, or_else, first}
use mv_git.Record.Blob.{blobform_lem}
use mv_git.Record.Slots.{rec_set_attr2_lem}
use mv_git.Virtual.{kept_spec, canonical, ispec_to_udt, ispec_to_open, open_dict_ispec}

set_same :
    (sep : ℕ) (ps : List Bytes)
    → or_else (set_second sep ps (get_or ps 1 [])) (join sep ps) ≡ join sep ps
set_same sep [] = refl
set_same sep (a ∷ []) = refl
set_same sep (a ∷ b ∷ rest) = refl

-- Setting attribute 2 to what it is changes nothing.
rec_set_attr2_same : (s : Bytes) → or_else (rec_set_attr2 s am (attr am s 1)) s ≡ s
unfolding rec_set_attr2
rec_set_attr2_same s =
    subst (λ x. or_else (set_second am (split am s) (attr am s 1)) x ≡ x) (join-split am s)
      (set_same am (split am s))

-- An expression that fits: no mark, no NUL, and at most 511 bytes.
abbrev pub FitsSpec : Bytes → Type 0
FitsSpec s = Lacks am s × (c_str (clip 512 s) ≡ s)

module _ (items : Bytes → List (Bytes × Bytes)) (self spec : Bytes) where
  kept_value :
      (was : Bytes)
      → (kept_spec items self spec was ≡ none) ⊎ (kept_spec items self spec was ≡ some was)
  kept_value was = elim (Option-cases (ispec_to_udt items self was)) [
    | inl e ↦ rw e (inl refl)
    | inr (fwd, e) ↦ elim (Bool-cases (bytes_eq fwd spec)) [
      | inl f ↦ rw (e, f) (inr refl)
      | inr f ↦ rw (e, f) (inl refl)
    ]
  ]

  from_copy :
      (k o : Option Bytes) (was canon : Bytes)
      → (k ≡ none) ⊎ (k ≡ some was)
      → first k o ≡ some canon
      → (o ≡ some canon) ⊎ ((k ≡ some was) × (was ≡ canon))
  from_copy none o was canon h e = inl e
  from_copy (some w) o was canon (inl h) e = absurd (cc)
  from_copy (some w) o was canon (inr h) e = inr (h, some_inj (sym h ∙ e))

  chosen :
      (c : Option Bytes) (canon : Bytes)
      → canonical items self spec c ≡ some canon
      → (ispec_to_open items self spec ≡ some canon)
        ⊎ (kept_spec items self spec canon ≡ some canon)
  chosen none canon h = inl h
  chosen (some blob) canon h =
      elim (from_copy _ _ (attr_of blob newline 2 512) canon
        (kept_value (attr_of blob newline 2 512)) h) [
          | inl o ↦ inl o
          | inr (k, e) ↦ inr (subst (λ w. kept_spec items self spec w ≡ some w) e k)
        ]

  first_again :
      (k o : Option Bytes) (canon : Bytes)
      → (k ≡ none) ⊎ (k ≡ some canon)
      → (o ≡ some canon) ⊎ (k ≡ some canon)
      → first k o ≡ some canon
  first_again k o canon (inr h) e = rw h refl
  first_again k o canon (inl h) (inl e) = rw (h, e) refl
  first_again k o canon (inl h) (inr e) = rw e refl

  -- What is chosen once is chosen again when it is git's copy.
  kept_again :
      (c : Option Bytes) (canon blob : Bytes)
      → canonical items self spec c ≡ some canon
      → attr_of blob newline 2 512 ≡ canon
      → canonical items self spec (some blob) ≡ some canon
  kept_again c canon blob h e = rw e (
      first_again (kept_spec items self spec canon) (ispec_to_open items self spec) canon
        (kept_value canon) (chosen c canon h))

  none_open :
      (c : Option Bytes) → canonical items self spec c ≡ none → ispec_to_open items self spec ≡ none
  none_open none h = h
  none_open (some blob) h =
      second_none (kept_spec items self spec (attr_of blob newline 2 512))
        (ispec_to_open items self spec) h
    where
      second_none : (k o : Option Bytes) → first k o ≡ none → o ≡ none
      second_none none o h = h
      second_none (some w) o h = cc

  -- When nothing is chosen, the expression itself is the only other choice against its own blob.
  none_again :
      (c : Option Bytes) (blob : Bytes)
      → canonical items self spec c ≡ none
      → attr_of blob newline 2 512 ≡ spec
      → (canonical items self spec (some blob) ≡ none)
        ⊎ (canonical items self spec (some blob) ≡ some spec)
  none_again c blob h e =
      rw (e, none_open c h)
        (elim (kept_value spec) [ inl k ↦ rw k (inl refl) | inr k ↦ rw k (inr refl) ])

-- A record's form against one copy of git's: as it is, or with what is chosen for its expression.
module _ (items : Bytes → List (Bytes × Bytes)) (self : Bytes) where
  abbrev pub form : Bytes → Option Bytes → Bytes
  form r c = or_else (open_dict_ispec items self r c) r

  abbrev chosen_for : Bytes → Option Bytes → Option Bytes
  chosen_for r c = canonical items self (attr_of r am 2 512) c

  abbrev set_chosen : Bytes → Option Bytes → Bytes
  set_chosen r none = r
  set_chosen r (some canon) = or_else (rec_set_attr2 r am canon) r

  form_chosen :
      (r : Bytes) (c : Option Bytes)
      → rec_is_itype r am ≡ true
      → form r c ≡ set_chosen r (chosen_for r c)
  unfolding open_dict_ispec
  form_chosen r c h = rw h (on_choice (chosen_for r c))
    where
      on_choice :
          (o : Option Bytes) → or_else (o >>= λ canon. rec_set_attr2 r am canon) r ≡ set_chosen r o
      on_choice none = refl
      on_choice (some canon) = refl

  form_plain : (r : Bytes) (c : Option Bytes) → rec_is_itype r am ≡ false → form r c ≡ r
  unfolding open_dict_ispec
  form_plain r c h = rw h refl

  blob_lem : (r : Bytes) → Lacks newline r → attr_of (blobform r) newline 2 512 ≡ attr_of r am 2 512
  unfolding attr_of
  blob_lem r h = rw ((blobform_lem r h).1 1) refl

  set_nothing :
      (sep : ℕ) (ps : List Bytes) (x y : Bytes)
      → set_second sep ps x ≡ none
      → set_second sep ps y ≡ none
  set_nothing sep [] x y h = refl
  set_nothing sep (a ∷ []) x y h = refl
  set_nothing sep (a ∷ b ∷ rest) x y h = cc

  unset : (r x y : Bytes) → rec_set_attr2 r am x ≡ none → rec_set_attr2 r am y ≡ none
  unfolding rec_set_attr2
  unset r x y h = set_nothing am (split am r) x y h

  unset_form : (r x : Bytes) (o : Option Bytes) → rec_set_attr2 r am x ≡ none → set_chosen r o ≡ r
  unset_form r x none h = refl
  unset_form r x (some y) h = rw (unset r x y h) refl

  new_spec :
      (r canon t : Bytes)
      → rec_set_attr2 r am canon ≡ some t
      → FitsSpec canon
      → attr_of t am 2 512 ≡ canon
  unfolding attr_of
  new_spec r canon t e (l, f) = rw (rec_set_attr2_lem r am canon l e 1) f

  spec_or_not :
      (r : Bytes) (o : Option Bytes)
      → attr_of r am 2 512 ≡ attr am r 1
      → (o ≡ none) ⊎ (o ≡ some (attr_of r am 2 512))
      → set_chosen r o ≡ r
  spec_or_not r o f (inl h) = rw h refl
  spec_or_not r o f (inr h) = rw (h, f) (rec_set_attr2_same r)

  -- The form against the blob of the form is the form, by what was chosen for the expression.
  again :
      (r : Bytes) (c o : Option Bytes)
      → chosen_for r c ≡ o
      → attr_of r am 2 512 ≡ attr am r 1
      → ((canon : Bytes) → o ≡ some canon → FitsSpec canon)
      → Lacks newline (set_chosen r o)
      → set_chosen r (chosen_for r (some (blobform (set_chosen r o)))) ≡ set_chosen r o
  again r c none e f fits l =
      spec_or_not r _ f (none_again items self (attr_of r am 2 512) c (blobform r) e (blob_lem r l))
  again r c (some canon) e f fits l = elim (Option-cases (rec_set_attr2 r am canon)) [
    | inl n ↦ rw n (unset_form r canon (chosen_for r (some (blobform r))) n)
    | inr (t, s) ↦
        let l' : Lacks newline t = subst (Lacks newline) (rw s refl) l in
        let spec : attr_of (blobform t) newline 2 512 ≡ canon =
          blob_lem t l' ∙ new_spec r canon t s (fits canon refl) in
        let same : chosen_for r (some (blobform t)) ≡ some canon =
          kept_again items self (attr_of r am 2 512) c canon (blobform t) e spec in
        rw s (ap (set_chosen r) same ∙ rw s refl)
  ]

  pub form-form :
      (r : Bytes) (c : Option Bytes)
      → attr_of r am 2 512 ≡ attr am r 1
      → ((canon : Bytes)
          → canonical items self (attr_of r am 2 512) c ≡ some canon
          → FitsSpec canon)
      → Lacks newline (form r c)
      → form r (some (blobform (form r c))) ≡ form r c
  form-form r c f fits l = elim (Bool-cases (rec_is_itype r am)) [
    | inl h ↦
        let x = form_chosen r c h in
        ap (λ y. form r (some (blobform y))) x
        ∙ form_chosen r _ h
        ∙ again r c (chosen_for r c) refl f fits (subst (Lacks newline) x l)
        ∙ sym x
    | inr h ↦ form_plain r _ h ∙ sym (form_plain r c h)
  ]
