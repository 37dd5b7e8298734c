-- ===== src/Record/Attr.antt =====
-- The attributes of a record: what joining, trimming and setting do to each of them, and that a
-- record is known by its attributes.
use mv_git.Base.{
  ℕ, zero, suc, true, false, List, [], ◌∷◌, ◌≡◌, refl, sym, ◌∙◌, arith, ◌==◌, if◌then◌else◌, get_or,
  inl, inr, Bool-cases, ==_iff,
}
use mv_git.Bytes.{Bytes}
use mv_git.Bytes.Split.{split, put_first}
use mv_git.Record.{attr, keep, rtrim}

get_or-put_first :
    (c : ℕ) (ps : List Bytes) (k : ℕ)
    → get_or (put_first c ps) k [] ≡ (if k == 0 then c ∷ get_or ps 0 [] else get_or ps k [])
get_or-put_first c [] zero = refl
get_or-put_first c [] (suc k) = ground arith
get_or-put_first c (p ∷ ps) zero = refl
get_or-put_first c (p ∷ ps) (suc k) = ground arith

-- The attributes of `c ∷ s`, by those of `s`.
abbrev pub first_attr : ℕ → ℕ → Bytes → ℕ → Bytes
first_attr sep c s zero = if c == sep then [] else c ∷ attr sep s 0
first_attr sep c s (suc k) = if c == sep then attr sep s k else attr sep s (suc k)

module _ (sep : ℕ) where
  pub attr_cons : (c : ℕ) (s : Bytes) (k : ℕ) → attr sep (c ∷ s) k ≡ first_attr sep c s k
  unfolding split
  attr_cons c s zero = elim (Bool-cases (c == sep)) [
    | inl e ↦ rw e
    | inr e ↦ rw (e, get_or-put_first)
  ]
  attr_cons c s (suc k) = elim (Bool-cases (c == sep)) [
    | inl e ↦ rw e
    | inr e ↦ rw e (get_or-put_first c (split sep s) (suc k) ∙ ground arith)
  ]

  attr_nil : (k : ℕ) → attr sep [] k ≡ []
  unfolding split
  attr_nil zero = refl
  attr_nil (suc k) = refl

  first_attr_ext :
      (c : ℕ) (a b : Bytes)
      → ((k : ℕ) → attr sep a k ≡ attr sep b k)
      → (k : ℕ) → first_attr sep c a k ≡ first_attr sep c b k
  first_attr_ext c a b h zero = rw (h 0)
  first_attr_ext c a b h (suc k) = rw (h k, h (suc k))

  attr-keep : (c : ℕ) (r : Bytes) (k : ℕ) → attr sep (keep sep c r) k ≡ first_attr sep c r k
  attr-keep c [] zero = elim (Bool-cases (c == sep)) [
    | inl e ↦ rw e (attr_nil 0)
    | inr e ↦ rw e (attr_cons c [] 0 ∙ rw e)
  ]
  attr-keep c [] (suc k) = elim (Bool-cases (c == sep)) [
    | inl e ↦ rw e (attr_nil (suc k) ∙ sym (attr_nil k))
    | inr e ↦ rw e (attr_cons c [] (suc k) ∙ rw e)
  ]
  attr-keep c (d ∷ r) k = attr_cons c (d ∷ r) k

  -- Trimming separators leaves every attribute as it was.
  pub attr-rtrim : (s : Bytes) (k : ℕ) → attr sep (rtrim sep s) k ≡ attr sep s k
  unfolding rtrim
  attr-rtrim [] k = refl
  attr-rtrim (c ∷ s) k =
      attr-keep c (rtrim sep s) k
      ∙ first_attr_ext c (rtrim sep s) s (attr-rtrim s) k
      ∙ sym (attr_cons c s k)

  attr_after_sep :
      (c : ℕ) (s : Bytes) (k : ℕ) → (c == sep) ≡ true → attr sep (c ∷ s) (suc k) ≡ attr sep s k
  attr_after_sep c s k e = attr_cons c s (suc k) ∙ rw e

  attr_byte : (c : ℕ) (s : Bytes) → (c == sep) ≡ false → attr sep (c ∷ s) 0 ≡ c ∷ attr sep s 0
  attr_byte c s e = attr_cons c s 0 ∙ rw e

  attr_after_byte :
      (c : ℕ) (s : Bytes) (k : ℕ)
      → (c == sep) ≡ false
      → attr sep (c ∷ s) (suc k) ≡ attr sep s (suc k)
  attr_after_byte c s k e = attr_cons c s (suc k) ∙ rw e

  head_is_sep : (c : ℕ) (s : Bytes) → attr sep (c ∷ s) 0 ≡ [] → (c == sep) ≡ true
  head_is_sep c s h = elim (Bool-cases (c == sep)) [ inl e ↦ e | inr e ↦ cc (h, attr_byte c s e) ]

  rtrim_blank : (s : Bytes) → ((k : ℕ) → attr sep s k ≡ []) → rtrim sep s ≡ []
  unfolding rtrim
  rtrim_blank [] h = refl
  rtrim_blank (c ∷ s) h =
      let e = head_is_sep c s (h 0) in
      rw (rtrim_blank s (λ k. sym (attr_after_sep c s k e) ∙ h (suc k)), e)

  both_byte :
      (c d : ℕ) (s t : Bytes)
      → (c == sep) ≡ false
      → (d == sep) ≡ false
      → ((k : ℕ) → attr sep (c ∷ s) k ≡ attr sep (d ∷ t) k)
      → (k : ℕ) → attr sep s k ≡ attr sep t k
  both_byte c d s t e f h zero = cc (h 0, attr_byte c s e, attr_byte d t f)
  both_byte c d s t e f h (suc k) =
      sym (attr_after_byte c s k e) ∙ h (suc k) ∙ attr_after_byte d t k f

  both_head :
      (c d : ℕ) (s t : Bytes)
      → (c == sep) ≡ false
      → (d == sep) ≡ false
      → ((k : ℕ) → attr sep (c ∷ s) k ≡ attr sep (d ∷ t) k)
      → c ≡ d
  both_head c d s t e f h = cc (h 0, attr_byte c s e, attr_byte d t f)

  same_head_sep :
      (c d : ℕ) (s t : Bytes)
      → ((k : ℕ) → attr sep (c ∷ s) k ≡ attr sep (d ∷ t) k)
      → (c == sep) ≡ (d == sep)
  same_head_sep c d s t h = elim (Bool-cases (c == sep)) [
    | inl e ↦ e ∙ sym (head_is_sep d t (sym (h 0) ∙ attr_cons c s 0 ∙ rw e))
    | inr e ↦ elim (Bool-cases (d == sep)) [
      | inl f ↦ cc (head_is_sep c s (h 0 ∙ attr_cons d t 0 ∙ rw f))
      | inr f ↦ e ∙ sym f
    ]
  ]

  same_after_sep :
      (c d : ℕ) (s t : Bytes)
      → (c == sep) ≡ true
      → (d == sep) ≡ true
      → ((k : ℕ) → attr sep (c ∷ s) k ≡ attr sep (d ∷ t) k)
      → (k : ℕ) → attr sep s k ≡ attr sep t k
  same_after_sep c d s t e f h k = sym (attr_after_sep c s k e) ∙ h (suc k) ∙ attr_after_sep d t k f

  keep_same :
      (c d : ℕ) (r : Bytes) → (c == sep) ≡ true → (d == sep) ≡ true → keep sep c r ≡ keep sep d r
  keep_same c d r e f = let p = (==_iff c sep).0 e in let q = (==_iff d sep).0 f in cc

  rtrim-nil : rtrim sep [] ≡ []
  unfolding rtrim
  rtrim-nil = refl

  rtrim_sep :
      (c d : ℕ) (s t : Bytes)
      → (c == sep) ≡ true
      → (d == sep) ≡ true
      → rtrim sep s ≡ rtrim sep t
      → rtrim sep (c ∷ s) ≡ rtrim sep (d ∷ t)
  unfolding rtrim
  rtrim_sep c d s t e f h = rw h (keep_same c d (rtrim sep t) e f)

  rtrim_byte :
      (c d : ℕ) (s t : Bytes)
      → c ≡ d
      → rtrim sep s ≡ rtrim sep t
      → rtrim sep (c ∷ s) ≡ rtrim sep (d ∷ t)
  unfolding rtrim
  rtrim_byte c d s t e h = rw (e, h)

  -- Two records with the same attributes are one record, but for separators at the end.
  pub rtrim_ext :
      (s t : Bytes) → ((k : ℕ) → attr sep s k ≡ attr sep t k) → rtrim sep s ≡ rtrim sep t
  rtrim_ext [] t h = rtrim-nil ∙ sym (rtrim_blank t (λ k. sym (h k) ∙ attr_nil k))
  rtrim_ext (c ∷ s) [] h = rtrim_blank (c ∷ s) (λ k. h k ∙ attr_nil k) ∙ sym rtrim-nil
  rtrim_ext (c ∷ s) (d ∷ t) h = elim (Bool-cases (c == sep)) [
    | inl e ↦
        let f = sym (same_head_sep c d s t h) ∙ e in
        rtrim_sep c d s t e f (rtrim_ext s t (same_after_sep c d s t e f h))
    | inr e ↦
        let f = sym (same_head_sep c d s t h) ∙ e in
        rtrim_byte c d s t (both_head c d s t e f h) (rtrim_ext s t (both_byte c d s t e f h))
  ]
