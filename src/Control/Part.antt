-- ===== src/Control/Part.antt =====
-- The half of a file that a control is for (src/mvxgit.c, control_halves): the field is found behind
-- any control, and what is no field of its own is not taken for one.
use mv_git.Base.{
  ℕ, ◌<◌, ◌≤◌, Bool, true, false, ◌||◌, [], ◌∷◌, ◌++◌, ◌≡◌, ◌≢◌, refl, ap, ◌∙◌, arith, ◌==◌, ◌⊎◌,
  All, inl, inr,
}
use mv_git.Bytes.{Bytes, codes, vm, case_starts, to_lower}
use mv_git.Bytes.Split.{Lacks}
use mv_git.Control.{is_gap, halves_loop, halves_value, control_halves, both_halves}

-- `c` is none of the pattern's letters
abbrev Apart : ℕ → Bytes → Type 0
Apart c = All (λ k. to_lower c ≢ to_lower k)

-- A pattern that ends in `=` begins nowhere in a text without one, where a byte that is none of
-- its letters follows.
no_start :
    (pat p : Bytes) (c : ℕ) (rest : Bytes)
    → Apart c (pat ++ b'=' ∷ [])
    → Lacks b'=' p
    → case_starts (pat ++ b'=' ∷ []) (p ++ c ∷ rest) ≡ false
unfolding case_starts to_lower
no_start [] [] c rest (h, _) lack = ground arith
no_start [] (d ∷ p) c rest h (ne, lack) = ground arith
no_start (k ∷ pat) [] c rest (h, _) lack = ground arith
no_start (k ∷ pat) (d ∷ p) c rest (_, h) (ne, lack) =
    rw (no_start pat p c rest h lack) (ground arith)

no_start_end : (pat p : Bytes) → Lacks b'=' p → case_starts (pat ++ b'=' ∷ []) p ≡ false
unfolding case_starts to_lower
no_start_end [] [] lack = refl
no_start_end (k ∷ pat) [] lack = refl
no_start_end [] (d ∷ p) (ne, lack) = ground arith
no_start_end (k ∷ pat) (d ∷ p) (ne, lack) = rw (no_start_end pat p lack) (ground arith)

-- the separators of the two forms of a control
abbrev pub IsMark : ℕ → Type 0
IsMark c = (c ≡ b' ') ⊎ (c ≡ vm)

far_letters : (c k : ℕ) → (c < 61) ⊎ (122 < c) → 61 ≤ k → k ≤ 122 → to_lower c ≢ to_lower k
unfolding to_lower
far_letters c k h low high = ground (arith, h)

far-Apart :
    (c : ℕ) (pat : Bytes) → (c < 61) ⊎ (122 < c) → All (λ k. (61 ≤ k) × (k ≤ 122)) pat → Apart c pat
far-Apart c [] h low = tt
far-Apart c (k ∷ pat) h ((low, high), more) = (far_letters c k h low high, far-Apart c pat h more)

letters : All (λ k. (61 ≤ k) × (k ≤ 122)) (codes "halves" ++ b'=' ∷ [])
letters = (
  (omega arith, omega arith),
  (
    (omega arith, omega arith),
    (
      (omega arith, omega arith),
      (
        (omega arith, omega arith),
        (
          (omega arith, omega arith),
          ((omega arith, omega arith), ((omega arith, omega arith), tt)),
        ),
      ),
    ),
  ),
)

mark_far : (c : ℕ) → IsMark c → (c < 61) ⊎ (122 < c)
mark_far c (inl e) = inl (omega (arith, e))
mark_far c (inr e) = inr (omega (arith, e))

mark-Apart : (c : ℕ) → IsMark c → Apart c (codes "halves" ++ b'=' ∷ [])
mark-Apart c h = far-Apart c (codes "halves" ++ b'=' ∷ []) (mark_far c h) letters

mark_opens : (c : ℕ) → IsMark c → (is_gap c || c == vm) ≡ true
mark_opens c h = ground (arith, h)

no_field :
    (whole : Bool) (d : ℕ) (s : Bytes)
    → case_starts (codes "halves=") (d ∷ s) ≡ false
    → halves_loop whole (d ∷ s) ≡ halves_loop (is_gap d || d == vm) s
unfolding halves_loop
no_field whole d s h = rw h (ground arith)

field_here : (v : Bytes) → halves_loop true (codes "halves=" ++ v) ≡ halves_value v
unfolding halves_loop case_starts to_lower
field_here v = refl

found_behind :
    (whole : Bool) (p : Bytes) (c : ℕ) (v : Bytes)
    → Lacks b'=' p
    → IsMark c
    → halves_loop whole (p ++ c ∷ (codes "halves=" ++ v)) ≡ halves_value v
found_behind whole [] c v lack mark =
    no_field whole c (codes "halves=" ++ v)
      (no_start (codes "halves") [] c _ (mark-Apart c mark) tt)
    ∙ ap (λ w. halves_loop w (codes "halves=" ++ v)) (mark_opens c mark)
    ∙ field_here v
found_behind whole (d ∷ p) c v (ne, lack) mark =
    no_field whole d (p ++ c ∷ (codes "halves=" ++ v))
      (no_start (codes "halves") (d ∷ p) c _ (mark-Apart c mark) (ne, lack))
    ∙ found_behind (is_gap d || d == vm) p c v lack mark

nothing_found : (whole : Bool) (p : Bytes) → Lacks b'=' p → halves_loop whole p ≡ both_halves
nothing_found whole [] lack = unfold halves_loop in refl
nothing_found whole (d ∷ p) (ne, lack) =
    no_field whole d p (no_start_end (codes "halves") (d ∷ p) (ne, lack))
    ∙ nothing_found (is_gap d || d == vm) p lack

-- Behind any class and size, a field `halves=` is read whether a blank or a value mark is in front
-- of it; a control without an `=` is for both halves.
pub control_halves_lem :
    (p : Bytes)
    → Lacks b'=' p
    → (control_halves p ≡ both_halves)
      × ((c : ℕ) (v : Bytes)
          → IsMark c
          → control_halves (p ++ c ∷ (codes "halves=" ++ v)) ≡ halves_value v)
unfolding control_halves
control_halves_lem p lack =
    (nothing_found true p lack, λ c v mark. found_behind true p c v lack mark)
