-- ===== src/Bytes/Split.antt =====
-- Cutting a byte string at every separator byte, as the loops over memchr and over marks do, and
-- putting the pieces together again.
use mv_git.Base.{
  ℕ, List, [], ◌∷◌, ◌++◌, ◌≡◌, ◌≢◌, refl, ◌∙◌, arith, ◌==◌, if◌then◌else◌, All, inl, inr,
  Bool-cases, ==_refl, append-nil,
}

abbrev Bytes : Type 0
Bytes = List ℕ

-- The pieces between the separators; there is always at least one.
abbrev pub put_first : ℕ → List Bytes → List Bytes
put_first c [] = (c ∷ []) ∷ []
put_first c (p ∷ ps) = (c ∷ p) ∷ ps

unfoldable pub split : ℕ → Bytes → List Bytes
split sep [] = [] ∷ []
split sep (c ∷ s) = let rest = split sep s in if c == sep then [] ∷ rest else put_first c rest

-- The pieces after the first, each behind a separator.
unfoldable pub separated : ℕ → List Bytes → Bytes
separated sep [] = []
separated sep (p ∷ ps) = sep ∷ (p ++ separated sep ps)

unfoldable pub join : ℕ → List Bytes → Bytes
unfolding separated
join sep [] = []
join sep (p ∷ ps) = p ++ separated sep ps

abbrev pub Lacks : ℕ → Bytes → Type 0
Lacks b = All (λ c. c ≢ b)

module _ (sep : ℕ) where
  put_first-ne-nil : (c : ℕ) (ps : List Bytes) → put_first c ps ≢ []
  put_first-ne-nil c [] = cc
  put_first-ne-nil c (p ∷ ps) = cc

  pub split-ne-nil : (s : Bytes) → split sep s ≢ []
  unfolding split
  split-ne-nil [] = cc
  split-ne-nil (c ∷ s) = elim (Bool-cases (c == sep)) [
    | inl e ↦ rw e (cc)
    | inr e ↦ rw e (put_first-ne-nil c (split sep s))
  ]

  pub split_sep : (s : Bytes) → split sep (sep ∷ s) ≡ [] ∷ split sep s
  unfolding split
  split_sep s = rw (==_refl sep)

  pub split_byte : (c : ℕ) (s : Bytes) → c ≢ sep → split sep (c ∷ s) ≡ put_first c (split sep s)
  unfolding split
  split_byte c s h = ground arith

  -- A piece with no separator is the first piece of what follows it.
  pub split-append : (p s : Bytes) → Lacks sep p → split sep (p ++ sep ∷ s) ≡ p ∷ split sep s
  split-append [] s h = split_sep s
  split-append (c ∷ p) s (hc, hp) = split_byte c (p ++ sep ∷ s) hc ∙ rw (split-append p s hp)

  pub split-Lacks : (p : Bytes) → Lacks sep p → split sep p ≡ p ∷ []
  split-Lacks [] h = unfold split in refl
  split-Lacks (c ∷ p) (hc, hp) = split_byte c p hc ∙ rw (split-Lacks p hp)

  split-separated :
      (p : Bytes) (ps : List Bytes)
      → Lacks sep p
      → All (Lacks sep) ps
      → split sep (p ++ separated sep ps) ≡ p ∷ ps
  unfolding separated
  split-separated p [] hp _ = rw append-nil (split-Lacks p hp)
  split-separated p (q ∷ qs) hp (hq, hqs) = split-append p _ hp ∙ rw (split-separated q qs hq hqs)

  -- Cutting what was joined gives the pieces back, if none holds the separator.
  pub split-join : (ps : List Bytes) → ps ≢ [] → All (Lacks sep) ps → split sep (join sep ps) ≡ ps
  unfolding join
  split-join [] ne _ = absurd (ne refl)
  split-join (p ∷ ps) ne (hp, hps) = split-separated p ps hp hps

  join-put_first : (c : ℕ) (ps : List Bytes) → ps ≢ [] → join sep (put_first c ps) ≡ c ∷ join sep ps
  unfolding join
  join-put_first c [] ne = absurd (ne refl)
  join-put_first c (p ∷ ps) ne = refl

  join-nil : (ps : List Bytes) → ps ≢ [] → join sep ([] ∷ ps) ≡ sep ∷ join sep ps
  unfolding join separated
  join-nil [] ne = absurd (ne refl)
  join-nil (p ∷ ps) ne = refl

  join-split_cons :
      (c : ℕ) (s : Bytes) → join sep (split sep s) ≡ s → join sep (split sep (c ∷ s)) ≡ c ∷ s
  unfolding split
  join-split_cons c s ih = elim (Bool-cases (c == sep)) [
    | inl e ↦ rw e (ground (arith, join-nil (split sep s) (split-ne-nil s)))
    | inr e ↦ rw (e, join-put_first c _ (split-ne-nil s), ih)
  ]

  join_one : (p : Bytes) → join sep (p ∷ []) ≡ p
  unfolding join separated
  join_one p = append-nil p

  -- Joining the pieces gives the text back, for every text.
  pub join-split : (s : Bytes) → join sep (split sep s) ≡ s
  join-split [] = rw (split-Lacks [] tt) (join_one [])
  join-split (c ∷ s) = join-split_cons c s (join-split s)

  put_first-Lacks :
      (c : ℕ) (ps : List Bytes) → c ≢ sep → All (Lacks sep) ps → All (Lacks sep) (put_first c ps)
  put_first-Lacks c [] h hs = ((h, tt), tt)
  put_first-Lacks c (p ∷ ps) h (hp, hps) = ((h, hp), hps)

  -- No piece holds the separator.
  pub All-split : (s : Bytes) → All (Lacks sep) (split sep s)
  unfolding split
  All-split [] = (tt, tt)
  All-split (c ∷ s) = elim (Bool-cases (c == sep)) [
    | inl e ↦ rw e (tt, All-split s)
    | inr e ↦ rw e (put_first-Lacks c _ (ground arith) (All-split s))
  ]
