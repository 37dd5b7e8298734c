-- ===== src/Furniture/Filter.antt =====
-- What the two filters answer (src/mvxgit.c, mv_git_filter_furniture and mv_git_filter_vocdrop).
use mv_git.Base.{
  ℕ, List, [], ◌∷◌, none, some, ◌≡◌, ◌≢◌, refl, sym, ap, ◌∙◌, arith, All, inl, inr, Bool-cases, ◌⊎◌,
  ◌||◌, if◌then◌else◌,
}
use mv_git.Build.{Build}
use mv_git.Bytes.{Bytes, am, vm}
use mv_git.Bytes.Split.{split, join, Lacks, All-split, split-join}
use mv_git.Furniture.{
  account_furniture, upto, carried, filter_furniture, vocdropped, filter_vocdrop,
}
use mv_git.Record.{is_empty}
use mv_git.Furniture.Scan.{chosen, Nonempty, filter_loop_lem}

-- What an entry that is kept comes to: itself, and it holds a byte.
carried_cases :
    (b : Build) (entry : Bytes)
    → (carried b entry ≡ none) ⊎ ((carried b entry ≡ some entry) × (entry ≢ []))
unfolding carried
carried_cases b [] = inl refl
carried_cases b (c ∷ s) = elim (Bool-cases (account_furniture b (upto vm (c ∷ s)))) [
  | inl e ↦ rw e (inl refl)
  | inr e ↦ rw e (inr (refl, cc))
]

module _ (b : Build) where
  kept-Nonempty : (es : List Bytes) → Nonempty (carried b) (chosen (carried b) es)
  kept-Nonempty [] = tt
  kept-Nonempty (e ∷ es) = elim (carried_cases b e) [
    | inl out ↦ rw out (kept-Nonempty es)
    | inr (kept, ne) ↦ rw kept (ne, kept-Nonempty es)
  ]

  kept-Lacks : (es : List Bytes) → All (Lacks am) es → All (Lacks am) (chosen (carried b) es)
  kept-Lacks [] h = tt
  kept-Lacks (e ∷ es) (h, hs) = elim (carried_cases b e) [
    | inl out ↦ rw out (kept-Lacks es hs)
    | inr (kept, ne) ↦ rw kept (h, kept-Lacks es hs)
  ]

  kept_again :
      (es : List Bytes) → chosen (carried b) (chosen (carried b) es) ≡ chosen (carried b) es
  kept_again [] = refl
  kept_again (e ∷ es) = elim (carried_cases b e) [
    | inl out ↦ rw out (kept_again es)
    | inr (kept, ne) ↦ rw (kept, kept) (ap (λ r. e ∷ r) (kept_again es))
  ]

  nothing_kept : chosen (carried b) (split am []) ≡ []
  unfolding split carried
  nothing_kept = refl

  reread :
      (ps : List Bytes)
      → All (Lacks am) ps
      → chosen (carried b) ps ≡ ps
      → chosen (carried b) (split am (join am ps)) ≡ ps
  reread [] h same = unfold join in nothing_kept
  reread (p ∷ ps) h same = rw (split-join am (p ∷ ps) (cc) h) same

-- The entries that are not empty and whose name, up to a value mark, is not furniture.
abbrev pub no_furniture : Build → List Bytes → List Bytes
no_furniture b [] = []
no_furniture b (e ∷ es) =
    if is_empty e || account_furniture b (upto vm e)
    then no_furniture b es
    else e ∷ no_furniture b es

chosen-no_furniture : (b : Build) (es : List Bytes) → chosen (carried b) es ≡ no_furniture b es
unfolding carried
chosen-no_furniture b [] = refl
chosen-no_furniture b ([] ∷ es) = chosen-no_furniture b es
chosen-no_furniture b ((c ∷ s) ∷ es) = elim (Bool-cases (account_furniture b (upto vm (c ∷ s)))) [
  | inl e ↦ rw e (chosen-no_furniture b es)
  | inr e ↦ rw e (ap (λ r. (c ∷ s) ∷ r) (chosen-no_furniture b es))
]

filter_furniture-chosen :
    (b : Build) (list : Bytes)
    → filter_furniture b list ≡ join am (chosen (carried b) (split am list))
unfolding filter_furniture
filter_furniture-chosen b list = filter_loop_lem (carried b) list (kept-Nonempty b (split am list))

-- The candidates that survive are the entries that are not empty and whose name is not furniture,
-- whole, in the order of the list, with one mark between two of them.
pub filter_furniture_lem :
    (b : Build) (list : Bytes) → filter_furniture b list ≡ join am (no_furniture b (split am list))
filter_furniture_lem b list =
    filter_furniture-chosen b list ∙ ap (join am) (chosen-no_furniture b (split am list))

-- The filter's answer read again as a list is the survivors, and filtering it again changes nothing.
pub filter_furniture-filter_furniture :
    (b : Build) (list : Bytes)
    → filter_furniture b (filter_furniture b list) ≡ filter_furniture b list
filter_furniture-filter_furniture b list =
    let kept = chosen (carried b) (split am list) in
    filter_furniture-chosen b (filter_furniture b list)
    ∙ ap (λ s. join am (chosen (carried b) (split am s))) (filter_furniture-chosen b list)
    ∙ ap (join am) (
        reread b kept (kept-Lacks b (split am list) (All-split am list))
          (kept_again b (split am list)))
    ∙ sym (filter_furniture-chosen b list)

abbrev pub HasId : Bytes → Type 0
HasId entry = upto vm entry ≢ []

vocdropped_cases :
    (table : List (Bytes × ℕ)) (entry : Bytes)
    → (vocdropped table entry ≡ none) ⊎ (vocdropped table entry ≡ some (upto vm entry))
unfolding vocdropped
vocdropped_cases table entry = ground arith

ids-Nonempty :
    (table : List (Bytes × ℕ)) (es : List Bytes)
    → All (λ e. (vocdropped table e ≢ none) → HasId e) es
    → Nonempty (vocdropped table) (chosen (vocdropped table) es)
ids-Nonempty table [] h = tt
ids-Nonempty table (e ∷ es) (h, hs) = elim (vocdropped_cases table e) [
  | inl out ↦ rw out (ids-Nonempty table es hs)
  | inr kept ↦ rw kept (h (rw kept (cc)), ids-Nonempty table es hs)
]

-- The answer is the ids of the entries that have a value mark and whose type has class 1, in order
-- and with one mark between two of them, provided that none of these ids is empty.
pub filter_vocdrop_lem :
    (table : List (Bytes × ℕ)) (list : Bytes)
    → All (λ e. (vocdropped table e ≢ none) → HasId e) (split am list)
    → filter_vocdrop table list ≡ join am (chosen (vocdropped table) (split am list))
unfolding filter_vocdrop
filter_vocdrop_lem table list h =
    filter_loop_lem (vocdropped table) list (ids-Nonempty table (split am list) h)
