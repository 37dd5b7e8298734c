-- ===== src/Record/Depth.antt =====
-- The step that derives the single/multi flag of an associated dictionary item.
use mv_git.Base.{
  ℕ, suc, ◌<◌, ◌≤◌, true, false, [], none, some, ◌≡◌, ◌∙◌, arith, ltb, ◌==◌, if◌then◌else◌,
  Bool-cases, inl, inr,
}
use mv_git.Bytes.{Bytes, codes, am}
use mv_git.Record.{attr, attr_of, or_else, needs_depth, derive_depth, rec_set_attr}
use mv_git.Record.Slots.{rec_set_attr_lem}

pub attr_of_same :
    (s t : Bytes) (i j cap : ℕ)
    → attr am s i ≡ attr am t j
    → attr_of s am (suc i) cap ≡ attr_of t am (suc j) cap
unfolding attr_of
attr_of_same s t i j cap h = rw h

-- Whether the flag is missing depends on the two attributes alone, wherever they stand.
pub needs_depth_same :
    (s t : Bytes) (i j i' j' : ℕ)
    → attr am s i ≡ attr am t i'
    → attr am s j ≡ attr am t j'
    → needs_depth s (suc i) (suc j) ≡ needs_depth t (suc i') (suc j')
needs_depth_same s t i j i' j' h k =
    unfold needs_depth in rw (attr_of_same s t i i' 128 h, attr_of_same s t j j' 8 k)

-- An item that has the flag is left alone.
pub flagged : (s : Bytes) (asc k : ℕ) → attr am s k ≡ codes "M" → needs_depth s asc (suc k) ≡ false
unfolding needs_depth
flagged s asc k h = rw h (ground arith)

pub derive_depth-none :
    (s : Bytes) (asc sm : ℕ) → needs_depth s asc sm ≡ false → derive_depth s asc sm ≡ none
derive_depth-none s asc sm h = unfold derive_depth in rw h

abbrev pub depth_result : Bytes → ℕ → ℕ → ℕ → Bytes
depth_result s asc sm k =
    if needs_depth s asc sm
    then (if suc k == sm then codes "M" else if ltb k 40 then attr am s k else [])
    else attr am s k

derive_depth_some :
    (s : Bytes) (asc sm : ℕ)
    → needs_depth s asc sm ≡ true
    → derive_depth s asc sm ≡ rec_set_attr s am sm (codes "M")
unfolding derive_depth
derive_depth_some s asc sm h = rw h

derived_set :
    (s : Bytes) (asc sm : ℕ)
    → 0 < sm
    → sm ≤ 40
    → needs_depth s asc sm ≡ true
    → (t : Bytes) × (derive_depth s asc sm ≡ some t)
      × ((k : ℕ) → attr am t k ≡ depth_result s asc sm k)
derived_set s asc sm pos fits h =
    let (t, set, at) = rec_set_attr_lem am s sm (codes "M") pos fits (omega arith, tt) in
    (t, derive_depth_some s asc sm h ∙ set, rw h at)

-- The attributes of the record after the step.
pub attr-derive_depth :
    (s : Bytes) (asc sm : ℕ)
    → 0 < sm
    → sm ≤ 40
    → (k : ℕ) → attr am (or_else (derive_depth s asc sm) s) k ≡ depth_result s asc sm k
attr-derive_depth s asc sm pos fits k = elim (Bool-cases (needs_depth s asc sm)) [
  | inl e ↦ let (t, set, at) = derived_set s asc sm pos fits e in rw set (at k)
  | inr e ↦ rw (derive_depth-none s asc sm e, e)
]

-- After the step there is nothing left to derive.
pub settled :
    (s : Bytes) (asc sm : ℕ)
    → suc sm ≤ 40
    → needs_depth (or_else (derive_depth s asc (suc sm)) s) asc (suc sm) ≡ false
settled s asc sm fits = elim (Bool-cases (needs_depth s asc (suc sm))) [
  | inl e ↦
      flagged _ asc sm
        (attr-derive_depth s asc (suc sm) (omega arith) fits sm ∙ rw e (ground arith))
  | inr e ↦ rw (derive_depth-none s asc (suc sm) e) e
]
