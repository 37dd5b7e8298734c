-- ===== src/Furniture/Scan.antt =====
-- The loop that mv_git_filter_furniture and mv_git_filter_vocdrop share: its answer is the answers
-- of the entries, joined again.
use mv_git.Base.{
  ℕ, List, [], ◌∷◌, ◌++◌, Option, none, some, ◌≡◌, ◌≢◌, refl, sym, ap, ◌∙◌, ◌==◌, All, inl, inr,
  Bool-cases, append_assoc, append-nil,
}
use mv_git.Bytes.{Bytes, am}
use mv_git.Bytes.Split.{split, put_first, separated, join, split-ne-nil}
use mv_git.Furniture.{put_entry, filter_loop}

-- The answers of the entries that have one, in order.
abbrev pub also : Option Bytes → List Bytes → List Bytes
also none rs = rs
also (some r) rs = r ∷ rs

abbrev pub chosen : (Bytes → Option Bytes) → List Bytes → List Bytes
chosen pick [] = []
chosen pick (e ∷ es) = also (pick e) (chosen pick es)

abbrev pub prepend : Bytes → List Bytes → List Bytes
prepend entry [] = entry ∷ []
prepend entry (p ∷ ps) = (entry ++ p) ∷ ps

abbrev put_all : (Bytes → Option Bytes) → Bytes → List Bytes → Bytes
put_all pick out [] = out
put_all pick out (e ∷ es) = put_all pick (put_entry out (pick e)) es

prepend-put_first :
    (entry : Bytes) (c : ℕ) (ps : List Bytes)
    → ps ≢ []
    → prepend entry (put_first c ps) ≡ prepend (entry ++ c ∷ []) ps
prepend-put_first entry c [] h = absurd (h refl)
prepend-put_first entry c (p ∷ ps) h = ap (λ e. e ∷ ps) (sym (append_assoc entry (c ∷ []) p))

prepend-nil : (ps : List Bytes) → ps ≢ [] → prepend [] ps ≡ ps
prepend-nil [] h = absurd (h refl)
prepend-nil (p ∷ ps) h = refl

module _ (pick : Bytes → Option Bytes) where
  filter_loop_pieces :
      (out entry s : Bytes)
      → filter_loop pick out entry s ≡ put_all pick out (prepend entry (split am s))
  unfolding filter_loop split
  filter_loop_pieces out entry [] = ap (λ e. put_entry out (pick e)) (sym (append-nil entry))
  filter_loop_pieces out entry (c ∷ s) = elim (Bool-cases (c == am)) [
    | inl e ↦
        rw
          (
            e,
            filter_loop_pieces (put_entry out (pick entry)) [] s,
            append-nil,
            prepend-nil (split am s) (split-ne-nil am s),
          )
          refl
    | inr e ↦
        rw
          (
            e,
            filter_loop_pieces out (entry ++ c ∷ []) s,
            prepend-put_first entry c (split am s) (split-ne-nil am s),
          )
          refl
  ]

  -- every answer holds a byte
  abbrev pub Nonempty : List Bytes → Type 0
  Nonempty = All (λ r. r ≢ [])

  entry_more :
      (c : ℕ) (out : Bytes) (o : Option Bytes) (es : List Bytes)
      → ((out' : Bytes) → put_all pick (c ∷ out') es ≡ (c ∷ out') ++ separated am (chosen pick es))
      → put_all pick (put_entry (c ∷ out) o) es
        ≡ (c ∷ out) ++ separated am (also o (chosen pick es))
  unfolding separated
  entry_more c out none es ih = ih out
  entry_more c out (some r) es ih = ih (out ++ am ∷ r) ∙ append_assoc (c ∷ out) (am ∷ r) _

  put_all_more :
      (c : ℕ) (out : Bytes) (es : List Bytes)
      → put_all pick (c ∷ out) es ≡ (c ∷ out) ++ separated am (chosen pick es)
  put_all_more c out [] = unfold separated in sym (append-nil (c ∷ out))
  put_all_more c out (e ∷ es) = entry_more c out (pick e) es (λ out'. put_all_more c out' es)

  put_all_first :
      (r : Bytes) (es : List Bytes)
      → r ≢ []
      → put_all pick r es ≡ r ++ separated am (chosen pick es)
  put_all_first [] es h = absurd (h refl)
  put_all_first (c ∷ r) es h = put_all_more c r es

  entry_first :
      (o : Option Bytes) (es : List Bytes)
      → (Nonempty (chosen pick es) → put_all pick [] es ≡ join am (chosen pick es))
      → Nonempty (also o (chosen pick es))
      → put_all pick (put_entry [] o) es ≡ join am (also o (chosen pick es))
  unfolding join
  entry_first none es ih h = ih h
  entry_first (some r) es ih (ne, h) = put_all_first r es ne

  put_all_lem :
      (es : List Bytes) → Nonempty (chosen pick es) → put_all pick [] es ≡ join am (chosen pick es)
  put_all_lem [] h = unfold join in refl
  put_all_lem (e ∷ es) h = entry_first (pick e) es (put_all_lem es) h

  -- The loop answers with the entries' answers in their order, with a mark between them.
  pub filter_loop_lem :
      (s : Bytes)
      → Nonempty (chosen pick (split am s))
      → filter_loop pick [] [] s ≡ join am (chosen pick (split am s))
  filter_loop_lem s h =
      filter_loop_pieces [] [] s
      ∙ ap (put_all pick []) (prepend-nil (split am s) (split-ne-nil am s))
      ∙ put_all_lem (split am s) h
