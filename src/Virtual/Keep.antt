-- ===== src/Virtual/Keep.antt =====
-- An item that a checkout wrote and nobody touched (src/mvxgit.c, open_dict_ispec): staging it
-- brings git's own copy of the expression back.
use mv_git.Base.{ℕ, true, List, [], ◌∷◌, some, ◌≡◌, refl, ap, ◌∙◌, All, get_or, some_inj}
use mv_git.Bytes.{Bytes, am, newline, bytes_eq_refl, c_str, clip}
use mv_git.Bytes.Split.{Lacks, split, join, split-join, join-split, All-split}
use mv_git.Record.{attr, attr_of, rec_is_itype, rec_set_attr2, set_second, blobform}
use mv_git.Record.Blob.{blobform_lem}
use mv_git.Record.Slots.{rec_set_attr2_lem}
use mv_git.Virtual.{ispec_to_udt, open_dict_ispec}

set_back :
    (sep : ℕ) (ps : List Bytes) (spec : Bytes) {t : Bytes}
    → All (Lacks sep) ps
    → Lacks sep spec
    → set_second sep ps spec ≡ some t
    → set_second sep (split sep t) (get_or ps 1 []) ≡ some (join sep ps)
set_back sep [] spec hs h e = cc
set_back sep (a ∷ []) spec hs h e = cc
set_back sep (a ∷ b ∷ rest) spec (ha, (hb, hr)) h e =
    rw (← some_inj e, split-join sep (a ∷ spec ∷ rest) (cc) (ha, (h, hr))) refl

-- Setting attribute 2 back undoes setting it.
pub rec_set_attr2-rec_set_attr2 :
    (s : Bytes) (sep : ℕ) (spec : Bytes) {t : Bytes}
    → Lacks sep spec
    → rec_set_attr2 s sep spec ≡ some t
    → rec_set_attr2 t sep (attr sep s 1) ≡ some s
unfolding rec_set_attr2
rec_set_attr2-rec_set_attr2 s sep spec h e =
    set_back sep (split sep s) spec (All-split sep s) h e ∙ ap some (join-split sep s)

module _ (items : Bytes → List (Bytes × Bytes)) (self s nat t : Bytes) where
  type_kept : Lacks am nat → rec_set_attr2 s am nat ≡ some t → rec_is_itype t am ≡ rec_is_itype s am
  unfolding rec_is_itype attr_of
  type_kept h e = rw (rec_set_attr2_lem s am nat h e 0) refl

  spec_set :
      Lacks am nat
      → rec_set_attr2 s am nat ≡ some t
      → c_str (clip 512 nat) ≡ nat
      → attr_of t am 2 512 ≡ nat
  unfolding attr_of
  spec_set h e fits = rw (rec_set_attr2_lem s am nat h e 1) fits

  committed_lem :
      Lacks newline s
      → attr_of s am 2 512 ≡ attr am s 1
      → attr_of (blobform s) newline 2 512 ≡ attr am s 1
  unfolding attr_of
  committed_lem h fits = rw ((blobform_lem s h).1 1) fits

  -- When a checkout has put an I item's expression into UniData's spelling, by attribute 2 of the
  -- record, and neither spelling exceeds the 511 bytes that are read of it or holds a NUL, staging
  -- the item against the committed blob gives the committed record back, a flattened chain included.
  pub open_dict_ispec-rec_set_attr2 :
      Lacks newline s
      → rec_is_itype s am ≡ true
      → attr_of s am 2 512 ≡ attr am s 1
      → ispec_to_udt items self (attr am s 1) ≡ some nat
      → Lacks am nat
      → c_str (clip 512 nat) ≡ nat
      → rec_set_attr2 s am nat ≡ some t
      → open_dict_ispec items self t (some (blobform s)) ≡ some s
  unfolding open_dict_ispec
  open_dict_ispec-rec_set_attr2 hn it fits forth h fits' e =
      rw (type_kept h e, it, committed_lem hn fits, forth, spec_set h e fits', bytes_eq_refl nat)
        (rec_set_attr2-rec_set_attr2 s am nat h e)
