-- ===== src/Tests/Drivers.antt =====
-- Witnesses on the drivers (src/udt-git.c, src/uv-git.c): two lists of indexes in another order, a
-- manifest with a line that is not ended, and an account that is adopted twice.
use mv_git.Base.{
  true, Option, some, none, Bool, false, List, [], ◌∷◌, ◌++◌, ◌≡◌, refl, arith, ◌↔◌, length, ◌≤◌,
}
use mv_git.Bytes.{c_str, Bytes, codes, newline, am, bytes_eq, starts_with}
use mv_git.Bytes.Split.{Lacks, split}
use mv_git.Furniture.{named_in}
use mv_git.Unidata.{index_set_differs, manifest_set, field}
use mv_git.Unidata.Manifest.{manifest_set-manifest_set}
use mv_git.Unidata.Sets.{index_set_differs_lem, Within}
use mv_git.Universe.{exclude_new, additions, occurs}
use mv_git.Build.{udt_git}
use mv_git.Index.{backend_has_file}
use mv_git.Layer.{mv_filelist}
use mv_git.Layer.Files.{backend_has_file-mv_filelist, HasOwnFile}
use mv_git.Universe.Exclude.{exclude_new-exclude_new}

abbrev declared : Bytes
declared = codes "NAME" ++ am ∷ (codes "CITY" ++ am ∷ [])

abbrev live : Bytes
live = codes "CITY" ++ am ∷ codes "NAME"

index_set_differs_lem_example :
    (index_set_differs declared live ≡ false)
    ↔ (Within (split am declared) (split am live) × Within (split am live) (split am declared))
index_set_differs_lem_example = index_set_differs_lem declared live

abbrev pkg : Bytes
pkg = codes "mvx-lang/git"

abbrev entry_line : Bytes
entry_line = codes "mvx-lang/git 1.4"

abbrev manifest : Bytes
manifest = codes "mvx-lang/git 1.3" ++ newline ∷ codes "acme/tools 2"

begins : field entry_line ≡ pkg
unfolding field
begins = refl

manifest_set-manifest_set_example :
    manifest_set pkg entry_line (manifest_set pkg entry_line manifest)
    ≡ manifest_set pkg entry_line manifest
manifest_set-manifest_set_example =
    manifest_set-manifest_set pkg entry_line manifest (cc) begins (omega arith) (omega arith)
      (omega arith) (omega arith)

abbrev is_bp : Bytes → Bool
is_bp n = bytes_eq n (codes "BP")

abbrev made : List Bytes
made = codes "VOC" ∷ codes "BP" ∷ []

short :
    Lacks 0 (exclude_new (codes "sales/") is_bp [] made (codes "*.o"))
    × (length (exclude_new (codes "sales/") is_bp [] made (codes "*.o")) ≤ 65535)
unfolding exclude_new additions named_in occurs starts_with bytes_eq c_str
short = (omega arith, omega arith)

exclude_new-exclude_new_example :
    exclude_new
      (codes "sales/")
      is_bp
      []
      made
      (exclude_new (codes "sales/") is_bp [] made (codes "*.o"))
    ≡ exclude_new (codes "sales/") is_bp [] made (codes "*.o")
exclude_new-exclude_new_example =
    exclude_new-exclude_new (codes "sales/") is_bp [] made (codes "*.o") short.0 short.1

-- a file of the account, a pointer to another account's, and a paragraph
abbrev small_voc : List (Bytes × Option Bytes)
small_voc =
    (codes "CUST", some (codes "F" ++ am ∷ (codes "CUST" ++ am ∷ codes "D_CUST")))
    ∷ (codes "THEIRS", some (codes "F" ++ am ∷ (codes "/u2/b/CUST" ++ am ∷ codes "D_CUST")))
    ∷ (codes "GONE", none)
    ∷ []

backend_has_file-mv_filelist_example :
    (backend_has_file false (mv_filelist udt_git (some small_voc)) (codes "CUST") ≡ true)
    ↔ HasOwnFile udt_git small_voc (codes "CUST")
backend_has_file-mv_filelist_example =
    backend_has_file-mv_filelist udt_git small_voc (codes "CUST")
      (
        ((cc), omega arith, omega arith),
        (((cc), omega arith, omega arith), (((cc), omega arith, omega arith), tt)),
      )
      refl
