-- ===== src/Layer.antt =====
-- What the UniData record layer answers to the engine (src/udtgit_rt.c): the list of an account's own
-- files and the class of a file. The records of the VOC and what InterCall says are parameters.
pub mod Files
use mv_git.Base.{
  ℕ, zero, suc, Bool, true, false, not, ◌&&◌, ◌||◌, List, [], ◌∷◌, ◌++◌, Option, none, some, ltb,
  ◌==◌, if◌then◌else◌, get_or,
}
use mv_git.Build.{Build}
use mv_git.Bytes.{Bytes, codes, am, bytes_eq, has_slash}
use mv_git.Bytes.Split.{split}
use mv_git.Furniture.{account_furniture}
use mv_git.Wire.{show}

-- udt_field_local: a path that is a bare name, or empty
unfoldable pub udt_field_local : Bytes → Bool
unfolding has_slash
udt_field_local [] = true
udt_field_local (c ∷ s) = not (c == b'@') && not (has_slash (c ∷ s))

abbrev pub voc_field : Bytes → ℕ → Bytes
voc_field item k = get_or (split am item) k []

-- a pointer to a file of this account that is no furniture
unfoldable pub is_own_file : Build → Bytes → Bytes → Bool
unfolding udt_field_local account_furniture bytes_eq split
is_own_file b id item =
    ((bytes_eq (voc_field item 0) (codes "F") || bytes_eq (voc_field item 0) (codes "DIR"))
      && (udt_field_local (voc_field item 1) && udt_field_local (voc_field item 2)))
    && not (account_furniture b id)

abbrev pub with_file : Bytes → Bytes → Bytes
with_file [] id = id
with_file (c ∷ s) id = c ∷ (s ++ am ∷ id)

-- The loop over the ids that SELECT answers, with the record of each, `none` when it is not read.
unfoldable pub list_files : Build → Bytes → List (Bytes × Option Bytes) → Bytes
unfolding is_own_file
list_files b list [] = list
list_files b list ((id, none) ∷ more) = list_files b list more
list_files b list ((id, some item) ∷ more) =
    list_files b (if is_own_file b id item then with_file list id else list) more

-- mv_filelist; `none` when the VOC does not open
unfoldable pub mv_filelist : Build → Option (List (Bytes × Option Bytes)) → Bytes
unfolding list_files
mv_filelist b none = []
mv_filelist b (some voc) = list_files b [] voc

abbrev class_of_dir : ℕ → Bytes
class_of_dir modulo =
    if ltb 0 modulo then codes "hash " ++ (show modulo ++ codes " DYNAMIC") else codes "DIR"

abbrev class_of_file : ℕ → Bytes
class_of_file modulo =
    if ltb 0 modulo then codes "hash " ++ (show modulo ++ codes " STATIC") else codes "hash"

-- mv_fileclass, on whether there is a directory of that name and the modulo of the file that opens
unfoldable pub mv_fileclass : Bool → Option ℕ → Option Bytes
unfolding show
mv_fileclass is_dir (some modulo) =
    some (if is_dir then class_of_dir modulo else class_of_file modulo)
mv_fileclass true none = some (class_of_dir 0)
mv_fileclass false none = none
