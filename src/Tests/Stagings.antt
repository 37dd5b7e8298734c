-- ===== src/Tests/Stagings.antt =====
-- Witnesses on a record's way through an add and a status (src/mvxgit.c): a dictionary item of an
-- open account, on a build that projects and on one that does not, and an object file's record.
use mv_git.Base.{Bool, true, false, List, [], ◌∷◌, ◌++◌, Option, none, some, ◌≡◌, refl}
use mv_git.Batch.{has_nul}
use mv_git.Build.{Build, uv_git, mvx_git}
use mv_git.Bytes.{ends_with, Bytes, am, codes, bytes_eq}
use mv_git.Bytes.Split.{join, split}
use mv_git.Paths.{
  record_path, local_to_tree, dict_of_open_account, platform_dict_record, storable_loop,
  component_ok, path_storable,
}
use mv_git.Record.{
  derive_depth, needs_depth, rec_set_attr, rtrim, slots, xlate, blobform, open_dict_project,
}
use mv_git.Staging.{
  Account, left_out, staged, nothing, modified, add_record, status_record, add_drops, status_drops,
  add_form, blob_is_record, record_is_object,
}
use mv_git.Staging.Agree.{put}
use mv_git.Staging.Silent.{status_record-left_out, status_record-modified}

abbrev no_bytes : Bytes → Option Bytes
no_bytes path = none

abbrev refuses : Bytes → Bool
refuses name = false

abbrev refuses_both : Bytes → Bytes → Bool
refuses_both fn id = false

abbrev no_items : Bytes → List (Bytes × Bytes)
no_items file = []

abbrev no_index_items : (Bytes → Option Bytes) → Bytes → List (Bytes × Bytes)
no_index_items index file = []

abbrev is_cust : Bytes → Bool
is_cust name = bytes_eq name (codes "CUST")

-- the account has CUST and ignores nothing; there is a commit, without a dictionary
abbrev sales : Build → Account
sales build = record {
  build = build;
  portable = true;
  prefix = [];
  key_name = codes "@ID";
  columns_name = codes "@";
  classes = [];
  has_file = is_cust;
  stock = refuses_both;
  ignores = refuses_both;
  git_ignores = refuses;
  reads = refuses_both;
  skip_objects = true;
  head_items = some no_items;
  index_items = no_index_items;
  head = no_bytes;
}

abbrev dict_name : Bytes
dict_name = codes "CUST.DICT"

-- a D item that names an association and has no flag, and its projection
abbrev field : Bytes
field = codes "D" ++ am ∷ codes "1" ++ am ∷ am ∷ codes "NAME" ++ am ∷ codes "10L" ++ am ∷ codes "S"

abbrev field_form : Bytes
field_form = field ++ am ∷ codes "M"

abbrev field_path : Bytes
field_path = codes "CUST.DICT/NAME"

-- an object file's record holds a NUL
abbrev object : Bytes
object = b'A' ∷ 0 ∷ b'B' ∷ []

object_dropped : add_record (sales uv_git) no_bytes (codes "CUST") (codes "PROG") object ≡ left_out
unfolding add_record add_drops record_is_object has_nul
object_dropped = refl

status_record-left_out_example :
    status_record (sales uv_git) no_bytes (codes "CUST") (codes "PROG") object ≡ nothing
unfolding record_path local_to_tree dict_of_open_account platform_dict_record
status_record-left_out_example =
    status_record-left_out (sales uv_git) no_bytes (codes "CUST") (codes "PROG") object refl refl
      refl (λ h. cc) refl object_dropped

projects : open_dict_project mvx_git field ≡ some field_form
unfolding open_dict_project derive_depth needs_depth split join rec_set_attr rtrim slots
projects = refl

form_differs : blob_is_record (blobform field) (blobform field_form) ≡ false
unfolding blob_is_record xlate
form_differs = refl

field_passes : status_drops (sales mvx_git) dict_name (codes "NAME") field ≡ false
unfolding status_drops record_is_object path_storable local_to_tree storable_loop component_ok
field_passes = refl

field_staged :
    add_record (sales mvx_git) no_bytes dict_name (codes "NAME") field
    ≡ staged field_path (blobform field)
unfolding add_record add_drops add_form local_to_tree
field_staged = refl

status_record-modified_example :
    status_record
      (sales mvx_git)
      (put field_path (blobform field) no_bytes)
      dict_name
      (codes "NAME")
      field
    ≡ modified field_path
unfolding dict_of_open_account ends_with
status_record-modified_example =
    status_record-modified (sales mvx_git) no_bytes dict_name (codes "NAME") field field_path
      (blobform field) field_form refl refl projects form_differs field_passes refl field_staged

-- the flag is derived for attribute 7, which goes to attribute 6 in the open form
abbrev udt_form : Bytes
udt_form =
    codes "D" ++ am ∷ codes "1" ++ am ∷ am ∷ codes "NAME" ++ am ∷ codes "10L" ++ am ∷ am ∷ codes "S"
