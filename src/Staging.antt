-- ===== src/Staging.antt =====
-- One record in a wholesale add and in a status (src/mvxgit.c, GITADD and GITSTATUS): what the two
-- leave out, what is staged, and what is reported. The account, the index and the ignore rules are
-- parameters; a blob's id stands for its content.
pub mod Same
pub mod Silent
pub mod Agree
use mv_git.Base.{
  ℕ, Bool, true, false, not, ◌&&◌, ◌||◌, List, [], ◌∷◌, ◌++◌, ◌-◌, Option, none, some, ltb, ◌==◌,
  if◌then◌else◌, length, take, drop,
}
use mv_git.Batch.{has_nul}
use mv_git.Build.{Build, opendict}
use mv_git.Bytes.{Bytes, codes, newline, bytes_eq, ends_with, case_eq, clip}
use mv_git.Control.{control_open, is_open_control}
use mv_git.Furniture.{account_furniture, voc_class_of}
use mv_git.Paths.{
  record_path, dict_of_open_account, is_file_control, is_provision_pointer, platform_dict_record,
  id_item_to_canon, path_storable,
}
use mv_git.Record.{open_dict_project, blobform, or_else, first}
use mv_git.Virtual.{open_dict_ispec}

-- What the passes ask of the account and of git. `head_items` are the items of a dictionary in HEAD,
-- `none` when there is no commit, and `index_items` those in an index.
pub record Account : Type 0 where
  pub build : Build
  pub portable : Bool
  pub prefix : Bytes
  pub key_name : Bytes
  pub columns_name : Bytes
  pub classes : List (Bytes × ℕ)
  pub has_file : Bytes → Bool
  pub stock : Bytes → Bytes → Bool
  pub ignores : Bytes → Bytes → Bool
  pub git_ignores : Bytes → Bool
  pub reads : Bytes → Bytes → Bool
  pub skip_objects : Bool
  pub head_items : Option (Bytes → List (Bytes × Bytes))
  pub index_items : (Bytes → Option Bytes) → Bytes → List (Bytes × Bytes)
  pub head : Bytes → Option Bytes

module _ (acct : Account) where
  abbrev pub is_master : Bytes → Bool
  is_master fn = case_eq fn (codes "VOC") || case_eq fn (codes "MD")

  -- a system verb or keyword, a pointer to furniture, a pointer to a file of this account
  abbrev pub system_pointer : Bytes → Bytes → Bool
  system_pointer id content =
      let class = voc_class_of acct.classes content in
      class == 1 || (class == 2 && (account_furniture acct.build id || acct.has_file id))

  abbrev behind_underscore : Bytes → Bytes
  behind_underscore [] = []
  behind_underscore (c ∷ s) = if c == b'_' then s else []

  abbrev source_of : Bytes → Bytes → Bool
  source_of fn [] = false
  source_of fn (c ∷ s) = acct.reads fn (c ∷ s)

  -- record_is_object
  unfoldable pub record_is_object : Bytes → Bytes → Bytes → Bool
  unfolding has_nul
  record_is_object fn id content =
      source_of fn (behind_underscore id) || (acct.skip_objects && has_nul content)

  abbrev pub path_of : Bytes → Bytes → Bytes
  path_of fn id = record_path acct.build acct.portable 600 acct.prefix fn id

  -- the id that a record has in git
  abbrev pub git_id : Bytes → Bytes → Bytes
  git_id fn id =
      if dict_of_open_account acct.portable fn
      then id_item_to_canon acct.key_name acct.columns_name id
      else id

  abbrev pub committed_path : Bytes → Bytes → Bytes
  committed_path fn id = path_of fn (git_id fn id)

  -- The exclusions of GITADD when no record is named, in their order.
  unfoldable pub add_drops : Bytes → Bytes → Bytes → Bool
  unfolding case_eq voc_class_of account_furniture platform_dict_record is_provision_pointer
      record_is_object record_path
  add_drops fn id content =
      (acct.ignores fn fn || (is_master fn && (system_pointer id content || acct.stock id content)))
      || (platform_dict_record fn id
          || ((acct.ignores fn (clip 600 (fn ++ b'/' ∷ id)) || acct.git_ignores (path_of fn id))
              || (is_provision_pointer fn id || record_is_object fn id content)))

  -- git's copy of a record, of the index or else of HEAD
  abbrev pub git_copy : (Bytes → Option Bytes) → Bytes → Bytes → Option Bytes
  git_copy index fn id = first (index (path_of fn id)) (acct.head (path_of fn id))

  abbrev pub dict_base : Bytes → Bytes
  dict_base fn = clip 300 (take (length fn - 5) fn)

  -- The dictionaries that an expression is read against: those of HEAD, or else of the index.
  abbrev items_from :
      Option (Bytes → List (Bytes × Bytes)) → (Bytes → Option Bytes) → Bytes → List (Bytes × Bytes)
  items_from none index = acct.index_items index
  items_from (some items) index = items

  abbrev pub items_of : (Bytes → Option Bytes) → Bytes → List (Bytes × Bytes)
  items_of index = items_from acct.head_items index

  -- A dictionary record in the open form; `blob` is git's copy of it.
  abbrev pub with_ispec : (Bytes → Option Bytes) → Bytes → Option Bytes → Bytes → Bytes
  with_ispec index fn blob r = or_else (open_dict_ispec (items_of index) (dict_base fn) r blob) r

  -- What GITADD puts into the blob: the projection is made where MVXGIT_OPENDICT is defined.
  unfoldable pub add_form : (Bytes → Option Bytes) → Bytes → Option Bytes → Bytes → Bytes
  unfolding dict_of_open_account open_dict_project open_dict_ispec
  add_form index fn blob content =
      if opendict acct.build && dict_of_open_account acct.portable fn
      then with_ispec index fn blob (or_else (open_dict_project acct.build content) content)
      else content

  -- What GITSTATUS hashes: the projection is made on every build.
  unfoldable pub status_form : (Bytes → Option Bytes) → Bytes → Option Bytes → Bytes → Bytes
  unfolding dict_of_open_account open_dict_project open_dict_ispec
  status_form index fn blob content =
      let r = or_else (open_dict_project acct.build content) content in
      if dict_of_open_account acct.portable fn
      then if opendict acct.build then with_ispec index fn blob r else r
      else content

-- What an add makes of a record.
pub data Added : Type 0 where
  left_out : Added
  kept_control : Added
  staged : Bytes → Bytes → Added

-- What a status says of one.
pub data Said : Type 0 where
  nothing : Said
  untracked : Bytes → Said
  modified : Bytes → Said

abbrev pub keeps_open : Option Bytes → Bool
keeps_open none = false
keeps_open (some blob) = is_open_control blob

-- blob_is_record: the same content, or the same but for a newline at its end
unfoldable pub blob_is_record : Bytes → Bytes → Bool
unfolding bytes_eq
blob_is_record have want = bytes_eq have want || bytes_eq have (want ++ newline ∷ [])

module _ (acct : Account) where
  -- One turn of GITADD's loop over a file; `index` is the blob that is staged at a path.
  unfoldable pub add_record : (Bytes → Option Bytes) → Bytes → Bytes → Bytes → Added
  unfolding add_drops add_form is_file_control is_open_control record_path dict_of_open_account
      id_item_to_canon
  add_record index fn id content =
      let path = committed_path acct fn id in
      if add_drops acct fn id content
      then left_out
      else if is_file_control (path_of acct fn id) && keeps_open (index (path_of acct fn id))
      then kept_control
      else staged path (blobform (add_form acct index fn (git_copy acct index fn id) content))

  -- an object file's own pointer
  abbrev pub object_pointer : Bytes → Bool
  object_pointer id =
      (ltb 2 (length id) && ends_with (codes ".O") id) && acct.has_file (take (length id - 2) id)

  -- The records that GITSTATUS passes over before it looks at the index.
  unfoldable pub status_drops : Bytes → Bytes → Bytes → Bool
  unfolding case_eq voc_class_of account_furniture record_is_object ends_with path_storable
      record_path dict_of_open_account id_item_to_canon
  status_drops fn id content =
      (is_master acct fn && (system_pointer acct id content || object_pointer id))
      || (record_is_object acct fn id content || not (path_storable (committed_path acct fn id)))

  -- what excuses a record that is not in the index
  unfoldable pub untracked_excused : Bytes → Bytes → Bytes → Bool
  unfolding case_eq is_provision_pointer record_path dict_of_open_account id_item_to_canon
  untracked_excused fn id content =
      (is_master acct fn && acct.stock id content)
      || ((acct.ignores fn (committed_path acct fn id)
            || acct.git_ignores (committed_path acct fn id))
          || is_provision_pointer fn id)

  abbrev same_class : Option Bytes → Option Bytes → Bool
  same_class none o = false
  same_class (some a) none = false
  same_class (some a) (some c) = bytes_eq a c

  -- The blob that a record is compared as, and whether it is a control of the class that is committed.
  abbrev pub control_class : Bytes → Bytes → Option Bytes
  control_class id content =
      if acct.portable && bytes_eq id (codes "%FILE%") then control_open content else none

  abbrev pub said_of_blob : Bytes → Bytes → Bytes → Said
  said_of_blob path form blob =
      if blob_is_record blob (blobform form) then nothing else modified path

  abbrev pub said_of_class : Bytes → Bytes → Bytes → Said
  said_of_class path class blob =
      if same_class (control_open blob) (some class) || blob_is_record blob (blobform class)
      then nothing
      else modified path

  abbrev pub said_of_entry : Bytes → Bytes → Option Bytes → Bytes → Said
  said_of_entry path form none blob = said_of_blob path form blob
  said_of_entry path form (some class) blob = said_of_class path class blob

  abbrev pub said_of : Bytes → Bytes → Bytes → Bytes → Option Bytes → Said
  said_of fn id content form none =
      if untracked_excused fn id content then nothing else untracked (committed_path acct fn id)
  said_of fn id content form (some blob) =
      said_of_entry (committed_path acct fn id) form (control_class id content) blob

  -- One turn of GITSTATUS's loop over a file.
  unfoldable pub status_record : (Bytes → Option Bytes) → Bytes → Bytes → Bytes → Said
  unfolding status_drops untracked_excused status_form blob_is_record control_open bytes_eq
      record_path dict_of_open_account id_item_to_canon
  status_record index fn id content =
      if status_drops fn id content
      then nothing
      else said_of fn id content (status_form acct index fn (git_copy acct index fn id) content)
          (index (committed_path acct fn id))
