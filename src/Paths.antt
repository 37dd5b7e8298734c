-- ===== src/Paths.antt =====
-- The names of records in git (src/mvxgit.c): the account's prefix, the path of a record, the two
-- names of the master file and of the generated dictionary items, and the tests on paths.
pub mod Prefix
pub mod Master
pub mod Items
pub mod Storable
use mv_git.Base.{
  ℕ, zero, suc, ◌+◌, ◌-◌, Bool, true, false, not, ◌&&◌, ◌||◌, List, [], ◌∷◌, ◌++◌, Option, none,
  some, ltb, leb, ◌==◌, if◌then◌else◌, length, take, drop, get_or,
}
use mv_git.Build.{Build, voc_local_name, desc_native_name}
use mv_git.Bytes.{Bytes, codes, bytes_eq, starts_with, ends_with, case_eq, case_starts, clip}
use mv_git.Furniture.{upto}

-- mv_git_set_prefix: the account's directory with one slash behind it; g_prefix has 256 bytes
unfoldable pub set_prefix : Bytes → Bytes
set_prefix [] = []
set_prefix (c ∷ s) =
    let p = c ∷ s in
    if get_or p (length p - 1) 0 == b'/' then clip 256 p else clip 256 (p ++ codes "/")

-- tree_to_local and local_to_tree; `portable` is mv_openaccount
unfoldable pub tree_to_local : Build → Bool → Bytes → Bytes
unfolding voc_local_name bytes_eq case_eq
tree_to_local b portable fn =
    let loc = voc_local_name b in
    if bytes_eq loc (codes "VOC")
    then fn
    else if not portable
    then fn
    else if case_eq fn (codes "VOC")
    then loc
    else if case_eq fn (codes "VOC.DICT")
    then loc ++ codes ".DICT"
    else fn

unfoldable pub local_to_tree : Build → Bool → Bytes → Bytes
unfolding voc_local_name bytes_eq case_eq case_starts
local_to_tree b portable fn =
    let loc = voc_local_name b in
    if bytes_eq loc (codes "VOC")
    then fn
    else if not portable
    then fn
    else if case_eq fn loc
    then codes "VOC"
    else if length fn == length loc + 5
        && (case_starts loc fn && case_eq (drop (length loc) fn) (codes ".DICT"))
    then codes "VOC.DICT"
    else fn

-- record_path: the git path of a record, in a buffer of `cap` bytes
unfoldable pub record_path : Build → Bool → ℕ → Bytes → Bytes → Bytes → Bytes
record_path b portable cap prefix fn id =
    clip cap (prefix ++ (local_to_tree b portable fn ++ b'/' ∷ id))

-- the account's part of a path, `none` for a path of another account
unfoldable pub unprefix : Bytes → Bytes → Option Bytes
unprefix [] path = some path
unprefix (c ∷ prefix) path =
    if starts_with (c ∷ prefix) path then some (drop (suc (length prefix)) path) else none

-- MV_ID_CANON and MV_PH_CANON
abbrev pub id_canon : Bytes
id_canon = codes "@ID"

abbrev pub ph_canon : Bytes
ph_canon = codes "%PH%"

-- a variable of the environment, when it is set and not empty
abbrev env_or : Option Bytes → Bytes → Bytes
env_or none name = name
env_or (some []) name = name
env_or (some (c ∷ s)) name = c ∷ s

-- mv_git_id_item; `env` is $MVGIT_ID_ITEM
abbrev pub id_item : Build → Option Bytes → Bytes
id_item b env = env_or env (if b.d3 then codes "ID" else codes "@ID")

-- mv_git_ph_item; `env` is $MVGIT_PH_ITEM
abbrev pub ph_item : Build → Option Bytes → Bytes
ph_item b env = env_or env (if b.mvxrt then ph_canon else codes "@")

-- id_item_to_canon and id_item_to_local; `key` and `columns` are the local names of the two items
unfoldable pub id_item_to_canon : Bytes → Bytes → Bytes → Bytes
id_item_to_canon key columns id =
    if bytes_eq id key then id_canon else if bytes_eq id columns then ph_canon else id

unfoldable pub id_item_to_local : Bytes → Bytes → Bytes → Bytes
id_item_to_local key columns name =
    if bytes_eq name id_canon then key else if bytes_eq name ph_canon then columns else name

unfoldable pub dict_of_open_account : Bool → Bytes → Bool
dict_of_open_account portable fn = (ltb 5 (length fn) && ends_with (codes ".DICT") fn) && portable

unfoldable pub is_file_control : Bytes → Bool
is_file_control path = ends_with (codes ".DICT/%FILE%") path

unfoldable pub is_provision_pointer : Bytes → Bytes → Bool
is_provision_pointer file id =
    case_eq id (codes "CATALOG") && (case_eq file (codes "VOC") || case_eq file (codes "MD"))

-- What `adopt` asks: MV_ADOPT_ASK_NOTHING, MV_ADOPT_ASK_ENABLE or MV_ADOPT_ASK_CONVERT.
pub data Question : Type 0 where
  ask_nothing : Question
  ask_enable : Question
  ask_convert : Question

-- mv_git_adopt_question; an empty descriptor stands for an absent one too
unfoldable pub adopt_question : Build → Bytes → Bool → Question
unfolding desc_native_name bytes_eq
adopt_question b [] flag_on = ask_nothing
adopt_question b (c ∷ s) flag_on =
    if bytes_eq (c ∷ s) (codes ".mv-account")
    then if flag_on then ask_nothing else ask_enable
    else if bytes_eq (c ∷ s) (desc_native_name b)
    then ask_nothing
    else ask_convert

-- What stands behind the last slash.
unfoldable pub after_slash : Bytes → Bytes → Bytes
after_slash best [] = best
after_slash best (c ∷ s) = after_slash (if c == b'/' then s else best) s

abbrev is_decimal : ℕ → Bool
is_decimal c = leb b'0' c && leb c b'9'

unfoldable all_decimal : Bytes → Bool
all_decimal [] = true
all_decimal (c ∷ s) = is_decimal c && all_decimal s

-- F with digits behind it
abbrev is_field_id : Bytes → Bool
is_field_id [] = false
is_field_id (f ∷ []) = false
is_field_id (f ∷ d ∷ s) = (f == b'F' || f == b'f') && all_decimal (d ∷ s)

-- mv_git_platform_dict_record
unfoldable pub platform_dict_record : Bytes → Bytes → Bool
unfolding after_slash all_decimal ends_with case_starts
platform_dict_record file id =
    let base = after_slash file file in
    let stem = length base - 5 in
    (ltb 5 (length base) && ends_with (codes ".DICT") base)
    && ((((stem == 3) && case_starts (codes "VOC") base)
          || ((stem == 2) && case_starts (codes "MD") base))
        && is_field_id id)

-- The tests on one component of a path.
unfoldable pub component_ok : Bytes → Bool
unfolding bytes_eq
component_ok part =
    not (length part == 0) && (not (bytes_eq part (codes ".")) && not (bytes_eq part (codes "..")))

-- The loop of path_storable, on fuel: each round takes a byte off the path.
unfoldable pub storable_loop : ℕ → Bytes → Bool
unfolding upto
storable_loop zero p = true
storable_loop (suc fuel) [] = true
storable_loop (suc fuel) (c ∷ s) =
    let part = upto b'/' (c ∷ s) in
    let rest = storable_loop fuel (drop (suc (length part)) (c ∷ s)) in
    if component_ok part then if length part == suc (length s) then true else rest else false

unfoldable pub path_storable : Bytes → Bool
path_storable [] = false
path_storable (c ∷ s) = storable_loop (suc (length (c ∷ s))) (c ∷ s)
