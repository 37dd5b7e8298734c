-- ===== src/Index.antt =====
-- The staged index as the engine walks it (src/mvxgit.c): the top-level names, the ids of a file,
-- the lists of an account's files, and the unstaging of deleted files. libgit2's index is the list of
-- its entries, in order and with one entry for a path. What the disk and the backend say is a
-- parameter.
pub mod Listed
pub mod Ids
pub mod Memo
pub mod Remove
pub mod Prune
pub mod Dictionary
pub mod Gone
use mv_git.Base.{
  ℕ, zero, suc, ◌+◌, ◌-◌, Bool, true, false, not, ◌&&◌, ◌||◌, List, [], ◌∷◌, ◌++◌, map, Option,
  none, some, ltb, ◌==◌, if◌then◌else◌, ◌>>=◌, length, take, drop,
}
use mv_git.Bytes.{has_slash, Bytes, codes, am, vm, bytes_eq, starts_with, ends_with, clip}
use mv_git.Bytes.Split.{split}
use mv_git.Furniture.{upto, named_in}
use mv_git.Paths.{unprefix}
use mv_git.Record.{is_empty}
use mv_git.Wire.{show}

-- git_index_entry: whether its mode is GIT_FILEMODE_COMMIT, and the id of its blob
pub record Entry : Type 0 where
  pub path : Bytes
  pub gitlink : Bool
  pub oid : Bytes

-- split_top, in a buffer of `cap` bytes
unfoldable pub split_top : ℕ → Bytes → Bytes
unfolding upto
split_top cap path = clip cap (upto b'/' path)

-- ns_add
unfoldable pub ns_add : List Bytes → Bytes → List Bytes
unfolding named_in
ns_add names name = if named_in names name then names else names ++ clip 256 name ∷ []

-- sb_line: lines with marks between them
unfoldable pub sb_line : Bytes → Bytes → Bytes
sb_line [] line = line
sb_line (c ∷ s) line = c ∷ (s ++ am ∷ line)

-- The entries of a list with marks; nothing stands behind a mark at the end.
unfoldable pub entries : Bytes → Bytes → List Bytes
entries [] [] = []
entries (e ∷ es) [] = (e ∷ es) ∷ []
entries entry (c ∷ s) =
    let rest = entries (if c == am then [] else entry ++ c ∷ []) s in
    if c == am then entry ∷ rest else rest

-- live_listed: `none` when there is no list
unfoldable pub live_listed : Bytes → Bytes → Option Bool
unfolding entries upto named_in
live_listed [] name = none
live_listed (c ∷ s) name = some (named_in (map (upto vm) (entries [] (c ∷ s))) name)

abbrev pub fits_name : Bytes → Bool
fits_name n = ltb 0 (length n) && ltb (length n) 256

abbrev pub add_name : List Bytes → Bytes → List Bytes
add_name names n = if fits_name n then ns_add names n else names

-- the loop that backend_has_file fills its list by
unfoldable pub file_names : List Bytes → List Bytes → List Bytes
unfolding ns_add upto
file_names names [] = names
file_names names (e ∷ es) = file_names (add_name names (upto vm e)) es

-- backend_has_file; `filelist` is what mv_filelist answers
unfoldable pub backend_has_file : Bool → Bytes → Bytes → Bool
unfolding file_names entries named_in
backend_has_file norecords filelist name =
    not norecords && named_in (file_names [] (entries [] filelist)) name

-- caller_has_file
unfoldable pub caller_has_file : Bool → Bytes → Option Bytes → Bytes → Bool
unfolding backend_has_file split named_in
caller_has_file norecords filelist none name = backend_has_file norecords filelist name
caller_has_file norecords filelist (some given) name = named_in (split am given) name

abbrev pub dict_dir : Bytes → Bytes
dict_dir name = name ++ codes ".DICT/"

-- file_is_live: the disk says which directories and which paths there are
unfoldable pub file_is_live : (Bytes → Bool) → (Bytes → Bool) → Bool → Bytes → Bytes → Bool
unfolding backend_has_file
file_is_live is_dir exists norecords filelist name =
    if is_dir name && exists (dict_dir name ++ codes "%FILE%")
    then true
    else backend_has_file norecords filelist name

-- is_mv_file
unfoldable pub is_mv_file : (Bytes → Bool) → (Bytes → Bool) → Bytes → Bool
is_mv_file is_dir exists name =
    if is_dir name then exists (dict_dir name ++ codes "%FILE%") else true

-- The id that an entry holds for a file, under `pfx`.
abbrev pub plain_id : Bytes → Bool
plain_id [] = false
plain_id (c ∷ id) = not (has_slash (c ∷ id))

unfoldable pub id_under : Bytes → Entry → Option Bytes
unfolding has_slash starts_with
id_under pfx e =
    let id = drop (length pfx) e.path in
    if e.gitlink
    then none
    else if not (starts_with pfx e.path)
    then none
    else if plain_id id
    then some id
    else none

abbrev pub add_id : Option Bytes → List Bytes → List Bytes
add_id none ids = ids
add_id (some id) ids = id ∷ ids

-- the ids that GITINDEXIDS writes, one for a line
unfoldable pub index_ids : Bytes → Bytes → List Entry → List Bytes
unfolding id_under
index_ids prefix fn [] = []
index_ids prefix fn (e ∷ index) =
    add_id (id_under (prefix ++ (fn ++ b'/' ∷ [])) e) (index_ids prefix fn index)

unfoldable pub lines_of : Bytes → List Bytes → Bytes
unfolding sb_line
lines_of out [] = out
lines_of out (line ∷ more) = lines_of (sb_line out line) more

-- GITINDEXIDS, on an index that opens
unfoldable pub gitindexids : Bytes → Bytes → List Entry → Bytes
unfolding lines_of index_ids
gitindexids prefix fn index = lines_of [] (index_ids prefix fn index)

-- The top-level name of an entry inside of a file; none for a gitlink, a path of another account
-- and a path with no slash.
abbrev pub top_in : Bytes → Option Bytes
top_in rel = if has_slash rel then some (split_top 256 rel) else none

unfoldable pub entry_top : Bytes → Entry → Option Bytes
unfolding has_slash split_top
entry_top prefix e = if e.gitlink then none else unprefix prefix e.path >>= top_in

-- a name without the .DICT behind it
unfoldable pub base_of : Bytes → Bytes
unfolding ends_with
base_of top =
    let base = clip 256 top in
    if ltb 5 (length base) && ends_with (codes ".DICT") base
    then take (length base - 5) base
    else base

unfoldable pub any_path : (Bytes → Bool) → List Entry → Bool
any_path test [] = false
any_path test (e ∷ index) = test e.path || any_path test index

-- content of a file: a record or a dictionary item, not its control
unfoldable pub is_content : Bytes → Bytes → Bytes → Bool
unfolding bytes_eq starts_with
is_content prefix base path =
    not (bytes_eq path (prefix ++ (dict_dir base ++ codes "%FILE%")))
    && (starts_with (prefix ++ dict_dir base) path
        || starts_with (prefix ++ (base ++ b'/' ∷ [])) path)

-- g_gone_memo and g_gone_ans
abbrev pub Memo : Type 0
Memo = Option (Bytes × Bool)

-- `prefix` and `norecords` are the account's and the build's, `live` the list that the caller gave,
-- `is_live` file_is_live.
module _ (prefix : Bytes) (norecords : Bool) (live : Bytes) (is_live : Bytes → Bool) where
  abbrev pub alive : Bytes → Bool
  alive base = elim (live_listed live base) [ none ↦ is_live base | some b ↦ b ]

  abbrev pub gone_now : List Entry → Bytes → Bool
  gone_now index base = if alive base then false else any_path (is_content prefix base) index

  abbrev pub recall : List Entry → Bytes → Memo → Bool × Memo
  recall index base none = (gone_now index base, some (base, gone_now index base))
  recall index base (some (b, ans)) =
      if bytes_eq b base
      then (ans, some (b, ans))
      else (gone_now index base, some (base, gone_now index base))

  unfoldable pub tracked_file_gone : List Entry → Bytes → Memo → Bool × Memo
  unfolding live_listed any_path is_content base_of bytes_eq
  tracked_file_gone index top memo =
      if is_empty top || is_empty (base_of top)
      then (false, memo)
      else recall index (base_of top) memo

  -- the mark of a file: something under its dictionary
  abbrev pub has_dict : List Entry → Bytes → Bool
  has_dict index top = any_path (starts_with (prefix ++ dict_dir top)) index

  -- One round of the deciding loop, on an entry's top-level name.
  abbrev pub decide_top : List Entry → Option Bytes → Memo × List Bytes → Memo × List Bytes
  decide_top index none (memo, gone) = (memo, gone)
  decide_top index (some top) (memo, gone) =
      let (ans, memo') = tracked_file_gone index top memo in
      if named_in gone top
      then (memo, gone)
      else (memo', if ans && (norecords || has_dict index top) then gone ++ top ∷ [] else gone)

  unfoldable pub decide : List Entry → List Entry → Memo × List Bytes → Memo × List Bytes
  unfolding tracked_file_gone entry_top any_path named_in
  decide index [] r = r
  decide index (e ∷ more) r = decide index more (decide_top index (entry_top prefix e) r)

  abbrev pub top_gone : List Bytes → Option Bytes → Bool
  top_gone gone none = false
  top_gone gone (some top) = named_in gone top

  -- git_index_remove_bypath: the index has one entry for a path
  unfoldable pub remove_bypath : Bytes → List Entry → List Entry
  unfolding bytes_eq
  remove_bypath path [] = []
  remove_bypath path (e ∷ index) =
      let rest = remove_bypath path index in if bytes_eq e.path path then index else e ∷ rest

  unfoldable pub entry_at : ℕ → List Entry → Option Entry
  entry_at i [] = none
  entry_at zero (e ∷ index) = some e
  entry_at (suc i) (e ∷ index) = entry_at i index

  -- One round of the removing loop; the path is copied into 700 bytes.
  abbrev pub remove_entry : List Bytes → Option Entry → List Entry × ℕ → List Entry × ℕ
  remove_entry gone none r = r
  remove_entry gone (some e) (index, dropped) =
      if top_gone gone (entry_top prefix e)
      then (remove_bypath (clip 700 e.path) index, suc dropped)
      else (index, dropped)

  -- The rounds for the places below `i`, from the last to the first.
  unfoldable pub remove_loop : List Bytes → ℕ → List Entry × ℕ → List Entry × ℕ
  unfolding entry_top named_in remove_bypath entry_at
  remove_loop gone zero r = r
  remove_loop gone (suc i) r = remove_loop gone i (remove_entry gone (entry_at i r.0) r)

  -- The removing loop, with the number of entries that it removes.
  unfoldable pub remove_tops : List Bytes → List Entry → List Entry × ℕ
  unfolding remove_loop
  remove_tops gone index = remove_loop gone (length index) (index, 0)

  -- GITPRUNE on an index that opens: the index and the count. backend_files_reset has emptied the memo.
  unfoldable pub gitprune : List Entry → List Entry × ℕ
  unfolding decide remove_tops
  gitprune index = remove_tops (decide index index (none, [])).1 index

unfoldable pub prune_message : ℕ → Bytes
prune_message dropped =
    if dropped == 0 then [] else show dropped ++ codes " record(s) of deleted file(s) unstaged"
