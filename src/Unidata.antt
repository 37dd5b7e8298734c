-- ===== src/Unidata.antt =====
-- What the UniData driver decides by itself (src/udt-git.c): whether the indexes that HEAD declares
-- are those of the account and the script that makes them again, the manifest that it registers in,
-- and the arguments that it takes. The account, HEAD and the directory are parameters.
pub mod Sets
pub mod Manifest
use mv_git.Base.{
  ℕ, zero, suc, ◌+◌, ◌-◌, Bool, true, false, ◌&&◌, ◌||◌, List, [], ◌∷◌, ◌++◌, map, Option, none,
  some, ltb, leb, ◌==◌, if◌then◌else◌, length, take,
}
use mv_git.Bytes.{c_str, Bytes, codes, am, newline, bytes_eq, ends_with, clip}
use mv_git.Bytes.Split.{split}
use mv_git.Disk.{fgets_lines}
use mv_git.Furniture.{named_in}
use mv_git.Record.{is_empty}

-- a name of the first list that the second does not have
unfoldable pub missing : List Bytes → List Bytes → Bool
unfolding named_in
missing others [] = false
missing others (f ∷ more) =
    let rest = missing others more in
    if is_empty f then rest else if named_in others f then rest else true

-- index_set_differs, on two lists of names with marks between them
unfoldable pub index_set_differs : Bytes → Bytes → Bool
unfolding missing split
index_set_differs a b = missing (split am b) (split am a) || missing (split am a) (split am b)

-- What collect_index_changes has put together.
pub record Changes : Type 0 where
  pub script : Bytes
  pub report : Bytes
  pub creates : ℕ
  pub files : ℕ

abbrev pub indexes_suffix : Bytes
indexes_suffix = codes ".DICT/%INDEXES%"

abbrev pub is_indexes : Bytes → Bool
is_indexes path = ltb 15 (length path) && ends_with indexes_suffix path

abbrev pub file_of : Bytes → Bytes
file_of path = clip 256 (take (length path - 15) path)

abbrev create_line : Bytes → Bytes → Bytes
create_line base f = codes "CREATE.INDEX " ++ (base ++ (b' ' ∷ (f ++ (newline ∷ newline ∷ []))))

-- The loop over the declared names of a file; `fresh` is whether none was reported yet.
unfoldable pub create_all : Bytes → Bool → List Bytes → Changes → Changes
create_all base fresh [] c = c
create_all base fresh (f ∷ more) c =
    let next = record c {
      script = c.script ++ create_line base f;
      report = c.report ++ (if fresh then f else b' ' ∷ f);
      creates = suc c.creates;
    } in
    create_all base (fresh && is_empty f) more (if is_empty f then c else next)

-- A file whose declared indexes are not those of the account.
unfoldable pub note_change : Bytes → Bytes → Changes → Changes
unfolding create_all
note_change base declared c =
    let begun = record c {
      files = suc c.files;
      report = c.report ++ (codes "  " ++ (base ++ codes " ("));
    } in
    let all = create_all base true (split am declared) begun in
    record all {
      report = all.report ++ (b')' ∷ newline ∷ []);
      script = all.script ++ (codes "BUILD.INDEX " ++ (base ++ (codes " ALL" ++ newline ∷ [])));
    }

-- What HEAD has at a path, and the live indexes of a file, empty when it does not open.
module _ (head : Bytes → Option Bytes) (live : Bytes → Bytes) where
  abbrev on_declared : Bytes → Option Bytes → Changes → Changes
  on_declared base none c = c
  on_declared base (some declared) c =
      if is_empty declared
      then c
      else if index_set_differs declared (live base)
      then note_change base declared c
      else c

  unfoldable pub collect_path : Bytes → Changes → Changes
  unfolding index_set_differs note_change ends_with
  collect_path path c =
      if is_indexes path then on_declared (file_of path) (head (clip 300 path)) c else c

  unfoldable pub collect_paths : List Bytes → Changes → Changes
  unfolding collect_path
  collect_paths [] c = c
  collect_paths (path ∷ more) c = collect_paths more (collect_path path c)

  abbrev pub finished : Changes → Option Changes
  finished c =
      if c.creates == 0
      then none
      else some (record c { script = c.script ++ (codes "QUIT" ++ newline ∷ []) })

  -- collect_index_changes, on the paths of HEAD; `none` is the NULL that says nothing changed. A line
  -- that exceeds its buffer is taken whole, where the code reads behind the buffer.
  unfoldable pub collect_index_changes : Bytes → Option Changes
  unfolding collect_paths split
  collect_index_changes paths =
      finished (
        collect_paths (split am paths)
          (record { script = []; report = []; creates = 0; files = 0 }))

-- the first field of a line
unfoldable pub field : Bytes → Bytes
field [] = []
field (c ∷ s) =
    let rest = field s in if c == b' ' || (c == b'\t' || c == newline) then [] else c ∷ rest

-- The lines but those for a name.
unfoldable pub others : Bytes → List Bytes → List Bytes
unfolding field bytes_eq
others name [] = []
others name (l ∷ more) =
    let rest = others name more in if bytes_eq (field l) name then rest else l ∷ rest

unfoldable pub concat : List Bytes → Bytes
concat [] = []
concat (l ∷ more) = l ++ concat more

-- Whether a text ends in a newline; an empty one as `b` says.
unfoldable pub ends_line : Bool → Bytes → Bool
ends_line b [] = b
ends_line b (c ∷ s) = ends_line (c == newline) s

abbrev pub closed : Bytes → Bytes
closed s = if ends_line true s then s else s ++ newline ∷ []

-- manifest_set, on the text of the manifest, empty when there is none; a line is a C string
unfoldable pub manifest_set : Bytes → Bytes → Bytes → Bytes
unfolding others concat ends_line fgets_lines c_str
manifest_set name full text =
    closed (concat (others name (map c_str (fgets_lines 1024 1023 [] text))))
    ++ (full ++ newline ∷ [])

abbrev account_commands : List Bytes
account_commands =
    codes "add"
    ∷ codes "status"
    ∷ codes "checkout"
    ∷ codes "restore"
    ∷ codes "merge"
    ∷ codes "cherry-pick"
    ∷ codes "rm"
    ∷ codes "diff"
    ∷ []

unfoldable pub needs_accounts : Bytes → Bool
unfolding named_in
needs_accounts sub = named_in account_commands sub

-- isalnum in the C locale, or one of ._/-
abbrev ref_byte : ℕ → Bool
ref_byte c =
    ((leb b'0' c && leb c b'9') || ((leb b'A' c && leb c b'Z') || (leb b'a' c && leb c b'z')))
    || ((c == b'.' || c == b'_') || (c == b'/' || c == b'-'))

unfoldable pub ref_bytes : Bytes → Bool
ref_bytes [] = true
ref_bytes (c ∷ r) = ref_byte c && ref_bytes r

unfoldable pub ref_ok : Bytes → Bool
unfolding ref_bytes
ref_ok [] = false
ref_ok (c ∷ r) = ref_bytes (c ∷ r)

-- subdir_is_account, over the directories and the other names that are there
module _ (is_dir there : Bytes → Bool) where
  unfoldable pub subdir_is_account : Bytes → Bytes → Bool
  subdir_is_account root name =
      let p = clip 4096 (root ++ b'/' ∷ name) in
      is_dir p
      && ((there (clip 4200 (p ++ codes "/.udt")) || there (clip 4200 (p ++ codes "/.mvx")))
          || ((there (clip 4200 (p ++ codes "/.uv"))
                || there (clip 4200 (p ++ codes "/.mv-account")))
              || there (clip 4096 (root ++ b'/' ∷ (name ++ codes "/VOC")))))
