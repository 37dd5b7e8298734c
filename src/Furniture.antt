-- ===== src/Furniture.antt =====
-- What a wholesale add leaves out (src/mvxgit.c, src/gitd_rt.c): the furniture of an account, the
-- class of a master-file record, and the two filters that answer over a list of candidates. A
-- list is the bytes of a C string: entries with an attribute mark between them.
pub mod Scan
pub mod Names
pub mod Filter
use mv_git.Base.{
  ℕ, zero, suc, ◌-◌, Bool, true, false, ◌&&◌, ◌||◌, List, [], ◌∷◌, ◌++◌, Option, none, some, ltb,
  leb, ◌==◌, if◌then◌else◌, length, take, drop, get_or,
}
use mv_git.Build.{Build}
use mv_git.Bytes.{Bytes, codes, am, vm, bytes_eq, starts_with, ends_with, case_eq}
use mv_git.Bytes.Split.{split}

-- the loop over a table of names
unfoldable pub named_in : List Bytes → Bytes → Bool
unfolding bytes_eq
named_in [] name = false
named_in (n ∷ more) name = bytes_eq name n || named_in more name

-- sysfile: each platform's own list
abbrev udt_files : List Bytes
udt_files =
    codes "__SCHEMA__MAP"
    ∷ codes "__SCHEMA__PROC"
    ∷ codes "__V__VIEW"
    ∷ codes "privilege"
    ∷ codes "voc"
    ∷ codes "UD_SQLTABLES"
    ∷ codes "savedlists"
    ∷ codes "SAVEDLISTS"
    ∷ codes "CTLG"
    ∷ codes "MENUFILE"
    ∷ []

unfoldable pub sysfile : Build → List Bytes
sysfile b = if b.udt then udt_files else if b.gitd then codes "VOCLIB" ∷ [] else []

abbrev catalog : List Bytes
catalog = codes "CATALOG" ∷ codes "LIB" ∷ codes "CTLG" ∷ codes "bin" ∷ codes "lib" ∷ []

abbrev master_dicts : List Bytes
master_dicts = codes "VOC.DICT" ∷ codes "MD.DICT" ∷ []

-- a name that is wrapped in `mark`
abbrev wrapped : ℕ → Bytes → Bool
wrapped mark name = get_or name 0 0 == mark && get_or name (length name - 1) 0 == mark

-- The tests of mv_account_furniture that look at the name alone.
unfoldable pub named_furniture : Build → Bytes → Bool
unfolding named_in sysfile starts_with
named_furniture b name =
    (b.udt && (ltb 6 (length name) && starts_with (codes "DV_SQL") name))
    || (named_in (sysfile b) name
        || (named_in catalog name
            || ((leb 2 (length name) && (wrapped b'_' name || wrapped b'&' name))
                || named_in master_dicts name)))

-- `&&` whose second half is a call, made only when the first half holds
abbrev pub and_then : Bool → (Bytes → Bool) → Bytes → Bool
and_then false f name = false
and_then true f name = f name

abbrev pub is_d_dict : Bytes → Bool
is_d_dict name = ltb 2 (length name) && starts_with (codes "D_") name

abbrev pub is_dot_dict : Bytes → Bool
is_dot_dict name = ltb 5 (length name) && ends_with (codes ".DICT") name

abbrev pub dot_stem : Bytes → Bytes
dot_stem name = take (length name - 5) name

-- mv_account_furniture on fuel: a call is on a shorter name, so its length is enough.
unfoldable pub furniture : Build → ℕ → Bytes → Bool
furniture b zero name = false
furniture b (suc fuel) name =
    named_furniture b name
    || (and_then (is_d_dict name) (furniture b fuel) (drop 2 name)
        || and_then (is_dot_dict name) (furniture b fuel) (dot_stem name))

unfoldable pub account_furniture : Build → Bytes → Bool
account_furniture b name = furniture b (suc (length name)) name

-- mv_voc_class over the table of one platform
unfoldable pub voc_class : List (Bytes × ℕ) → Bytes → ℕ
unfolding case_eq
voc_class [] ty = 0
voc_class ((name, class) ∷ rest) ty = if case_eq ty name then class else voc_class rest ty

-- the table of the background process, shared with UniData
abbrev pub gitd_classes : List (Bytes × ℕ)
gitd_classes =
    (codes "V", 1)
    ∷ (codes "K", 1)
    ∷ (codes "C", 1)
    ∷ (codes "F", 2)
    ∷ (codes "LF", 2)
    ∷ (codes "DF", 2)
    ∷ (codes "DIR", 2)
    ∷ (codes "Q", 2)
    ∷ (codes "R", 2)
    ∷ []

-- the table of an MVX account
abbrev pub mvx_classes : List (Bytes × ℕ)
mvx_classes = (codes "V", 1) ∷ (codes "F", 2) ∷ (codes "DIR", 2) ∷ (codes "Q", 2) ∷ []

-- The bytes in front of the first `stop`, all of them when there is none.
unfoldable pub upto : ℕ → Bytes → Bytes
upto stop [] = []
upto stop (c ∷ s) = let rest = upto stop s in if c == stop then [] else c ∷ rest

-- voc_class_of: the class of a record, by the first token of its first attribute
unfoldable pub voc_class_of : List (Bytes × ℕ) → Bytes → ℕ
unfolding upto voc_class
voc_class_of table record_bytes = voc_class table (upto b' ' (upto am record_bytes))

-- How both filters write an entry's answer: behind a mark unless it is the first byte out.
abbrev pub put_entry : Bytes → Option Bytes → Bytes
put_entry out none = out
put_entry [] (some e) = e
put_entry (c ∷ out) (some e) = c ∷ (out ++ am ∷ e)

-- The loop of both filters: `entry` is what was read of the current entry, `pick` its answer.
unfoldable pub filter_loop : (Bytes → Option Bytes) → Bytes → Bytes → Bytes → Bytes
filter_loop pick out entry [] = put_entry out (pick entry)
filter_loop pick out entry (c ∷ s) =
    filter_loop pick (if c == am then put_entry out (pick entry) else out)
      (if c == am then [] else entry ++ c ∷ []) s

-- an entry is kept whole unless it is empty or its name is furniture
unfoldable pub carried : Build → Bytes → Option Bytes
unfolding upto
carried b [] = none
carried b (c ∷ s) = if account_furniture b (upto vm (c ∷ s)) then none else some (c ∷ s)

-- mv_git_filter_furniture
unfoldable pub filter_furniture : Build → Bytes → Bytes
filter_furniture b list = filter_loop (carried b) [] [] list

-- an entry's id is dropped when its type, the first token behind the value mark, has class 1
unfoldable pub vocdropped : List (Bytes × ℕ) → Bytes → Option Bytes
unfolding upto voc_class
vocdropped table entry =
    let id = upto vm entry in
    let class = voc_class table (upto b' ' (drop (suc (length id)) entry)) in
    if ltb (length id) (length entry) then if class == 1 then some id else none else none

-- mv_git_filter_vocdrop
unfoldable pub filter_vocdrop : List (Bytes × ℕ) → Bytes → Bytes
filter_vocdrop table list = filter_loop (vocdropped table) [] [] list
