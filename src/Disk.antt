-- ===== src/Disk.antt =====
-- The plain-file pass of a wholesale add (src/mvxgit.c): the callback addall_skip, which keeps that
-- pass away from what the record pass stages, and the account's list of ignored names. stat and
-- fnmatch are parameters; a text file is its bytes.
pub mod Skip
pub mod Ignore
use mv_git.Base.{
  ℕ, zero, suc, ◌+◌, ◌-◌, Bool, true, false, not, ◌&&◌, ◌||◌, List, [], ◌∷◌, ◌++◌, Option, none,
  some, ltb, leb, ◌==◌, if◌then◌else◌, length, take, drop, get_or,
}
use mv_git.Build.{Build}
use mv_git.Bytes.{Bytes, codes, newline, bytes_eq, starts_with, ends_with, case_eq, clip, has_slash}
use mv_git.Control.{is_gap, skip_gaps}
use mv_git.Furniture.{named_in, upto, account_furniture}
use mv_git.Index.{split_top}
use mv_git.Paths.{unprefix, is_file_control}
use mv_git.Record.{is_empty}

abbrev pub store_name : Bytes
store_name = codes "mvxdata."

-- objext: compiled BASIC on each host
abbrev pub object_names : List Bytes
object_names =
    codes ".so"
    ∷ codes ".dll"
    ∷ codes ".dylib"
    ∷ codes ".sl"
    ∷ codes ".so.el"
    ∷ codes ".dll.el"
    ∷ codes ".dylib.el"
    ∷ codes ".sl.el"
    ∷ []

-- a name with one of the extensions behind at least one byte
unfoldable pub ends_like : List Bytes → Bytes → Bool
unfolding case_eq
ends_like [] top = false
ends_like (e ∷ more) top =
    (ltb (length e) (length top) && case_eq (drop (length top - length e) top) e)
    || ends_like more top

-- the descriptors that an add stages on purpose
abbrev pub descriptors : List Bytes
descriptors = codes ".mv-account" ∷ codes ".udt" ∷ codes ".uv" ∷ codes ".jbase" ∷ []

-- `exists` is whether stat finds a path, `has` is caller_has_file.
module _ (b : Build) (exists has : Bytes → Bool) where
  -- a jBASE dictionary, its data file, an object and a catalogued object
  unfoldable pub jbase_skip : Bytes → Bytes → Bool
  unfolding ends_with ends_like upto has_slash
  jbase_skip rel top =
      (ltb 2 (length top) && ends_with (codes "]D") top)
      || (exists (top ++ codes "]D")
          || (ends_like object_names top
              || ((has_slash rel && get_or (drop (suc (length (upto b'/' rel))) rel) 0 0 == b'$')
                  || get_or top 0 0 == b'$')))

  abbrev is_dict_of : Bytes → Bool
  is_dict_of base =
      has base
      || ((ltb 2 (length base) && ends_with (codes ".O") base) && has (take (length base - 2) base))

  -- D_ and the name of a file, or of its object file
  unfoldable pub dict_beside : Bytes → Bytes → Bool
  unfolding starts_with ends_with bytes_eq
  dict_beside rel top =
      (starts_with (codes "D_") top && bytes_eq top rel) && is_dict_of (drop 2 top)

  -- a directory with a .git of its own
  abbrev pub is_submodule : Bytes → Bool → Bool
  is_submodule top inside = not (is_empty top) && (inside && exists (top ++ codes "/.git"))

  -- at the repository's root, a directory that is an account
  abbrev pub is_account_dir : Bytes → Bytes → Bool → Bool
  is_account_dir prefix top inside =
      is_empty prefix && (inside && (exists (top ++ codes "/VOC") || exists (top ++ codes "/.mvx")))

  -- What is left alone among the account's own paths; `inside` is that the path lies in a directory.
  abbrev pub skip_in : Bytes → Bytes → Bytes → Bool → Bool
  skip_in prefix rel top inside =
      starts_with store_name rel
      || (is_submodule top inside
          || ((b.jbase && jbase_skip rel top)
              || (is_account_dir prefix top inside
                  || (account_furniture b top
                      || ((inside && has top)
                          || (dict_beside rel top
                              || (is_file_control rel || named_in descriptors rel)))))))

  abbrev skip_rel : Bytes → Option Bytes → Bool
  skip_rel prefix none = true
  skip_rel prefix (some rel) =
      let top = split_top 256 rel in skip_in prefix rel top (not (bytes_eq top rel))

  -- addall_skip: true is to leave the path alone
  unfoldable pub addall_skip : Bytes → Bytes → Bool
  unfolding starts_with jbase_skip account_furniture dict_beside is_file_control named_in split_top
      bytes_eq
  addall_skip prefix path = starts_with store_name path || skip_rel prefix (unprefix prefix path)

-- what is read at the end of a file
abbrev pub last_line : Bytes → List Bytes
last_line [] = []
last_line (c ∷ line) = (c ∷ line) ∷ []

-- fgets with a buffer of `left + 1` bytes at the start of a line, on the rest of a file: the line so
-- far is `line`.
unfoldable pub fgets_lines : ℕ → ℕ → Bytes → Bytes → List Bytes
fgets_lines cap left line [] = last_line line
fgets_lines cap left line (c ∷ s) =
    let full = c == newline || left == 1 in
    let rest =
      fgets_lines cap (if full then cap - 1 else left - 1) (if full then [] else line ++ c ∷ [])
        s in
    if full then (line ++ c ∷ []) ∷ rest else rest

abbrev keep_shown : ℕ → Bytes → Bytes
keep_shown c [] = if c == newline || (c == 13 || c == b' ') then [] else c ∷ []
keep_shown c (d ∷ r) = c ∷ d ∷ r

-- without newlines, carriage returns and blanks at the end
unfoldable pub trim_line : Bytes → Bytes
trim_line [] = []
trim_line (c ∷ s) = keep_shown c (trim_line s)

-- the pattern of a line, behind blanks and tabs; none for an empty line and a comment
abbrev pub pattern_at : Bytes → Option Bytes
pattern_at [] = none
pattern_at (c ∷ p) = if c == b'#' then none else some (clip 256 (c ∷ p))

unfoldable pub pattern_of : Bytes → Option Bytes
unfolding trim_line skip_gaps
pattern_of line = pattern_at (skip_gaps (trim_line line))

-- The patterns of the lines, while there is room for `room` of them.
unfoldable pub patterns : ℕ → List Bytes → List Bytes
unfolding pattern_of
patterns room [] = []
patterns zero (line ∷ more) = []
patterns (suc room) (line ∷ more) = elim (pattern_of line) [
  | none ↦ patterns (suc room) more
  | some p ↦ p ∷ patterns room more
]

-- load_ignores, on the text of GITIGNORE
unfoldable pub load_ignores : Bytes → List Bytes
unfolding fgets_lines patterns
load_ignores text = patterns 128 (fgets_lines 512 511 [] text)

-- `fnmatch pathname pattern text` is whether fnmatch answers 0; `pathname` is the flag.
module _ (fnmatch : Bool → Bytes → Bytes → Bool) where
  unfoldable pub matched_by : List Bytes → Bytes → Bytes → Bool
  matched_by [] file path = false
  matched_by (p ∷ more) file path =
      (fnmatch false p file || fnmatch true p path) || matched_by more file path

  unfoldable pub ignored : Bytes → Bytes → Bytes → Bool
  unfolding matched_by load_ignores
  ignored text file path = matched_by (load_ignores text) file path
