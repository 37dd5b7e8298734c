-- ===== src/Control.antt =====
-- The %FILE% control of a dictionary (src/mvxgit.c): the class of a file and its size, in the open
-- form `DIR` or `hash <modulo> <kind>` and in the native form `FILE<VM>type`.
pub mod Class
pub mod Part
pub mod Sticky
use mv_git.Base.{
  ℕ, zero, suc, ◌+◌, ◌-◌, Bool, true, false, not, ◌&&◌, ◌||◌, List, [], ◌∷◌, ◌++◌, Option, none,
  some, ltb, leb, ◌==◌, if◌then◌else◌, length, take, drop, get_or,
}
use mv_git.Bytes.{
  Bytes, codes, vm, newline, bytes_eq, starts_with, ends_with, case_eq, case_starts, c_str, clip,
}
use mv_git.Furniture.{upto}
use mv_git.Session.{leading}
use mv_git.Wire.{show, is_digit}

-- a newline, a carriage return, a blank or a tab
unfoldable pub is_white : ℕ → Bool
is_white c = c == newline || (c == 13 || (c == b' ' || c == 9))

abbrev pub is_gap : ℕ → Bool
is_gap c = c == b' ' || c == 9

abbrev pub keep_dark : ℕ → Bytes → Bytes
keep_dark c [] = if is_white c then [] else c ∷ []
keep_dark c (d ∷ r) = c ∷ d ∷ r

-- the loop that drops white bytes at the end
unfoldable pub trim_end : Bytes → Bytes
unfolding is_white
trim_end [] = []
trim_end (c ∷ s) = keep_dark c (trim_end s)

-- the loop over blanks and tabs in front
unfoldable pub skip_gaps : Bytes → Bytes
skip_gaps [] = []
skip_gaps (c ∷ s) = let rest = skip_gaps s in if is_gap c then rest else c ∷ s

unfoldable pub skip_digits : Bytes → Bytes
skip_digits [] = []
skip_digits (c ∷ s) = let rest = skip_digits s in if is_digit c then rest else c ∷ s

-- is_open_control, on content that is there
unfoldable pub is_open_control : Bytes → Bool
is_open_control c = case_starts (codes "DIR") c || case_starts (codes "hash") c

-- a native control: `FILE` and a value mark
abbrev pub is_native : Bytes → Bool
is_native c = starts_with (codes "FILE") c && get_or c 4 0 == vm

-- the second value of a native control
abbrev pub native_kind : Bytes → Bytes
native_kind c = upto vm (drop 5 c)

abbrev pub class_of : Bytes → Option Bytes
class_of c =
    if case_starts (codes "DIR") c && (length c == 3 || is_gap (get_or c 3 0))
    then some (codes "DIR")
    else if case_starts (codes "hash") c
    then some (codes "hash")
    else if is_native c
    then if case_eq (native_kind c) (codes "dir") then some (codes "DIR") else some (codes "hash")
    else none

-- control_open: the class of a control, `none` for content that is not one
unfoldable pub control_open : Bytes → Option Bytes
unfolding upto
control_open c = class_of (trim_end c)

abbrev kind_word : Bytes → Bytes
kind_word s = if case_starts (codes "STATIC") s then codes "STATIC" else codes "DYNAMIC"

-- what stands behind `hash`: a modulo and the kind of the file
unfoldable pub hash_spec : Bytes → Bytes
unfolding skip_gaps skip_digits
hash_spec s =
    let p = skip_gaps s in
    let size = leading 0 p in
    if size == 0
    then []
    else codes "hash " ++ (show size ++ b' ' ∷ kind_word (skip_gaps (skip_digits p)))

abbrev pub type_of : Bytes → Bytes
type_of c =
    if length c == 3 && case_starts (codes "DIR") c
    then codes "DIR"
    else if case_starts (codes "hash") c
    then hash_spec (drop 4 c)
    else if is_native c && case_eq (native_kind c) (codes "dir")
    then codes "DIR"
    else []

-- control_type: the CREATE-FILE type, from the first line, in a buffer of `cap` bytes
unfoldable pub control_type : ℕ → Bytes → Bytes
unfolding upto hash_spec
control_type cap c = clip cap (type_of (trim_end (upto newline c)))

-- control_driver: the backend that a native control names
unfoldable pub control_driver : ℕ → Bytes → Bytes
unfolding upto trim_end
control_driver cap c =
    let kind = trim_end (native_kind c) in
    if is_native c
    then if length kind == 0 || leb cap (length kind)
      then []
      else if case_eq kind (codes "dir")
      then []
      else clip cap kind
    else []

-- MVCTL_DATA, MVCTL_DICT and MVCTL_BOTH
pub data Halves : Type 0 where
  data_half : Halves
  dict_half : Halves
  both_halves : Halves

unfoldable pub halves_value : Bytes → Halves
halves_value v =
    if case_starts (codes "data") v
    then data_half
    else if case_starts (codes "dict") v
    then dict_half
    else both_halves

-- `whole` is whether a field may begin here: at the start, or behind a blank, a tab or a value mark.
unfoldable pub halves_loop : Bool → Bytes → Halves
unfolding halves_value
halves_loop whole [] = both_halves
halves_loop whole (c ∷ s) =
    let rest = halves_loop (is_gap c || c == vm) s in
    if whole && case_starts (codes "halves=") (c ∷ s) then halves_value (drop 6 s) else rest

unfoldable pub control_halves : Bytes → Halves
control_halves c = halves_loop true c

-- What git knows of a file's control: what is staged, else what is committed.
abbrev pub known_control : (Bytes → Option Bytes) → (Bytes → Option Bytes) → Bytes → Option Bytes
known_control staged committed base = elim (staged base) [ some c ↦ some c | none ↦ committed base ]

abbrev pub sticky_with : Bytes → Option Bytes → Bytes
sticky_with content none = content
sticky_with content (some keep) = if starts_with (codes "hash") keep then keep else content

abbrev pub control_suffix : Bytes
control_suffix = codes ".DICT/%FILE%"

-- mv_git_sticky_control: the content to stage for `path`; the index and HEAD are parameters
unfoldable pub sticky_control :
    (Bytes → Option Bytes) → (Bytes → Option Bytes) → Bytes → Bytes → Bytes
sticky_control staged committed path content =
    let base = clip 512 (take (length path - length control_suffix) path) in
    if ltb (length control_suffix) (length path) && ends_with control_suffix path
    then if starts_with (codes "hash") content
      then sticky_with content (known_control staged committed base)
      else content
    else content
