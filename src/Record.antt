-- ===== src/Record.antt =====
-- Records and their attributes (src/mvxgit.c): the blob form, the attribute accessors, the
-- dictionary-item swap and the projection of a dictionary record into the open form. A record is a
-- byte string whose attributes lie between separators; attributes are counted from 1 in the C code
-- and in `attr_of`, from 0 in `attr`.
pub mod Attr
pub mod Slots
pub mod Blob
pub mod Swap
pub mod Depth
pub mod Project
pub mod Plain
use mv_git.Base.{
  ℕ, zero, suc, Bool, true, false, not, ◌&&◌, ◌||◌, List, [], ◌∷◌, ◌++◌, Option, none, some, ltb,
  ◌==◌, if◌then◌else◌, length, take, get_or, max,
}
use mv_git.Bytes.{Bytes, codes, am, vm, newline, c_str, clip}
use mv_git.Bytes.Split.{split, join}
use mv_git.Build.{Build, opendict, dict_sm_at_6}

unfoldable pub xlate : Bytes → ℕ → ℕ → Bytes
xlate [] from to = []
xlate (c ∷ s) from to = (if c == from then to else c) ∷ xlate s from to

-- mv_git_blobform
abbrev pub blobform : Bytes → Bytes
blobform s = xlate s am newline

-- The attribute at place `k`, from 0; empty when absent.
abbrev pub attr : ℕ → Bytes → ℕ → Bytes
attr sep s k = get_or (split sep s) k []

-- What the caller reads from `out` as a C string; nothing is at place 0.
unfoldable pub attr_of : Bytes → ℕ → ℕ → ℕ → Bytes
unfolding c_str
attr_of s sep zero cap = []
attr_of s sep (suc k) cap = c_str (clip cap (attr sep s k))

-- The loop `for (i = 0; i < slots; i++)` that writes one attribute for each slot.
unfoldable pub slots : ℕ → ℕ → (ℕ → Bytes) → List Bytes
slots zero i write = []
slots (suc k) i write = write i ∷ slots k (suc i) write

abbrev set_slot : List Bytes → ℕ → Bytes → ℕ → Bytes
set_slot att n val i = if suc i == n then val else get_or att i []

-- The arrays hold 40 attributes; the rest of the record is not read.
unfoldable pub rec_set_attr : Bytes → ℕ → ℕ → Bytes → Option Bytes
rec_set_attr s sep n val =
    let att = take 40 (split sep s) in
    let count = max (length att) n in
    if ltb 40 count then none else some (join sep (slots count 0 (set_slot att n val)))

-- `while (len && last byte == b) len--`: a byte stays if one after it stays, or if it is not `b`.
abbrev pub keep : ℕ → ℕ → Bytes → Bytes
keep b c [] = if c == b then [] else c ∷ []
keep b c (d ∷ r) = c ∷ d ∷ r

unfoldable pub rtrim : ℕ → Bytes → Bytes
rtrim b [] = []
rtrim b (c ∷ s) = keep b c (rtrim b s)

-- attribute 1 is one byte, and that byte is D or I
abbrev pub is_item : Bytes → Bool
is_item [] = false
is_item (c ∷ []) = c == b'D' || c == b'I'
is_item (c ∷ d ∷ r) = false

-- attributes 6 and 7 change places
unfoldable pub swapped : ℕ → ℕ
swapped i = if i == 5 then 6 else if i == 6 then 5 else i

unfoldable pub dict_item_swap : Bytes → Option Bytes
unfolding rtrim swapped
dict_item_swap s =
    let att = take 32 (split am s) in
    if not (is_item (get_or att 0 []))
    then none
    else some (rtrim am (join am (slots (max (length att) 7) 0 (λ i. get_or att (swapped i) []))))

abbrev pub is_empty : Bytes → Bool
is_empty [] = true
is_empty (c ∷ s) = false

abbrev pub or_else {ℓ} : {A : Type ℓ} → Option A → A → A
or_else none d = d
or_else (some a) d = a

abbrev pub first {ℓ} : {A : Type ℓ} → Option A → Option A → Option A
first none o = o
first (some a) o = some a

-- An item with an association and no single/multi flag; `asc` and `sm` are the two attributes.
unfoldable pub needs_depth : Bytes → ℕ → ℕ → Bool
unfolding attr_of
needs_depth s asc sm = not (is_empty (attr_of s am asc 128)) && is_empty (attr_of s am sm 8)

-- The step that marks such an item multivalued.
unfoldable pub derive_depth : Bytes → ℕ → ℕ → Option Bytes
derive_depth s asc sm = if needs_depth s asc sm then rec_set_attr s am sm (codes "M") else none

-- the end of open_dict_project: a copy is handed back only when something changed
abbrev finish : Option Bytes → Bytes → Bytes → Option Bytes
finish none s trimmed = if length trimmed == length s then none else some trimmed
finish (some cur) s trimmed = some trimmed

-- `none` is the NULL that says nothing changed.
unfoldable pub open_dict_project : Build → Bytes → Option Bytes
open_dict_project b s =
    let sw = if dict_sm_at_6 b then dict_item_swap s else none in
    let p = or_else sw s in
    let withm = derive_depth p 6 7 in finish (first withm sw) s (rtrim am (or_else withm p))

-- materialize_file, on a dictionary record of an open account: the native layout
unfoldable pub native_dict_record : Build → Bytes → Bytes
native_dict_record b s =
    if opendict b
    then (let p = or_else (dict_item_swap s) s in or_else (derive_depth p 7 6) p)
    else s

-- Replace attribute 2.
abbrev pub set_second : ℕ → List Bytes → Bytes → Option Bytes
set_second sep [] spec = none
set_second sep (a ∷ []) spec = none
set_second sep (a ∷ b ∷ rest) spec = some (join sep (a ∷ spec ∷ rest))

unfoldable pub rec_set_attr2 : Bytes → ℕ → Bytes → Option Bytes
rec_set_attr2 s sep spec = set_second sep (split sep s) spec

abbrev is_i : Bytes → Bool
is_i [] = false
is_i (c ∷ s) = c == b'I' || c == b'i'

unfoldable pub rec_is_itype : Bytes → ℕ → Bool
unfolding attr_of
rec_is_itype s sep = is_i (attr_of s sep 1 8)
