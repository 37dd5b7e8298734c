-- ===== src/Virtual.antt =====
-- The expressions of virtual fields (src/mvxgit.c): the reading of `TRANS(file,key,target,control)`,
-- the dictionaries that it is resolved through, and the two ways between the open spelling and
-- UniData's. A dictionary source is a parameter: `items` gives, for a file, what stands under
-- `<file>.DICT/` in the tree or in the index, each item's name with the text of its blob. A text
-- holds no NUL, and an attribute number fits an int.
pub mod Whole
pub mod Names
pub mod Split
pub mod Lookup
pub mod Trip
pub mod Keep
use mv_git.Base.{
  ℕ, zero, suc, ◌+◌, ◌-◌, Bool, true, false, not, ◌&&◌, ◌||◌, List, [], ◌∷◌, ◌++◌, map, Option,
  none, some, ltb, leb, ◌==◌, if◌then◌else◌, ◌>>=◌, length, take, drop, get_or,
}
use mv_git.Bytes.{Bytes, codes, am, newline, bytes_eq, case_starts, clip, has_slash}
use mv_git.Bytes.Split.{put_first}
use mv_git.Control.{is_gap, skip_gaps}
use mv_git.Record.{rtrim, attr_of, rec_is_itype, rec_set_attr2, first, is_empty}
use mv_git.Session.{leading, atoi}
use mv_git.Wire.{all_digits, show}

-- An int that may fall below zero.
pub data ℤ : Type 0 where
  pos : ℕ → ℤ
  negsuc : ℕ → ℤ

unfoldable pub deeper : ℤ → ℤ
deeper (ℤ.pos n) = pos (suc n)
deeper (ℤ.negsuc zero) = pos 0
deeper (ℤ.negsuc (suc n)) = negsuc n

unfoldable pub shallower : ℤ → ℤ
shallower (ℤ.pos zero) = negsuc 0
shallower (ℤ.pos (suc n)) = pos n
shallower (ℤ.negsuc n) = negsuc (suc n)

abbrev pub at_top : ℤ → Bool
at_top (ℤ.pos zero) = true
at_top (ℤ.pos (suc n)) = false
at_top (ℤ.negsuc n) = false

-- is_num
unfoldable pub is_num : Bytes → Bool
unfolding all_digits
is_num [] = false
is_num (c ∷ s) = all_digits (c ∷ s)

abbrev pub quote_mark : ℕ
quote_mark = b'\''

abbrev pub is_quote : ℕ → Bool
is_quote c = c == quote_mark || c == b'"'

-- What the loop keeps between two bytes: the quote it stands in, 0 for none, and the depth.
pub record Scan : Type 0 where
  pub quote : ℕ
  pub depth : ℤ

abbrev pub outside : ℤ → Scan
outside d = record { quote = 0; depth = d }

unfoldable pub scan_byte : Scan → ℕ → Scan
unfolding deeper shallower
scan_byte r c =
    if not (r.quote == 0)
    then record r { quote = if c == r.quote then 0 else r.quote }
    else if is_quote c
    then record r { quote = c }
    else if c == b'('
    then record r { depth = deeper r.depth }
    else if c == b')'
    then record r { depth = shallower r.depth }
    else r

-- a comma at depth 0 and outside of quotes
unfoldable pub ends_arg : Scan → ℕ → Bool
ends_arg r c = r.quote == 0 && (c == b',' && at_top r.depth)

-- The texts between such commas, up to the closing bracket of the TRANS.
unfoldable pub arg_texts : Scan → Bytes → List Bytes
unfolding scan_byte ends_arg
arg_texts r [] = [] ∷ []
arg_texts r (c ∷ s) =
    let rest = arg_texts (scan_byte r c) s in if ends_arg r c then [] ∷ rest else put_first c rest

unfoldable pub skip_blanks : Bytes → Bytes
skip_blanks [] = []
skip_blanks (c ∷ s) = let rest = skip_blanks s in if c == b' ' then rest else c ∷ s

-- an argument as it is copied: no blanks around it, and 255 bytes of it
unfoldable pub copy_arg : Bytes → Bytes
unfolding skip_blanks
copy_arg s = clip 256 (rtrim b' ' (skip_blanks s))

abbrev keep_text : ℕ → Bytes → Bytes
keep_text c [] = if is_gap c then [] else c ∷ []
keep_text c (d ∷ r) = c ∷ d ∷ r

unfoldable pub drop_gaps : Bytes → Bytes
drop_gaps [] = []
drop_gaps (c ∷ s) = keep_text c (drop_gaps s)

abbrev pub last_is : ℕ → Bytes → Bool
last_is b s = get_or s (length s - 1) 0 == b

abbrev pub trans_word : Bytes
trans_word = codes "TRANS("

-- The arguments of a TRANS, all of them; trans_split counts these and copies the first four.
abbrev split_text : Bytes → List Bytes
split_text s =
    if ltb (length s) 8 || (not (case_starts trans_word s) || not (last_is b')' s))
    then []
    else map copy_arg (arg_texts (outside (pos 0)) (take (length s - 7) (drop 6 s)))

unfoldable pub trans_split : Bytes → List Bytes
unfolding skip_gaps drop_gaps arg_texts copy_arg
trans_split spec = split_text (drop_gaps (skip_gaps spec))

abbrev pub arg : List Bytes → ℕ → Bytes
arg a i = get_or a i []

abbrev pub unquote_with : ℕ → Bytes → Bytes
unquote_with q s = if is_quote q && last_is q (q ∷ s) then take (length s - 1) s else q ∷ s

unfoldable pub unquote : Bytes → Bytes
unquote [] = []
unquote (q ∷ []) = q ∷ []
unquote (q ∷ c ∷ s) = unquote_with q (c ∷ s)

-- A name in a buffer of `cap` bytes, without the quotes around it.
unfoldable pub bare : ℕ → Bytes → Bytes
unfolding unquote
bare cap s = unquote (clip cap s)

-- strcmp(a, b) < 0
unfoldable pub str_less : Bytes → Bytes → Bool
str_less a [] = false
str_less [] (y ∷ ys) = true
str_less (x ∷ xs) (y ∷ ys) = ltb x y || (x == y && str_less xs ys)

unfoldable pub find_item : Bytes → List (Bytes × Bytes) → Option Bytes
unfolding bytes_eq
find_item name [] = none
find_item name ((n, text) ∷ rest) = if bytes_eq n name then some text else find_item name rest

abbrev is_d : Bytes → Bool
is_d [] = false
is_d (c ∷ s) = c == b'D' || c == b'd'

abbrev pub is_control_name : Bytes → Bool
is_control_name [] = false
is_control_name (c ∷ s) = c == b'%'

abbrev pub int_is : Bool × ℕ → ℕ → Bool
int_is (minus, n) attribute = not minus && n == attribute

-- A D item that describes attribute `attribute`.
unfoldable pub describes : ℕ → Bytes × Bytes → Bool
unfolding attr_of has_slash atoi
describes attribute (name, text) =
    let loc = attr_of text newline 2 64 in
    not (is_control_name name || has_slash name)
    && (is_d (attr_of text newline 1 8) && (int_is (atoi loc) attribute && not (is_empty loc)))

abbrev pub lower_name : Bytes → Bytes → Bytes
lower_name name out = if is_empty out || str_less name out then clip 256 name else out

-- The loop over the items; an empty `out` is no name yet.
unfoldable pub lowest_name : ℕ → List (Bytes × Bytes) → Bytes → Bytes
unfolding describes str_less
lowest_name attribute [] out = out
lowest_name attribute (item ∷ rest) out =
    lowest_name attribute rest (if describes attribute item then lower_name item.0 out else out)

abbrev pub found_name : Bytes → Option Bytes
found_name out = if is_empty out then none else some out

unfoldable pub name_for_attr : ℕ → List (Bytes × Bytes) → Option Bytes
unfolding lowest_name
name_for_attr attribute items =
    if attribute == 0 then none else found_name (lowest_name attribute items [])

abbrev pub or_x : Bytes → Bytes
or_x ctl = if is_empty ctl then codes "X" else ctl

abbrev pub quoted : Bytes → Bytes
quoted s = quote_mark ∷ (s ++ quote_mark ∷ [])

abbrev pub print_trans : Bytes → Bytes → Bytes → Bytes → Bytes
print_trans file key target ctl =
    trans_word ++ (file ++ b',' ∷ (key ++ b',' ∷ (target ++ b',' ∷ (ctl ++ b')' ∷ []))))

abbrev pub name_or_number : Bytes → Bytes
name_or_number tgt = if is_num tgt then tgt else quoted tgt

-- the last two statements of ispec_expand
unfoldable pub spell : Bytes → Bytes → Bytes → Bytes → Bytes
unfolding is_num
spell file key tgt ctl =
    clip 2048 (print_trans (quoted file) key (name_or_number tgt) (quoted (or_x ctl)))

-- the last snprintf of ispec_to_open
unfoldable pub spell_open : Bytes → Bytes → Bytes → Bytes → Bytes
spell_open file num tgt ctl = clip 1024 (print_trans file (clip 32 num) tgt (or_x ctl))

-- A key by its name: a number is an attribute of the dictionary.
unfoldable pub key_name : List (Bytes × Bytes) → Bytes → Option Bytes
unfolding is_num
key_name dict key = if is_num key then name_for_attr (leading 0 key) dict else some key

-- One link of a chain: the file, the key expression, the target and the control that are next.
pub record Link : Type 0 where
  pub file : Bytes
  pub key : Bytes
  pub target : Bytes
  pub ctl : Bytes

abbrev link_with : List Bytes → Bytes → Bytes → Bytes → Bytes → Link
link_with a file key ctl k2name = record {
  file = bare 256 (arg a 0);
  key = clip 1024 (print_trans (quoted file) key (quoted k2name) (quoted (or_x ctl)));
  target = arg a 2;
  ctl = or_x (bare 16 (arg a 3));
}

module _ (items : Bytes → List (Bytes × Bytes)) where
  -- ds_read
  abbrev pub ds_read : Bytes → Bytes → Option Bytes
  ds_read file item = find_item item (items file)

  -- ds_name_for_attr
  abbrev pub ds_name_for_attr : Bytes → ℕ → Option Bytes
  ds_name_for_attr file attribute = name_for_attr attribute (items file)

  -- When the target names an I item of the file whose expression is a TRANS, the chain goes on.
  abbrev link_in : Bytes → Bytes → Bytes → Bytes → Option Link
  link_in file key ctl text =
      let a = trans_split (attr_of text newline 2 256) in
      if not (rec_is_itype text newline) || ltb (length a) 3 then none else do
        k2name ← key_name (items file) (bare 256 (arg a 1))
        some (link_with a file key ctl (clip 256 k2name))

  unfoldable pub next_link : Bytes → Bytes → Bytes → Bytes → Option Link
  unfolding trans_split attr_of key_name is_num find_item bare rec_is_itype
  next_link file key tgt ctl =
      if is_num tgt then none else do text ← ds_read file tgt; link_in file key ctl text

  -- ispec_expand, with `left` the levels until the cap of 8
  unfoldable pub ispec_expand : ℕ → Bytes → Bytes → Bytes → Bytes → Bytes
  unfolding next_link spell bare
  ispec_expand zero file key target ctl = spell file key (bare 256 target) ctl
  ispec_expand (suc left) file key target ctl =
      let tgt = bare 256 target in
      elim (next_link file key tgt ctl) [
        | none ↦ spell file key tgt ctl
        | some l ↦ ispec_expand left l.file l.key l.target l.ctl
      ]

  abbrev udt_of : Bytes → List Bytes → Option Bytes
  udt_of self a = do
    keyname ← key_name (items self) (bare 256 (arg a 1))
    some (
        ispec_expand 8 (bare 256 (arg a 0)) (clip 256 keyname) (arg a 2) (or_x (bare 16 (arg a 3))))

  unfoldable pub ispec_to_udt : Bytes → Bytes → Option Bytes
  unfolding trans_split bare key_name ispec_expand
  ispec_to_udt self spec =
      let a = trans_split spec in if ltb (length a) 3 then none else udt_of self a

  -- The number of a key: itself, or the location of the dictionary item that it names.
  unfoldable pub key_number : Bytes → Bytes → Option Bytes
  unfolding is_num find_item attr_of
  key_number self key = if is_num key then some key else do
    text ← ds_read self key
    let loc = attr_of text newline 2 64
    if is_num loc then some (clip 32 loc) else none

  abbrev open_of : Bytes → List Bytes → Option Bytes
  open_of self a = do
    num ← key_number self (bare 256 (arg a 1))
    some (spell_open (bare 256 (arg a 0)) num (bare 256 (arg a 2)) (bare 16 (arg a 3)))

  unfoldable pub ispec_to_open : Bytes → Bytes → Option Bytes
  unfolding trans_split bare key_number spell_open
  ispec_to_open self spec =
      let a = trans_split spec in
      if ltb (length a) 3 || case_starts trans_word (arg a 1) then none else open_of self a

  -- an expression of git's, when translating it gives what the account holds
  abbrev pub kept_spec : Bytes → Bytes → Bytes → Option Bytes
  kept_spec self spec was = do
    fwd ← ispec_to_udt self was
    if bytes_eq fwd spec then some was else none

  abbrev pub kept_copy : Bytes → Bytes → Option Bytes → Option Bytes
  kept_copy self spec none = none
  kept_copy self spec (some blob) = kept_spec self spec (attr_of blob newline 2 512)

  abbrev pub canonical : Bytes → Bytes → Option Bytes → Option Bytes
  canonical self spec committed = first (kept_copy self spec committed) (ispec_to_open self spec)

  -- open_dict_ispec: `committed` is the blob at the item's path, of the index or else of HEAD
  unfoldable pub open_dict_ispec : Bytes → Bytes → Option Bytes → Option Bytes
  unfolding rec_is_itype attr_of ispec_to_udt ispec_to_open rec_set_attr2 bytes_eq
  open_dict_ispec self s committed =
      if not (rec_is_itype s am)
      then none
      else do canon ← canonical self (attr_of s am 2 512) committed; rec_set_attr2 s am canon
