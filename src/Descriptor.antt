-- ===== src/Descriptor.antt =====
-- The account descriptor (src/mvxgit.c): `.mv-account` and the native descriptors share one grammar of
-- `key = value` lines. What is parsed, and the two forms that are written.
pub mod Line
pub mod Number
pub mod Policy
pub mod Trip
use mv_git.Base.{
  ℕ, zero, suc, ◌+◌, ◌-◌, Bool, true, false, ◌&&◌, ◌||◌, List, [], ◌∷◌, ◌++◌, Option, none, some,
  ltb, leb, ◌==◌, if◌then◌else◌, length, get_or,
}
use mv_git.Bytes.{Bytes, codes, newline, case_eq, starts_with, c_str, clip}
use mv_git.Bytes.Split.{split}
use mv_git.Conn.{after_eq}
use mv_git.Control.{is_gap, skip_gaps, trim_end}
use mv_git.Furniture.{upto}
use mv_git.Session.{atoi}
use mv_git.Wire.{show}

-- acct_desc; its buffers hold 128, 32, 256, 32, 32 and 2048 bytes. An open-form version below 0
-- is 0, since it is only ever compared with that.
pub record AcctDesc : Type 0 where
  pub name : Bytes
  pub version : Bytes
  pub description : Bytes
  pub hash : Bytes
  pub openaccount : ℕ
  pub flavour : Bytes
  pub permits : Bytes

abbrev pub blank_desc : AcctDesc
blank_desc = record {
  name = [];
  version = [];
  description = [];
  hash = [];
  openaccount = 0;
  flavour = [];
  permits = [];
}

-- a negative number counts as 0
abbrev pub form_number : Bool × ℕ → ℕ
form_number (false, n) = n
form_number (true, n) = 0

-- The chain of key tests; an unknown key changes nothing.
unfoldable pub set_field : Bytes → Bytes → AcctDesc → AcctDesc
set_field key val d =
    if case_eq key (codes "name")
    then record d { name = clip 128 val }
    else if case_eq key (codes "version")
    then record d { version = clip 32 val }
    else if case_eq key (codes "description")
    then record d { description = clip 256 val }
    else if case_eq key (codes "hash")
    then record d { hash = clip 32 val }
    else if case_eq key (codes "openaccount")
    then record d { openaccount = form_number (atoi val) }
    else if case_eq key (codes "flavour") || case_eq key (codes "flavor")
    then record d { flavour = clip 32 val }
    else d

-- a line of the vendor's policy: the word and a blank or tab behind it
unfoldable pub is_permit : Bytes → Bool
is_permit p =
    (starts_with (codes "permit") p && is_gap (get_or p 6 0))
    || (starts_with (codes "deny") p && is_gap (get_or p 4 0))

-- The policy lines are kept as they are, while there is room.
unfoldable pub add_permit : Bytes → AcctDesc → AcctDesc
add_permit p d =
    if ltb (length d.permits + (length p + 2)) 2048
    then record d { permits = d.permits ++ (p ++ newline ∷ []) }
    else d

abbrev key_value : Bytes → Option Bytes → AcctDesc → AcctDesc
key_value p none d = d
key_value p (some v) d = set_field (trim_end (upto b'=' p)) (trim_end (skip_gaps v)) d

-- A line without the blanks in front of it.
unfoldable pub parse_text : Bytes → AcctDesc → AcctDesc
unfolding set_field is_permit add_permit
parse_text [] d = d
parse_text (c ∷ s) d =
    let p = c ∷ s in
    if c == b'#'
    then d
    else if is_permit p
    then add_permit (trim_end p) d
    else key_value p (after_eq p) d

-- The line's buffer holds 512 bytes.
abbrev pub parse_line : Bytes → AcctDesc → AcctDesc
parse_line line d = parse_text (skip_gaps (c_str (clip 512 line))) d

unfoldable pub parse_lines : List Bytes → AcctDesc → AcctDesc
parse_lines [] d = d
parse_lines (l ∷ ls) d = parse_lines ls (parse_line l d)

-- desc_parse
unfoldable pub desc_parse : Bytes → AcctDesc
desc_parse buf = parse_lines (split newline buf) blank_desc

abbrev pub or_word : Bytes → Bytes → Bytes
or_word word [] = word
or_word word (c ∷ s) = c ∷ s

-- A field that is written only when it is there.
abbrev pub optional : Bytes → Bytes → Bytes
optional key [] = []
optional key (c ∷ s) = key ++ ((c ∷ s) ++ newline ∷ [])

abbrev pub or_one : ℕ → ℕ
or_one zero = 1
or_one (suc n) = suc n

-- desc_render_open: the whole text, of which a buffer of `cap` bytes holds the beginning
unfoldable pub open_text : AcctDesc → Bytes
open_text d =
    codes "# .mv-account - open (portable) account descriptor"
    ++ newline
      ∷ (codes "name = "
          ++ (or_word (codes "account") d.name
              ++ newline
                ∷ (codes "version = "
                    ++ (or_word (codes "1") d.version
                        ++ newline
                          ∷ (codes "openaccount = "
                              ++ (show (or_one d.openaccount)
                                  ++ newline
                                    ∷ (optional (codes "hash = ") d.hash
                                        ++ (optional (codes "description = ") d.description
                                            ++ (optional (codes "flavour = ") d.flavour
                                                ++ d.permits)))))))))

unfoldable pub desc_render_open : ℕ → AcctDesc → Bytes
unfolding open_text
desc_render_open cap d = clip cap (open_text d)

-- desc_render_native_as
unfoldable pub native_text : Bytes → AcctDesc → Bytes
native_text tag d =
    codes "# "
    ++ (tag
        ++ (codes " account descriptor"
            ++ newline
              ∷ (codes "name = "
                  ++ (or_word (codes "account") d.name
                      ++ newline
                        ∷ (codes "version = "
                            ++ (or_word (codes "1") d.version
                                ++ newline
                                  ∷ (optional (codes "description = ") d.description
                                      ++ (optional (codes "flavour = ") d.flavour
                                          ++ d.permits))))))))

unfoldable pub desc_render_native_as : ℕ → Bytes → AcctDesc → Bytes
unfolding native_text
desc_render_native_as cap tag d = clip cap (native_text tag d)

-- mv_git_desc_open
unfoldable pub desc_open : ℕ → Bytes → Bytes → Bytes → Bytes → Bytes
unfolding desc_render_open
desc_open cap name version description hash = desc_render_open cap (record {
  name = clip 128 name;
  version = clip 32 version;
  description = clip 256 description;
  hash = clip 32 hash;
  openaccount = 1;
  flavour = [];
  permits = [];
})

abbrev pub fallback : Bytes → Bytes → Bytes
fallback base [] = clip 128 base
fallback base (c ∷ s) = c ∷ s

abbrev pub named : Bytes → AcctDesc → AcctDesc
named base d = record d { name = fallback base d.name; openaccount = 1 }

abbrev pub carried_text : Bytes → ℕ → Option Bytes → Option Bytes
carried_text base cap none = none
carried_text base cap (some blob) = some (desc_render_open cap (named base (desc_parse blob)))

abbrev pub staged_first : Option Bytes → Option Bytes → Option Bytes
staged_first none committed = committed
staged_first (some blob) committed = some blob

-- desc_carry_open: the staged descriptor, else the committed one, written again; `none` when there
-- is neither
unfoldable pub desc_carry_open : Option Bytes → Option Bytes → Bytes → ℕ → Option Bytes
unfolding desc_parse desc_render_open
desc_carry_open staged committed base cap = carried_text base cap (staged_first staged committed)

-- toupper in the C locale
abbrev to_upper : ℕ → ℕ
to_upper c = if leb b'a' c && leb c b'z' then c - 32 else c

abbrev uppercase : Bytes → Bytes
uppercase [] = []
uppercase (c ∷ s) = to_upper c ∷ uppercase s

abbrev with_flavour : Bytes → AcctDesc → AcctDesc
with_flavour [] d = d
with_flavour (c ∷ s) d = record d { flavour = clip 32 (c ∷ s) }

-- mv_git_desc_adopt: the descriptor's name and its text
unfoldable pub desc_adopt : ℕ → ℕ → Bytes → Bytes → Bytes → Bool → Bytes × Bytes
unfolding desc_parse desc_render_open desc_render_native_as
desc_adopt name_cap cap src platform flavour open_form =
    let d = with_flavour flavour (desc_parse src) in
    let here = or_word (codes "mvx") platform in
    if open_form
    then (clip name_cap (codes ".mv-account"), desc_render_open cap (record d { openaccount = 1 }))
    else (
      clip name_cap (b'.' ∷ here),
      desc_render_native_as cap (uppercase (clip 32 here)) (record d { openaccount = 0 }),
    )

abbrev nonempty : ℕ → Bytes → Option Bytes
nonempty cap [] = none
nonempty cap (c ∷ s) = some (clip cap (c ∷ s))

-- mv_git_desc_field: one field, in a buffer of `cap` bytes; `none` when it is empty or unknown
unfoldable pub desc_field : ℕ → Bytes → Bytes → Option Bytes
unfolding desc_parse
desc_field cap src key =
    let d = desc_parse src in
    if case_eq key (codes "name")
    then nonempty cap d.name
    else if case_eq key (codes "version")
    then nonempty cap d.version
    else if case_eq key (codes "description")
    then nonempty cap d.description
    else if case_eq key (codes "hash")
    then nonempty cap d.hash
    else if case_eq key (codes "flavour") || case_eq key (codes "flavor")
    then nonempty cap d.flavour
    else none
