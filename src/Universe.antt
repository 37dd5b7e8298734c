-- ===== src/Universe.antt =====
-- What the UniVerse driver decides by itself (src/uv-git.c): the flavour that a user typed, and the
-- exclusions that an adoption appends for the files that it has made. The directory is a parameter.
pub mod Exclude
use mv_git.Base.{
  ℕ, zero, suc, ◌-◌, Bool, true, false, not, ◌&&◌, ◌||◌, List, [], ◌∷◌, ◌++◌, Option, none, some,
  ltb, leb, ◌==◌, if◌then◌else◌, length, take,
}
use mv_git.Bytes.{c_str, Bytes, codes, newline, bytes_eq, case_eq, starts_with, clip}
use mv_git.Furniture.{named_in}

abbrev to_upper : ℕ → ℕ
to_upper c = if leb b'a' c && leb c b'z' then c - 32 else c

abbrev is_separator : ℕ → Bool
is_separator c = (c == b'/' || c == b'-') || (c == b' ' || c == b'_')

-- what a user typed, in capitals and without separators, in `room` bytes
unfoldable pub folded : ℕ → Bytes → Bytes
folded room [] = []
folded zero (c ∷ s) = []
folded (suc room) (c ∷ s) =
    if is_separator c then folded (suc room) s else to_upper c ∷ folded room s

-- uv_flavours
abbrev pub flavours : List (Bytes × Bytes)
flavours =
    (codes "IDEAL", codes "0")
    ∷ (codes "IN2", codes "1")
    ∷ (codes "PRIME", codes "2")
    ∷ (codes "PICK", codes "3")
    ∷ (codes "PIOPEN", codes "4")
    ∷ (codes "REALITY", codes "5")
    ∷ []

unfoldable pub flavour_at : ℕ → List (Bytes × Bytes) → Bytes → Option ℕ
unfolding case_eq bytes_eq
flavour_at k [] up = none
flavour_at k ((name, code) ∷ more) up =
    let rest = flavour_at (suc k) more up in
    if case_eq up name || bytes_eq up code then some k else rest

abbrev pub alias : Bytes → Option ℕ
alias up =
    if case_eq up (codes "PI") || case_eq up (codes "INFORMATION")
    then some 2
    else if case_eq up (codes "PIOPEN")
    then some 4
    else if case_eq up (codes "MICRODATA")
    then some 5
    else if case_eq up (codes "UNIVERSE")
    then some 0
    else none

abbrev pub or_alias : Option ℕ → Bytes → Option ℕ
or_alias (some k) up = some k
or_alias none up = alias up

-- flavour_index; `none` is -1
unfoldable pub flavour_index : Bytes → Option ℕ
unfolding folded flavour_at
flavour_index [] = none
flavour_index (c ∷ s) = let up = folded 31 (c ∷ s) in or_alias (flavour_at 0 flavours up) up

-- strstr(s, l) != NULL
unfoldable pub occurs : Bytes → Bytes → Bool
unfolding starts_with
occurs l [] = starts_with l []
occurs l (c ∷ s) = starts_with l (c ∷ s) || occurs l s

abbrev pub header : Bytes
header =
    newline
    ∷ (codes "# uv-git adopt: files UniVerse created when this directory"
        ++ newline
          ∷ (codes "# became an account.  Hash-file binaries, not content." ++ newline ∷ []))

-- The account's place below the root of the repository, which names are directories, and the names
-- that were there before.
module _ (prefix : Bytes) (is_dir : Bytes → Bool) (before : List Bytes) where
  abbrev pub exclude_line : Bytes → Bytes
  exclude_line n =
      clip 4200 (b'/' ∷ (prefix ++ (n ++ ((if is_dir n then b'/' ∷ [] else []) ++ newline ∷ []))))

  -- the record paths of a hashed file, put back
  abbrev pub put_back : Bytes → Bytes
  put_back n = if is_dir n then [] else b'!' ∷ (b'/' ∷ (prefix ++ (n ++ (b'/' ∷ newline ∷ []))))

  unfoldable pub passed : Bytes → Bytes → Bool
  unfolding named_in occurs
  passed have n = named_in before n || occurs (exclude_line n) have

  abbrev pub entry_for : Bool → Bytes → Bytes
  entry_for headed n = (if headed then [] else header) ++ (exclude_line n ++ put_back n)

  -- The loop over the names that are there now; `headed` is whether the header is written.
  unfoldable pub additions : Bytes → Bool → List Bytes → Bytes
  unfolding passed
  additions have headed [] = []
  additions have headed (n ∷ more) =
      let rest = additions have (if passed have n then headed else true) more in
      if passed have n then rest else entry_for headed n ++ rest

  -- exclude_new, on the text of info/exclude; what is read of it is a C string
  unfoldable pub exclude_new : List Bytes → Bytes → Bytes
  unfolding additions c_str
  exclude_new now text = text ++ additions (c_str (take 65535 text)) false now
