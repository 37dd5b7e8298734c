-- ===== src/Disk/Ignore.antt =====
-- The account's list of ignored names (src/mvxgit.c, load_ignores): what its table can hold.
use mv_git.Base.{
  ℕ, zero, suc, ◌≤◌, ◌<◌, false, List, [], ◌∷◌, Option, none, some, ◌≡◌, ◌≢◌, arith, ◌==◌, inl, inr,
  Bool-cases, length, length-take, All,
}
use mv_git.Bytes.{Bytes}
use mv_git.Control.{is_gap, skip_gaps}
use mv_git.Disk.{pattern_at, pattern_of, patterns, fgets_lines, load_ignores, trim_line}

-- A pattern: no comment, no blank or tab in front, not empty, and in a row of the table with its NUL.
abbrev pub IsPattern : Bytes → Type 0
IsPattern [] = ⊥
IsPattern (c ∷ p) = (c ≢ b'#') × (is_gap c ≡ false) × (length (c ∷ p) < 256)

abbrev IsDark : Bytes → Type 0
IsDark [] = Unit
IsDark (c ∷ s) = is_gap c ≡ false

skip_gaps-IsDark : (s : Bytes) → IsDark (skip_gaps s)
unfolding skip_gaps
skip_gaps-IsDark [] = tt
skip_gaps-IsDark (c ∷ s) = elim (Bool-cases (is_gap c)) [
  | inl e ↦ rw e (skip_gaps-IsDark s)
  | inr e ↦ rw e e
]

abbrev IsPatternOf : Option Bytes → Type 0
IsPatternOf none = Unit
IsPatternOf (some p) = IsPattern p

pattern_at-IsPattern : (s : Bytes) → IsDark s → IsPatternOf (pattern_at s)
pattern_at-IsPattern [] h = tt
pattern_at-IsPattern (c ∷ p) h = elim (Bool-cases (c == b'#')) [
  | inl e ↦ rw e tt
  | inr e ↦ rw e (ground arith, h, omega (arith, length-take 254 p))
]

pattern_of-IsPattern : (line : Bytes) → IsPatternOf (pattern_of line)
unfolding pattern_of
pattern_of-IsPattern line = pattern_at-IsPattern _ (skip_gaps-IsDark (trim_line line))

-- The table of rules keeps its bounds when a line is read.
abbrev IsTable : ℕ → List Bytes → Type 0
IsTable room rules = (length rules ≤ room) × All IsPattern rules

add_line :
    (room : ℕ) (o : Option Bytes) (same fewer : List Bytes)
    → IsPatternOf o
    → IsTable (suc room) same
    → IsTable room fewer
    → IsTable (suc room) (elim o as (λ x. List Bytes) [ none ↦ same | some p ↦ p ∷ fewer ])
add_line room none same fewer h s f = s
add_line room (some p) same fewer h s (f, fs) = (omega arith, (h, fs))

patterns_lem : (room : ℕ) (lines : List Bytes) → IsTable room (patterns room lines)
unfolding patterns
patterns_lem zero [] = (omega arith, tt)
patterns_lem (suc room) [] = (omega arith, tt)
patterns_lem zero (line ∷ more) = (omega arith, tt)
patterns_lem (suc room) (line ∷ more) =
    add_line room (pattern_of line) (patterns (suc room) more) (patterns room more)
      (pattern_of-IsPattern line) (patterns_lem (suc room) more) (patterns_lem room more)

-- Whatever the file holds, load_ignores fills at most the 128 rows of its table, and each row holds a
-- pattern: it is not empty, begins with no blank, tab or hash and has at most 255 bytes.
pub load_ignores_lem :
    (text : Bytes) → (length (load_ignores text) ≤ 128) × All IsPattern (load_ignores text)
unfolding load_ignores
load_ignores_lem text = patterns_lem 128 (fgets_lines 512 511 [] text)
