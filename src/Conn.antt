-- ===== src/Conn.antt =====
-- The connection object of the drivers (src/mvconn.c, src/mvconn.h): whether an account is an open
-- one, from the command line, the environment, a question and the account's git config. The
-- config's text is a parameter, as the lines that fgets hands out; so are the variable, the
-- terminal and what is typed there.
pub mod Config
pub mod Answer
use mv_git.Base.{
  ℕ, Bool, true, false, not, ◌&&◌, ◌||◌, List, [], ◌∷◌, Option, none, some, ◌==◌, if◌then◌else◌,
  get_or,
}
use mv_git.Bytes.{Bytes, codes, case_eq, case_starts, clip}
use mv_git.Control.{is_gap, skip_gaps}

-- mvconn_env_true
unfoldable pub env_true : Bytes → Bool
env_true [] = false
env_true (c ∷ s) =
    let v = c ∷ s in
    not (
      c == b'0'
      || (case_eq v (codes "no") || (case_eq v (codes "false") || case_eq v (codes "off"))))

-- What stands behind the first equals sign of a line.
unfoldable pub after_eq : Bytes → Option Bytes
after_eq [] = none
after_eq (c ∷ s) = let rest = after_eq s in if c == b'=' then some s else rest

-- git's truthy set, on the beginning of the value
unfoldable pub truthy : Bytes → Bool
truthy v =
    case_starts (codes "true") v
    || (get_or v 0 0 == b'1' || (case_starts (codes "yes") v || case_starts (codes "on") v))

-- What a line of the config is: a section's head (whether it is `[mvx]`), a setting of
-- openaccount, or anything else.
pub data Line : Type 0 where
  section : Bool → Line
  setting : Bool → Line
  other : Line

abbrev as_setting : Option Bytes → Line
as_setting none = other
as_setting (some v) = setting (truthy (skip_gaps v))

unfoldable pub read_line : Bytes → Line
unfolding after_eq truthy
read_line line =
    let s = skip_gaps line in
    if get_or s 0 0 == b'['
    then section (case_starts (codes "[mvx]") s)
    else if case_starts (codes "openaccount") s
    then as_setting (after_eq s)
    else other

-- The loop over the lines, given what each is: the first setting in an `[mvx]` section decides.
unfoldable pub scan_config : Bool → List Line → Bool
scan_config in_mvx [] = false
scan_config in_mvx (section mine ∷ more) = scan_config mine more
scan_config false (setting on ∷ more) = scan_config false more
scan_config true (setting on ∷ more) = on
scan_config in_mvx (other ∷ more) = scan_config in_mvx more

abbrev pub read_lines : List Bytes → List Line
read_lines [] = []
read_lines (l ∷ ls) = read_line l ∷ read_lines ls

-- config_says_open, on the lines of the file; no lines when it cannot be opened
unfoldable pub config_says_open : List Bytes → Bool
config_says_open lines = scan_config false (read_lines lines)

-- struct mv_conn: the override and the cache are -1, 0 or 1
pub record Conn : Type 0 where
  pub account : Bytes
  pub open_override : Option Bool
  pub open_cached : Option Bool

-- mvconn_open; the name is kept in PATH_MAX bytes
unfoldable pub conn_open : Bytes → Conn
conn_open [] = record { account = codes "."; open_override = none; open_cached = none }
conn_open (c ∷ s) = record { account = clip 4096 (c ∷ s); open_override = none; open_cached = none }

module _ (config : Bytes → List Bytes) where
  abbrev config_answer : Conn → Option Bool → Bool × Conn
  config_answer c (some on) = (on, c)
  config_answer c none =
      let on = config_says_open (config c.account) in (on, record c { open_cached = some on })

  -- mvconn_config_open_account
  unfoldable pub config_open_account : Conn → Bool × Conn
  config_open_account c = config_answer c c.open_cached

  abbrev open_answer : Conn → Option Bool → Bool × Conn
  open_answer c (some on) = (on, c)
  open_answer c none = config_open_account c

  -- mvconn_open_account
  unfoldable pub open_account : Conn → Bool × Conn
  open_account c = open_answer c c.open_override

  -- mvconn_export_open_account: the variable $MVX_OPENACCOUNT afterwards
  unfoldable pub export_open_account : Conn → Option Bytes → Option Bytes × Conn
  unfolding open_account
  export_open_account c env =
      let (on, c') = open_account c in (if on then some (codes "1") else env, c')

-- mvconn_set_open_account and mvconn_have_open_account
unfoldable pub set_open_account : Conn → Bool → Conn
set_open_account c on = record c { open_override = some on }

abbrev is_set : Option Bool → Bool
is_set none = false
is_set (some on) = true

unfoldable pub have_open_account : Conn → Bool
have_open_account c = is_set c.open_override

-- mvconn_persist_open_account, given whether libgit2 wrote the config
unfoldable pub persist_open_account : Conn → Bool → Conn
persist_open_account c wrote = if wrote then record c { open_cached = some true } else c

-- What is typed at the question: the end of the input, or a line.
abbrev typed_yes : Option Bytes → Bool
typed_yes none = true
typed_yes (some line) = not (get_or line 0 0 == b'n' || get_or line 0 0 == b'N')

-- $MVXGIT_OPEN_ACCOUNT, then the terminal
abbrev asked : Option Bytes → Bool → Option Bytes → Bool
asked (some (c ∷ s)) tty typed = env_true (c ∷ s)
asked (some []) tty typed = if not tty then true else typed_yes typed
asked none tty typed = if not tty then true else typed_yes typed

abbrev ask_answer : Conn → Option Bytes → Bool → Option Bytes → Option Bool → Bool × Conn
ask_answer c env tty typed (some on) = (on, c)
ask_answer c env tty typed none =
    let on = asked env tty typed in (on, record c { open_override = some on })

-- mvconn_ask_open_account
unfoldable pub ask_open_account : Conn → Option Bytes → Bool → Option Bytes → Bool × Conn
unfolding env_true
ask_open_account c env tty typed = ask_answer c env tty typed c.open_override
