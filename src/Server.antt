-- ===== src/Server.antt =====
-- The life of the background process (src/gitd.c): its run directory, the file that names it, the
-- greeting that a session writes to its control pipe, the loop that reads it, and the start and the
-- retirement of a server. What poll, waitpid, time and fork answer in one turn of the loop is a tick;
-- the files and processes of the machine are parameters.
pub mod Greet
pub mod Turns
pub mod Start
pub mod Ident
use mv_git.Base.{
  ℕ, zero, suc, ◌+◌, ◌-◌, ◌≡◌, Bool, true, false, not, ◌&&◌, ◌||◌, List, [], ◌∷◌, ◌++◌, Option,
  none, some, ltb, leb, ◌==◌, if◌then◌else◌, ◌>>=◌, length, take, drop,
}
use mv_git.Bytes.{Bytes, codes, newline, bytes_eq, starts_with, clip}
use mv_git.Furniture.{upto}
use mv_git.Record.{is_empty}
use mv_git.Session.{leading, skip_space, atoi, is_space}
use mv_git.Wire.{show, is_digit}

-- MVG_PATH_MAX and IDLE_EXIT_SECS
abbrev pub path_max : ℕ
path_max = 1024

abbrev pub idle_exit : ℕ
idle_exit = 300

abbrev home_dir : Option Bytes → Option Bytes
home_dir none = none
home_dir (some []) = none
home_dir (some (c ∷ h)) = some (clip path_max ((c ∷ h) ++ codes "/.mvgit"))

-- resolve_dir, on MVGIT_DIR and HOME; `none` is the exit
unfoldable pub resolve_dir : Option Bytes → Option Bytes → Option Bytes
resolve_dir none home = home_dir home
resolve_dir (some []) home = home_dir home
resolve_dir (some (c ∷ d)) home = some (clip path_max (c ∷ d))

unfoldable pub pathcat : Bytes → ℕ → Bytes → Bytes
pathcat dir cap leaf = clip cap (dir ++ b'/' ∷ leaf)

-- What a server writes to the pid file: its pid and its build.
unfoldable pub ident_line : ℕ → Bytes → Bytes
unfolding show
ident_line pid ident = show pid ++ b' ' ∷ (ident ++ newline ∷ [])

unfoldable pub word : Bytes → Bytes
word [] = []
word (c ∷ s) = let rest = word s in if is_space c then [] else c ∷ rest

unfoldable pub skip_number : Bytes → Bytes
skip_number [] = []
skip_number (c ∷ s) = let rest = skip_number s in if is_digit c then rest else c ∷ s

abbrev starts_number : Bytes → Bool
starts_number [] = false
starts_number (c ∷ s) = is_digit c

-- fscanf(f, "%ld", &pid), for a number that has no sign; 0 when there is none
unfoldable pub read_pid : Bytes → ℕ
unfolding skip_space leading
read_pid text = leading 0 (skip_space text)

-- server_build: fscanf(f, "%ld %127s", …)
unfoldable pub server_build : Bytes → Bytes
unfolding skip_space skip_number word
server_build text =
    let number = skip_space text in
    if starts_number number then take 127 (word (skip_space (skip_number number))) else []

-- The name of a connection's pipes, and the greeting that do_connect writes.
unfoldable pub pipe_key : Bytes → ℕ → Bytes
unfolding show
pipe_key sid pid = clip 128 (sid ++ b'-' ∷ show pid)

unfoldable pub hello : Bytes → ℕ → Bytes → Bytes
unfolding show
hello key spid cwd = codes "HELLO " ++ (key ++ b' ' ∷ (show spid ++ b' ' ∷ (cwd ++ newline ∷ [])))

-- What the server reads of a greeting.
pub record Greeting : Type 0 where
  pub sid : Bytes
  pub spid : Bool × ℕ
  pub cwd : Option Bytes

unfoldable pub behind : ℕ → Bytes → Option Bytes
behind stop [] = none
behind stop (c ∷ s) = let rest = behind stop s in if c == stop then some s else rest

abbrev greeting_of : Bytes → Option Bytes → Greeting
greeting_of sid none = record { sid = sid; spid = (false, 0); cwd = none }
greeting_of sid (some rest) = record { sid = sid; spid = atoi rest; cwd = behind b' ' rest }

-- A line of the control pipe; `none` for a line that starts no session.
unfoldable pub greet : Bytes → Option Greeting
unfolding upto behind atoi
greet line =
    let s = drop 6 line in
    if not (starts_with (codes "HELLO ") line)
    then none
    else if is_empty s
    then none
    else some (greeting_of (upto b' ' s) (behind b' ' s))

-- The variables of server_loop, and the sessions that it has handed to children.
pub record Loop : Type 0 where
  pub used : Bytes
  pub children : ℕ
  pub last : ℕ
  pub sessions : List Greeting

-- One turn: told to stop; poll interrupted; poll failed; nothing for ten seconds; something to read.
-- `finished` is how often waitpid would find a child that has ended, `now` the time, `byte` what was
-- read, `forked` whether a fork succeeds.
pub data Tick : Type 0 where
  stop : Tick
  interrupted : Tick
  failed : Tick
  quiet : ℕ → ℕ → Tick
  input : ℕ → ℕ → Option ℕ → Bool → Tick

abbrev pub line_size : ℕ
line_size = path_max + 64

unfoldable pub reaped : Loop → ℕ → Loop
reaped s finished = record s { children = s.children - finished }

-- a session begins in a child
abbrev pub handed : Loop → Bool → Option Greeting → Loop
handed s forked none = s
handed s forked (some g) =
    if forked then record s { children = suc s.children; sessions = s.sessions ++ g ∷ [] } else s

abbrev pub take_byte : Loop → ℕ → Bool → Loop
take_byte s c forked =
    if not (c == newline)
    then if ltb (length s.used) (line_size - 1) then record s { used = s.used ++ c ∷ [] } else s
    else handed (record s { used = [] }) forked (greet s.used)

abbrev pub on_input : Loop → ℕ → Option ℕ → Bool → Loop
on_input s now none forked = s
on_input s now (some c) forked = take_byte (record s { last = now }) c forked

-- A turn of the loop, and whether there is another one.
unfoldable pub turn : Loop → Tick → Loop × Bool
unfolding greet reaped
turn s stop = (s, false)
turn s interrupted = (s, true)
turn s failed = (s, false)
turn s (quiet finished now) =
    let s' = reaped s finished in (s', not (s'.children == 0 && leb idle_exit (now - s'.last)))
turn s (input finished now byte forked) = (on_input (reaped s finished) now byte forked, true)

-- server_loop: turns until one is the last
unfoldable pub server_loop : Loop → List Tick → Loop × Bool
unfolding turn
server_loop s [] = (s, true)
server_loop s (t ∷ ticks) =
    let (s', more) = turn s t in
    let rest = server_loop s' ticks in if more then rest else (s', false)

-- The machine as the commands see it: whether the lock is held, the build in the pid file and the
-- one of this command, the pid in the file, SIGTERM to it, a pause, a server that is started, and
-- whether the control pipe is there.
module _ {ℓ} {W : Type ℓ} (running : W → Bool × W) (build_of : W → Bytes × W) (mine : Bytes)
    (pid_of : W → Option ℕ × W) (terminate : ℕ → W → Bool × W) (pause start : W → W)
    (control_there : W → Bool × W) where
  unfoldable pub await_exit : ℕ → W → W
  await_exit zero w = w
  await_exit (suc n) w =
      let (up, w1) = running w in let rest = await_exit n (pause w1) in if up then rest else w1

  abbrev terminated : Bool × W → W
  terminated (true, w) = await_exit 100 w
  terminated (false, w) = w

  abbrev retire_pid : Option ℕ × W → W
  retire_pid (none, w) = w
  retire_pid (some zero, w) = w
  retire_pid (some (suc pid), w) = terminated (terminate (suc pid) w)

  -- retire_server
  unfoldable pub retire_server : W → W
  unfolding await_exit
  retire_server w = retire_pid (pid_of w)

  -- The wait for a server that was started; false is the exit of the command.
  unfoldable pub await_ready : ℕ → W → Bool × W
  await_ready zero w = (false, w)
  await_ready (suc n) w =
      let (there, w1) = control_there w in
      let (up, w2) = running w1 in
      let rest = await_ready n (pause (if there then w2 else w1)) in
      if there && up then (true, w2) else rest

  abbrev pub unless_up : Bool × W → Bool × W
  unless_up (true, w) = (true, w)
  unless_up (false, w) = await_ready 100 (start w)

  abbrev pub same_build : Bytes × W → Bool × W
  same_build (ident, w) =
      if bytes_eq ident mine then (true, w) else unless_up (running (retire_server w))

  abbrev pub if_up : Bool × W → Bool × W
  if_up (true, w) = same_build (build_of w)
  if_up (false, w) = await_ready 100 (start w)

  -- ensure_server; false is the exit of the command
  unfoldable pub ensure_server : W → Bool × W
  unfolding retire_server await_ready bytes_eq
  ensure_server w = if_up (running w)
