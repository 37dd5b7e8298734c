-- ===== src/Tests/Servers.antt =====
-- Witnesses on the background process (src/gitd.c): a greeting that a user sends, a server that has
-- one child at work and leaves, a pid file, and operations on a batch.
use mv_git.Base.{
  ℕ, suc, Bool, true, false, List, [], ◌∷◌, ◌++◌, Option, none, some, ◌≡◌, refl, arith, ◌⊎◌, length,
  leb, ◌≤◌,
}
use mv_git.Build.{uv_git}
use mv_git.Bytes.{Bytes, codes}
use mv_git.Ops.{World, Engine, serve_gitd}
use mv_git.Ops.Ends.{serve_gitd_ends}
use mv_git.Server.{
  Loop, Tick, quiet, input, interrupted, hello, turn, reaped, server_loop, line_size, ident_line,
  read_pid, server_build, ensure_server, await_ready,
}
use mv_git.Server.Greet.{server_loop-hello, heard, the_greeting}
use mv_git.Server.Ident.{server_build-ident_line}
use mv_git.Server.Start.{ensure_server-SawRunning, SawRunning, SawOwnBuild}
use mv_git.Server.Turns.{
  server_loop-quiets, server_loop-IsIdle, quiets, IsIdle, begun, turned, IsSound, Serves-IsSound,
}

-- a server that has just begun, with one session before
abbrev idle_loop : Loop
idle_loop = record {
  used = [];
  children = 1;
  last = 1000;
  sessions = the_greeting (codes "s1-40") 40 (codes "/b") ∷ [];
}

abbrev none_ended : ℕ → ℕ
none_ended i = 0

abbrev at_noon : ℕ → ℕ
at_noon i = 1200

abbrev key : Bytes
key = codes "s2-4711"

abbrev cwd : Bytes
cwd = codes "/u2/my sales"

server_loop-hello_example :
    ((server_loop idle_loop (heard none_ended at_noon 0 (hello key 4711 cwd))).1 ≡ true)
    × ((server_loop idle_loop (heard none_ended at_noon 0 (hello key 4711 cwd))).0.used ≡ [])
    × ((server_loop idle_loop (heard none_ended at_noon 0 (hello key 4711 cwd))).0.sessions
        ≡ idle_loop.sessions ++ the_greeting key 4711 cwd ∷ [])
server_loop-hello_example =
    server_loop-hello none_ended at_noon idle_loop 0 4711 key cwd refl (cc) (omega arith)
      (omega arith) (omega arith) hello_fits
  where
    hello_fits : length (hello key 4711 cwd) ≤ line_size
    hello_fits = unfold hello in omega arith

-- the child is reaped at the first poll, and the second is late enough
server_loop-quiets_example : (server_loop idle_loop (quiets ((1, 1010) ∷ []) 0 1300)).1 ≡ false
server_loop-quiets_example =
    server_loop-quiets idle_loop ((1, 1010) ∷ []) 0 1300 (omega arith) (omega arith)

abbrev slow_day : List Tick
slow_day = quiet 1 1010 ∷ interrupted ∷ quiet 0 1300 ∷ []

leaves : (server_loop idle_loop slow_day).1 ≡ false
unfolding server_loop turn reaped
leaves = refl

server_loop-IsIdle_example : IsIdle slow_day (server_loop idle_loop slow_day).0
server_loop-IsIdle_example = server_loop-IsIdle idle_loop slow_day (tt, (tt, (tt, tt))) leaves

abbrev one_more : Loop
one_more = record { used = codes "H"; children = 0; last = 1010; sessions = idle_loop.sessions }

byte_read : turn idle_loop (input 1 1010 (some b'H') true) ≡ (one_more, true)
unfolding turn reaped
byte_read = refl

idle-IsSound : IsSound idle_loop
idle-IsSound = (omega arith, omega arith)

Serves-IsSound_example : IsSound one_more
Serves-IsSound_example =
    Serves-IsSound (turned begun (input 1 1010 (some b'H') true) byte_read) idle-IsSound

server_build-ident_line_example :
    (read_pid (ident_line 4711 (codes "v1.2-abc")) ≡ 4711)
    × (server_build (ident_line 4711 (codes "v1.2-abc")) ≡ codes "v1.2-abc")
server_build-ident_line_example =
    server_build-ident_line 4711 (codes "v1.2-abc") (cc)
      (refl, (refl, (refl, (refl, (refl, (refl, (refl, (refl, tt)))))))) (omega arith)

-- A machine: the moments that have passed; a server that was started is up at moment 3.
abbrev up_late : ℕ → Bool × ℕ
up_late w = (leb 3 w, w)

abbrev build_is : ℕ → Bytes × ℕ
build_is w = (codes "v1", w)

abbrev no_pid : ℕ → Option ℕ × ℕ
no_pid w = (none, w)

abbrev no_signal : ℕ → ℕ → Bool × ℕ
no_signal pid w = (false, w)

abbrev later : ℕ → ℕ
later w = suc w

ensured :
    (ensure_server up_late build_is (codes "v2") no_pid no_signal later later up_late 0).0 ≡ true
unfolding ensure_server await_ready
ensured = refl

ensure_server-SawRunning_example :
    SawRunning up_late build_is
      (codes "v2")
      no_pid
      no_signal
      later
      later
      up_late
      (ensure_server up_late build_is (codes "v2") no_pid no_signal later later up_late 0).1
    ⊎ SawOwnBuild up_late build_is
        (codes "v2")
        no_pid
        no_signal
        later
        later
        up_late
        (ensure_server up_late build_is (codes "v2") no_pid no_signal later later up_late 0).1
ensure_server-SawRunning_example =
    ensure_server-SawRunning up_late build_is (codes "v2") no_pid no_signal later later up_late 0
      ensured

-- An engine whose index is the list of its blobs, and which names them.
abbrev Blobs : Type 0
Blobs = List (Bytes × Bytes)

abbrev no_copy : Blobs → Bytes → Option Bytes
no_copy i path = none

abbrev no_committed : ℕ → Bytes → Option Bytes
no_committed r path = none

abbrev listing : Engine Blobs ℕ
listing = record {
  open_repo = λ repo i. some i;
  put = λ path blob i. (path, blob) ∷ i;
  write = λ new old. new;
  run = λ op a i r. (op, i, suc r);
  project = λ repo fn id content r. some content;
  staged = no_copy;
  committed = no_committed;
  desc_for = λ name native. none;
}

abbrev half_staged : World Blobs ℕ
half_staged = record {
  batch = record { opened = some ((codes "CUST/1", codes "A") ∷ []); skipped = 0; disk = [] };
  rest = 0;
}

serve_gitd_ends_example :
    (serve_gitd uv_git listing (codes "0123") (codes "MVG") half_staged).world.batch.opened ≡ none
serve_gitd_ends_example = serve_gitd_ends uv_git listing (codes "0123") (codes "MVG") half_staged
