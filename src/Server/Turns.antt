-- ===== src/Server/Turns.antt =====
-- The loop of the server (src/gitd.c, server_loop): its buffer, its count of children, when it leaves
-- by itself, and that it does.
use mv_git.Base.{
  ◌++◌, ℕ, ◌+◌, ◌-◌, ◌<◌, ◌≤◌, Bool, true, false, ◌&&◌, List, [], ◌∷◌, Option, none, some, ◌≡◌,
  refl, ap, subst, arith, ltb, leb, ◌==◌, inl, inr, Bool-cases, length, length-append, All,
}
use mv_git.Bytes.{newline}
use mv_git.Server.{
  Greeting, Loop, Tick, stop, interrupted, failed, quiet, input, greet, line_size, idle_exit,
  reaped, handed, take_byte, on_input, turn, server_loop,
}

-- One turn after another, from a state to a state.
pub data Serves : Loop → Loop → Type 0 where
  begun : {s : Loop} → Serves s s
  turned : {s t u : Loop} → Serves s t → (tick : Tick) → turn t tick ≡ (u, true) → Serves s u

-- The line leaves room for its NUL, and no more children are counted than sessions were handed out.
abbrev pub IsSound : Loop → Type 0
IsSound s = (length s.used < line_size) × (s.children ≤ length s.sessions)

handed-IsSound :
    (s : Loop) (forked : Bool) (o : Option Greeting) → IsSound s → IsSound (handed s forked o)
handed-IsSound s forked none h = h
handed-IsSound s true (some g) (u, c) = (u, omega (arith, length-append s.sessions (g ∷ [])))
handed-IsSound s false (some g) h = h

take_byte-IsSound : (s : Loop) (c : ℕ) (forked : Bool) → IsSound s → IsSound (take_byte s c forked)
take_byte-IsSound s c forked (u, k) = elim (Bool-cases (c == newline)) [
  | inl e ↦ rw e (handed-IsSound (record s { used = [] }) forked (greet s.used) (omega arith, k))
  | inr e ↦ elim (Bool-cases (ltb (length s.used) (line_size - 1))) [
    | inl f ↦ rw (e, f) (ground (arith, length-append s.used (c ∷ [])), k)
    | inr f ↦ rw (e, f) (u, k)
  ]
]

reaped-IsSound : (s : Loop) (n : ℕ) → IsSound s → IsSound (reaped s n)
unfolding reaped
reaped-IsSound s n (u, k) = (u, omega arith)

on_input-IsSound :
    (s : Loop) (now : ℕ) (byte : Option ℕ) (forked : Bool)
    → IsSound s
    → IsSound (on_input s now byte forked)
on_input-IsSound s now none forked h = h
on_input-IsSound s now (some c) forked h = take_byte-IsSound (record s { last = now }) c forked h

turn-IsSound : (s : Loop) (tick : Tick) → IsSound s → IsSound (turn s tick).0
unfolding turn
turn-IsSound s stop h = h
turn-IsSound s interrupted h = h
turn-IsSound s failed h = h
turn-IsSound s (quiet finished now) h = reaped-IsSound s finished h
turn-IsSound s (input finished now byte forked) h =
    on_input-IsSound (reaped s finished) now byte forked (reaped-IsSound s finished h)

-- Whatever is read, whoever ends and whatever forks fail: the line that is read never fills its
-- buffer beyond the byte for its NUL, and the server counts no more children than it handed sessions
-- to.
pub Serves-IsSound : {s t : Loop} → Serves s t → IsSound s → IsSound t
Serves-IsSound begun h = h
Serves-IsSound (turned {s} {t} {u} r tick e) h =
    subst IsSound (ap (λ p. p.0) e) (turn-IsSound t tick (Serves-IsSound r h))

-- A turn in which nobody told the server to stop and poll did not fail.
abbrev pub IsOwn : Tick → Type 0
IsOwn stop = ⊥
IsOwn failed = ⊥
IsOwn _ = Unit

-- What server_loop has left behind when it ended by itself: its last turn was a poll that found
-- nothing, at a time 300 seconds behind the last byte, and no child was at work.
abbrev pub IsIdle : List Tick → Loop → Type 0
IsIdle ticks s =
    (before : List Tick) × (finished : ℕ) × (now : ℕ) × (after : List Tick) × (ticks
      ≡ before ++ quiet finished now ∷ after)
    × (s.children ≡ 0)
    × (s.last + idle_exit ≤ now)

quiet_leaves :
    (s : Loop) (finished now : ℕ) (after : List Tick)
    → (turn s (quiet finished now)).1 ≡ false
    → IsIdle (quiet finished now ∷ after) (turn s (quiet finished now)).0
unfolding turn reaped
quiet_leaves s finished now after h = ([], finished, now, after, refl, ground arith, ground arith)

turn_leaves :
    (s : Loop) (tick : Tick) (after : List Tick)
    → IsOwn tick
    → (turn s tick).1 ≡ false
    → IsIdle (tick ∷ after) (turn s tick).0
turn_leaves s stop after h e = absurd h
turn_leaves s failed after h e = absurd h
turn_leaves s interrupted after h e = absurd (differ e)
  where
    differ : (turn s interrupted).1 ≡ false → ⊥
    differ e = unfold turn in cc
turn_leaves s (quiet finished now) after h e = quiet_leaves s finished now after e
turn_leaves s (input finished now byte forked) after h e = absurd (differ e)
  where
    differ : (turn s (input finished now byte forked)).1 ≡ false → ⊥
    differ e = unfold turn in cc

IsIdle-cons :
    (tick : Tick) (ticks : List Tick) (s : Loop) → IsIdle ticks s → IsIdle (tick ∷ ticks) s
IsIdle-cons tick ticks s (before, finished, now, after, e, c, l) =
    (tick ∷ before, finished, now, after, ap (λ t. tick ∷ t) e, c, l)

-- Unless it is told to stop or poll fails, the server leaves only at a poll that finds nothing, at a
-- time at least 300 seconds behind the last byte that it read, when no child is at work.
pub server_loop-IsIdle :
    (s : Loop) (ticks : List Tick)
    → All IsOwn ticks
    → (server_loop s ticks).1 ≡ false
    → IsIdle ticks (server_loop s ticks).0
unfolding server_loop
server_loop-IsIdle s [] h e = absurd (cc)
server_loop-IsIdle s (t ∷ ticks) (ht, h) e = elim (Bool-cases (turn s t).1) [
  | inl f ↦ rw f (
      IsIdle-cons t ticks (server_loop (turn s t).0 ticks).0
        (server_loop-IsIdle (turn s t).0 ticks h (rw f at e)))
  | inr f ↦ rw f (turn_leaves s t ticks ht f)
]

-- Polls that find nothing: how many children each of them reaps, and when.
abbrev pub quiets : List (ℕ × ℕ) → ℕ → ℕ → List Tick
quiets [] finished now = quiet finished now ∷ []
quiets ((f, n) ∷ more) finished now = quiet f n ∷ quiets more finished now

abbrev pub reaped_by : List (ℕ × ℕ) → ℕ
reaped_by [] = 0
reaped_by ((f, n) ∷ more) = f + reaped_by more

-- A server that hears nothing leaves: at the latest at a poll 300 seconds after the last byte that
-- it read, by which all of its children have ended and been reaped.
pub server_loop-quiets :
    (s : Loop) (polls : List (ℕ × ℕ)) (finished now : ℕ)
    → s.children ≤ reaped_by polls + finished
    → s.last + idle_exit ≤ now
    → (server_loop s (quiets polls finished now)).1 ≡ false
unfolding server_loop turn reaped
server_loop-quiets s [] finished now h k = ground arith
server_loop-quiets s ((f, n) ∷ polls) finished now h k =
    elim (Bool-cases ((s.children - f) == 0 && leb idle_exit (n - s.last))) [
      | inl e ↦ rw e refl
      | inr e ↦ rw e (
          server_loop-quiets (record s { children = s.children - f }) polls finished now
            (omega arith) k)
    ]
