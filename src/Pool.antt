-- ===== src/Pool.antt =====
-- The sessions of a client (src/mvsession.c): opening one under the licence cap, a call that replaces
-- a session that has gone and repeats itself once, and the files that are opened again then. The
-- process, its pipes and the wire are parameters: `W` is the state of the world, a `Link` the two
-- pipes of a session.
pub mod Cap
pub mod Retry
pub mod Replay
pub mod Step
use mv_git.Base.{
  ℕ, zero, suc, ◌+◌, Bool, true, false, not, ◌&&◌, ◌||◌, List, [], ◌∷◌, ◌++◌, Option, none, some,
  leb, ◌==◌, if◌then◌else◌, length,
}
use mv_git.Bytes.{Bytes, codes, bytes_eq, clip}
use mv_git.Wire.{Status, status_code}

-- struct mv_session: its pipes are `none` when closed; opens is nopens and the array.
pub record Session {ℓ} (Link : Type ℓ) : Type ℓ where
  pub account : Bytes
  pub link : Option Link
  pub opens : List (Bytes × Bytes)
  pub reconnects : ℕ

-- What a call answers: its status and its body.
pub record Result : Type 0 where
  pub status : ℕ
  pub body : Bytes

-- The exchange of call_raw, spawn and teardown, and realpath.
pub record Platform {ℓ} (Link W : Type ℓ) : Type ℓ where
  pub call : Link → Bytes → List Bytes → W → Result × Option Link × W
  pub spawn : Bytes → W → Bool × Option Link × W
  pub teardown : Bool → Option Link → W → W
  pub realpath : Bytes → W → Option Bytes

-- mvs_set_jobs
unfoldable pub set_jobs : ℕ → ℕ
set_jobs zero = 1
set_jobs (suc n) = suc n

abbrev pub broken : Result
broken = record { status = status_code Status.eproto; body = [] }

-- the reply says that the session has gone
unfoldable pub is_gone : ℕ → Bool
is_gone st = st == status_code Status.eclosed || st == status_code Status.eproto

-- the account asked for, the current directory when none is
abbrev pub or_dot : Bytes → Bytes
or_dot [] = codes "."
or_dot (c ∷ s) = c ∷ s

-- the arguments of an OPEN that is repeated
abbrev pub open_args : Bytes × Bytes → List Bytes
open_args (name, []) = name ∷ []
open_args (name, c ∷ s) = name ∷ (c ∷ s) ∷ []

module _ {ℓ} {Link W : Type ℓ} (p : Platform Link W) where
  -- call_raw on a session: without pipes it is a protocol error
  abbrev pub call_on : Option Link → Bytes → List Bytes → W → Result × Option Link × W
  call_on none op args w = (broken, none, w)
  call_on (some l) op args w = p.call l op args w

  -- the session with this account, if there is one
  unfoldable pub find_session : Bytes → List (Session Link) → Option (Session Link)
  find_session account [] = none
  find_session account (s ∷ more) =
      let rest = find_session account more in if bytes_eq s.account account then some s else rest

  -- mvs_close of the last session, the oldest: it is asked to quit
  unfoldable pub close_last : List (Session Link) → W → List (Session Link) × W
  close_last [] w = ([], w)
  close_last (s ∷ []) w = ([], p.teardown true s.link w)
  close_last (s ∷ t ∷ more) w = let (rest, w') = close_last (t ∷ more) w in (s ∷ rest, w')

  -- `while (live >= g_jobs && g_sessions)`
  unfoldable pub retire : ℕ → ℕ → List (Session Link) → W → List (Session Link) × W
  retire jobs zero sessions w = (sessions, w)
  retire jobs (suc live) sessions w =
      let (rest, w') = close_last sessions w in
      let closed = retire jobs live rest w' in if leb jobs (suc live) then closed else (sessions, w)

  -- What mvs_open returns: the session, or NULL; the sessions and the world.
  abbrev pub Opened : Type ℓ
  Opened = Option (Session Link) × List (Session Link) × W

  abbrev spawned : Bytes → List (Session Link) → Bool × Option Link × W → Opened
  spawned account sessions (false, link, w) = (none, sessions, p.teardown false link w)
  spawned account sessions (true, link, w) =
      let s : Session Link = record {
        account = account;
        link = link;
        opens = [];
        reconnects = 0;
      } in
      (some s, s ∷ sessions, w)

  abbrev open_new : ℕ → Bytes → List (Session Link) → W → Opened
  open_new jobs account sessions w =
      let (kept, w') = retire jobs (length sessions) sessions w in
      spawned account kept (p.spawn account w')

  abbrev pub open_found : ℕ → Bytes → List (Session Link) → W → Option (Session Link) → Opened
  open_found jobs account sessions w (some s) = (some s, sessions, w)
  open_found jobs account sessions w none = open_new jobs account sessions w

  abbrev pub open_real : ℕ → List (Session Link) → W → Option Bytes → Opened
  open_real jobs sessions w none = (none, sessions, w)
  open_real jobs sessions w (some account) =
      open_found jobs account sessions w (find_session account sessions)

  -- mvs_open
  unfoldable pub session_open : ℕ → Bytes → List (Session Link) → W → Opened
  unfolding find_session retire
  session_open jobs account sessions w = open_real jobs sessions w (p.realpath (or_dot account) w)

  -- The loop of reconnect: each file is opened again, until one is refused.
  unfoldable pub replay : List (Bytes × Bytes) → Option Link → W → Bool × Option Link × W
  replay [] link w = (true, link, w)
  replay (o ∷ more) link w =
      let (r, link', w') = call_on link (codes "OPEN") (open_args o) w in
      let rest = replay more link' w' in if r.status == 0 then rest else (false, link', w')

  abbrev pub replay_on : List (Bytes × Bytes) → Bool × Option Link × W → Bool × Option Link × W
  replay_on opens (false, link, w) = (false, link, w)
  replay_on opens (true, link, w) = replay opens link w

  -- reconnect
  unfoldable pub reconnect : Session Link → W → Bool × Session Link × W
  unfolding replay
  reconnect s w =
      let (ok, link, w') = replay_on s.opens (p.spawn s.account (p.teardown false s.link w)) in
      (ok, record s { link = link }, w')

  -- remember_open: the name and the part as the record holds them
  unfoldable pub remember_open : List Bytes → Session Link → Session Link
  remember_open [] s = s
  remember_open (name ∷ []) s = record s { opens = s.opens ++ (clip 256 name, []) ∷ [] }
  remember_open (name ∷ part ∷ more) s = record s {
    opens = s.opens ++ (clip 256 name, clip 16 part) ∷ [];
  }

  -- The end of mvs_call: a call that worked clears the count, and an OPEN is remembered.
  unfoldable pub settle : Bytes → List Bytes → Result × Session Link × W → Result × Session Link × W
  unfolding remember_open
  settle op args (r, s, w) =
      let fresh = record s { reconnects = 0 } in
      if r.status == 0
      then (r, (if bytes_eq op (codes "OPEN") then remember_open args fresh else fresh), w)
      else (r, s, w)

  abbrev pub repeat :
      Bytes → List Bytes → Result → Bool × Session Link × W → Result × Session Link × W
  repeat op args r (false, s, w) = (r, s, w)
  repeat op args r (true, s, w) =
      let (r', link, w') = call_on s.link op args w in (r', record s { link = link }, w')

  -- the retry, after an answer that says that the session has gone
  unfoldable pub retry : Bytes → List Bytes → Result → Session Link → W → Result × Session Link × W
  unfolding reconnect
  retry op args r s w =
      if leb 3 s.reconnects
      then (r, s, w)
      else repeat op args (record r { body = [] })
          (reconnect (record s { reconnects = suc s.reconnects }) w)

  -- mvs_call
  unfoldable pub session_call : Bytes → List Bytes → Session Link → W → Result × Session Link × W
  unfolding retry settle is_gone
  session_call op args s w =
      let (r, link, w') = call_on s.link op args w in
      let s' = record s { link = link } in
      let again = is_gone r.status && not (bytes_eq op (codes "QUIT")) in
      if again then settle op args (retry op args r s' w') else settle op args (r, s', w')
