-- ===== src/Tests/Sessions.antt =====
-- Theorems on sessions and connections, applied to an agent that is gone at the first call
-- (src/mvsession.c, src/mvconn.c).
use mv_git.Base.{
  ℕ, zero, suc, Bool, true, false, [], ◌∷◌, ◌≡◌, ◌≢◌, refl, sym, arith, some, none, inl, inr,
  Option, List, some_inj, ◌⊎◌,
}
use mv_git.Bytes.{Bytes, codes, bytes_eq}
use mv_git.Pool.{
  Session, Platform, Result, is_gone, call_on, session_open, session_call, set_jobs, settle, retry,
  reconnect, replay,
}
use mv_git.Pool.Cap.{IsPool, session_open-IsPool}
use mv_git.Pool.Replay.{IsAgent, InStep, asked_for, with_slots}
use mv_git.Pool.Retry.{session_call_once}
use mv_git.Wire.{status_code}
use mv_git.Pool.Step.{session_call-InStep}

-- A link is the list of the files that are open; the world counts what was done to it.
abbrev Files : Type 0
Files = List (Bytes × Bytes)

abbrev reply : ℕ → Result
reply st = record { status = st; body = [] }

-- the first call finds the session gone
abbrev agent_call : ℕ → Bool → Files → List Bytes → Result × Option Files × ℕ
agent_call zero is_open l args = (reply 6, none, 1)
agent_call (suc w) true l args = (reply 0, some (with_slots l (asked_for args)), suc (suc w))
agent_call (suc w) false l args = (reply 0, some l, suc (suc w))

abbrev agent : Platform Files ℕ
agent = record {
  call = λ l op args w. agent_call w (bytes_eq op (codes "OPEN")) l args;
  spawn = λ account w. (true, some [], suc w);
  teardown = λ ask link w. w;
  realpath = λ account w. some account;
}

abbrev files_of : Files → Files
files_of l = l

agent_opens :
    (l l' : Files) (args : List Bytes) (w : ℕ)
    → (agent_call w true l args).0.status ≡ 0
    → (agent_call w true l args).1 ≡ some l'
    → l' ≡ with_slots l (asked_for args)
agent_opens l l' args zero ok e = cc
agent_opens l l' args (suc w) ok e = sym (some_inj e)

agent_keeps :
    (l l' : Files) (is_open : Bool) (args : List Bytes) (w : ℕ)
    → (is_open ≡ false) ⊎ ((agent_call w is_open l args).0.status ≢ 0)
    → (agent_call w is_open l args).1 ≡ some l'
    → l' ≡ l
agent_keeps l l' is_open args zero h e = cc
agent_keeps l l' true args (suc w) (inl h) e = cc
agent_keeps l l' true args (suc w) (inr h) e = absurd (h refl)
agent_keeps l l' false args (suc w) h e = sym (some_inj e)

agent-IsAgent : IsAgent agent files_of
unfolding bytes_eq
agent-IsAgent = record {
  starts = λ account w l e. sym (some_inj e);
  opens = λ l l' args w ok e. agent_opens l l' args w ok e;
  keeps = λ l l' op args w h here e. agent_keeps l l' (bytes_eq op (codes "OPEN")) args w h e;
}

-- a session with one file open
abbrev session : Session Files
session = record {
  account = codes "/acc";
  link = some ((codes "CUST", []) ∷ []);
  opens = (codes "CUST", []) ∷ [];
  reconnects = 0;
}

session-InStep : InStep agent files_of session
session-InStep l e = sym (some_inj e)

nop_answered : is_gone (session_call agent (codes "NOP") [] session 0).0.status ≡ false
unfolding session_call is_gone status_code retry settle reconnect replay bytes_eq
nop_answered = refl

session_call-InStep_example :
    InStep agent files_of (session_call agent (codes "NOP") [] session 0).1
session_call-InStep_example =
    session_call-InStep agent files_of agent-IsAgent (codes "NOP") [] session 0 session-InStep tt
      nop_answered

commit_answered :
    ((call_on agent session.link (codes "COMMIT") [] 1).0.status ≢ 6)
    × ((call_on agent session.link (codes "COMMIT") [] 1).0.status ≢ 1)
unfolding bytes_eq
commit_answered = (omega arith, omega arith)

session_call_once_example :
    ((session_call agent (codes "COMMIT") [] session 1).0
      ≡ (call_on agent session.link (codes "COMMIT") [] 1).0)
    × ((session_call agent (codes "COMMIT") [] session 1).2
        ≡ (call_on agent session.link (codes "COMMIT") [] 1).2)
session_call_once_example =
    session_call_once agent (codes "COMMIT") [] session 1 (inl commit_answered)

one_session : IsPool (set_jobs 1) (session ∷ [])
unfolding set_jobs
one_session = record { within = omega arith; apart = (tt, tt) }

session_open-IsPool_example :
    IsPool (set_jobs 1) (session_open agent (set_jobs 1) (codes "/other") (session ∷ []) 0).1
session_open-IsPool_example =
    session_open-IsPool agent 1 (codes "/other") (session ∷ []) 0 one_session
