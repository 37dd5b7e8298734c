-- ===== src/Conn/Answer.antt =====
-- What the connection answers and remembers (src/mvconn.c).
use mv_git.Base.{Bool, true, List, Option, some, ◌≡◌, refl, ap, inl, inr, Option-cases}
use mv_git.Bytes.{Bytes}
use mv_git.Conn.{
  Conn, ask_open_account, open_account, set_open_account, persist_open_account, config_open_account,
  have_open_account,
}

ask_set :
    (c : Conn) (on : Bool) (env : Option Bytes) (tty : Bool) (typed : Option Bytes)
    → c.open_override ≡ some on
    → ask_open_account c env tty typed ≡ (on, c)
unfolding ask_open_account
ask_set c on env tty typed h = rw h refl

ask_remembers :
    (c : Conn) (env : Option Bytes) (tty : Bool) (typed : Option Bytes)
    → (ask_open_account c env tty typed).1.open_override ≡ some (ask_open_account c env tty typed).0
unfolding ask_open_account
ask_remembers c env tty typed = elim (Option-cases c.open_override) [
  | inl e ↦ rw e refl
  | inr (on, e) ↦ rw e refl
]

open_set :
    (config : Bytes → List Bytes) (c : Conn) (on : Bool)
    → c.open_override ≡ some on
    → open_account config c ≡ (on, c)
unfolding open_account
open_set config c on h = rw h refl

-- The question is asked once: whatever the environment, the terminal and the config hold later, asking
-- again and reading the answer give the first answer and leave the connection as it is.
pub ask_open_account-ask_open_account :
    (c : Conn) (env env' : Option Bytes) (tty tty' : Bool) (typed typed' : Option Bytes)
    (config : Bytes → List Bytes)
    → (ask_open_account (ask_open_account c env tty typed).1 env' tty' typed'
        ≡ ask_open_account c env tty typed)
      × (open_account config (ask_open_account c env tty typed).1
          ≡ ask_open_account c env tty typed)
ask_open_account-ask_open_account c env env' tty tty' typed typed' config =
    let (on, c') = ask_open_account c env tty typed in
    let kept = ask_remembers c env tty typed in
    (ask_set c' on env' tty' typed' kept, open_set config c' on kept)

-- What the command line says is the answer, whatever the config, the environment and the terminal
-- hold, and neither reading it nor asking changes the connection.
pub set_open_account_wins :
    (c : Conn) (on : Bool) (env : Option Bytes) (tty : Bool) (typed : Option Bytes)
    (config : Bytes → List Bytes)
    → (open_account config (set_open_account c on) ≡ (on, set_open_account c on))
      × (ask_open_account (set_open_account c on) env tty typed ≡ (on, set_open_account c on))
      × (have_open_account (set_open_account c on) ≡ true)
unfolding open_account ask_open_account set_open_account have_open_account
set_open_account_wins c on env tty typed config = (refl, refl, refl)

config_set :
    (config : Bytes → List Bytes) (c : Conn) (on : Bool)
    → c.open_cached ≡ some on
    → config_open_account config c ≡ (on, c)
unfolding config_open_account
config_set config c on h = rw h refl

config_remembers :
    (config : Bytes → List Bytes) (c : Conn)
    → (config_open_account config c).1.open_cached ≡ some (config_open_account config c).0
unfolding config_open_account
config_remembers config c = elim (Option-cases c.open_cached) [
  | inl e ↦ rw e refl
  | inr (on, e) ↦ rw e refl
]

persist_sets : (c : Conn) → (persist_open_account c true).open_cached ≡ some true
unfolding persist_open_account
persist_sets c = refl

-- The config is read at most once for a connection: a later change of the file does not change the
-- answer, and writing the flag through the connection makes the answer yes without reading it.
pub config_open_account-config_open_account :
    (config later : Bytes → List Bytes) (c : Conn)
    → (config_open_account later (config_open_account config c).1 ≡ config_open_account config c)
      × ((config_open_account later (persist_open_account c true)).0 ≡ true)
config_open_account-config_open_account config later c =
    let (on, c') = config_open_account config c in
    (
      config_set later c' on (config_remembers config c),
      ap (λ r. r.0) (config_set later (persist_open_account c true) true (persist_sets c)),
    )
