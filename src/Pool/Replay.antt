-- ===== src/Pool/Replay.antt =====
-- The files that a session has open (src/mvsession.c, remember_open and reconnect): the slots of
-- the agent are those of the files that the client remembers, each once, also after a session that
-- went was replaced.
use mv_git.Base.{
  Bool, true, false, List, [], ◌∷◌, ◌++◌, Option, none, some, ◌≡◌, ◌≢◌, refl, sym, ap, ◌∙◌, ◌||◌,
  ◌==◌, ==_iff, if◌then◌else◌, append_assoc, append-nil, ◌⊎◌,
}
use mv_git.Bytes.{Bytes, codes, bytes_eq, vm}
use mv_git.Pool.{Session, Platform, is_gone, call_on, reconnect, replay, replay_on, open_args}

-- The file that an OPEN asks for, by its arguments.
abbrev pub asked_for : List Bytes → List (Bytes × Bytes)
asked_for [] = []
asked_for (name ∷ []) = (name, []) ∷ []
asked_for (name ∷ part ∷ more) = (name, part) ∷ []

-- The key that the agent keeps a file under (BP/GIT.AGENT, DO.OPEN).
abbrev pub agent_key : Bytes × Bytes → Bytes
agent_key (name, part) = name ++ vm ∷ part

abbrev pub held : List (Bytes × Bytes) → Bytes × Bytes → Bool
held [] f = false
held (g ∷ files) f = bytes_eq (agent_key g) (agent_key f) || held files f

-- A file that is open has its slot already; another gets the next.
abbrev pub with_slot : List (Bytes × Bytes) → Bytes × Bytes → List (Bytes × Bytes)
with_slot files f = if held files f then files else files ++ f ∷ []

abbrev pub with_slots : List (Bytes × Bytes) → List (Bytes × Bytes) → List (Bytes × Bytes)
with_slots files [] = files
with_slots files (f ∷ more) = with_slots (with_slot files f) more

pub with_slots-append :
    (files xs ys : List (Bytes × Bytes))
    → with_slots files (xs ++ ys) ≡ with_slots (with_slots files xs) ys
with_slots-append files [] ys = refl
with_slots-append files (x ∷ xs) ys = with_slots-append (with_slot files x) xs ys

-- What the documented agent does: `handles` are the slots of a link. A new session has none, an OPEN
-- that works gives the file a slot unless it has one, and a refused one or another operation changes
-- none. A link that says that the session has gone promises nothing.
pub record IsAgent {ℓ} {Link W : Type ℓ} (p : Platform Link W)
    (handles : Link → List (Bytes × Bytes)) : Type ℓ where
  pub starts :
      (account : Bytes) (w : W) (l : Link) → (p.spawn account w).1 ≡ some l → handles l ≡ []
  pub opens :
      (l l' : Link) (args : List Bytes) (w : W)
      → (p.call l (codes "OPEN") args w).0.status ≡ 0
      → (p.call l (codes "OPEN") args w).1 ≡ some l'
      → handles l' ≡ with_slots (handles l) (asked_for args)
  pub keeps :
      (l l' : Link) (op : Bytes) (args : List Bytes) (w : W)
      → (bytes_eq op (codes "OPEN") ≡ false) ⊎ ((p.call l op args w).0.status ≢ 0)
      → is_gone (p.call l op args w).0.status ≡ false
      → (p.call l op args w).1 ≡ some l'
      → handles l' ≡ handles l

asked_for-open_args : (o : Bytes × Bytes) → asked_for (open_args o) ≡ o ∷ []
asked_for-open_args (name, []) = refl
asked_for-open_args (name, c ∷ s) = refl

module _ {ℓ} {Link W : Type ℓ} (p : Platform Link W) (handles : Link → List (Bytes × Bytes)) where
  -- The slots of the pipes, if there are any, are those of these files, each once.
  abbrev pub Has : Option Link → List (Bytes × Bytes) → Type ℓ
  Has link files = (l : Link) → link ≡ some l → handles l ≡ with_slots [] files

  abbrev pub InStep : Session Link → Type ℓ
  InStep s = Has s.link s.opens

  module _ (agent : IsAgent p handles) where
    no_link : (files : List (Bytes × Bytes)) → Has none files
    no_link files l e = cc

    opened :
        (link : Option Link) (args : List Bytes) (w : W) (files : List (Bytes × Bytes))
        → Has link files
        → (call_on p link (codes "OPEN") args w).0.status ≡ 0
        → Has (call_on p link (codes "OPEN") args w).1 (files ++ asked_for args)
    opened none args w files has ok = no_link (files ++ asked_for args)
    opened (some l) args w files has ok = λ l' e.
        agent.opens l l' args w ok e
        ∙ ap (λ fs. with_slots fs (asked_for args)) (has l refl)
        ∙ sym (with_slots-append [] files (asked_for args))

    replay_if :
        (ok : Bool) (rest : Bool × Option Link × W) (link : Option Link) (w : W)
        (files : List (Bytes × Bytes))
        → (ok ≡ true → rest.0 ≡ true → Has rest.1 files)
        → (if ok then rest else (false, link, w)).0 ≡ true
        → Has (if ok then rest else (false, link, w)).1 files
    replay_if true rest link w files has h = has refl h
    replay_if false rest link w files has h = cc

    replayed :
        (more : List (Bytes × Bytes)) (link : Option Link) (w : W) (files : List (Bytes × Bytes))
        → Has link files
        → (replay p more link w).0 ≡ true
        → Has (replay p more link w).1 (files ++ more)
    unfolding replay
    replayed [] link w files has ok = rw append-nil has
    replayed (o ∷ more) link w files has ok =
        let (r, link', w') = call_on p link (codes "OPEN") (open_args o) w in
        let more_files = files ++ asked_for (open_args o) in
        let same : more_files ++ more ≡ files ++ o ∷ more =
          rw (asked_for-open_args o) (append_assoc files (o ∷ []) more) in
        replay_if (r.status == 0) (replay p more link' w') link' w' (files ++ o ∷ more)
          (λ done rest l e.
            replayed more link' w' more_files
              (opened link (open_args o) w files has ((==_iff r.status 0).0 done)) rest l e
            ∙ ap (with_slots []) same)
          ok

    replay_new :
        (files : List (Bytes × Bytes)) (d : Bool × Option Link × W)
        → ((l : Link) → d.1 ≡ some l → handles l ≡ [])
        → (replay_on p files d).0 ≡ true
        → Has (replay_on p files d).1 files
    replay_new files (false, link, w) h ok = cc
    replay_new files (true, link, w) h ok = replayed files link w [] h ok

    -- A replacement that works leaves the session in step.
    pub reconnect-InStep :
        (s : Session Link) (w : W) → (reconnect p s w).0 ≡ true → InStep (reconnect p s w).1
    unfolding reconnect
    reconnect-InStep s w ok =
        replay_new s.opens (p.spawn s.account (p.teardown false s.link w))
          (agent.starts s.account (p.teardown false s.link w)) ok
