-- ===== src/Server/Start.antt =====
-- The start of a server (src/gitd.c): what a command has seen when ensure_server lets it go on, and
-- what it reads in the pid file.
use mv_git.Base.{
  ℕ, zero, suc, Bool, true, false, ◌&&◌, Option, ◌≡◌, refl, ap, ◌∙◌, if◌then◌else◌, inl, inr, ◌⊎◌,
  Bool-cases,
}
use mv_git.Bytes.{Bytes, bytes_eq, bytes_eq_iff}
use mv_git.Server.{await_ready, unless_up, same_build, if_up, retire_server, ensure_server}

second : (a b : Bool) → (a && b) ≡ true → b ≡ true
second true b h = h
second false b h = cc

module _ {ℓ} {W : Type ℓ} (running : W → Bool × W) (build_of : W → Bytes × W) (mine : Bytes)
    (pid_of : W → Option ℕ × W) (terminate : ℕ → W → Bool × W) (pause start : W → W)
    (control_there : W → Bool × W) where
  -- The last thing that was seen is a server that holds the lock.
  abbrev pub SawRunning : W → Type ℓ
  SawRunning last = (w : W) × ((running w).0 ≡ true) × ((running w).1 ≡ last)

  -- A server that holds the lock, and then that its build is this command's.
  abbrev pub SawOwnBuild : W → Type ℓ
  SawOwnBuild last =
      (w : W) × ((running w).0 ≡ true)
      × ((build_of (running w).1).0 ≡ mine)
      × ((build_of (running w).1).1 ≡ last)

  await_ready-SawRunning :
      (n : ℕ) (w : W)
      → (await_ready running build_of mine pid_of terminate pause start control_there n w).0 ≡ true
      → SawRunning
          (await_ready running build_of mine pid_of terminate pause start control_there n w).1
  unfolding await_ready
  await_ready-SawRunning zero w h = cc
  await_ready-SawRunning (suc n) w h =
      elim (Bool-cases ((control_there w).0 && (running (control_there w).1).0)) [
        | inl e ↦ rw e ((control_there w).1, second _ _ e, refl)
        | inr e ↦ rw e (
            await_ready-SawRunning n
              (pause (
                if (control_there w).0
                then (running (control_there w).1).1
                else (control_there w).1))
              (rw e at h))
      ]

  unless_up-SawRunning :
      (w : W) (p : Bool × W)
      → running w ≡ p
      → (unless_up running build_of mine pid_of terminate pause start control_there p).0 ≡ true
      → SawRunning (unless_up running build_of mine pid_of terminate pause start control_there p).1
  unless_up-SawRunning w (true, v) e h = (w, ap (λ q. q.0) e, ap (λ q. q.1) e)
  unless_up-SawRunning w (false, v) e h = await_ready-SawRunning 100 (start v) h

  same_build_saw :
      (w : W) (p : Bytes × W)
      → (running w).0 ≡ true
      → build_of (running w).1 ≡ p
      → (same_build running build_of mine pid_of terminate pause start control_there p).0 ≡ true
      → SawRunning (same_build running build_of mine pid_of terminate pause start control_there p).1
        ⊎ SawOwnBuild
            (same_build running build_of mine pid_of terminate pause start control_there p).1
  same_build_saw w (ident, v) up e h = elim (Bool-cases (bytes_eq ident mine)) [
    | inl f ↦
        let own : ident ≡ mine = (bytes_eq_iff ident mine).0 f in
        rw f (inr (w, up, ap (λ q. q.0) e ∙ own, ap (λ q. q.1) e))
    | inr f ↦ rw f (
        inl (
          unless_up-SawRunning
            (retire_server running build_of mine pid_of terminate pause start control_there v) _
            refl (rw f at h)))
  ]

  if_up_saw :
      (w : W) (p : Bool × W)
      → running w ≡ p
      → (if_up running build_of mine pid_of terminate pause start control_there p).0 ≡ true
      → SawRunning (if_up running build_of mine pid_of terminate pause start control_there p).1
        ⊎ SawOwnBuild (if_up running build_of mine pid_of terminate pause start control_there p).1
  if_up_saw w (true, v) e h =
      same_build_saw w (build_of v) (ap (λ q. q.0) e) (ap (λ q. build_of q.1) e) h
  if_up_saw w (false, v) e h = inl (await_ready-SawRunning 100 (start v) h)

  -- When ensure_server lets a command go on, the last thing that the command saw is a server that
  -- holds the lock, or such a server and then its own build in the pid file.
  pub ensure_server-SawRunning :
      (w : W)
      → (ensure_server running build_of mine pid_of terminate pause start control_there w).0 ≡ true
      → SawRunning
          (ensure_server running build_of mine pid_of terminate pause start control_there w).1
        ⊎ SawOwnBuild
            (ensure_server running build_of mine pid_of terminate pause start control_there w).1
  unfolding ensure_server
  ensure_server-SawRunning w h = if_up_saw w (running w) refl h
