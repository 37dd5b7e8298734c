-- ===== src/Pool/Cap.antt =====
-- The licence cap (src/mvsession.c, mvs_open): never more sessions than the caller allowed, and never
-- two in one account.
use mv_git.Base.{
  ℕ, zero, suc, ◌<◌, ◌≤◌, Bool, true, false, List, [], ◌∷◌, Option, none, some, ◌≡◌, ◌≢◌, refl, ap,
  arith, leb, if◌then◌else◌, length, All, inl, inr, Bool-cases,
}
use mv_git.Bytes.{Bytes, bytes_eq, bytes_eq_iff}
use mv_git.Pool.{
  Session, Platform, find_session, close_last, retire, spawned, open_found, open_real, session_open,
  set_jobs, or_dot,
}

-- No session of the list is in this account.
abbrev NotIn {ℓ} : {Link : Type ℓ} → Bytes → List (Session Link) → Type 0
NotIn account = All (λ s. s.account ≢ account)

-- No two are in one account.
abbrev pub Apart {ℓ} : {Link : Type ℓ} → List (Session Link) → Type 0
Apart [] = Unit
Apart (s ∷ more) = NotIn s.account more × Apart more

-- What holds of the sessions of a client between its calls.
pub record IsPool {ℓ} {Link : Type ℓ} (jobs : ℕ) (sessions : List (Session Link)) : Type 0 where
  pub within : length sessions ≤ jobs
  pub apart : Apart sessions

jobs_positive : (n : ℕ) → 0 < set_jobs n
unfolding set_jobs
jobs_positive zero = omega arith
jobs_positive (suc n) = omega arith

accounts_differ : (a b : Bytes) → bytes_eq a b ≡ false → a ≢ b
accounts_differ a b h e = ground (arith, h, (bytes_eq_iff a b).1 e)

neither {ℓ} :
    {A : Type ℓ} (b : Bool) (a : A) (rest : Option A)
    → (if b then some a else rest) ≡ none
    → (b ≡ false) × (rest ≡ none)
neither true a rest h = cc
neither false a rest h = (refl, h)

module _ {ℓ} {Link W : Type ℓ} (p : Platform Link W) where
  close_last-length :
      (s : Session Link) (more : List (Session Link)) (w : W)
      → suc (length (close_last p (s ∷ more) w).0) ≡ length (s ∷ more)
  unfolding close_last
  close_last-length s [] w = refl
  close_last-length s (t ∷ more) w = ap suc (close_last-length t more w)

  close_last-NotIn :
      (account : Bytes) (sessions : List (Session Link)) (w : W)
      → NotIn account sessions
      → NotIn account (close_last p sessions w).0
  unfolding close_last
  close_last-NotIn account [] w h = tt
  close_last-NotIn account (s ∷ []) w h = tt
  close_last-NotIn account (s ∷ t ∷ more) w (h, hs) = (h, close_last-NotIn account (t ∷ more) w hs)

  close_last-Apart :
      (sessions : List (Session Link)) (w : W) → Apart sessions → Apart (close_last p sessions w).0
  unfolding close_last
  close_last-Apart [] w h = tt
  close_last-Apart (s ∷ []) w h = tt
  close_last-Apart (s ∷ t ∷ more) w (h, hs) =
      (close_last-NotIn s.account (t ∷ more) w h, close_last-Apart (t ∷ more) w hs)

  retire-Apart :
      (jobs live : ℕ) (sessions : List (Session Link)) (w : W)
      → Apart sessions
      → Apart (retire p jobs live sessions w).0
  unfolding retire
  retire-Apart jobs zero sessions w h = h
  retire-Apart jobs (suc live) sessions w h = elim (Bool-cases (leb jobs (suc live))) [
    | inl e ↦ rw e (
        retire-Apart jobs live (close_last p sessions w).0 (close_last p sessions w).1
          (close_last-Apart sessions w h))
    | inr e ↦ rw e h
  ]

  retire-NotIn :
      (account : Bytes) (jobs live : ℕ) (sessions : List (Session Link)) (w : W)
      → NotIn account sessions
      → NotIn account (retire p jobs live sessions w).0
  unfolding retire
  retire-NotIn account jobs zero sessions w h = h
  retire-NotIn account jobs (suc live) sessions w h = elim (Bool-cases (leb jobs (suc live))) [
    | inl e ↦ rw e (
        retire-NotIn account jobs live (close_last p sessions w).0 (close_last p sessions w).1
          (close_last-NotIn account sessions w h))
    | inr e ↦ rw e h
  ]

  one_less :
      (live : ℕ) (sessions : List (Session Link)) (w : W)
      → length sessions ≡ suc live
      → length (close_last p sessions w).0 ≡ live
  one_less live [] w h = absurd (omega arith)
  one_less live (s ∷ more) w h = let e = close_last-length s more w in omega (arith, e, h)

  retire_room :
      (jobs live : ℕ) (sessions : List (Session Link)) (w : W)
      → 0 < jobs
      → length sessions ≡ live
      → length (retire p jobs live sessions w).0 < jobs
  unfolding retire
  retire_room jobs zero sessions w pos h = omega (arith, h)
  retire_room jobs (suc live) sessions w pos h = elim (Bool-cases (leb jobs (suc live))) [
    | inl e ↦ rw e (
        retire_room jobs live (close_last p sessions w).0 (close_last p sessions w).1 pos
          (one_less live sessions w h))
    | inr e ↦ rw e (ground (arith, h))
  ]

  not_found :
      (account : Bytes) (sessions : List (Session Link))
      → find_session p account sessions ≡ none
      → NotIn account sessions
  unfolding find_session
  not_found account [] h = tt
  not_found account (s ∷ more) h =
      let (other, rest) = neither (bytes_eq s.account account) s (find_session p account more) h in
      (accounts_differ s.account account other, not_found account more rest)

  spawned-IsPool :
      (jobs : ℕ) (account : Bytes) (sessions : List (Session Link)) (r : Bool × Option Link × W)
      → length sessions < jobs
      → Apart sessions
      → NotIn account sessions
      → IsPool jobs (spawned p account sessions r).1
  spawned-IsPool jobs account sessions (false, link, w) small apart new = record {
    within = omega arith;
    apart = apart;
  }
  spawned-IsPool jobs account sessions (true, link, w) small apart new = record {
    within = omega arith;
    apart = (new, apart);
  }

  found-IsPool :
      (jobs : ℕ) (account : Bytes) (sessions : List (Session Link)) (w : W)
      → (o : Option (Session Link)) → find_session p account sessions ≡ o
      → 0 < jobs
      → IsPool jobs sessions
      → IsPool jobs (open_found p jobs account sessions w o).1
  found-IsPool jobs account sessions w (some s) e pos h = h
  found-IsPool jobs account sessions w none e pos h =
      let new = not_found account sessions e in
      let kept = retire p jobs (length sessions) sessions w in
      spawned-IsPool jobs account kept.0 (p.spawn account kept.1)
        (retire_room jobs (length sessions) sessions w pos refl)
        (retire-Apart jobs (length sessions) sessions w h.apart)
        (retire-NotIn account jobs (length sessions) sessions w new)

  real-IsPool :
      (jobs : ℕ) (sessions : List (Session Link)) (w : W) (o : Option Bytes)
      → 0 < jobs
      → IsPool jobs sessions
      → IsPool jobs (open_real p jobs sessions w o).1
  real-IsPool jobs sessions w none pos h = h
  real-IsPool jobs sessions w (some account) pos h =
      found-IsPool jobs account sessions w (find_session p account sessions) refl pos h

  -- Opening a session, on every branch, keeps the number of sessions within the cap, which is at
  -- least one, and no two sessions in one account.
  pub session_open-IsPool :
      (n : ℕ) (account : Bytes) (sessions : List (Session Link)) (w : W)
      → IsPool (set_jobs n) sessions
      → IsPool (set_jobs n) (session_open p (set_jobs n) account sessions w).1
  unfolding session_open
  session_open-IsPool n account sessions w h =
      real-IsPool (set_jobs n) sessions w (p.realpath (or_dot account) w) (jobs_positive n) h
