-- ===== src/Pool/Retry.antt =====
-- How a call treats a session that has gone (src/mvsession.c, mvs_call): a bounded number of
-- replacements, and none for a call that is answered.
use mv_git.Base.{
  ℕ, suc, ◌≤◌, Bool, true, false, not, ◌&&◌, List, [], ◌∷◌, ◌≡◌, refl, ◌∙◌, arith, leb, ◌==◌,
  if◌then◌else◌, inl, inr, Bool-cases, ◌⊎◌, ◌≢◌,
}
use mv_git.Bytes.{Bytes, codes, bytes_eq, bytes_eq_refl}
use mv_git.Wire.{status_code}
use mv_git.Pool.{
  Session, Platform, Result, is_gone, call_on, reconnect, remember_open, settle, repeat, retry,
  session_call,
}

-- what mvs_call asks before it replaces the session
abbrev pub lost : Bytes → ℕ → Bool
lost op st = is_gone st && not (bytes_eq op (codes "QUIT"))

module _ {ℓ} {Link W : Type ℓ} (p : Platform Link W) where
  -- Of the result of a call: how often the session was replaced in a row.
  abbrev counted : Result × Session Link × W → ℕ
  counted (r, s, w) = s.reconnects

  remember-reconnects :
      (args : List Bytes) (s : Session Link) → (remember_open p args s).reconnects ≡ s.reconnects
  unfolding remember_open
  remember-reconnects [] s = refl
  remember-reconnects (name ∷ []) s = refl
  remember-reconnects (name ∷ part ∷ more) s = refl

  fresh_count :
      (b : Bool) (args : List Bytes) (s : Session Link)
      → s.reconnects ≡ 0
      → (if b then remember_open p args s else s).reconnects ≡ 0
  fresh_count true args s h = remember-reconnects args s ∙ h
  fresh_count false args s h = h

  settle_count :
      (op : Bytes) (args : List Bytes) (d : Result × Session Link × W) (n : ℕ)
      → counted d ≤ n
      → counted (settle p op args d) ≤ n
  unfolding settle
  settle_count op args (r, s, w) n h = elim (Bool-cases (r.status == 0)) [
    | inl e ↦
        rw (e, fresh_count (bytes_eq op (codes "OPEN")) args (record s { reconnects = 0 }) refl)
          (omega arith)
    | inr e ↦ rw e h
  ]

  repeat_count :
      (op : Bytes) (args : List Bytes) (r : Result) (d : Bool × Session Link × W)
      → counted (repeat p op args r d) ≡ d.1.reconnects
  repeat_count op args r (false, s, w) = refl
  repeat_count op args r (true, s, w) = refl

  reconnect_count : (s : Session Link) (w : W) → (reconnect p s w).1.reconnects ≡ s.reconnects
  unfolding reconnect
  reconnect_count s w = refl

  retry_count :
      (op : Bytes) (args : List Bytes) (r : Result) (s : Session Link) (w : W)
      → s.reconnects ≤ 3
      → counted (retry p op args r s w) ≤ 3
  unfolding retry
  retry_count op args r s w h = elim (Bool-cases (leb 3 s.reconnects)) [
    | inl e ↦ rw e h
    | inr e ↦
        rw
          (
            e,
            repeat_count op args (record r { body = [] })
                (reconnect p (record s { reconnects = suc s.reconnects }) w),
            reconnect_count (record s { reconnects = suc s.reconnects }) w,
          )
          (ground arith)
  ]

  -- the two ends of a call
  unfoldable pub tried :
      Bool → Bytes → List Bytes → Result → Session Link → W → Result × Session Link × W
  tried again op args r s w =
      if again then settle p op args (retry p op args r s w) else settle p op args (r, s, w)

  tried_count :
      (again : Bool) (op : Bytes) (args : List Bytes) (r : Result) (s : Session Link) (w : W)
      → s.reconnects ≤ 3
      → counted (tried again op args r s w) ≤ 3
  unfolding tried
  tried_count true op args r s w h =
      settle_count op args (retry p op args r s w) 3 (retry_count op args r s w h)
  tried_count false op args r s w h = settle_count op args (r, s, w) 3 h

  pub session_call-tried :
      (op : Bytes) (args : List Bytes) (s : Session Link) (w : W)
      → session_call p op args s w
        ≡ tried
            (lost op (call_on p s.link op args w).0.status)
            op
            args
            (call_on p s.link op args w).0
            (record s { link = (call_on p s.link op args w).1 })
            (call_on p s.link op args w).2
  unfolding session_call tried
  session_call-tried op args s w = refl

  -- A session that was replaced at most three times in a row is still so after a call, however the
  -- call ends.
  pub session_call_bound :
      (op : Bytes) (args : List Bytes) (s : Session Link) (w : W)
      → s.reconnects ≤ 3
      → (session_call p op args s w).1.reconnects ≤ 3
  session_call_bound op args s w h =
      let (r, link, w') = call_on p s.link op args w in
      rw (session_call-tried op args s w)
        (tried_count (lost op r.status) op args r (record s { link = link }) w' h)

  pub settle_rest :
      (op : Bytes) (args : List Bytes) (r : Result) (s : Session Link) (w : W)
      → ((settle p op args (r, s, w)).0 ≡ r) × ((settle p op args (r, s, w)).2 ≡ w)
  unfolding settle
  settle_rest op args r s w = elim (Bool-cases (r.status == 0)) [
    | inl e ↦ rw e (refl, refl)
    | inr e ↦ rw e (refl, refl)
  ]

  given_up :
      (op : Bytes) (args : List Bytes) (r : Result) (s : Session Link) (w : W)
      → 3 ≤ s.reconnects
      → retry p op args r s w ≡ (r, s, w)
  unfolding retry
  given_up op args r s w h = let e : leb 3 s.reconnects ≡ true = ground arith in rw e refl

  tried_once :
      (again : Bool) (op : Bytes) (args : List Bytes) (r : Result) (s : Session Link) (w : W)
      → (again ≡ false) ⊎ (3 ≤ s.reconnects)
      → ((tried again op args r s w).0 ≡ r) × ((tried again op args r s w).2 ≡ w)
  unfolding tried
  tried_once false op args r s w h = settle_rest op args r s w
  tried_once true op args r s w (inl e) = cc
  tried_once true op args r s w (inr h) = rw (given_up op args r s w h) (settle_rest op args r s w)

  kept_session :
      (op : Bytes) (st n : ℕ)
      → ((st ≢ 6) × (st ≢ 1)) ⊎ ((op ≡ codes "QUIT") ⊎ (3 ≤ n))
      → (lost op st ≡ false) ⊎ (3 ≤ n)
  unfolding is_gone status_code
  kept_session op st n (inl (h, k)) = inl (ground arith)
  kept_session op st n (inr (inl q)) =
      inl (rw (q, bytes_eq_refl (codes "QUIT")) (and_false (is_gone st)))
    where
      and_false : (a : Bool) → (a && false) ≡ false
      and_false true = refl
      and_false false = refl
  kept_session op st n (inr (inr h)) = inr h

  -- A call is sent once, and its result and the world are those of that one exchange, unless its
  -- status is 1 or 6 (a protocol error, or a session that has gone): whatever the status is for a
  -- QUIT, and for a session that was replaced three times in a row. So a call that the agent has
  -- refused or failed is not sent again.
  pub session_call_once :
      (op : Bytes) (args : List Bytes) (s : Session Link) (w : W)
      → (((call_on p s.link op args w).0.status ≢ 6) × ((call_on p s.link op args w).0.status ≢ 1))
        ⊎ ((op ≡ codes "QUIT") ⊎ (3 ≤ s.reconnects))
      → ((session_call p op args s w).0 ≡ (call_on p s.link op args w).0)
        × ((session_call p op args s w).2 ≡ (call_on p s.link op args w).2)
  session_call_once op args s w h =
      let (r, link, w') = call_on p s.link op args w in
      rw (session_call-tried op args s w) (
        tried_once (lost op r.status) op args r (record s { link = link }) w'
          (kept_session op r.status s.reconnects h))
