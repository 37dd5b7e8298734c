-- ===== src/Pool/Step.antt =====
-- What one call does to the files of a session (src/mvsession.c, mvs_call): the session stays in step
-- with its agent.
use mv_git.Base.{
  ℕ, suc, ◌≤◌, Bool, true, false, List, [], ◌∷◌, ◌++◌, Option, none, some, ◌≡◌, ◌≢◌, refl, sym, ap,
  subst, ◌∙◌, arith, leb, ◌==◌, ==_iff, if◌then◌else◌, length, inl, inr, Bool-cases, append-nil,
  take_all,
}
use mv_git.Bytes.{Bytes, codes, bytes_eq, bytes_eq_iff}
use mv_git.Pool.Replay.{
  asked_for, with_slots, with_slots-append, IsAgent, Has, InStep, reconnect-InStep,
}
use mv_git.Pool.Retry.{lost, tried, session_call-tried, settle_rest}
use mv_git.Pool.{
  Session, Platform, Result, is_gone, call_on, reconnect, remember_open, settle, repeat, retry,
  session_call,
}

-- The record of a file holds names and parts of this size.
abbrev pub Fits : List Bytes → Type 0
Fits [] = Unit
Fits (name ∷ []) = length name ≤ 255
Fits (name ∷ part ∷ more) = (length name ≤ 255) × (length part ≤ 15)

-- The file that a call opens: none unless it is an OPEN that works.
abbrev gained : Bool → Bool → List Bytes → List (Bytes × Bytes)
gained false b args = []
gained true false args = []
gained true true args = asked_for args

module _ {ℓ} {Link W : Type ℓ} (p : Platform Link W) (handles : Link → List (Bytes × Bytes)) where
  settled : Bool → Bool → List Bytes → Result → Session Link → W → Result × Session Link × W
  settled worked is_open args r s w =
      let fresh = record s { reconnects = 0 } in
      if worked then (r, (if is_open then remember_open p args fresh else fresh), w) else (r, s, w)

  -- Of the end of a call, before what it opened is remembered: the files are those remembered and
  -- the one that the call opened.
  abbrev Stepped : Bytes → List Bytes → Result × Session Link × W → Type ℓ
  Stepped op args (r, s, w) =
      Has p handles s.link (s.opens ++ gained (r.status == 0) (bytes_eq op (codes "OPEN")) args)

  abbrev status_of : Result × Session Link × W → ℕ
  status_of (r, s, w) = r.status

  module _ (agent : IsAgent p handles) where
    -- What one exchange does to the files of a session that is in step.
    link_stepped :
        (op : Bytes) (args : List Bytes) (l l' : Link) (w : W)
        → bytes_eq op (codes "OPEN") ≡ false
        → is_gone (p.call l op args w).0.status ≡ false
        → (p.call l op args w).1 ≡ some l'
        → handles l'
          ≡ with_slots (handles l) (gained ((p.call l op args w).0.status == 0) false args)
    link_stepped op args l l' w other here e =
        elim (Bool-cases ((p.call l op args w).0.status == 0)) [
          | inl ok ↦ rw ok (agent.keeps l l' op args w (inl other) here e)
          | inr ok ↦ rw ok (agent.keeps l l' op args w (inl other) here e)
        ]

    nonzero : (n : ℕ) → (n == 0) ≡ false → n ≢ 0
    nonzero n h = ground arith

    open_stepped :
        (args : List Bytes) (l l' : Link) (w : W)
        → is_gone (p.call l (codes "OPEN") args w).0.status ≡ false
        → (p.call l (codes "OPEN") args w).1 ≡ some l'
        → handles l'
          ≡ with_slots
              (handles l)
              (gained ((p.call l (codes "OPEN") args w).0.status == 0) true args)
    open_stepped args l l' w here e =
        let st = (p.call l (codes "OPEN") args w).0.status in
        elim (Bool-cases (st == 0)) [
          | inl ok ↦ rw ok (agent.opens l l' args w ((==_iff st 0).0 ok) e)
          | inr ok ↦ rw ok (agent.keeps l l' (codes "OPEN") args w (inr (nonzero st ok)) here e)
        ]

    as_open :
        (op : Bytes)
        → op ≡ codes "OPEN"
        → (args : List Bytes) (l l' : Link) (w : W) → is_gone (p.call l op args w).0.status ≡ false
        → (p.call l op args w).1 ≡ some l'
        → handles l'
          ≡ with_slots (handles l) (gained ((p.call l op args w).0.status == 0) true args)
    as_open op same =
        subst
          (λ o.
            (args : List Bytes) (l l' : Link) (w : W)
            → is_gone (p.call l o args w).0.status ≡ false
            → (p.call l o args w).1 ≡ some l'
            → handles l'
              ≡ with_slots (handles l) (gained ((p.call l o args w).0.status == 0) true args))
          (sym same) open_stepped

    any_stepped :
        (op : Bytes) (args : List Bytes) (l l' : Link) (w : W)
        → is_gone (p.call l op args w).0.status ≡ false
        → (p.call l op args w).1 ≡ some l'
        → handles l'
          ≡ with_slots
              (handles l)
              (gained ((p.call l op args w).0.status == 0) (bytes_eq op (codes "OPEN")) args)
    any_stepped op args l l' w here e = elim (Bool-cases (bytes_eq op (codes "OPEN"))) [
      | inl same ↦ rw same (as_open op ((bytes_eq_iff op (codes "OPEN")).0 same) args l l' w here e)
      | inr other ↦ rw other (link_stepped op args l l' w other here e)
    ]

    call-Stepped :
        (op : Bytes) (args : List Bytes) (link : Option Link) (w : W) (files : List (Bytes × Bytes))
        → Has p handles link files
        → is_gone (call_on p link op args w).0.status ≡ false
        → Has p handles (call_on p link op args w).1 (
            files
            ++ gained ((call_on p link op args w).0.status == 0) (bytes_eq op (codes "OPEN")) args)
    call-Stepped op args none w files has here = λ l e. cc
    call-Stepped op args (some l) w files has here = λ l' e.
        any_stepped op args l l' w here e
        ∙ ap
            (λ fs.
              with_slots fs
                (gained ((p.call l op args w).0.status == 0) (bytes_eq op (codes "OPEN")) args))
            (has l refl)
        ∙ sym (
            with_slots-append [] files
              (gained ((p.call l op args w).0.status == 0) (bytes_eq op (codes "OPEN")) args))

    remembered :
        (args : List Bytes) (s : Session Link)
        → Fits args
        → ((remember_open p args s).link ≡ s.link)
          × ((remember_open p args s).opens ≡ s.opens ++ asked_for args)
    unfolding remember_open
    remembered [] s h = (refl, sym (append-nil s.opens))
    remembered (name ∷ []) s h = rw (take_all 255 name h) (refl, refl)
    remembered (name ∷ part ∷ more) s (h, k) =
        rw (take_all 255 name h, take_all 15 part k) (refl, refl)

    settle_if :
        (worked is_open : Bool) (args : List Bytes) (r : Result) (s : Session Link) (w : W)
        → Fits args
        → Has p handles s.link (s.opens ++ gained worked is_open args)
        → InStep p handles (settled worked is_open args r s w).1
    unfolding settled
    settle_if true true args r s w fits has = λ l e.
        let (same, files) = remembered args (record s { reconnects = 0 }) fits in
        has l (sym same ∙ e) ∙ ap (with_slots []) (sym files)
    settle_if true false args r s w fits has =
        λ l e. has l e ∙ ap (with_slots []) (append-nil s.opens)
    settle_if false is_open args r s w fits has =
        λ l e. has l e ∙ ap (with_slots []) (append-nil s.opens)

    settle-InStep :
        (op : Bytes) (args : List Bytes) (d : Result × Session Link × W)
        → Fits args
        → Has p handles d.1.link
            (d.1.opens ++ gained (d.0.status == 0) (bytes_eq op (codes "OPEN")) args)
        → InStep p handles (settle p op args d).1
    unfolding settle settled
    settle-InStep op args (r, s, w) fits has =
        settle_if (r.status == 0) (bytes_eq op (codes "OPEN")) args r s w fits has

    repeat-Stepped :
        (op : Bytes) (args : List Bytes) (r : Result) (d : Bool × Session Link × W)
        → is_gone r.status ≡ true
        → (d.0 ≡ true → InStep p handles d.1)
        → is_gone (status_of (repeat p op args r d)) ≡ false
        → Stepped op args (repeat p op args r d)
    repeat-Stepped op args r (false, s, w) gone h here = absurd (ground (arith, gone, here))
    repeat-Stepped op args r (true, s, w) gone h here =
        call-Stepped op args s.link w s.opens (h refl) here

    retry_if :
        (stop : Bool) (op : Bytes) (args : List Bytes) (one two : Result × Session Link × W)
        → is_gone (status_of one) ≡ true
        → (is_gone (status_of two) ≡ false → Stepped op args two)
        → is_gone (status_of (if stop then one else two)) ≡ false
        → Stepped op args (if stop then one else two)
    retry_if true op args one two gone h here = absurd (ground (arith, gone, here))
    retry_if false op args one two gone h here = h here

    retry-Stepped :
        (op : Bytes) (args : List Bytes) (r : Result) (s : Session Link) (w : W)
        → is_gone r.status ≡ true
        → is_gone (status_of (retry p op args r s w)) ≡ false
        → Stepped op args (retry p op args r s w)
    unfolding retry
    retry-Stepped op args r s w gone here =
        let again = reconnect p (record s { reconnects = suc s.reconnects }) w in
        let r' = record r { body = [] } in
        retry_if (leb 3 s.reconnects) op args (r, s, w) (repeat p op args r' again) gone
          (repeat-Stepped op args r' again gone
            (reconnect-InStep p handles agent (record s { reconnects = suc s.reconnects }) w))
          here

    settle_status :
        (op : Bytes) (args : List Bytes) (d : Result × Session Link × W)
        → status_of (settle p op args d) ≡ status_of d
    settle_status op args (r, s, w) = ap (λ x. x.status) (settle_rest p op args r s w).0

    settle-Stepped :
        (op : Bytes) (args : List Bytes) (d : Result × Session Link × W)
        → Fits args
        → (is_gone (status_of d) ≡ false → Stepped op args d)
        → is_gone (status_of (settle p op args d)) ≡ false
        → InStep p handles (settle p op args d).1
    settle-Stepped op args d fits h here =
        settle-InStep op args d fits (h (ap is_gone (sym (settle_status op args d)) ∙ here))

    tried-Stepped :
        (again : Bool) (op : Bytes) (args : List Bytes) (r : Result) (s : Session Link) (w : W)
        → (again ≡ true → is_gone r.status ≡ true)
        → Fits args
        → (is_gone r.status ≡ false → Stepped op args (r, s, w))
        → is_gone (status_of (tried p again op args r s w)) ≡ false
        → InStep p handles (tried p again op args r s w).1
    unfolding tried
    tried-Stepped true op args r s w gone fits h here =
        settle-Stepped op args (retry p op args r s w) fits
          (retry-Stepped op args r s w (gone refl)) here
    tried-Stepped false op args r s w gone fits h here =
        settle-Stepped op args (r, s, w) fits h here

    lost_gone : (op : Bytes) (st : ℕ) → lost op st ≡ true → is_gone st ≡ true
    lost_gone op st h = ground (arith, h)

    -- A call that is answered leaves the session in step: the agent's slots are those of the files that
    -- the client remembers, in the order in which each was first opened, whether or not the session
    -- had to be replaced on the way. Provided that the session was in step, that the agent keeps to its
    -- protocol, and that the names fit the record.
    pub session_call-InStep :
        (op : Bytes) (args : List Bytes) (s : Session Link) (w : W)
        → InStep p handles s
        → Fits args
        → is_gone (session_call p op args s w).0.status ≡ false
        → InStep p handles (session_call p op args s w).1
    session_call-InStep op args s w has fits here =
        let (r, link, w') = call_on p s.link op args w in
        let same = session_call-tried p op args s w in
        subst (λ d. InStep p handles d.1) (sym same)
          (tried-Stepped (lost op r.status) op args r (record s { link = link }) w'
            (lost_gone op r.status) fits (call-Stepped op args s.link w s.opens has)
            (ap (λ d. is_gone (status_of d)) (sym same) ∙ here))
