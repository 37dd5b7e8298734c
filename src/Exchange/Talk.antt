-- ===== src/Exchange/Talk.antt =====
-- Whole sessions of src/gitd.c: the requests that are in the pipe, served in order.
use mv_git.Base.{ℕ, zero, suc, ◌<◌, false, List, [], ◌∷◌, ◌++◌, ◌≡◌, refl, ap, ◌∙◌, arith, length}
use mv_git.Bytes.{Bytes}
use mv_git.Exchange.Request.{IsRequest, parse_frame-request}
use mv_git.Gitd.{OpRes, gone, parse_frame, dispatch, Served, after, round, serve, serve_session}
use mv_git.Gitd.Serve.{parse_frame-room}
use mv_git.Session.{request}

-- A client's calls, and the bytes that it writes for them.
abbrev pub Calls : Type 0
Calls = List (Bytes × List Bytes)

abbrev pub sent : Bytes → Calls → Bytes
sent token [] = []
sent token ((op, args) ∷ more) = request token op args ++ sent token more

abbrev pub AllRequests : Bytes → Calls → Type 0
AllRequests token [] = Unit
AllRequests token ((op, args) ∷ more) = IsRequest token op args × AllRequests token more

empty_pipe : (token : Bytes) → parse_frame token [] ≡ gone
unfolding parse_frame
empty_pipe token = refl

module _ {ℓ} {W : Type ℓ} (run : Bytes → List Bytes → W → OpRes × W) (batch_end : W → W) where
  -- The calls done one after the other, with no wire between: the replies and the last state.
  abbrev pub done_in_order : Calls → W → Bytes × W
  done_in_order [] w = ([], w)
  done_in_order ((op, args) ∷ more) w =
      let (out, w') = dispatch run op args w in
      let (outs, w'') = done_in_order more w' in (out ++ outs, w'')

  abbrev pub as_served : Bytes × W → Served W
  as_served (out, w) = record { out = out; world = batch_end w; stop_server = false }

  fuel_left :
      (token op : Bytes) (args : List Bytes) (rest : Bytes) (n : ℕ)
      → IsRequest token op args
      → length (request token op args ++ rest) < suc n
      → length rest < n
  fuel_left token op args rest n h small =
      let taken = parse_frame-room token (request token op args ++ rest) in
      let exact = rw (parse_frame-request token op args rest h) at taken in omega arith

  serve-suc :
      (n : ℕ) (token s : Bytes) (w : W)
      → serve run batch_end (suc n) token s w
        ≡ round run batch_end (serve run batch_end n token) w (parse_frame token s)
  unfolding serve
  serve-suc n token s w = refl

  served_next :
      (n : ℕ) (token op : Bytes) (args : List Bytes) (rest : Bytes) (w : W) (d : Bytes × W)
      → IsRequest token op args
      → serve run batch_end n token rest (dispatch run op args w).1 ≡ as_served d
      → serve run batch_end (suc n) token (request token op args ++ rest) w
        ≡ as_served ((dispatch run op args w).0 ++ d.0, d.1)
  served_next n token op args rest w d h e =
      serve-suc n token (request token op args ++ rest) w
      ∙ ap (round run batch_end (serve run batch_end n token) w)
          (parse_frame-request token op args rest h)
      ∙ ap (after (dispatch run op args w).0) e

  serve-sent :
      (calls : Calls) (fuel : ℕ) (token : Bytes) (w : W)
      → AllRequests token calls
      → length (sent token calls) < fuel
      → serve run batch_end fuel token (sent token calls) w ≡ as_served (done_in_order calls w)
  serve-sent calls zero token w h small = absurd (omega arith)
  serve-sent [] (suc n) token w h small =
      serve-suc n token [] w
      ∙ ap (round run batch_end (serve run batch_end n token) w) (empty_pipe token)
  serve-sent ((op, args) ∷ more) (suc n) token w (h, hs) small =
      let w' = (dispatch run op args w).1 in
      served_next n token op args (sent token more) w (done_in_order more w') h
        (serve-sent more n token w' hs (fuel_left token op args (sent token more) n h small))

  -- A pipe that holds the requests of a client, one behind the other, is served to its end: every
  -- call is dispatched once, in order and on the state that the calls before it left, the replies
  -- go out in that order, the batch is closed behind the last one and the server is not stopped.
  pub serve_session-sent :
      (token : Bytes) (calls : Calls) (w : W)
      → AllRequests token calls
      → serve_session run batch_end token (sent token calls) w ≡ as_served (done_in_order calls w)
  unfolding serve_session
  serve_session-sent token calls w h =
      serve-sent calls (suc (length (sent token calls))) token w h (omega arith)
