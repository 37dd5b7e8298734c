-- ===== src/Ops/Ends.antt =====
-- The end of a session (src/gitd.c, serve_session): whatever the client sends, no batch is left open.
use mv_git.Base.{ℕ, zero, suc, List, Option, none, some, ◌≡◌, refl, length}
use mv_git.Batch.{Batch, batch_end, end_on}
use mv_git.Build.{Build}
use mv_git.Bytes.{Bytes}
use mv_git.Gitd.{
  OpRes, Parsed, refuse, call, bye, shutdown, gone, parse_frame, round, serve, serve_session,
  Served, dispatch,
}
use mv_git.Ops.{World, Engine, ended, serve_gitd, gitd_op}

module _ {ℓ} {W : Type ℓ} (run : Bytes → List Bytes → W → OpRes × W) (batch_end : W → W)
    (P : W → Type ℓ) (closes : (w : W) → P (batch_end w)) where
  round_ends :
      (next : Bytes → W → Served W) (w : W) (p : Parsed)
      → ((rest : Bytes) (v : W) → P (next rest v).world)
      → P (round run batch_end next w p).world
  round_ends next w (call op args rest) h = h rest (dispatch run op args w).1
  round_ends next w gone h = closes w
  round_ends next w (refuse status msg) h = closes w
  round_ends next w bye h = closes w
  round_ends next w shutdown h = closes w

  -- What closing a batch makes true is true of the state that the loop leaves.
  serve_ends : (fuel : ℕ) (token s : Bytes) (w : W) → P (serve run batch_end fuel token s w).world
  unfolding serve
  serve_ends zero token s w = closes w
  serve_ends (suc fuel) token s w =
      round_ends (serve run batch_end fuel token) w (parse_frame token s)
        (λ rest v. serve_ends fuel token rest v)

  pub serve_session_ends :
      (token s : Bytes) (w : W) → P (serve_session run batch_end token s w).world
  unfolding serve_session
  serve_session_ends token s w = serve_ends (suc (length s)) token s w

module _ {ℓ} {Index Rest : Type ℓ} (b : Build) (e : Engine Index Rest) where
  closed_on :
      (batch : Batch Index) (o : Option Index)
      → batch.opened ≡ o
      → (end_on e.open_repo e.put e.write batch o).opened ≡ none
  closed_on batch none h = h
  closed_on batch (some i) h = refl

  ended_closed : (w : World Index Rest) → (ended b e w).batch.opened ≡ none
  unfolding ended batch_end
  ended_closed w = closed_on w.batch w.batch.opened refl

  -- Whatever a client sends to the process, whichever operations that runs and however the session
  -- ends: no batch is open when it is over.
  pub serve_gitd_ends :
      (token s : Bytes) (w : World Index Rest)
      → (serve_gitd b e token s w).world.batch.opened ≡ none
  unfolding serve_gitd
  serve_gitd_ends token s w =
      serve_session_ends (gitd_op b e) (ended b e) (λ v. v.batch.opened ≡ none) ended_closed token s
        w
