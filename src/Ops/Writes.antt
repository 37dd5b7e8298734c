-- ===== src/Ops/Writes.antt =====
-- The operations that read what was staged (src/gitd.c, op_init, op_stagectl, op_ixcat and op_commit):
-- the batch is on the disk before the engine looks there.
use mv_git.Base.{inl, inr, List, Option, none, some, ◌≡◌, inl, inr}
use mv_git.Batch.{Batch}
use mv_git.Build.{Build}
use mv_git.Bytes.{Bytes}
use mv_git.Ops.{World, Engine, bridge, given, gitd_op}

module _ {ℓ} {Index Rest : Type ℓ} (b : Build) (e : Engine Index Rest) where
  -- The batch on the disk and none open.
  abbrev pub written : Batch Index → Option Index → Batch Index
  written batch none = record batch { opened = none }
  written batch (some i) = record batch { opened = none; disk = e.write i batch.disk }

  -- What the engine is handed: the index with everything that the session has staged.
  abbrev pub all_written : World Index Rest → World Index Rest
  all_written w = record w { batch = written w.batch w.batch.opened }

  abbrev Writes : Bytes → Type ℓ
  Writes op =
      (a : List Bytes) (w : World Index Rest)
      → gitd_op b e op a w ≡ bridge b e op (given b e op a) (all_written w)
