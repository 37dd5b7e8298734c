-- ===== src/Ops.antt =====
-- The operations that the background process serves (src/gitd.c, op_ping to op_pullref), over the batch
-- of a session and the engine. The engine's own operations are a parameter: from an operation's name
-- and arguments, the index on the disk and the rest of the repository, to the text that it answers
-- and both again.
pub mod Writes
pub mod Ends
use mv_git.Base.{
  ℕ, Bool, true, false, List, [], ◌∷◌, ◌++◌, Option, none, some, if◌then◌else◌, get_or, ◌==◌,
}
use mv_git.Batch.{Batch, batch_begin, batch_add, batch_end, op_flush, op_stage, op_stageblob}
use mv_git.Build.{Build}
use mv_git.Bytes.{Bytes, codes, bytes_eq}
use mv_git.Furniture.{filter_furniture, filter_vocdrop, gitd_classes, named_in}
use mv_git.Gitd.{OpRes, dispatch, Served, serve_session}
use mv_git.Record.{is_empty, or_else}

-- What a session works on: its batch, with the index on the disk, and the rest of the repository.
pub record World {ℓ} (Index Rest : Type ℓ) : Type ℓ where
  pub batch : Batch Index
  pub rest : Rest

-- libgit2 and the engine, as the operations use them.
pub record Engine {ℓ} (Index Rest : Type ℓ) : Type ℓ where
  pub open_repo : Bytes → Index → Option Index
  pub put : Bytes → Bytes → Index → Index
  pub write : Index → Index → Index
  pub run : Bytes → List Bytes → Index → Rest → Bytes × Index × Rest
  pub project : Bytes → Bytes → Bytes → Bytes → Rest → Option Bytes
  pub staged : Index → Bytes → Option Bytes
  pub committed : Rest → Bytes → Option Bytes
  pub desc_for : Bytes → Bool → Option (Bytes × Bytes)

-- A: an argument, empty when it is absent
abbrev pub argument : List Bytes → ℕ → Bytes
argument a i = get_or a i []

-- rp
abbrev pub repo_of : List Bytes → Bytes
repo_of a = if is_empty (argument a 0) then codes ".git" else argument a 0

abbrev pub answer_text : Bytes → OpRes
answer_text out = record { status = 0; out = out }

-- the operations that write the batch out before the engine runs
abbrev pub flushing : List Bytes
flushing = codes "INIT" ∷ codes "STAGECTL" ∷ codes "IXCAT" ∷ codes "COMMIT" ∷ []

module _ {ℓ} {Index Rest : Type ℓ} (b : Build) (e : Engine Index Rest) where
  abbrev pub Answered : Type ℓ
  Answered = OpRes × World Index Rest

  abbrev pub with_batch : World Index Rest → Batch Index → World Index Rest
  with_batch w batch = record w { batch = batch }

  -- the engine's own operation, on the index that is on the disk
  unfoldable pub bridge : Bytes → List Bytes → World Index Rest → Answered
  bridge op a w =
      let (out, disk, rest) = e.run op a w.batch.disk w.rest in
      (answer_text out, record { batch = record w.batch { disk = disk }; rest = rest })

  -- what the engine is given: the repository's name for the first argument, and LOG's count
  abbrev log_count : Bytes → Bytes
  log_count n = if is_empty n then codes "20" else n

  abbrev pub given : Bytes → List Bytes → List Bytes
  given op [] = []
  given op (r ∷ []) = repo_of (r ∷ []) ∷ []
  given op (r ∷ x ∷ more) =
      repo_of (r ∷ []) ∷ (if bytes_eq op (codes "LOG") then log_count x else x) ∷ more

  unfoldable pub ended : World Index Rest → World Index Rest
  unfolding batch_end
  ended w = with_batch w (batch_end e.open_repo e.put e.write w.batch)

  abbrev flushed : World Index Rest → Option Bytes × Batch Index → Answered
  flushed w (message, batch) = (answer_text (or_else message []), with_batch w batch)

  abbrev add_desc : Bytes → World Index Rest → Option (Bytes × Bytes) → Batch Index
  add_desc repo w none = w.batch
  add_desc repo w (some (path, desc)) =
      batch_add e.open_repo e.put e.write path desc false
        (batch_begin e.open_repo e.put e.write repo w.batch).1

  abbrev stage : List Bytes → World Index Rest → Batch Index
  stage a w =
      op_stage e.open_repo e.put e.write
        (λ r. e.project (repo_of a) (argument a 1) (argument a 2) r w.rest) (repo_of a)
        (argument a 1) (argument a 2) (argument a 3) w.batch

  abbrev stageblob : List Bytes → World Index Rest → Batch Index
  stageblob a w =
      op_stageblob e.open_repo e.put e.write (e.staged w.batch.disk) (e.committed w.rest)
        (repo_of a) (argument a 1) (argument a 2) w.batch

  -- What OPS runs for a name.
  unfoldable pub gitd_op : Bytes → List Bytes → World Index Rest → Answered
  unfolding op_flush op_stage op_stageblob batch_begin batch_add filter_furniture filter_vocdrop
      bytes_eq named_in bridge ended
  gitd_op op a w =
      if bytes_eq op (codes "PING")
      then (answer_text (codes "gitd-ok"), w)
      else if bytes_eq op (codes "FLUSH")
      then flushed w (op_flush e.open_repo e.put e.write w.batch)
      else if bytes_eq op (codes "STAGE")
      then (answer_text [], with_batch w (stage a w))
      else if bytes_eq op (codes "STAGEBLOB")
      then (answer_text [], with_batch w (stageblob a w))
      else if bytes_eq op (codes "STAGEDESC")
      then (
        answer_text [],
        with_batch w (
            add_desc (repo_of a) w (e.desc_for (argument a 1) (get_or (argument a 2) 0 0 == b'1'))),
      )
      else if bytes_eq op (codes "FURNITURE")
      then (answer_text (filter_furniture b (argument a 1)), w)
      else if bytes_eq op (codes "VOCDROP")
      then (answer_text (filter_vocdrop gitd_classes (argument a 1)), w)
      else bridge op (given op a) (if named_in flushing op then ended w else w)

  -- serve_session of the process, with its own operations
  unfoldable pub serve_gitd : Bytes → Bytes → World Index Rest → Served (World Index Rest)
  unfolding serve_session gitd_op ended
  serve_gitd token s w = serve_session gitd_op ended token s w
