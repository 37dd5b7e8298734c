-- ===== src/Batch.antt =====
-- Batched staging (src/mvxgit.c, mv_git_batch_begin, mv_git_batch_add and mv_git_batch_end; src/gitd.c,
-- op_flush, op_stage and op_stageblob): one index is open across many requests and written once.
-- libgit2 is a parameter: `open_repo` reads the index from the disk, and `put` adds a blob to an
-- index, or leaves it as it is when that fails. `write` is the index on the disk behind
-- git_index_write: the new one, or the old one when that fails, which the code does not look at.
pub mod Whole
use mv_git.Base.{
  ℕ, zero, suc, ◌+◌, Bool, true, false, not, ◌&&◌, ◌||◌, List, [], ◌∷◌, ◌++◌, Option, none, some,
  ltb, ◌==◌, if◌then◌else◌, length,
}
use mv_git.Bytes.{Bytes, codes, clip}
use mv_git.Control.{sticky_control}
use mv_git.Paths.{path_storable, platform_dict_record}
use mv_git.Record.{blobform, or_else}
use mv_git.Wire.{show}

-- g_bindex, g_batch_skipped, and the index on the disk
pub record Batch {ℓ} (Index : Type ℓ) : Type ℓ where
  pub opened : Option Index
  pub skipped : ℕ
  pub disk : Index

abbrev blob_of : Bool → Bytes → Bytes
blob_of translate content = if translate then blobform content else content

-- a byte 0 in the record
unfoldable pub has_nul : Bytes → Bool
has_nul [] = false
has_nul (c ∷ s) = c == 0 || has_nul s

-- What FLUSH says of the records that were skipped.
abbrev skipped_message : ℕ → Bytes
skipped_message n =
    show n
    ++ codes
        " record(s) NOT staged: their id cannot be a git path (contains '/', or is '.' or '..')"

-- What op_stage puts on the index: the projection of a record that holds no NUL, else the record.
abbrev projected : (Bytes → Option Bytes) → Bytes → Bytes
projected project r = if ltb 0 (length r) && not (has_nul r) then or_else (project r) r else r

module _ {ℓ} {Index : Type ℓ} (open_repo : Bytes → Index → Option Index)
    (put : Bytes → Bytes → Index → Index) (write : Index → Index → Index) where
  abbrev begun : Batch Index → Option Index → Bool × Batch Index
  begun b none = (false, record b { skipped = 0 })
  begun b (some i) = (true, record b { opened = some i; skipped = 0 })

  abbrev begin_on : Bytes → Batch Index → Option Index → Bool × Batch Index
  begin_on repo b (some i) = (true, b)
  begin_on repo b none = begun b (open_repo repo b.disk)

  -- mv_git_batch_begin: 1 when an index is open
  unfoldable pub batch_begin : Bytes → Batch Index → Bool × Batch Index
  batch_begin repo b = begin_on repo b b.opened

  abbrev add_on : Bytes → Bytes → Bool → Batch Index → Option Index → Batch Index
  add_on path content translate b none = b
  add_on path content translate b (some i) =
      if path_storable path
      then record b { opened = some (put path (blob_of translate content) i) }
      else record b { skipped = suc b.skipped }

  -- mv_git_batch_add
  unfoldable pub batch_add : Bytes → Bytes → Bool → Batch Index → Batch Index
  batch_add path content translate b = add_on path content translate b b.opened

  abbrev pub end_on : Batch Index → Option Index → Batch Index
  end_on b none = b
  end_on b (some i) = record b { opened = none; disk = write i b.disk }

  -- mv_git_batch_end
  unfoldable pub batch_end : Batch Index → Batch Index
  batch_end b = end_on b b.opened

  -- op_flush: its message, and the state behind it
  unfoldable pub op_flush : Batch Index → Option Bytes × Batch Index
  unfolding batch_end
  op_flush b = ((if ltb 0 b.skipped then some (skipped_message b.skipped) else none), batch_end b)

  -- op_stage; `project` is mv_git_project on this file and id
  unfoldable pub op_stage :
      (Bytes → Option Bytes) → Bytes → Bytes → Bytes → Bytes → Batch Index → Batch Index
  unfolding batch_begin batch_add has_nul
  op_stage project repo file id r b =
      if platform_dict_record file id
      then b
      else batch_add (clip 1200 (file ++ b'/' ∷ id)) (projected project r) true
          (batch_begin repo b).1

  -- op_stageblob; what is staged and committed of the controls are parameters
  unfoldable pub op_stageblob :
      (Bytes → Option Bytes)
      → (Bytes → Option Bytes)
      → Bytes
      → Bytes
      → Bytes
      → Batch Index
      → Batch Index
  unfolding batch_begin batch_add
  op_stageblob staged committed repo path content b =
      batch_add path (sticky_control staged committed path content) false (batch_begin repo b).1
