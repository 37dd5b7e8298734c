-- ===== src/Batch/Whole.antt =====
-- A whole batch (src/mvxgit.c): what is on the disk behind it, and what was skipped.
use mv_git.Base.{
  ℕ, suc, ◌+◌, Bool, true, List, [], ◌∷◌, Option, none, some, ◌≡◌, refl, ap, ◌∙◌, arith,
  if◌then◌else◌, Bool-cases, inl, inr, ltb,
}
use mv_git.Batch.{Batch, batch_begin, batch_add, batch_end, op_flush, end_on, skipped_message}
use mv_git.Bytes.{Bytes}
use mv_git.Paths.{path_storable}
use mv_git.Record.{blobform}

-- A request to stage: the path, the content, and whether marks become newlines.
abbrev pub Entry : Type 0
Entry = Bytes × Bytes × Bool

-- How many of the paths git cannot store.
abbrev pub refused : List Entry → ℕ
refused [] = 0
refused ((path, content, translate) ∷ more) =
    if path_storable path then refused more else suc (refused more)

module _ {ℓ} {Index : Type ℓ} (open_repo : Bytes → Index → Option Index)
    (put : Bytes → Bytes → Index → Index) (write : Index → Index → Index) where
  abbrev pub add_all : List Entry → Batch Index → Batch Index
  add_all [] b = b
  add_all ((path, content, translate) ∷ more) b =
      add_all more (batch_add open_repo put write path content translate b)

  -- The index with the blobs of the paths that git can store, in order.
  abbrev pub put_all : List Entry → Index → Index
  put_all [] i = i
  put_all ((path, content, translate) ∷ more) i =
      if path_storable path
      then put_all more (put path (if translate then blobform content else content) i)
      else put_all more i

  abbrev running : Index → ℕ → Index → Batch Index
  running i n disk = record { opened = some i; skipped = n; disk = disk }

  add_all-put_all :
      (entries : List Entry) (i disk : Index) (n : ℕ)
      → add_all entries (running i n disk) ≡ running (put_all entries i) (refused entries + n) disk
  unfolding batch_add
  add_all-put_all [] i disk n =
      let same : n ≡ 0 + n = omega arith in ap (λ k. running i k disk) same
  add_all-put_all ((path, content, translate) ∷ more) i disk n =
      elim (Bool-cases (path_storable path)) [
        | inl e ↦ rw e (
            add_all-put_all more (put path (if translate then blobform content else content) i) disk
              n)
        | inr e ↦ rw e (
            add_all-put_all more i disk (suc n)
            ∙ (let same : refused more + suc n ≡ suc (refused more) + n = omega arith in
                ap (λ k. running (put_all more i) k disk) same))
      ]

  started :
      (repo : Bytes) (n : ℕ) (disk i : Index)
      → open_repo repo disk ≡ some i
      → batch_begin open_repo put write repo (record { opened = none; skipped = n; disk = disk })
        ≡ (true, running i 0 disk)
  unfolding batch_begin
  started repo n disk i h = rw h refl

  flushed :
      (i disk : Index) (n : ℕ)
      → (op_flush open_repo put write (running i n disk)).1
        ≡ record { opened = none; skipped = n; disk = write i disk }
  unfolding op_flush batch_end
  flushed i disk n = refl

  -- A batch that is begun on a repository that opens, filled and flushed writes to the disk the index
  -- that was read, with a blob for every path that git can store, in order; it counts each of the
  -- others, none of which keeps a record beside it out, and it leaves no index open.
  pub op_flush-batch_add :
      (repo : Bytes) (entries : List Entry) (n : ℕ) (disk i : Index)
      → open_repo repo disk ≡ some i
      → (op_flush open_repo put write (
          add_all entries
            (batch_begin open_repo put write repo
              (record { opened = none; skipped = n; disk = disk })).1)).1
        ≡ record { opened = none; skipped = refused entries; disk = write (put_all entries i) disk }
  op_flush-batch_add repo entries n disk i h =
      let plain : refused entries + 0 ≡ refused entries = omega arith in
      ap (λ d. (op_flush open_repo put write (add_all entries d.1)).1) (started repo n disk i h)
      ∙ ap (λ b. (op_flush open_repo put write b).1) (add_all-put_all entries i disk 0)
      ∙ flushed (put_all entries i) disk (refused entries + 0)
      ∙ ap (λ k. record { opened = none; skipped = k; disk = write (put_all entries i) disk }) plain

  kept_count :
      (b : Batch Index) (o : Option Index) → (end_on open_repo put write b o).skipped ≡ b.skipped
  kept_count b none = refl
  kept_count b (some i) = refl

  -- A second FLUSH repeats the count of the batch before it: nothing but a new batch clears it.
  pub op_flush-op_flush :
      (b : Batch Index)
      → (op_flush open_repo put write (op_flush open_repo put write b).1).0
        ≡ (op_flush open_repo put write b).0
  unfolding op_flush batch_end
  op_flush-op_flush b =
      ap (λ k. if ltb 0 k then some (skipped_message k) else none) (kept_count b b.opened)
