-- ===== src/Tests/Batches.antt =====
-- Theorems on a batch, applied to one with an id that git cannot store (src/mvxgit.c).
use mv_git.Base.{true, [], ◌∷◌, ◌≡◌, refl, List, Option, some, none}
use mv_git.Batch.{batch_begin, op_flush}
use mv_git.Batch.Whole.{Entry, add_all, put_all, refused, op_flush-batch_add}
use mv_git.Bytes.{Bytes, codes}

-- an index is the list of its blobs
abbrev Blobs : Type 0
Blobs = List (Bytes × Bytes)

abbrev open_disk : Bytes → Blobs → Option Blobs
open_disk repo disk = some disk

abbrev write_disk : Blobs → Blobs → Blobs
write_disk new old = new

abbrev put_front : Bytes → Bytes → Blobs → Blobs
put_front path blob i = (path, blob) ∷ i

abbrev entries : List Entry
entries = (codes "CUST/1", codes "A", true) ∷ (codes "CUST//", codes "B", true) ∷ []

op_flush-batch_add_example :
    (op_flush open_disk put_front write_disk (
      add_all open_disk put_front write_disk entries
        (batch_begin open_disk put_front write_disk
          (codes ".")
          (record { opened = none; skipped = 7; disk = [] })).1)).1
    ≡ record {
      opened = none;
      skipped = refused entries;
      disk = write_disk (put_all open_disk put_front write_disk entries []) [];
    }
op_flush-batch_add_example =
    op_flush-batch_add open_disk put_front write_disk (codes ".") entries 7 [] [] refl
