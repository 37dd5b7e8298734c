-- ===== src/Record/Blob.antt =====
-- The blob form of a record: marks become newlines, and the attributes stay where they are.
use mv_git.Base.{ℕ, suc, [], ◌∷◌, ◌≡◌, refl, ap, arith, length}
use mv_git.Bytes.{Bytes, am, newline}
use mv_git.Bytes.Split.{split, Lacks}
use mv_git.Record.{xlate, blobform, attr}

-- Translating back gives the record, if the record holds none of the bytes that marks become.
pub xlate-xlate : (s : Bytes) (a b : ℕ) → Lacks b s → xlate (xlate s a b) b a ≡ s
unfolding xlate
xlate-xlate [] a b h = refl
xlate-xlate (c ∷ s) a b (hc, hs) = ground (arith, xlate-xlate s a b hs)

pub length-xlate : (s : Bytes) (a b : ℕ) → length (xlate s a b) ≡ length s
unfolding xlate
length-xlate [] a b = refl
length-xlate (c ∷ s) a b = ap suc (length-xlate s a b)

split-xlate : (s : Bytes) → Lacks newline s → split newline (blobform s) ≡ split am s
unfolding split xlate
split-xlate [] h = refl
split-xlate (c ∷ s) (hc, hs) = ground (arith, split-xlate s hs)

-- A record without newlines is read back from its blob form, and the lines of the blob are the
-- attributes of the record.
pub blobform_lem :
    (s : Bytes)
    → Lacks newline s
    → (xlate (blobform s) newline am ≡ s) × ((k : ℕ) → attr newline (blobform s) k ≡ attr am s k)
blobform_lem s h = (xlate-xlate s am newline h, λ k. rw (split-xlate s h))
