-- ===== src/Paths/Prefix.antt =====
-- The account's prefix (src/mvxgit.c, record_path and unprefix): a path is read back by the account
-- that wrote it and by no other, and a record of the master file's dictionary is recognised under
-- any prefix.
use mv_git.Base.{
  ℕ, suc, ◌+◌, ◌-◌, ◌<◌, Bool, true, false, [], ◌∷◌, ◌++◌, none, some, ◌≡◌, ◌≢◌, refl, arith, ◌==◌,
  if◌then◌else◌, length, take_all, length-append, drop-length_append, inl, inr, Bool-cases, ==_refl,
}
use mv_git.Build.{Build}
use mv_git.Bytes.{Bytes, starts_with, clip}
use mv_git.Bytes.Split.{Lacks}
use mv_git.Paths.{record_path, unprefix, local_to_tree, platform_dict_record, after_slash}

pub starts_with-append : (p s : Bytes) → starts_with p (p ++ s) ≡ true
unfolding starts_with
starts_with-append [] s = refl
starts_with-append (c ∷ p) s = rw (==_refl c) (starts_with-append p s)

pub unprefix-append : (prefix s : Bytes) → unprefix prefix (prefix ++ s) ≡ some s
unfolding unprefix
unprefix-append [] s = refl
unprefix-append (c ∷ p) s = rw (starts_with-append (c ∷ p) s, drop-length_append (c ∷ p) s) refl

-- The account that wrote a record's path reads the record's name in git back from it, where the
-- buffer holds it.
pub unprefix-record_path :
    (b : Build) (portable : Bool) (cap : ℕ) (prefix fn id : Bytes)
    → length prefix + (length (local_to_tree b portable fn) + suc (length id)) < cap
    → unprefix prefix (record_path b portable cap prefix fn id)
      ≡ some (local_to_tree b portable fn ++ b'/' ∷ id)
unfolding record_path
unprefix-record_path b portable cap prefix fn id fits =
    let tree = local_to_tree b portable fn in
    let whole = prefix ++ (tree ++ b'/' ∷ id) in
    let size = length-append prefix (tree ++ b'/' ∷ id) in
    let inner = length-append tree (b'/' ∷ id) in
    let all : clip cap whole ≡ whole = take_all (cap - 1) whole (omega (arith, size, inner)) in
    rw all (unprefix-append prefix (tree ++ b'/' ∷ id))

-- a directory's name with a slash behind it
abbrev pub slashed : Bytes → Bytes
slashed account = account ++ b'/' ∷ []

other_account :
    (a b s : Bytes)
    → Lacks b'/' a
    → Lacks b'/' b
    → starts_with (slashed a) (slashed b ++ s) ≡ true
    → a ≡ b
unfolding starts_with
other_account [] [] s ha hb h = refl
other_account [] (y ∷ b) s ha (hy, hb) h = absurd (ground (arith, h, hy))
other_account (x ∷ a) [] s (hx, ha) hb h = absurd (ground (arith, h, hx))
other_account (x ∷ a) (y ∷ b) s (hx, ha) (hy, hb) h =
    let e : y ≡ x = ground (arith, h) in
    let more : starts_with (slashed a) (slashed b ++ s) ≡ true = ground (arith, h) in
    rw (e, other_account a b s ha hb more) refl

starts_with_other :
    (a b s : Bytes)
    → Lacks b'/' a
    → Lacks b'/' b
    → a ≢ b
    → starts_with (slashed a) (slashed b ++ s) ≡ false
starts_with_other a b s ha hb d = elim (Bool-cases (starts_with (slashed a) (slashed b ++ s))) [
  | inl e ↦ absurd (d (other_account a b s ha hb e))
  | inr e ↦ e
]

unprefix-none : (p s : Bytes) → p ≢ [] → starts_with p s ≡ false → unprefix p s ≡ none
unfolding unprefix
unprefix-none [] s ne h = absurd (ne refl)
unprefix-none (c ∷ p) s ne h = rw h refl

slashed-ne-nil : (a : Bytes) → slashed a ≢ []
slashed-ne-nil [] = cc
slashed-ne-nil (c ∷ a) = cc

-- A path under one account's directory belongs to no other account, whatever stands behind it, for
-- two directories with different names that hold no slash.
pub unprefix_other :
    (mine other path : Bytes)
    → Lacks b'/' mine
    → Lacks b'/' other
    → mine ≢ other
    → unprefix (slashed mine) (slashed other ++ path) ≡ none
unprefix_other mine other path ha hb d =
    unprefix-none (slashed mine) (slashed other ++ path) (slashed-ne-nil mine)
      (starts_with_other mine other path ha hb d)

after_slash-append : (best p s : Bytes) → after_slash best (p ++ b'/' ∷ s) ≡ after_slash s s
unfolding after_slash
after_slash-append best [] s = refl
after_slash-append best (c ∷ p) s =
    after_slash-append (if c == b'/' then p ++ b'/' ∷ s else best) p s

-- Whether a record is the platform's own does not depend on the account that holds its file: the
-- name may arrive behind any path.
pub platform_dict_record-append :
    (path file id : Bytes)
    → platform_dict_record (path ++ b'/' ∷ file) id ≡ platform_dict_record file id
unfolding platform_dict_record
platform_dict_record-append path file id =
    rw (after_slash-append (path ++ b'/' ∷ file) path file) refl
