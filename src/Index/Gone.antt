-- ===== src/Index/Gone.antt =====
-- The deletions that a status names (src/mvxgit.c, GITSTATUS): entries of the index whose record, or
-- whose whole file, the account no longer has.
use mv_git.Base.{
  Bool, true, false, not, ◌&&◌, List, [], ◌∷◌, ◌++◌, Option, none, some, ◌≡◌, refl, ap, ◌∙◌, ◌==◌,
  if◌then◌else◌, ◌>>=◌, inl, inr, Bool-cases, ◌≢◌,
}
use mv_git.Bytes.{bytes_eq_refl, Bytes, codes, bytes_eq, clip, has_slash}
use mv_git.Furniture.{named_in}
use mv_git.Index.{
  Entry, Memo, split_top, tracked_file_gone, is_mv_file, backend_has_file, entry_top, top_in,
}
use mv_git.Index.Memo.{IsFresh, is_gone, tracked_file_gone-IsFresh}
use mv_git.Index.Prune.{or_true, is_deleted}
use mv_git.Paths.{unprefix, dict_of_open_account, id_item_to_local}

-- strchr(rel, '/') + 1
unfoldable pub behind_slash : Bytes → Option Bytes
behind_slash [] = none
behind_slash (c ∷ s) = let rest = behind_slash s in if c == b'/' then some s else rest

abbrev pub deleted_line : Bytes → Bytes
deleted_line path = clip 700 (codes " D " ++ path)

abbrev with_line : Option Bytes → List Bytes → List Bytes
with_line none lines = lines
with_line (some l) lines = l ∷ lines

-- GITSTATUS has no list of live files of a caller, so that `[]` stands for one.
-- `portable` is whether the account is open, `key` and `columns` the local names of the generated
-- items, `is_dir` and `exists` the disk, `filelist` the backend's list, `reads` a read of a record:
-- `none` when the file does not open.
module _ (prefix : Bytes) (norecords : Bool) (is_live : Bytes → Bool) (portable : Bool)
    (key columns : Bytes) (is_dir exists : Bytes → Bool) (filelist : Bytes)
    (reads : Bytes → Bytes → Option Bool) where
  abbrev local_id : Bytes → Bytes → Bytes
  local_id top id =
      if dict_of_open_account portable top then id_item_to_local key columns id else id

  abbrev of_read : Bytes → Option Bool → Option Bytes
  of_read path none = none
  of_read path (some true) = none
  of_read path (some false) = some (deleted_line path)

  abbrev of_record : Bool → Bytes → Bytes → Option Bytes → Option Bytes
  of_record gone top path none = none
  of_record true top path (some id) = if is_dir top then none else some (deleted_line path)
  of_record false top path (some id) =
      if bytes_eq id (codes "%FILE%") then none else of_read path (reads top (local_id top id))

  -- an entry of this account, by whether its file has gone
  abbrev of_file : Bool → Bytes → Bytes → Option Bytes
  of_file gone rel path =
      let top = split_top 256 rel in
      if not gone
        && (not (is_mv_file is_dir exists top) && not (backend_has_file norecords filelist top))
      then none
      else of_record gone top path (behind_slash rel)

  abbrev of_path : List Entry → Bytes → Option Bytes → Memo → Option Bytes × Memo
  of_path index path none memo = (none, memo)
  of_path index path (some rel) memo =
      let (gone, memo') =
        tracked_file_gone prefix norecords [] is_live index (split_top 256 rel) memo in
      (of_file gone rel path, memo')

  abbrev of_entry : List Entry → Entry → Memo → Option Bytes × Memo
  of_entry index e memo =
      if e.gitlink then (none, memo) else of_path index e.path (unprefix prefix e.path) memo

  -- The loop over the index: the lines that it writes.
  unfoldable pub status_deleted : List Entry → List Entry → Memo → List Bytes
  unfolding tracked_file_gone split_top is_mv_file backend_has_file behind_slash bytes_eq
      dict_of_open_account id_item_to_local
  status_deleted index [] memo = []
  status_deleted index (e ∷ more) memo =
      let (o, memo') = of_entry index e memo in with_line o (status_deleted index more memo')

  -- What is written of an entry with nothing remembered.
  abbrev pub named_path : List Entry → Bytes → Option Bytes → Option Bytes
  named_path index path none = none
  named_path index path (some rel) =
      of_file (is_gone prefix norecords [] is_live index (split_top 256 rel)) rel path

  abbrev pub named : List Entry → Entry → Option Bytes
  named index e = if e.gitlink then none else named_path index e.path (unprefix prefix e.path)

  abbrev pub all_named : List Entry → List Entry → List Bytes
  all_named index [] = []
  all_named index (e ∷ more) = with_line (named index e) (all_named index more)

  abbrev Same : List Entry → Memo → Option Bytes → Option Bytes × Memo → Type 0
  Same index memo o r = (r.0 ≡ o) × IsFresh prefix norecords [] is_live index r.1

  of_path-Same :
      (index : List Entry) (path : Bytes) (u : Option Bytes) (memo : Memo)
      → IsFresh prefix norecords [] is_live index memo
      → Same index memo (named_path index path u) (of_path index path u memo)
  of_path-Same index path none memo h = (refl, h)
  of_path-Same index path (some rel) memo h =
      let (e, f) =
        tracked_file_gone-IsFresh prefix norecords [] is_live index (split_top 256 rel) memo h in
      (ap (λ gone. of_file gone rel path) e, f)

  of_entry-Same :
      (index : List Entry) (e : Entry) (memo : Memo)
      → IsFresh prefix norecords [] is_live index memo
      → Same index memo (named index e) (of_entry index e memo)
  of_entry-Same index e memo h = elim (Bool-cases e.gitlink) [
    | inl g ↦ rw g (refl, h)
    | inr g ↦ rw g (of_path-Same index e.path (unprefix prefix e.path) memo h)
  ]

  lines_same :
      (index es : List Entry) (memo : Memo)
      → IsFresh prefix norecords [] is_live index memo
      → status_deleted index es memo ≡ all_named index es
  unfolding status_deleted
  lines_same index [] memo h = refl
  lines_same index (e ∷ es) memo h =
      let (o, f) = of_entry-Same index e memo h in
      ap (λ x. with_line x (status_deleted index es (of_entry index e memo).1)) o
      ∙ ap (with_line (named index e)) (lines_same index es (of_entry index e memo).1 f)

  slash_found : (rel : Bytes) → has_slash rel ≡ true → behind_slash rel ≢ none
  unfolding has_slash behind_slash
  slash_found [] h = absurd (cc)
  slash_found (c ∷ s) h = elim (Bool-cases (c == b'/')) [
    | inl e ↦ rw e (cc)
    | inr e ↦ rw e (slash_found s (rw e at h))
  ]

  of_gone :
      (rel path : Bytes) (o : Option Bytes)
      → o ≢ none
      → is_dir (split_top 256 rel) ≡ false
      → of_record true (split_top 256 rel) path o ≡ some (deleted_line path)
  of_gone rel path none ne d = absurd (ne refl)
  of_gone rel path (some id) ne d = rw d refl

  named_gone :
      (index : List Entry) (path top : Bytes) (u : Option Bytes)
      → (u >>= top_in) ≡ some top
      → is_gone prefix norecords [] is_live index top ≡ true
      → is_dir top ≡ false
      → named_path index path u ≡ some (deleted_line path)
  named_gone index path top none e g d = absurd (cc)
  named_gone index path top (some rel) e g d = elim (Bool-cases (has_slash rel)) [
    | inl s ↦
        let same : split_top 256 rel ≡ top = cc (e, s) in
        let gone : is_gone prefix norecords [] is_live index (split_top 256 rel) ≡ true =
          ap (is_gone prefix norecords [] is_live index) same ∙ g in
        rw gone (of_gone rel path (behind_slash rel) (slash_found rel s) (ap is_dir same ∙ d))
    | inr s ↦ absurd (cc (e, s))
  ]

  first_half : (a b : Bool) → (a && b) ≡ true → a ≡ true
  first_half true b h = refl
  first_half false b h = cc

  named_deleted :
      (index : List Entry) (e : Entry) (top : Bytes)
      → entry_top prefix e ≡ some top
      → is_deleted prefix norecords [] is_live index top ≡ true
      → is_dir top ≡ false
      → named index e ≡ some (deleted_line e.path)
  unfolding entry_top
  named_deleted index e top t h d = elim (Bool-cases e.gitlink) [
    | inl g ↦ absurd (cc (g, t))
    | inr g ↦
        rw g (named_gone index e.path top (unprefix prefix e.path) (rw g at t) (first_half _ _ h) d)
  ]

  with_line_more :
      (o : Option Bytes) (lines : List Bytes) (l : Bytes)
      → named_in lines l ≡ true
      → named_in (with_line o lines) l ≡ true
  unfolding named_in
  with_line_more none lines l h = h
  with_line_more (some x) lines l h = rw h (or_true (bytes_eq l x))

  named_among :
      (index before after : List Entry) (e : Entry) (l : Bytes)
      → named index e ≡ some l
      → named_in (all_named index (before ++ e ∷ after)) l ≡ true
  unfolding named_in
  named_among index [] after e l h = rw (h, bytes_eq_refl l) refl
  named_among index (x ∷ before) after e l h =
      with_line_more (named index x) (all_named index (before ++ e ∷ after)) l
        (named_among index before after e l h)

  -- Every entry of a file that is deleted, as GITPRUNE decides it when its caller gives no list of
  -- live files, is named as deleted by a status of the same index, whatever the status remembers from
  -- the entries before it, unless there is a directory of its file's name.
  pub status_deleted-is_deleted :
      (before after : List Entry) (e : Entry) (top : Bytes)
      → entry_top prefix e ≡ some top
      → is_deleted prefix norecords [] is_live (before ++ e ∷ after) top ≡ true
      → is_dir top ≡ false
      → named_in
          (status_deleted (before ++ e ∷ after) (before ++ e ∷ after) none)
          (deleted_line e.path)
        ≡ true
  status_deleted-is_deleted before after e top t h d =
      let index = before ++ e ∷ after in
      ap (λ lines. named_in lines (deleted_line e.path)) (lines_same index index none tt)
      ∙ named_among index before after e (deleted_line e.path) (named_deleted index e top t h d)
