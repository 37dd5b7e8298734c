-- ===== src/Disk/Skip.antt =====
-- addall_skip (src/mvxgit.c): the plain-file pass leaves to the record pass and to other accounts what
-- is theirs.
use mv_git.Base.{
  ℕ, ◌<◌, Bool, true, false, not, ◌&&◌, ◌||◌, ◌∷◌, ◌++◌, none, some, ◌≡◌, refl, ap, arith, inl, inr,
  ◌⊎◌, length, take_all, length-append,
}
use mv_git.Build.{Build}
use mv_git.Bytes.{Bytes, bytes_eq, starts_with, clip}
use mv_git.Bytes.Split.{Lacks}
use mv_git.Disk.{
  store_name, descriptors, is_submodule, is_account_dir, jbase_skip, dict_beside, skip_rel,
  addall_skip,
}
use mv_git.Furniture.{named_in, account_furniture}
use mv_git.Index.{split_top}
use mv_git.Index.Prune.{or_true}
use mv_git.Paths.{unprefix, is_file_control}
use mv_git.Paths.Items.{bytes_ne}
use mv_git.Paths.Storable.{upto-append}

-- One of the reasons that stand for what others stage is enough.
one_reason :
    (s g j a f r d c n : Bool)
    → (r ≡ true) ⊎ ((c ≡ true) ⊎ ((s ≡ true) ⊎ (n ≡ true)))
    → (s || (g || (j || (a || (f || (r || (d || (c || n)))))))) ≡ true
one_reason s g j a f r d c n (inl h) = ground arith
one_reason s g j a f r d c n (inr (inl h)) = ground arith
one_reason s g j a f r d c n (inr (inr (inl h))) = ground arith
one_reason s g j a f r d c n (inr (inr (inr h))) = ground arith

longer : (p s : Bytes) (c : ℕ) → bytes_eq p (p ++ c ∷ s) ≡ false
longer p s c = bytes_ne p (p ++ c ∷ s) (λ e. impossible (ap length e))
  where
    impossible : length p ≡ length (p ++ c ∷ s) → ⊥
    impossible e = omega (arith, length-append p (c ∷ s))

-- A path of the account below the directory or file `fn`, which is one of its files.
abbrev pub IsRecord : (Bytes → Bool) → Bytes → Type 0
IsRecord has rel =
    (fn : Bytes) × (id : Bytes) × (rel ≡ fn ++ b'/' ∷ id)
    × (has fn ≡ true)
    × Lacks b'/' fn
    × (length fn < 256)

-- What the plain-file pass has to leave alone.
abbrev pub IsLeft : (Bytes → Bool) → Bytes → Type 0
IsLeft has rel =
    IsRecord has rel
    ⊎ ((is_file_control rel ≡ true)
        ⊎ ((starts_with store_name rel ≡ true) ⊎ (named_in descriptors rel ≡ true)))

module _ (b : Build) (exists has : Bytes → Bool) (prefix : Bytes) where
  -- the test on a record's path
  record_reason :
      (rel : Bytes)
      → IsRecord has rel
      → (not (bytes_eq (split_top 256 rel) rel) && has (split_top 256 rel)) ≡ true
  unfolding split_top
  record_reason rel (fn, id, e, h, l, s) =
      let u = upto-append b'/' fn id l in
      let c : clip 256 fn ≡ fn = take_all 255 fn (omega arith) in
      rw (e, u, c, longer fn id b'/', h) refl

  reason :
      (rel : Bytes)
      → IsLeft has rel
      → ((not (bytes_eq (split_top 256 rel) rel) && has (split_top 256 rel)) ≡ true)
        ⊎ ((is_file_control rel ≡ true)
            ⊎ ((starts_with store_name rel ≡ true) ⊎ (named_in descriptors rel ≡ true)))
  reason rel (inl r) = inl (record_reason rel r)
  reason rel (inr h) = inr h

  left_rel : (rel : Bytes) → IsLeft has rel → skip_rel b exists has prefix (some rel) ≡ true
  left_rel rel h =
      let top = split_top 256 rel in
      let inside = not (bytes_eq top rel) in
      one_reason (starts_with store_name rel) (is_submodule b exists has top inside)
        (b.jbase && jbase_skip b exists has rel top) (is_account_dir b exists has prefix top inside)
        (account_furniture b top) (inside && has top) (dict_beside b exists has rel top)
        (is_file_control rel) (named_in descriptors rel) (reason rel h)

  -- The plain-file pass skips every path of another account, and in its own account every path in a
  -- directory that is one of its files, every file control, the backend's store and the descriptors
  -- that are staged on purpose.
  pub addall_skip-IsLeft :
      (path : Bytes)
      → (unprefix prefix path ≡ none)
        ⊎ ((rel : Bytes) × (unprefix prefix path ≡ some rel) × IsLeft has rel)
      → addall_skip b exists has prefix path ≡ true
  unfolding addall_skip
  addall_skip-IsLeft path (inl e) = rw e (or_true _)
  addall_skip-IsLeft path (inr (rel, e, h)) = rw (e, left_rel rel h) (or_true _)
