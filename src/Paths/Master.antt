-- ===== src/Paths/Master.antt =====
-- The master file's two names (src/mvxgit.c, tree_to_local and local_to_tree): a file of a commit
-- that is checked out and committed again keeps its name.
use mv_git.Base.{
  Bool, true, false, ◌&&◌, [], ◌∷◌, ◌≡◌, refl, ap, ◌∙◌, arith, ◌==◌, length, drop, inl, inr,
  Bool-cases, ◌⊎◌,
}
use mv_git.Build.{Build, voc_local_name}
use mv_git.Bytes.{Bytes, codes, bytes_eq, case_eq, case_starts, to_lower}
use mv_git.Paths.{tree_to_local, local_to_tree}

-- The names that a repository may hold where the account's own master file is MD: VOC and its
-- dictionary in the one spelling, and any file that is not called VOC or MD in any case.
abbrev pub IsTreeFile : Bytes → Type 0
IsTreeFile fn =
    (fn ≡ codes "VOC")
    ⊎ (fn ≡ codes "VOC.DICT")
    ⊎ ((case_eq fn (codes "VOC") ≡ false)
        × (case_eq fn (codes "VOC.DICT") ≡ false)
        × (case_eq fn (codes "MD") ≡ false)
        × (case_eq fn (codes "MD.DICT") ≡ false))

three_tests : (n a b c : Bool) → (a && (b && c)) ≡ false → (n && ((a && (b && true)) && c)) ≡ false
three_tests false a b c h = refl
three_tests true false b c h = refl
three_tests true true false c h = refl
three_tests true true true c h = h

-- the test on the name of the master file's dictionary
md_dict :
    (n : Bool) (fn : Bytes)
    → case_eq fn (codes "MD.DICT") ≡ false
    → (n && (case_starts (codes "MD") fn && case_eq (drop 2 fn) (codes ".DICT"))) ≡ false
unfolding case_eq case_starts to_lower
md_dict n [] h = ground arith
md_dict n (x ∷ []) h = ground arith
md_dict n (x ∷ y ∷ s) h = three_tests n (to_lower x == b'm') (to_lower y == b'd') _ h

module _ (b : Build) where
  local_voc : b.jbase ≡ false → (portable : Bool) (fn : Bytes) → tree_to_local b portable fn ≡ fn
  unfolding tree_to_local voc_local_name
  local_voc h portable fn = rw h refl

  tree_voc : b.jbase ≡ false → (portable : Bool) (fn : Bytes) → local_to_tree b portable fn ≡ fn
  unfolding local_to_tree voc_local_name
  tree_voc h portable fn = rw h refl

  voc_back :
      b.jbase ≡ true → local_to_tree b true (tree_to_local b true (codes "VOC")) ≡ codes "VOC"
  unfolding tree_to_local local_to_tree voc_local_name bytes_eq case_eq case_starts to_lower
  voc_back h = rw h refl

  voc_dict_back :
      b.jbase ≡ true
      → local_to_tree b true (tree_to_local b true (codes "VOC.DICT")) ≡ codes "VOC.DICT"
  unfolding tree_to_local local_to_tree voc_local_name bytes_eq case_eq case_starts to_lower
  voc_dict_back h = rw h refl

  local_other :
      b.jbase ≡ true
      → (fn : Bytes) → case_eq fn (codes "VOC") ≡ false
      → case_eq fn (codes "VOC.DICT") ≡ false
      → tree_to_local b true fn ≡ fn
  unfolding tree_to_local voc_local_name bytes_eq
  local_other h fn one two = rw (h, one, two) refl

  tree_other :
      b.jbase ≡ true
      → (fn : Bytes) → case_eq fn (codes "MD") ≡ false
      → case_eq fn (codes "MD.DICT") ≡ false
      → local_to_tree b true fn ≡ fn
  unfolding local_to_tree voc_local_name bytes_eq
  tree_other h fn three four = rw (h, three, md_dict (length fn == 7) fn four) refl

  other_back :
      b.jbase ≡ true
      → (fn : Bytes) → case_eq fn (codes "VOC") ≡ false
      → case_eq fn (codes "VOC.DICT") ≡ false
      → case_eq fn (codes "MD") ≡ false
      → case_eq fn (codes "MD.DICT") ≡ false
      → local_to_tree b true (tree_to_local b true fn) ≡ fn
  other_back h fn one two three four =
      ap (local_to_tree b true) (local_other h fn one two) ∙ tree_other h fn three four

  tree_md :
      b.jbase ≡ true
      → (fn : Bytes) → IsTreeFile fn
      → local_to_tree b true (tree_to_local b true fn) ≡ fn
  tree_md h fn (inl e) = rw e (voc_back h)
  tree_md h fn (inr (inl e)) = rw e (voc_dict_back h)
  tree_md h fn (inr (inr (one, two, three, four))) = other_back h fn one two three four

  -- On every platform, in the open form: a file of the repository that is checked out under its
  -- local name is committed under the name that it had.
  pub local_to_tree-tree_to_local :
      (fn : Bytes) → IsTreeFile fn → local_to_tree b true (tree_to_local b true fn) ≡ fn
  local_to_tree-tree_to_local fn h = elim (Bool-cases b.jbase) [
    | inl e ↦ tree_md e fn h
    | inr e ↦ tree_voc e true (tree_to_local b true fn) ∙ local_voc e true fn
  ]
