-- ===== src/Index/Ids.antt =====
-- GITINDEXIDS (src/mvxgit.c): the lines that it writes are the ids that the index has for a file.
use mv_git.Base.{
  ℕ, zero, suc, Bool, true, false, not, ◌&&◌, ◌||◌, List, [], ◌∷◌, ◌++◌, none, some, ◌≡◌, refl, sym,
  ap, ◌∙◌, arith, if◌then◌else◌, inl, inr, Bool-cases, All, length, drop, append-nil, append_assoc,
  ==_refl,
}
use mv_git.Bytes.{Bytes, am, bytes_eq, starts_with}
use mv_git.Bytes.Split.{split, join, separated, split-join, Lacks}
use mv_git.Furniture.{named_in}
use mv_git.Index.{Entry, plain_id, id_under, add_id, index_ids, lines_of, sb_line, gitindexids}
use mv_git.Paths.Items.{bytes_ne}
use mv_git.Paths.Prefix.{starts_with-append}

starts_drop : (p s : Bytes) → starts_with p s ≡ true → s ≡ p ++ drop (length p) s
unfolding starts_with
starts_drop [] s h = refl
starts_drop (c ∷ p) [] h = cc
starts_drop (c ∷ p) (d ∷ s) h =
    let e : d ≡ c = ground arith in
    let k : starts_with p s ≡ true = ground arith in rw (e, ← starts_drop p s k) refl

bytes_eq-append : (p a b : Bytes) → bytes_eq (p ++ a) (p ++ b) ≡ bytes_eq a b
unfolding bytes_eq
bytes_eq-append [] a b = refl
bytes_eq-append (c ∷ p) a b = rw (==_refl c) (bytes_eq-append p a b)

-- The index has an entry at that path which is no gitlink.
abbrev pub holds_path : List Entry → Bytes → Bool
holds_path [] path = false
holds_path (e ∷ index) path = (not e.gitlink && bytes_eq e.path path) || holds_path index path

bytes_eq_other : (d id : Bytes) → plain_id d ≡ false → plain_id id ≡ true → bytes_eq d id ≡ false
bytes_eq_other d id h k = bytes_ne d id (λ e. differ (ap plain_id e) h k)
  where
    differ : {a b : Bool} → a ≡ b → a ≡ false → b ≡ true → ⊥
    differ e h k = cc

bytes_eq_sym : (a b : Bytes) → bytes_eq a b ≡ bytes_eq b a
unfolding bytes_eq
bytes_eq_sym [] [] = refl
bytes_eq_sym [] (y ∷ b) = refl
bytes_eq_sym (x ∷ a) [] = refl
bytes_eq_sym (x ∷ a) (y ∷ b) = ground (arith, bytes_eq_sym a b)

-- what one entry adds, behind a prefix that it has
add_own :
    (d id : Bytes) (ids : List Bytes)
    → plain_id id ≡ true
    → named_in (add_id (if plain_id d then some d else none) ids) id
      ≡ (bytes_eq d id || named_in ids id)
unfolding named_in
add_own d id ids h = elim (Bool-cases (plain_id d)) [
  | inl e ↦ rw e (ap (λ b. b || named_in ids id) (bytes_eq_sym id d))
  | inr e ↦ rw (e, bytes_eq_other d id e h) refl
]

add_id-id_under :
    (pfx id : Bytes) (e : Entry) (ids : List Bytes)
    → plain_id id ≡ true
    → named_in (add_id (id_under pfx e) ids) id
      ≡ ((not e.gitlink && bytes_eq e.path (pfx ++ id)) || named_in ids id)
unfolding id_under
add_id-id_under pfx id e ids h = elim (Bool-cases e.gitlink) [
  | inl g ↦ rw g refl
  | inr g ↦ elim (Bool-cases (starts_with pfx e.path)) [
    | inl s ↦
        let same : bytes_eq e.path (pfx ++ id) ≡ bytes_eq (drop (length pfx) e.path) id =
          ap (λ p. bytes_eq p (pfx ++ id)) (starts_drop pfx e.path s)
          ∙ bytes_eq-append pfx (drop (length pfx) e.path) id in
        rw (g, s, same) (add_own (drop (length pfx) e.path) id ids h)
    | inr s ↦ rw (g, s, bytes_ne e.path (pfx ++ id) (λ p. absurd_start pfx id e.path p s)) refl
  ]
]
  where
    absurd_start : (pfx id path : Bytes) → path ≡ pfx ++ id → starts_with pfx path ≡ false → ⊥
    absurd_start pfx id path p s =
        let t : starts_with pfx path ≡ true = ap (starts_with pfx) p ∙ starts_with-append pfx id in
        cc

index_ids-holds_path :
    (prefix fn id : Bytes) (index : List Entry)
    → plain_id id ≡ true
    → named_in (index_ids prefix fn index) id
      ≡ holds_path index ((prefix ++ (fn ++ b'/' ∷ [])) ++ id)
unfolding index_ids named_in
index_ids-holds_path prefix fn id [] h = refl
index_ids-holds_path prefix fn id (e ∷ index) h =
    add_id-id_under (prefix ++ (fn ++ b'/' ∷ [])) id e (index_ids prefix fn index) h
    ∙ ap (λ b. (not e.gitlink && bytes_eq e.path ((prefix ++ (fn ++ b'/' ∷ [])) ++ id)) || b)
        (index_ids-holds_path prefix fn id index h)

-- Lines, none of them empty, are written one behind the other with a mark between them.
lines_of-cons :
    (c : ℕ) (out : Bytes) (more : List Bytes)
    → lines_of (c ∷ out) more ≡ (c ∷ out) ++ separated am more
unfolding lines_of sb_line separated
lines_of-cons c out [] = sym (append-nil (c ∷ out))
lines_of-cons c out (line ∷ more) =
    lines_of-cons c (out ++ am ∷ line) more
    ∙ ap (λ s. c ∷ s) (append_assoc out (am ∷ line) (separated am more))

lines_of-join :
    (c : ℕ) (line : Bytes) (more : List Bytes)
    → lines_of [] ((c ∷ line) ∷ more) ≡ join am ((c ∷ line) ∷ more)
unfolding lines_of sb_line join
lines_of-join c line more = lines_of-cons c line more

abbrev IsPlainId : Bytes → Type 0
IsPlainId id = plain_id id ≡ true

no_lines :
    (c : ℕ) (id : Bytes) → named_in (split am (lines_of [] [])) (c ∷ id) ≡ named_in [] (c ∷ id)
unfolding lines_of split named_in bytes_eq
no_lines c id = refl

split-lines_of :
    (ids : List Bytes) (id : Bytes)
    → All IsPlainId ids
    → All (Lacks am) ids
    → plain_id id ≡ true
    → named_in (split am (lines_of [] ids)) id ≡ named_in ids id
split-lines_of [] [] hp hl h = cc
split-lines_of [] (c ∷ id) hp hl h = no_lines c id
split-lines_of ([] ∷ ids) id (hp, hps) hl h = cc
split-lines_of ((c ∷ line) ∷ ids) id hp hl h =
    ap (λ l. named_in (split am l) id) (lines_of-join c line ids)
    ∙ ap (λ l. named_in l id) (split-join am ((c ∷ line) ∷ ids) (cc) hl)

drop-Lacks : (b n : ℕ) (s : Bytes) → Lacks b s → Lacks b (drop n s)
drop-Lacks b zero s h = h
drop-Lacks b (suc n) [] h = tt
drop-Lacks b (suc n) (c ∷ s) h = drop-Lacks b n s h.1

add_plain :
    (d : Bytes) (ids : List Bytes)
    → Lacks am d
    → All IsPlainId ids × All (Lacks am) ids
    → All IsPlainId (add_id (if plain_id d then some d else none) ids)
      × All (Lacks am) (add_id (if plain_id d then some d else none) ids)
add_plain d ids l (hp, hl) = elim (Bool-cases (plain_id d)) [
  | inl e ↦ rw e ((e, hp), (l, hl))
  | inr e ↦ rw e (hp, hl)
]

under_plain :
    (pfx : Bytes) (e : Entry) (ids : List Bytes)
    → Lacks am e.path
    → All IsPlainId ids × All (Lacks am) ids
    → All IsPlainId (add_id (id_under pfx e) ids) × All (Lacks am) (add_id (id_under pfx e) ids)
unfolding id_under
under_plain pfx e ids l h = elim (Bool-cases e.gitlink) [
  | inl g ↦ rw g h
  | inr g ↦ elim (Bool-cases (starts_with pfx e.path)) [
    | inl s ↦ rw (g, s) (add_plain _ ids (drop-Lacks am (length pfx) e.path l) h)
    | inr s ↦ rw (g, s) h
  ]
]

index_ids_plain :
    (prefix fn : Bytes) (index : List Entry)
    → All (λ (e : Entry). Lacks am e.path) index
    → All IsPlainId (index_ids prefix fn index) × All (Lacks am) (index_ids prefix fn index)
unfolding index_ids
index_ids_plain prefix fn [] h = (tt, tt)
index_ids_plain prefix fn (e ∷ index) (l, h) =
    under_plain (prefix ++ (fn ++ b'/' ∷ [])) e (index_ids prefix fn index) l
      (index_ids_plain prefix fn index h)

-- For an id that is not empty and has no slash, over an index whose paths hold no attribute mark: the
-- id is one of the lines that GITINDEXIDS writes for a file exactly when the index has an entry at
-- the account's prefix, the file, a slash and the id which is no gitlink.
pub gitindexids-holds_path :
    (prefix fn id : Bytes) (index : List Entry)
    → plain_id id ≡ true
    → All (λ (e : Entry). Lacks am e.path) index
    → named_in (split am (gitindexids prefix fn index)) id
      ≡ holds_path index ((prefix ++ (fn ++ b'/' ∷ [])) ++ id)
unfolding gitindexids
gitindexids-holds_path prefix fn id index h l =
    let (p, m) = index_ids_plain prefix fn index l in
    split-lines_of (index_ids prefix fn index) id p m h ∙ index_ids-holds_path prefix fn id index h
