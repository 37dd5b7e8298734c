-- ===== src/Index/Dictionary.antt =====
-- The dictionary of a deleted file (src/mvxgit.c, GITPRUNE): the mark of a file is looked for under
-- the dictionary's own name, which a dictionary has not.
use mv_git.Base.{
  ◌<◌, Bool, true, false, ◌&&◌, ◌||◌, List, [], ◌∷◌, ◌++◌, some, ◌≡◌, ◌≢◌, refl, ap, ◌∙◌, arith,
  length, length-append, ◌==◌, take_all, All, All-append, inl, inr, Bool-cases,
}
use mv_git.Bytes.{bytes_eq, bytes_eq_iff, has_slash, Bytes, starts_with, codes, clip}
use mv_git.Bytes.Split.{Lacks}
use mv_git.Index.{gitprune, Entry, entry_top, any_path, dict_dir, split_top}
use mv_git.Index.Prune.{entry_deleted, is_deleted, deleted_top, gitprune-kept, or_true}
use mv_git.Index.Remove.{kept, IsIndex}
use mv_git.Paths.Prefix.{unprefix-append}
use mv_git.Paths.Storable.{upto-append}

and_no : (a : Bool) → (a && false) ≡ false
and_no true = refl
and_no false = refl

slash_in : (p s : Bytes) → has_slash (p ++ b'/' ∷ s) ≡ true
unfolding has_slash
slash_in [] s = refl
slash_in (c ∷ p) s = rw (slash_in p s) (or_true (c == b'/'))

entry_top_under :
    (prefix top rest : Bytes) (e : Entry)
    → Lacks b'/' top
    → length top < 256
    → e.gitlink ≡ false
    → e.path ≡ prefix ++ (top ++ b'/' ∷ rest)
    → entry_top prefix e ≡ some top
unfolding entry_top split_top
entry_top_under prefix top rest e h l g p =
    let c : clip 256 top ≡ top = take_all 255 top (omega arith) in
    rw
      (
        g,
        p,
        unprefix-append prefix (top ++ b'/' ∷ rest),
        slash_in top rest,
        upto-append b'/' top rest h,
      )
      (ap some c)

dict_kept :
    (prefix live base rest : Bytes) (is_live : Bytes → Bool) (index : List Entry) (e : Entry)
    → Lacks b'/' (base ++ codes ".DICT")
    → length (base ++ codes ".DICT") < 256
    → any_path (starts_with (prefix ++ dict_dir (base ++ codes ".DICT"))) index ≡ false
    → e.gitlink ≡ false
    → e.path ≡ prefix ++ ((base ++ codes ".DICT") ++ b'/' ∷ rest)
    → entry_deleted prefix false live is_live index e ≡ false
dict_kept prefix live base rest is_live index e h l bare g p =
    rw (entry_top_under prefix (base ++ codes ".DICT") rest e h l g p, bare) (and_no _)

-- The index has an entry at a path.
abbrev pub has_path : Bytes → List Entry → Bool
has_path path index = any_path (λ p. bytes_eq p path) index

abbrev Answered : Bytes → (Entry → Bool) → Bool → Entry → Type 0
Answered path drops b e = e.path ≡ path → drops e ≡ b

kept_same :
    (path : Bytes) (drops : Entry → Bool) (es : List Entry)
    → All (Answered path drops false) es
    → has_path path (kept drops es).0 ≡ has_path path es
unfolding any_path
kept_same path drops [] h = refl
kept_same path drops (e ∷ es) (he, h) =
    let more = kept_same path drops es h in
    elim (Bool-cases (drops e)) [
      | inl d ↦ elim (Bool-cases (bytes_eq e.path path)) [
        | inl k ↦ absurd (cc (d, he ((bytes_eq_iff e.path path).0 k)))
        | inr k ↦ rw (d, k) more
      ]
      | inr d ↦ rw d (ap (λ b. bytes_eq e.path path || b) more)
    ]

kept_none :
    (path : Bytes) (drops : Entry → Bool) (es : List Entry)
    → All (Answered path drops true) es
    → has_path path (kept drops es).0 ≡ false
unfolding any_path
kept_none path drops [] h = refl
kept_none path drops (e ∷ es) (he, h) =
    let more = kept_none path drops es h in
    elim (Bool-cases (drops e)) [
      | inl d ↦ rw d more
      | inr d ↦ elim (Bool-cases (bytes_eq e.path path)) [
        | inl k ↦ absurd (cc (d, he ((bytes_eq_iff e.path path).0 k)))
        | inr k ↦ rw (d, k) more
      ]
    ]

All_of :
    (P : Entry → Type 0) (es : List Entry)
    → All (λ (e : Entry). e.gitlink ≡ false) es
    → ((e : Entry) → e.gitlink ≡ false → P e)
    → All P es
All_of P [] h f = tt
All_of P (e ∷ es) (g, h) f = (f e g, All_of P es h f)

-- Pruning a deleted file on a build with a record backend removes its records and leaves its
-- dictionary: no entry `<file>/...` is left, and each `<file>.DICT/...`, the control among them, is
-- there as it was, unless the index has something under `<file>.DICT.DICT/`. For an index without
-- submodules that has one entry for a path and paths below 700 bytes, and a file whose name has no
-- slash and stays below 256 bytes with its `.DICT`.
pub gitprune_dict :
    (prefix live base : Bytes) (is_live : Bytes → Bool) (index : List Entry) (id rest : Bytes)
    → IsIndex index
    → All (λ (e : Entry). e.gitlink ≡ false) index
    → Lacks b'/' base
    → length base < 251
    → any_path (starts_with (prefix ++ dict_dir (base ++ codes ".DICT"))) index ≡ false
    → is_deleted prefix false live is_live index base ≡ true
    → let result = (gitprune prefix false live is_live index).0 in
      let item = prefix ++ ((base ++ codes ".DICT") ++ b'/' ∷ rest) in
      (has_path (prefix ++ (base ++ b'/' ∷ id)) result ≡ false)
      × (has_path item result ≡ has_path item index)
gitprune_dict prefix live base is_live index id rest ok plain h l bare gone =
    let drops = entry_deleted prefix false live is_live index in
    let record_path = prefix ++ (base ++ b'/' ∷ id) in
    let item = prefix ++ ((base ++ codes ".DICT") ++ b'/' ∷ rest) in
    let lacks = All-append (λ c. c ≢ b'/') base (codes ".DICT") h (omega arith) in
    let records = All_of (Answered record_path drops true) index plain (λ e g p.
      ap (deleted_top prefix false live is_live index)
        (entry_top_under prefix base id e h (omega arith) g p)
      ∙ gone) in
    let items = All_of (Answered item drops false) index plain (λ e g p.
      dict_kept prefix live base rest is_live index e lacks
        (omega (arith, length-append base (codes ".DICT"))) bare g p) in
    rw (gitprune-kept prefix false live is_live index ok)
      (kept_none record_path drops index records, kept_same item drops index items)
