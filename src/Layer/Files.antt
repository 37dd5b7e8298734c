-- ===== src/Layer/Files.antt =====
-- The list of files that the record layer writes and the engine reads (src/udtgit_rt.c, mv_filelist;
-- src/mvxgit.c, backend_has_file).
use mv_git.Base.{
  ◌↔◌, ◌⊎◌, not, ==_iff, Bool, true, false, ◌&&◌, ◌||◌, List, [], ◌∷◌, ◌++◌, map, Option, none,
  some, ◌≡◌, ◌≢◌, refl, sym, ap, ◌∙◌, arith, ◌==◌, inl, inr, Bool-cases, All, All-append,
  append-nil, append_assoc,
}
use mv_git.Build.{Build}
use mv_git.Bytes.{codes, bytes_eq_iff, has_slash, Bytes, am, vm, bytes_eq}
use mv_git.Bytes.Split.{Lacks, join, separated}
use mv_git.Furniture.{account_furniture, named_in, upto}
use mv_git.Index.{entries, file_names, backend_has_file, fits_name}
use mv_git.Index.Listed.{or_assoc, or_false, file_names-named_in, named_in-append, named_in_one}
use mv_git.Paths.Storable.{upto-Lacks}
use mv_git.Record.{attr}
use mv_git.Index.Prune.{or_true}
use mv_git.Layer.{udt_field_local, voc_field, is_own_file, with_file, list_files, mv_filelist}

-- An id that can stand in a list: a byte, and no mark.
abbrev pub IsListedId : Bytes → Type 0
IsListedId id = (id ≢ []) × Lacks am id × Lacks vm id

-- A path that leads nowhere else: no slash in it, and no @ in front.
abbrev pub IsBare : Bytes → Type 0
IsBare [] = Unit
IsBare (c ∷ s) = (c ≢ b'@') × Lacks b'/' (c ∷ s)

-- A record of the VOC that makes a file of the account: its type is F or DIR, the paths of its data
-- and of its dictionary are bare, and its name is not furniture.
abbrev pub IsOwnFile : Build → Bytes → Bytes → Type 0
IsOwnFile b id item =
    ((attr am item 0 ≡ codes "F") ⊎ (attr am item 0 ≡ codes "DIR"))
    × IsBare (attr am item 1)
    × IsBare (attr am item 2)
    × (account_furniture b id ≡ false)

-- The VOC has such a record under that name.
abbrev pub HasOwnFile : Build → List (Bytes × Option Bytes) → Bytes → Type 0
HasOwnFile b [] name = ⊥
HasOwnFile b ((id, none) ∷ more) name = HasOwnFile b more name
HasOwnFile b ((id, some item) ∷ more) name =
    (IsOwnFile b id item × (name ≡ id)) ⊎ HasOwnFile b more name

-- the same as a test
unfoldable own_file : Build → List (Bytes × Option Bytes) → Bytes → Bool
unfolding is_own_file bytes_eq
own_file b [] name = false
own_file b ((id, none) ∷ more) name = own_file b more name
own_file b ((id, some item) ∷ more) name =
    (is_own_file b id item && bytes_eq name id) || own_file b more name

no_slash : (s : Bytes) → (not (has_slash s) ≡ true) ↔ Lacks b'/' s
unfolding has_slash
no_slash [] = ((λ h. tt), (λ h. refl))
no_slash (c ∷ s) = elim (Bool-cases (c == b'/')) [
  | inl e ↦ rw e ((λ h. cc), (λ h. absurd (h.0 ((==_iff c b'/').0 e))))
  | inr e ↦ rw e ((λ h. (ground arith, (no_slash s).0 h)), (λ h. (no_slash s).1 h.1))
]

local_iff : (s : Bytes) → (udt_field_local s ≡ true) ↔ IsBare s
unfolding udt_field_local
local_iff [] = ((λ h. tt), (λ h. refl))
local_iff (c ∷ s) = elim (Bool-cases (c == b'@')) [
  | inl e ↦ rw e ((λ h. cc), (λ h. absurd (h.0 ((==_iff c b'@').0 e))))
  | inr e ↦ rw e ((λ h. (ground arith, (no_slash (c ∷ s)).0 h)), (λ h. (no_slash (c ∷ s)).1 h.1))
]

and_iff : (a b : Bool) → ((a && b) ≡ true) ↔ ((a ≡ true) × (b ≡ true))
and_iff true b = ground arith
and_iff false b = ground arith

or_iff : (a b : Bool) → ((a || b) ≡ true) → (a ≡ true) ⊎ (b ≡ true)
or_iff true b h = inl refl
or_iff false b h = inr h

not_iff : (a : Bool) → (not a ≡ true) ↔ (a ≡ false)
not_iff true = ground arith
not_iff false = ground arith

is_own_file_iff :
    (b : Build) (id item : Bytes) → (is_own_file b id item ≡ true) ↔ IsOwnFile b id item
unfolding is_own_file
is_own_file_iff b id item =
    let kind =
      (bytes_eq (voc_field item 0) (codes "F") || bytes_eq (voc_field item 0) (codes "DIR")) in
    let own_data = udt_field_local (voc_field item 1) in
    let own_dict = udt_field_local (voc_field item 2) in
    let f = bytes_eq_iff (voc_field item 0) (codes "F") in
    let d = bytes_eq_iff (voc_field item 0) (codes "DIR") in
    let outer = and_iff (kind && (own_data && own_dict)) (not (account_furniture b id)) in
    let inner = and_iff kind (own_data && own_dict) in
    let paths = and_iff own_data own_dict in
    (
      (λ h.
          let i = inner.0 (outer.0 h).0 in
          let l = paths.0 i.1 in
          (
            elim (or_iff (bytes_eq (voc_field item 0) (codes "F"))
                (bytes_eq (voc_field item 0) (codes "DIR")) i.0) [
                  | inl k ↦ inl (f.0 k)
                  | inr k ↦ inr (d.0 k)
                ],
            (local_iff (voc_field item 1)).0 l.0,
            (local_iff (voc_field item 2)).0 l.1,
            (not_iff (account_furniture b id)).0 (outer.0 h).1,
          )),
      (λ h.
          let k : kind ≡ true = elim h.0 [
            | inl e ↦ rw (f.1 e) refl
            | inr e ↦ rw (d.1 e) (or_true (bytes_eq (voc_field item 0) (codes "F")))
          ] in
          outer.1 (
            inner.1 (
              k,
              paths.1 ((local_iff (voc_field item 1)).1 h.1, (local_iff (voc_field item 2)).1 h.2),
            ),
            (not_iff (account_furniture b id)).1 h.3,
          )),
    )

own_file_iff :
    (b : Build) (voc : List (Bytes × Option Bytes)) (name : Bytes)
    → (own_file b voc name ≡ true) ↔ HasOwnFile b voc name
unfolding own_file
own_file_iff b [] name = ((λ h. cc), (λ h. absurd h))
own_file_iff b ((id, none) ∷ more) name = own_file_iff b more name
own_file_iff b ((id, some item) ∷ more) name =
    let ih = own_file_iff b more name in
    let here = and_iff (is_own_file b id item) (bytes_eq name id) in
    let own = is_own_file_iff b id item in
    let same = bytes_eq_iff name id in
    (
      (λ h. elim (or_iff (is_own_file b id item && bytes_eq name id) (own_file b more name) h) [
        | inl k ↦ inl (own.0 (here.0 k).0, same.0 (here.0 k).1)
        | inr k ↦ inr (ih.0 k)
      ]),
      (λ h. elim h [
        | inl k ↦ rw (here.1 (own.1 k.0, same.1 k.1)) refl
        | inr k ↦ rw (ih.1 k) (or_true (is_own_file b id item && bytes_eq name id))
      ]),
    )

separated-append :
    (ps qs : List Bytes) → separated am (ps ++ qs) ≡ separated am ps ++ separated am qs
unfolding separated
separated-append [] qs = refl
separated-append (p ∷ ps) qs =
    ap (λ s. am ∷ s)
      (ap (λ s. p ++ s) (separated-append ps qs)
        ∙ sym (append_assoc p (separated am ps) (separated am qs)))

with_file-join :
    (ids : List Bytes) (id : Bytes)
    → All IsListedId ids
    → with_file (join am ids) id ≡ join am (ids ++ id ∷ [])
unfolding join separated
with_file-join [] id h = sym (append-nil id)
with_file-join ([] ∷ ids) id (h, hs) = absurd (h.0 refl)
with_file-join ((c ∷ p) ∷ ids) id (h, hs) =
    rw (separated-append ids (id ∷ []), append-nil id)
      (ap (λ s. c ∷ s) (append_assoc p (separated am ids) (am ∷ id)))

entry_read : (p acc s : Bytes) → Lacks am p → entries acc (p ++ am ∷ s) ≡ (acc ++ p) ∷ entries [] s
unfolding entries
entry_read [] acc s h = rw (append-nil acc) refl
entry_read (c ∷ p) acc s (hc, h) =
    let e : (c == am) ≡ false = ground arith in
    rw e
      (entry_read p (acc ++ c ∷ []) s h ∙ ap (λ x. x ∷ entries [] s) (append_assoc acc (c ∷ []) p))

last_entry : (p acc : Bytes) → Lacks am p → acc ++ p ≢ [] → entries acc p ≡ (acc ++ p) ∷ []
unfolding entries
last_entry [] [] h ne = absurd (ne refl)
last_entry [] (a ∷ acc) h ne = rw (append-nil acc) refl
last_entry (c ∷ p) acc (hc, h) ne =
    let e : (c == am) ≡ false = ground arith in
    let t : (acc ++ c ∷ []) ++ p ≡ acc ++ c ∷ p = append_assoc acc (c ∷ []) p in
    rw e (last_entry p (acc ++ c ∷ []) h (λ k. ne (sym t ∙ k)) ∙ ap (λ x. x ∷ []) t)

entries-separated :
    (p : Bytes) (ids : List Bytes)
    → IsListedId p
    → All IsListedId ids
    → entries [] (p ++ separated am ids) ≡ p ∷ ids
unfolding separated
entries-separated p [] (ne, h, v) hs = rw (append-nil p) (last_entry p [] h ne)
entries-separated p (q ∷ ids) (ne, h, v) (hq, hs) =
    entry_read p [] (q ++ separated am ids) h ∙ ap (λ x. p ∷ x) (entries-separated q ids hq hs)

entries-join : (ids : List Bytes) → All IsListedId ids → entries [] (join am ids) ≡ ids
unfolding join entries
entries-join [] h = refl
entries-join (p ∷ ids) (h, hs) = entries-separated p ids h hs

names_clean : (ids : List Bytes) → All IsListedId ids → map (upto vm) ids ≡ ids
names_clean [] h = refl
names_clean (p ∷ ids) ((ne, a, v), hs) = rw (upto-Lacks vm p v, names_clean ids hs) refl

abbrev AreListed : List (Bytes × Option Bytes) → Type 0
AreListed = All (λ r. IsListedId r.0)

-- The list is that of the names, and a name is in it when it was or a pointer has it.
abbrev Lists : Build → List Bytes → List (Bytes × Option Bytes) → Bytes → Type 0
Lists b ids voc name =
    (more : List Bytes) × All IsListedId more
    × (list_files b (join am ids) voc ≡ join am more)
    × (named_in more name ≡ (named_in ids name || own_file b voc name))

lists :
    (b : Build) (ids : List Bytes) (voc : List (Bytes × Option Bytes)) (name : Bytes)
    → All IsListedId ids
    → AreListed voc
    → Lists b ids voc name
unfolding list_files own_file
lists b ids [] name h hv = (ids, h, refl, or_false (named_in ids name))
lists b ids ((id, none) ∷ voc) name h (hi, hv) = lists b ids voc name h hv
lists b ids ((id, some item) ∷ voc) name h (hi, hv) = elim (Bool-cases (is_own_file b id item)) [
  | inl e ↦
      let (more, hm, eq, mem) =
        lists b (ids ++ id ∷ []) voc name (All-append IsListedId ids (id ∷ []) h (hi, tt)) hv in
      rw (e, with_file-join ids id h)
        (
          more,
          hm,
          eq,
          mem
              ∙ ap (λ x. x || own_file b voc name)
                  (named_in-append ids (id ∷ []) name
                    ∙ ap (λ x. named_in ids name || x) (named_in_one name id))
              ∙ or_assoc (named_in ids name) (bytes_eq name id) (own_file b voc name),
        )
  | inr e ↦ rw e (lists b ids voc name h hv)
]

listed_own :
    (b : Build) (voc : List (Bytes × Option Bytes)) (name : Bytes)
    → AreListed voc
    → fits_name name ≡ true
    → backend_has_file false (mv_filelist b (some voc)) name ≡ own_file b voc name
unfolding mv_filelist backend_has_file join
listed_own b voc name h f =
    let (more, hm, eq, mem) = lists b [] voc name tt h in
    ap (λ s. named_in (file_names [] (entries [] s)) name) eq
    ∙ ap (λ s. named_in (file_names [] s) name) (entries-join more hm)
    ∙ file_names-named_in [] more name f
    ∙ ap (λ s. named_in s name) (names_clean more hm)
    ∙ mem

-- The engine says that the account has a file exactly when the VOC has a record of that name whose
-- type is F or DIR and whose data path and dictionary path are bare, without a slash and not behind
-- an @, and the name is not furniture; for a name of 1 to 255 bytes and ids that are not empty and
-- hold no mark.
pub backend_has_file-mv_filelist :
    (b : Build) (voc : List (Bytes × Option Bytes)) (name : Bytes)
    → AreListed voc
    → fits_name name ≡ true
    → (backend_has_file false (mv_filelist b (some voc)) name ≡ true) ↔ HasOwnFile b voc name
backend_has_file-mv_filelist b voc name h f =
    let e = listed_own b voc name h f in
    let own = own_file_iff b voc name in ((λ k. own.0 (sym e ∙ k)), (λ k. e ∙ own.1 k))
