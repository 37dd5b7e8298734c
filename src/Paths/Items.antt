-- ===== src/Paths/Items.antt =====
-- The names of the generated dictionary items (src/mvxgit.c, id_item_to_canon and
-- id_item_to_local): the renaming loses nothing.
use mv_git.Base.{false, ◌≡◌, ◌≢◌, refl, sym, inl, inr, Bool-cases, ◌⊎◌}
use mv_git.Bytes.{Bytes, bytes_eq, bytes_eq_iff, bytes_eq_refl}
use mv_git.Paths.{id_canon, ph_canon, id_item_to_canon, id_item_to_local}

pub bytes_ne : (a b : Bytes) → a ≢ b → bytes_eq a b ≡ false
bytes_ne a b h = elim (Bool-cases (bytes_eq a b)) [
  | inl e ↦ absurd (h ((bytes_eq_iff a b).0 e))
  | inr e ↦ e
]

canon_differ : bytes_eq ph_canon id_canon ≡ false
unfolding bytes_eq
canon_differ = refl

module _ (key columns : Bytes) where
  -- The ids that an account uses: its own names of the two items, and all but their names in git.
  abbrev pub IsLocalId : Bytes → Type 0
  IsLocalId id = (id ≡ key) ⊎ ((id ≢ key) × (id ≡ columns)) ⊎ ((id ≢ id_canon) × (id ≢ ph_canon))

  -- The names that git uses for them.
  abbrev pub IsTreeName : Bytes → Type 0
  IsTreeName name = (name ≡ id_canon) ⊎ (name ≡ ph_canon) ⊎ ((name ≢ key) × (name ≢ columns))

  same_id :
      (id : Bytes)
      → id ≢ id_canon
      → id ≢ ph_canon
      → id_item_to_local key columns (id_item_to_canon key columns id) ≡ id
  unfolding id_item_to_canon id_item_to_local
  same_id id h k = elim (Bool-cases (bytes_eq id key)) [
    | inl e ↦ rw (e, bytes_eq_refl id_canon) (sym ((bytes_eq_iff id key).0 e))
    | inr e ↦ elim (Bool-cases (bytes_eq id columns)) [
      | inl f ↦
          rw (e, f, canon_differ, bytes_eq_refl ph_canon) (sym ((bytes_eq_iff id columns).0 f))
      | inr f ↦ rw (e, f, bytes_ne id id_canon h, bytes_ne id ph_canon k) refl
    ]
  ]

  -- An id committed under its canonical name and checked out again is the id that it was, for each of
  -- the account's own ids, whatever the two items are called here.
  pub id_item_to_local-id_item_to_canon :
      (id : Bytes)
      → IsLocalId id
      → id_item_to_local key columns (id_item_to_canon key columns id) ≡ id
  unfolding id_item_to_canon id_item_to_local
  id_item_to_local-id_item_to_canon id (inl e) =
      rw (e, bytes_eq_refl key, bytes_eq_refl id_canon) refl
  id_item_to_local-id_item_to_canon id (inr (inl (h, e))) =
      rw (bytes_ne id key h, e, bytes_eq_refl columns, canon_differ, bytes_eq_refl ph_canon) refl
  id_item_to_local-id_item_to_canon id (inr (inr (h, k))) = same_id id h k

  -- And a name of git comes back when it is checked out and committed again, where the two local
  -- names differ.
  pub id_item_to_canon-id_item_to_local :
      (name : Bytes)
      → key ≢ columns
      → IsTreeName name
      → id_item_to_canon key columns (id_item_to_local key columns name) ≡ name
  unfolding id_item_to_canon id_item_to_local
  id_item_to_canon-id_item_to_local name d (inl e) =
      rw (e, bytes_eq_refl id_canon, bytes_eq_refl key) refl
  id_item_to_canon-id_item_to_local name d (inr (inl e)) =
      rw
        (
          e,
          canon_differ,
          bytes_eq_refl ph_canon,
          bytes_ne columns key (λ f. d (sym f)),
          bytes_eq_refl columns,
        )
        refl
  id_item_to_canon-id_item_to_local name d (inr (inr (h, k))) =
      elim (Bool-cases (bytes_eq name id_canon)) [
        | inl e ↦ rw (e, bytes_eq_refl key) (sym ((bytes_eq_iff name id_canon).0 e))
        | inr e ↦ elim (Bool-cases (bytes_eq name ph_canon)) [
          | inl f ↦
              rw (e, f, bytes_ne columns key (λ g. d (sym g)), bytes_eq_refl columns)
                (sym ((bytes_eq_iff name ph_canon).0 f))
          | inr f ↦ rw (e, f, bytes_ne name key h, bytes_ne name columns k) refl
        ]
      ]
