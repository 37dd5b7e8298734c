-- ===== src/Virtual/Lookup.antt =====
-- The name that a dictionary has for an attribute (src/mvxgit.c, ds_name_for_attr): the lowest of
-- those that describe it, in whatever order the tree or the index lists them.
use mv_git.Base.{
  ℕ, ◌<◌, true, false, List, [], ◌∷◌, Option, none, some, ◌≡◌, ◌≢◌, refl, ◌∙◌, arith, ◌==◌, length,
  inl, inr, Bool-cases, ◌⊎◌, All,
}
use mathlib.Core.List.{Memᴰ}
use mv_git.Bytes.{Bytes}
use mv_git.Record.{is_empty}
use mv_git.Virtual.{str_less, describes, lower_name, lowest_name, name_for_attr, found_name}
use mv_git.Virtual.Names.{clip_name}

str_less_irrefl : (a : Bytes) → str_less a a ≡ false
unfolding str_less
str_less_irrefl [] = refl
str_less_irrefl (x ∷ a) = ground (arith, str_less_irrefl a)

str_less_trans : (a b c : Bytes) → str_less a b ≡ true → str_less b c ≡ true → str_less a c ≡ true
unfolding str_less
str_less_trans a b [] h k = cc
str_less_trans a [] (z ∷ c) h k = cc
str_less_trans [] (y ∷ b) (z ∷ c) h k = refl
str_less_trans (x ∷ a) (y ∷ b) (z ∷ c) h k = ground (arith, str_less_trans a b c)

str_less_antisym : (a b : Bytes) → str_less a b ≡ false → str_less b a ≡ false → a ≡ b
unfolding str_less
str_less_antisym [] [] h k = refl
str_less_antisym [] (y ∷ b) h k = cc
str_less_antisym (x ∷ a) [] h k = cc
str_less_antisym (x ∷ a) (y ∷ b) h k = ground (arith, str_less_antisym a b)

-- neither below nor below again
not_less_trans :
    (a b c : Bytes) → str_less a b ≡ false → str_less b c ≡ false → str_less a c ≡ false
unfolding str_less
not_less_trans a b [] h k = refl
not_less_trans a [] (z ∷ c) h k = cc
not_less_trans [] (y ∷ b) (z ∷ c) h k = cc
not_less_trans (x ∷ a) (y ∷ b) (z ∷ c) h k = ground (arith, not_less_trans a b c)

less_not_back : (a b : Bytes) → str_less a b ≡ true → str_less b a ≡ false
less_not_back a b h = elim (Bool-cases (str_less b a)) [
  | inl e ↦
      let loop : str_less a a ≡ true = str_less_trans a b a h e in
      let none : str_less a a ≡ false = str_less_irrefl a in cc
  | inr e ↦ e
]

-- An item's name as the file system has it: not empty, and below 256 bytes.
abbrev pub IsItemName : Bytes × Bytes → Type 0
IsItemName item = (is_empty item.0 ≡ false) × (length item.0 < 256)

-- What one item does to the lowest name so far.
lower_name_step :
    (item : Bytes × Bytes) (out : Bytes)
    → IsItemName item
    → (is_empty (lower_name item.0 out) ≡ false)
      × (str_less item.0 (lower_name item.0 out) ≡ false)
      × (is_empty out ≡ false → str_less out (lower_name item.0 out) ≡ false)
      × ((lower_name item.0 out ≡ out) ⊎ (lower_name item.0 out ≡ item.0))
lower_name_step (name, text) out (ne, short) = elim (Bool-cases (is_empty out)) [
  | inl e ↦ rw (e, clip_name 256 name short) (ne, str_less_irrefl name, (λ h. cc), inr refl)
  | inr e ↦ elim (Bool-cases (str_less name out)) [
    | inl f ↦
        rw (e, f, clip_name 256 name short)
          (ne, str_less_irrefl name, (λ h. less_not_back name out f), inr refl)
    | inr f ↦ rw (e, f) (e, f, (λ h. str_less_irrefl out), inl refl)
  ]
]

module _ (attribute : ℕ) where
  -- `n` is the name of an item that describes the attribute.
  abbrev pub IsCandidate : List (Bytes × Bytes) → Bytes → Type 0
  IsCandidate items n =
      (item : Bytes × Bytes) × Memᴰ item items × (describes attribute item ≡ true) × (n ≡ item.0)

  -- `n` is at or below each name of such an item.
  abbrev pub IsBelow : List (Bytes × Bytes) → Bytes → Type 0
  IsBelow [] n = Unit
  IsBelow (item ∷ items) n =
      (describes attribute item ≡ true → str_less item.0 n ≡ false) × IsBelow items n

  abbrev pub NoneDescribes : List (Bytes × Bytes) → Type 0
  NoneDescribes = All (λ (item : Bytes × Bytes). describes attribute item ≡ false)

  wider :
      (item : Bytes × Bytes) (items : List (Bytes × Bytes)) (n : Bytes)
      → IsCandidate items n
      → IsCandidate (item ∷ items) n
  wider item items n (i, m, d, e) = (i, Memᴰ.tail m, d, e)

  -- What the loop makes of a name so far.
  record Lowest (items : List (Bytes × Bytes)) (out result : Bytes) : Type 0 where
    from : (result ≡ out) ⊎ IsCandidate items result
    below_start : is_empty out ≡ false → str_less out result ≡ false
    filled : is_empty out ≡ false → is_empty result ≡ false
    below : IsBelow items result
    none_if_empty : is_empty result ≡ true → NoneDescribes items

  wider_from :
      (item : Bytes × Bytes) (items : List (Bytes × Bytes)) (out : Bytes) {result : Bytes}
      → (result ≡ out) ⊎ IsCandidate items result
      → (result ≡ out) ⊎ IsCandidate (item ∷ items) result
  wider_from item items out (inl h) = inl h
  wider_from item items out {result} (inr c) = inr (wider item items result c)

  taken_from :
      (item : Bytes × Bytes) (items : List (Bytes × Bytes)) (out : Bytes) {next result : Bytes}
      → describes attribute item ≡ true
      → (next ≡ out) ⊎ (next ≡ item.0)
      → (result ≡ next) ⊎ IsCandidate items result
      → (result ≡ out) ⊎ IsCandidate (item ∷ items) result
  taken_from item items out e which (inr c) = inr (wider item items _ c)
  taken_from item items out e (inl w) (inl r) = inl (r ∙ w)
  taken_from item items out e (inr w) (inl r) = inr (item, Memᴰ.head refl, e, r ∙ w)

  skipped :
      (item : Bytes × Bytes) (items : List (Bytes × Bytes)) (out : Bytes) {result : Bytes}
      → describes attribute item ≡ false
      → Lowest items out result
      → Lowest (item ∷ items) out result
  skipped item items out {result} e l = record {
    from = wider_from item items out l.from;
    below_start = l.below_start;
    filled = l.filled;
    below = ((λ d. cc), l.below);
    none_if_empty = λ h. (e, l.none_if_empty h);
  }

  taken :
      (item : Bytes × Bytes) (items : List (Bytes × Bytes)) (out : Bytes) {result : Bytes}
      → describes attribute item ≡ true
      → IsItemName item
      → Lowest items (lower_name item.0 out) result
      → Lowest (item ∷ items) out result
  taken item items out {result} e hi l =
      let (full, under, start, which) = lower_name_step item out hi in
      let not_empty = l.filled full in
      record {
        from = taken_from item items out e which l.from;
        below_start = λ h. not_less_trans out _ result (start h) (l.below_start full);
        filled = λ h. not_empty;
        below = ((λ d. not_less_trans item.0 _ result under (l.below_start full)), l.below);
        none_if_empty = λ h. cc;
      }

  lowest_name-Lowest :
      (items : List (Bytes × Bytes)) (out : Bytes)
      → All IsItemName items
      → Lowest items out (lowest_name attribute items out)
  unfolding lowest_name
  lowest_name-Lowest [] out h = record {
    from = inl refl;
    below_start = λ h. str_less_irrefl out;
    filled = λ h. h;
    below = tt;
    none_if_empty = λ h. tt;
  }
  lowest_name-Lowest (item ∷ items) out (hi, h) = elim (Bool-cases (describes attribute item)) [
    | inl e ↦ rw e (taken item items out e hi (lowest_name-Lowest items (lower_name item.0 out) h))
    | inr e ↦ rw e (skipped item items out e (lowest_name-Lowest items out h))
  ]

  IsCandidate-found :
      (items : List (Bytes × Bytes)) (result : Bytes)
      → is_empty result ≡ false
      → (result ≡ []) ⊎ IsCandidate items result
      → IsCandidate items result
  IsCandidate-found items result h (inl e) = absurd (cc)
  IsCandidate-found items result h (inr c) = c

  -- What a lookup answers, read against the items.
  abbrev pub IsAnswer : List (Bytes × Bytes) → Option Bytes → Type 0
  IsAnswer items none = NoneDescribes items
  IsAnswer items (some n) = IsCandidate items n × IsBelow items n

  found-IsAnswer :
      (items : List (Bytes × Bytes)) (out : Bytes)
      → Lowest items [] out
      → IsAnswer items (found_name out)
  found-IsAnswer items [] l = l.none_if_empty refl
  found-IsAnswer items (c ∷ out) l = (IsCandidate-found items (c ∷ out) refl l.from, l.below)

  -- For an attribute number above 0 and items with names of 1 to 255 bytes: a name that is found is
  -- that of an item which describes the attribute, and no item that describes it has a lower name;
  -- when none is found, no item describes it.
  pub name_for_attr_lem :
      (items : List (Bytes × Bytes))
      → attribute ≢ 0
      → All IsItemName items
      → IsAnswer items (name_for_attr attribute items)
  unfolding name_for_attr
  name_for_attr_lem items h hs =
      let e : (attribute == 0) ≡ false = ground arith in
      rw e (found-IsAnswer items (lowest_name attribute items []) (lowest_name-Lowest items [] hs))
