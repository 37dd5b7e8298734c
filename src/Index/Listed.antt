-- ===== src/Index/Listed.antt =====
-- The list of an account's files (src/mvxgit.c): the list that a session hands in and the one that
-- the backend answers are read alike.
use mv_git.Base.{
  ◌<◌, Bool, true, false, ◌||◌, List, [], ◌∷◌, ◌++◌, map, some, ◌≡◌, ◌≢◌, refl, sym, ap, ◌∙◌, subst,
  arith, length, inl, inr, Bool-cases, take_all,
}
use mv_git.Bytes.{Bytes, vm, bytes_eq, bytes_eq_iff, clip}
use mv_git.Furniture.{upto, named_in}
use mv_git.Index.{ns_add, entries, live_listed, fits_name, add_name, file_names, backend_has_file}

pub or_assoc : (a b c : Bool) → ((a || b) || c) ≡ (a || (b || c))
or_assoc true b c = refl
or_assoc false b c = refl

pub named_in-append :
    (xs ys : List Bytes) (n : Bytes) → named_in (xs ++ ys) n ≡ (named_in xs n || named_in ys n)
unfolding named_in
named_in-append [] ys n = refl
named_in-append (x ∷ xs) ys n =
    rw (named_in-append xs ys n) (sym (or_assoc (bytes_eq n x) (named_in xs n) (named_in ys n)))

pub named_in_one : (n x : Bytes) → named_in (x ∷ []) n ≡ bytes_eq n x
unfolding named_in
named_in_one n x = ground arith

absorbed : (a b : Bool) → (b ≡ true → a ≡ true) → a ≡ (a || b)
absorbed a true h = rw (h refl) refl
absorbed true false h = refl
absorbed false false h = refl

ns_add-named_in :
    (names : List Bytes) (n name : Bytes)
    → length n < 256
    → named_in (ns_add names n) name ≡ (named_in names name || bytes_eq name n)
unfolding ns_add
ns_add-named_in names n name h = elim (Bool-cases (named_in names n)) [
  | inl e ↦ rw e (
      absorbed (named_in names name) (bytes_eq name n)
        (λ k. subst (λ x. named_in names x ≡ true) (sym ((bytes_eq_iff name n).0 k)) e))
  | inr e ↦
      let c : clip 256 n ≡ n = take_all 255 n (omega arith) in
      rw (e, c)
        (named_in-append names (n ∷ []) name
          ∙ ap (λ b. named_in names name || b) (named_in_one name n))
]

pub or_false : (a : Bool) → a ≡ (a || false)
or_false true = refl
or_false false = refl

other_name :
    (n name : Bytes) → fits_name n ≡ false → fits_name name ≡ true → bytes_eq name n ≡ false
other_name n name h k = elim (Bool-cases (bytes_eq name n)) [
  | inl e ↦
      let s : name ≡ n = (bytes_eq_iff name n).0 e in
      let l : fits_name name ≡ fits_name n = ap fits_name s in absurd (ground arith)
  | inr e ↦ e
]

add_name-named_in :
    (names : List Bytes) (n name : Bytes)
    → fits_name name ≡ true
    → named_in (add_name names n) name ≡ (named_in names name || bytes_eq name n)
add_name-named_in names n name h = elim (Bool-cases (fits_name n)) [
  | inl e ↦ rw e (ns_add-named_in names n name (ground arith))
  | inr e ↦ rw (e, other_name n name e h) (or_false _)
]

pub file_names-named_in :
    (names es : List Bytes) (name : Bytes)
    → fits_name name ≡ true
    → named_in (file_names names es) name
      ≡ (named_in names name || named_in (map (upto vm) es) name)
unfolding file_names named_in
file_names-named_in names [] name h = or_false _
file_names-named_in names (e ∷ es) name h =
    file_names-named_in (add_name names (upto vm e)) es name h
    ∙ rw (add_name-named_in names (upto vm e) name h) (
        or_assoc (named_in names name) (bytes_eq name (upto vm e))
          (named_in (map (upto vm) es) name))

-- For a name of 1 to 255 bytes, and a list that is not empty, a session's list says that the file is
-- live exactly when the backend's list, where it is that list, says that the account has it.
pub live_listed-backend_has_file :
    (list name : Bytes)
    → list ≢ []
    → fits_name name ≡ true
    → live_listed list name ≡ some (backend_has_file false list name)
unfolding live_listed backend_has_file
live_listed-backend_has_file [] name ne h = absurd (ne refl)
live_listed-backend_has_file (c ∷ list) name ne h =
    ap some (sym (file_names-named_in [] (entries [] (c ∷ list)) name h))
