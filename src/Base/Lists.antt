-- ===== src/Base/Lists.antt =====
-- Lists measured and cut by native numbers, under the library's names, and predicates on them.
use Prim.Native.Nat.{ℕ, zero, suc, ◌+◌, ◌-◌, ◌≤◌, min}
use mathlib.Core.Bool.{false}
use mathlib.Core.Path.{◌≡◌, refl, sym, ap, ◌∙◌}
use mathlib.Core.List.{List, [], ◌∷◌, ◌++◌}
use native.Mathlib.Omega.{arith}
use mv_git.Base.Tests.{ltb}

module _ {ℓ} {A : Type ℓ} where
  abbrev pub length : List A → ℕ
  length [] = 0
  length (x ∷ xs) = suc (length xs)

  abbrev pub take : ℕ → List A → List A
  take zero xs = []
  take (suc n) [] = []
  take (suc n) (x ∷ xs) = x ∷ take n xs

  abbrev pub drop : ℕ → List A → List A
  drop zero xs = xs
  drop (suc n) [] = []
  drop (suc n) (x ∷ xs) = drop n xs

  abbrev pub get_or : List A → ℕ → A → A
  get_or [] i d = d
  get_or (x ∷ xs) zero d = x
  get_or (x ∷ xs) (suc i) d = get_or xs i d

  abbrev pub replicate : ℕ → A → List A
  replicate zero a = []
  replicate (suc n) a = a ∷ replicate n a

  pub length-append : (xs ys : List A) → length (xs ++ ys) ≡ length xs + length ys
  length-append [] ys = omega arith
  length-append (x ∷ xs) ys = omega (arith, length-append xs ys)

  pub take_all : (n : ℕ) (xs : List A) → length xs ≤ n → take n xs ≡ xs
  take_all zero [] h = refl
  take_all zero (x ∷ xs) h = absurd (omega arith)
  take_all (suc n) [] h = refl
  take_all (suc n) (x ∷ xs) h = ap (◌∷◌ x) (take_all n xs (omega arith))

  pub length-take : (n : ℕ) (xs : List A) → length (take n xs) ≡ min n (length xs)
  length-take zero xs = omega arith
  length-take (suc n) [] = omega arith
  length-take (suc n) (x ∷ xs) = omega (arith, length-take n xs)

  pub length-replicate : (n : ℕ) (a : A) → length (replicate n a) ≡ n
  length-replicate zero a = refl
  length-replicate (suc n) a = ap suc (length-replicate n a)

  pub length-drop : (n : ℕ) (xs : List A) → length (drop n xs) ≡ length xs - n
  length-drop zero xs = omega arith
  length-drop (suc n) [] = omega arith
  length-drop (suc n) (x ∷ xs) = omega (arith, length-drop n xs)

  pub take-length_append : (xs ys : List A) → take (length xs) (xs ++ ys) ≡ xs
  take-length_append [] ys = refl
  take-length_append (x ∷ xs) ys = ap (◌∷◌ x) (take-length_append xs ys)

  pub drop-length_append : (xs ys : List A) → drop (length xs) (xs ++ ys) ≡ ys
  drop-length_append [] ys = refl
  drop-length_append (x ∷ xs) ys = drop-length_append xs ys

module _ {ℓ} {A : Type ℓ} where
  -- A field at the front of a list, by its length.
  pub take_field : (n : ℕ) (xs ys : List A) → length xs ≡ n → take n (xs ++ ys) ≡ xs
  take_field n xs ys h = rw (← h) (take-length_append xs ys)

  pub drop_field : (n : ℕ) (xs ys : List A) → length xs ≡ n → drop n (xs ++ ys) ≡ ys
  drop_field n xs ys h = rw (← h) (drop-length_append xs ys)

  drop_nil : (n : ℕ) → drop {A = A} n [] ≡ []
  drop_nil zero = refl
  drop_nil (suc n) = refl

  pub drop-drop : (m n k : ℕ) (xs : List A) → k ≡ m + n → drop k xs ≡ drop n (drop m xs)
  drop-drop zero n k xs h = let e : k ≡ n = omega arith in ap (λ i. drop i xs) e
  drop-drop (suc m) n zero xs h = absurd (omega arith)
  drop-drop (suc m) n (suc k) [] h = sym (drop_nil n)
  drop-drop (suc m) n (suc k) (x ∷ xs) h = drop-drop m n k xs (omega arith)

  -- The next field of a stream, behind the ones that were dropped.
  pub drop_on :
      (n m k : ℕ) (s xs ys : List A)
      → drop n s ≡ xs ++ ys
      → length xs ≡ m
      → k ≡ n + m
      → drop k s ≡ ys
  drop_on n m k s xs ys h len e = drop-drop n m k s e ∙ rw h (drop_field m xs ys len)

  pub not_short : (xs ys : List A) (n : ℕ) → n ≤ length xs → ltb (length (xs ++ ys)) n ≡ false
  not_short xs ys n h = ground (arith, length-append xs ys)

module _ {ℓ κ} {A : Type ℓ} (P : A → Type κ) where
  abbrev pub All : List A → Type κ
  All [] = Unit
  All (x ∷ xs) = P x × All xs

  pub All-append : (xs ys : List A) → All xs → All ys → All (xs ++ ys)
  All-append [] ys _ hy = hy
  All-append (x ∷ xs) ys (px, hx) hy = (px, All-append xs ys hx hy)
