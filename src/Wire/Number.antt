-- ===== src/Wire/Number.antt =====
-- The fixed-width decimal numbers of the headers: what is put is got back.
use native.Mathlib.Nat.{pow-suc}
use mv_git.Base.{
  ℕ, zero, suc, ◌+◌, ◌-◌, ◌*◌, ◌/◌, ◌%◌, ◌^◌, ◌<◌, ◌≤◌, true, false, [], ◌∷◌, ◌++◌, some, ◌≡◌, refl,
  sym, ap, ◌∙◌, arith, leb, ◌==◌, Bool-cases, inl, inr, length, take, replicate, length-append,
  length-replicate, take_all, take-length_append,
}
use mv_git.Bytes.{Bytes}
use mv_git.Wire.{show_digits, show, pad_zero, put_num, all_digits, value, long_max, get_num}

value-show_digits :
    (fuel n : ℕ) (out : Bytes) → n ≤ fuel → value 0 (show_digits fuel n out) ≡ value n out
unfolding show_digits value
value-show_digits zero n out h = ap (λ k. value k out) (omega arith)
value-show_digits (suc fuel) n out h = elim (Bool-cases (n == 0)) [
  | inl e ↦ rw e (ap (λ k. value k out) (ground arith))
  | inr e ↦ rw e (
      value-show_digits fuel (n / 10) ((b'0' + n % 10) ∷ out) (ground arith)
      ∙ ap (λ k. value k out) (omega arith))
]

length-show_digits :
    (fuel n width : ℕ) (out : Bytes)
    → n ≤ fuel
    → n < 10 ^ width
    → length (show_digits fuel n out) ≤ width + length out
unfolding show_digits
length-show_digits zero n width out h small = omega arith
length-show_digits (suc fuel) n zero out h small = ground arith
length-show_digits (suc fuel) n (suc width) out h small = elim (Bool-cases (n == 0)) [
  | inl e ↦ rw e (omega arith)
  | inr e ↦
      let tens : n < 10 ^ width * 10 = rw (pow-suc 10 width) at small in
      rw e (
        omega (
          arith,
          length-show_digits fuel (n / 10) width ((b'0' + n % 10) ∷ out) (ground arith)
              (omega arith),
        ))
]

digits-show_digits :
    (fuel n : ℕ) (out : Bytes) → all_digits out ≡ true → all_digits (show_digits fuel n out) ≡ true
unfolding show_digits all_digits
digits-show_digits zero n out h = h
digits-show_digits (suc fuel) n out h =
    ground (arith, digits-show_digits fuel (n / 10) ((b'0' + n % 10) ∷ out))

pub length-show : (n width : ℕ) → 0 < width → n < 10 ^ width → length (show n) ≤ width
unfolding show
length-show n width pos small = elim (Bool-cases (n == 0)) [
  | inl e ↦ rw e (omega arith)
  | inr e ↦ rw e (omega (arith, length-show_digits n n width [] (omega arith) small))
]

pub value-show : (n : ℕ) → value 0 (show n) ≡ n
unfolding show
value-show n = elim (Bool-cases (n == 0)) [
  | inl e ↦ rw e (unfold value in ground arith)
  | inr e ↦ rw e (value-show_digits n n [] (omega arith) ∙ unfold value in refl)
]

pub digits-show : (n : ℕ) → all_digits (show n) ≡ true
unfolding show
digits-show n = elim (Bool-cases (n == 0)) [
  | inl e ↦ rw e (unfold all_digits in refl)
  | inr e ↦ rw e (digits-show_digits n n [] (unfold all_digits in refl))
]

digits-zeros : (k : ℕ) (s : Bytes) → all_digits s ≡ true → all_digits (replicate k b'0' ++ s) ≡ true
unfolding all_digits
digits-zeros zero s h = h
digits-zeros (suc k) s h = digits-zeros k s h

value-zeros : (k : ℕ) (s : Bytes) → value 0 (replicate k b'0' ++ s) ≡ value 0 s
unfolding value
value-zeros zero s = refl
value-zeros (suc k) s = value-zeros k s

pub length-pad_zero : (width n : ℕ) → 0 < width → n < 10 ^ width → length (pad_zero width n) ≡ width
unfolding pad_zero
length-pad_zero width n pos small =
    let fits = length-show n width pos small in
    length-append (replicate (width - length (show n)) b'0') (show n)
    ∙ rw length-replicate (omega arith)

pub length-put_num : (width n : ℕ) → 0 < width → n < 10 ^ width → length (put_num width n) ≡ width
unfolding put_num
length-put_num width n pos small =
    let exact = length-pad_zero width n pos small in
    rw (take_all width (pad_zero width n) (omega arith)) exact

pub put_num_pad : (width n : ℕ) → 0 < width → n < 10 ^ width → put_num width n ≡ pad_zero width n
unfolding put_num
put_num_pad width n pos small =
    let exact = length-pad_zero width n pos small in take_all width (pad_zero width n) (omega arith)

take_field :
    (width n : ℕ) (rest : Bytes)
    → 0 < width
    → n < 10 ^ width
    → take width (put_num width n ++ rest) ≡ pad_zero width n
take_field width n rest pos small =
    ap (λ k. take k (put_num width n ++ rest)) (sym (length-put_num width n pos small))
    ∙ take-length_append (put_num width n) rest
    ∙ put_num_pad width n pos small

-- The padded number is all digits, and they spell it.
pub padded :
    (width n : ℕ) → (all_digits (pad_zero width n) ≡ true) × (value 0 (pad_zero width n) ≡ n)
unfolding pad_zero
padded width n =
    let k = width - length (show n) in
    (digits-zeros k (show n) (digits-show n), value-zeros k (show n) ∙ value-show n)

narrow_field : (width : ℕ) → width < 32 → leb 32 width ≡ false
narrow_field width h = ground arith

-- A number that fits its field is read back from it, whatever follows the field.
pub get_num-put_num :
    (width n : ℕ) (rest : Bytes)
    → 0 < width
    → width < 32
    → n < 10 ^ width
    → n ≤ long_max
    → get_num (put_num width n ++ rest) width ≡ some n
unfolding get_num
get_num-put_num width n rest pos narrow small top =
    let (digits, exact) = padded width n in
    rw (narrow_field width narrow, take_field width n rest pos small, digits, exact)
      (ap some (omega arith))

pub get_num-pad_zero :
    (width n : ℕ) (rest : Bytes)
    → 0 < width
    → width < 32
    → n < 10 ^ width
    → n ≤ long_max
    → get_num (pad_zero width n ++ rest) width ≡ some n
get_num-pad_zero width n rest pos narrow small top =
    rw (← put_num_pad width n pos small) (get_num-put_num width n rest pos narrow small top)
