-- ===== src/Furniture/Names.antt =====
-- The names that are furniture (src/mvxgit.c, mv_account_furniture): the fuel of the model is
-- enough, and a file's dictionary is furniture whenever the file is.
use mv_git.Base.{
  ℕ, zero, suc, ◌+◌, ◌-◌, ◌<◌, Bool, true, false, ◌&&◌, ◌||◌, ◌∷◌, ◌++◌, ◌≡◌, refl, sym, ap, ◌∙◌,
  arith, ltb, lt→ltb, leb, length, drop, length-drop, length-take, length-append,
  take-length_append, drop-length_append,
}
use mv_git.Build.{Build}
use mv_git.Bytes.{Bytes, codes, starts_with, ends_with, bytes_eq_refl}
use mv_git.Furniture.{
  and_then, is_d_dict, is_dot_dict, dot_stem, furniture, account_furniture, named_furniture,
}

and_then_same :
    (c : Bool) (f g : Bytes → Bool) (name : Bytes)
    → (c ≡ true → f name ≡ g name)
    → and_then c f name ≡ and_then c g name
and_then_same false f g name h = refl
and_then_same true f g name h = h refl

and-ltb : (n m : ℕ) (c : Bool) → (ltb n m && c) ≡ true → n < m
and-ltb n m c h = ground arith

stem_shorter : (name : Bytes) → 5 < length name → length (dot_stem name) < length name
stem_shorter name h = let e = length-take (length name - 5) name in ground (arith, e)

-- The answer does not depend on the fuel, once that exceeds the length of the name.
pub furniture_fuel :
    (b : Build) (f g : ℕ) (name : Bytes)
    → length name < f
    → length name < g
    → furniture b f name ≡ furniture b g name
unfolding furniture
furniture_fuel b zero g name hf hg = absurd (omega arith)
furniture_fuel b (suc f) zero name hf hg = absurd (omega arith)
furniture_fuel b (suc f) (suc g) name hf hg =
    let beside = and_then_same (is_d_dict name) (furniture b f) (furniture b g) (drop 2 name) (λ e.
      let long = and-ltb 2 (length name) _ e in
      let gone = length-drop 2 name in
      furniture_fuel b f g (drop 2 name) (omega arith) (omega arith)) in
    let behind =
      and_then_same (is_dot_dict name) (furniture b f) (furniture b g) (dot_stem name) (λ e.
        let long = and-ltb 5 (length name) _ e in
        let gone = stem_shorter name long in
        furniture_fuel b f g (dot_stem name) (omega arith) (omega arith)) in
    rw (beside, behind) refl

or_right : (a b : Bool) → b ≡ true → (a || b) ≡ true
or_right a b h = ground arith

or_left : (a b : Bool) → a ≡ true → (a || b) ≡ true
or_left a b h = ground arith

or_third : (a b c : Bool) → c ≡ true → (a || (b || c)) ≡ true
or_third a b c h = or_right a (b || c) (or_right b c h)

by_d_dict :
    (b : Build) (fuel : ℕ) (name : Bytes)
    → is_d_dict name ≡ true
    → furniture b fuel (drop 2 name) ≡ true
    → furniture b (suc fuel) name ≡ true
unfolding furniture
by_d_dict b fuel name d h =
    or_right (named_furniture b name) _
      (or_left _ _ (ap (λ c. and_then c (furniture b fuel) (drop 2 name)) d ∙ h))

by_dot_dict :
    (b : Build) (fuel : ℕ) (name : Bytes)
    → is_dot_dict name ≡ true
    → furniture b fuel (dot_stem name) ≡ true
    → furniture b (suc fuel) name ≡ true
unfolding furniture
by_dot_dict b fuel name d h =
    or_third (named_furniture b name) _ _
      (ap (λ c. and_then c (furniture b fuel) (dot_stem name)) d ∙ h)

abbrev pub dot_dict_name : Bytes → Bytes
dot_dict_name file = file ++ codes ".DICT"

abbrev pub d_dict_name : Bytes → Bytes
d_dict_name file = codes "D_" ++ file

d_dict_long : (c : ℕ) (s : Bytes) → ltb 2 (length (d_dict_name (c ∷ s))) ≡ true
d_dict_long c s = lt→ltb 2 (length (d_dict_name (c ∷ s))) (omega arith)

both : (a b : Bool) → a ≡ true → b ≡ true → (a && b) ≡ true
both a b h k = ground arith

d_dict_IsD : (c : ℕ) (s : Bytes) → is_d_dict (d_dict_name (c ∷ s)) ≡ true
unfolding starts_with
d_dict_IsD c s = both _ _ (d_dict_long c s) refl

length-dot_dict_name : (file : Bytes) → length (dot_dict_name file) ≡ length file + 5
length-dot_dict_name file = length-append file (codes ".DICT")

dot_dict_stem : (file : Bytes) → dot_stem (dot_dict_name file) ≡ file
dot_dict_stem file =
    let e : length (dot_dict_name file) - 5 ≡ length file =
      omega (arith, length-dot_dict_name file) in
    rw e (take-length_append file (codes ".DICT"))

dot_dict_IsDot : (c : ℕ) (s : Bytes) → is_dot_dict (dot_dict_name (c ∷ s)) ≡ true
unfolding ends_with
dot_dict_IsDot c s =
    let file = c ∷ s in
    let e : length (dot_dict_name file) - 5 ≡ length file =
      omega (arith, length-dot_dict_name file) in
    let long : ltb 5 (length (dot_dict_name file)) ≡ true =
      ground (arith, length-dot_dict_name file) in
    let enough : leb 5 (length (dot_dict_name file)) ≡ true =
      ground (arith, length-dot_dict_name file) in
    rw (long, enough, e, drop-length_append file (codes ".DICT")) (bytes_eq_refl (codes ".DICT"))

account_furniture-fuel :
    (b : Build) (fuel : ℕ) (name : Bytes)
    → length name < fuel
    → account_furniture b name ≡ furniture b fuel name
unfolding account_furniture
account_furniture-fuel b fuel name h =
    furniture_fuel b (suc (length name)) fuel name (omega arith) h

-- A file's dictionary is furniture whenever the file is, in both spellings: `D_` in front of the
-- name, as UniVerse keeps it, and `.DICT` behind it, as MVX, jBASE and the open form do.
pub account_furniture-dict :
    (b : Build) (c : ℕ) (s : Bytes)
    → account_furniture b (c ∷ s) ≡ true
    → (account_furniture b (d_dict_name (c ∷ s)) ≡ true)
      × (account_furniture b (dot_dict_name (c ∷ s)) ≡ true)
account_furniture-dict b c s h =
    let file = c ∷ s in
    let fuel = length file + 6 in
    let small : length file < fuel = omega arith in
    let known : furniture b fuel file ≡ true = sym (account_furniture-fuel b fuel file small) ∙ h in
    let d_small : length (d_dict_name file) < suc fuel = omega arith in
    let dot_small : length (dot_dict_name file) < suc fuel =
      omega (arith, length-dot_dict_name file) in
    (
      account_furniture-fuel b (suc fuel) (d_dict_name file) d_small
          ∙ by_d_dict b fuel (d_dict_name file) (d_dict_IsD c s) known,
      account_furniture-fuel b (suc fuel) (dot_dict_name file) dot_small
          ∙ by_dot_dict b fuel (dot_dict_name file) (dot_dict_IsDot c s)
              (ap (furniture b fuel) (dot_dict_stem file) ∙ known),
    )
