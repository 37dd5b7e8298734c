-- ===== src/Wire/Hex.antt =====
-- The hexadecimal encoding of payloads: it is undone by decoding, it is text, and both ends agree.
use mv_git.Base.{
  ℕ, zero, suc, ◌*◌, ◌/◌, ◌%◌, ◌<◌, Bool, true, false, ◌&&◌, [], ◌∷◌, Option, none, some, some_inj,
  ◌≡◌, refl, ap, arith, ◌==◌, length, get_or, All, bind_some, subst,
}
use mv_git.Bytes.{Bytes, IsByte}
use mv_git.Wire.{hexd, hex_encode, hex_val, hex_decode, hex_enc, hexv, hex_dec}

-- Over a small range, every value is checked by evaluation.
all_below : ℕ → (ℕ → Bool) → Bool
all_below zero test = true
all_below (suc n) test = test n && all_below n test

all_below_sound :
    (n : ℕ) (test : ℕ → Bool) (x : ℕ) → all_below n test ≡ true → x < n → test x ≡ true
unfolding all_below
all_below_sound zero test x h lt = absurd (omega arith)
all_below_sound (suc n) test x h lt = ground (arith, all_below_sound n test x)

abbrev holds : ℕ → Option ℕ → Bool
holds d none = false
holds d (some v) = v == d

holds_eq : (d : ℕ) (o : Option ℕ) → holds d o ≡ true → o ≡ some d
holds_eq d none h = cc
holds_eq d (some v) h = ground arith

digit_table : all_below 16 (λ d. holds d (hex_val (get_or hexd d 0))) ≡ true
unfolding all_below hex_val
digit_table = refl

hex_val_digit : (d : ℕ) → d < 16 → hex_val (get_or hexd d 0) ≡ some d
hex_val_digit d h = holds_eq d _ (all_below_sound 16 _ d digit_table h)

-- What hex_encode puts on the wire is decoded to the bytes that went in, whatever they are.
pub hex_decode-encode : (s : Bytes) → All IsByte s → hex_decode (hex_encode s) ≡ some s
unfolding hex_decode hex_encode
hex_decode-encode [] h = refl
hex_decode-encode (c ∷ s) (hc, hs) =
    rw (hex_val_digit (c / 16) (omega arith), hex_val_digit (c % 16) (omega arith))
      (rw (hex_decode-encode s hs) (ap (λ k. some (k ∷ s)) (omega arith)))

pub length-hex_encode : (s : Bytes) → length (hex_encode s) ≡ 2 * length s
unfolding hex_encode
length-hex_encode [] = refl
length-hex_encode (c ∷ s) = omega (arith, length-hex_encode s)

hexv-val : (c : ℕ) → hexv c ≡ hex_val c
unfolding hexv hex_val
hexv-val c = refl

pub hex_enc-encode : (s : Bytes) → hex_enc s ≡ hex_encode s
unfolding hex_enc hex_encode
hex_enc-encode [] = refl
hex_enc-encode (c ∷ s) = rw (hex_enc-encode s)

-- The decoder of the client and that of the server agree on every text.
pub hex_dec-decode : (s : Bytes) → hex_dec s ≡ hex_decode s
unfolding hex_dec hex_decode
hex_dec-decode [] = refl
hex_dec-decode (c ∷ []) = refl
hex_dec-decode (c ∷ d ∷ s) = rw (hex_dec-decode s, hexv-val)

hex_val_bound : (c : ℕ) {v : ℕ} → hex_val c ≡ some v → v < 16
unfolding hex_val
hex_val_bound c h = ground arith

-- What decodes has an even length, twice that of the result, and the result is bytes.
pub hex_decode_sound :
    (s : Bytes) {t : Bytes} → hex_decode s ≡ some t → (length s ≡ 2 * length t) × All IsByte t
unfolding hex_decode
hex_decode_sound [] h = rw (← some_inj h) (refl, tt)
hex_decode_sound (c ∷ []) h = cc
hex_decode_sound (c ∷ d ∷ s) {t} h =
    let (hi, e, h') = bind_some (hex_val c) _ h in
    let (lo, f, h'') = bind_some (hex_val d) _ h' in
    let (r, g, last) = bind_some (hex_decode s) _ h'' in
    let (even, bytes) = hex_decode_sound s g in
    let high = hex_val_bound c e in
    let low = hex_val_bound d f in
    subst (λ x. (length (c ∷ d ∷ s) ≡ 2 * length x) × All IsByte x) (some_inj last)
      (omega arith, (omega arith, bytes))
