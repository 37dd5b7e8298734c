-- ===== src/Virtual/Names.antt =====
-- The names in an expression (src/mvxgit.c): a name is copied as it is, quoting and unquoting it
-- changes nothing, and a printed expression fits its buffer.
use mv_git.Base.{
  ℕ, suc, ◌+◌, ◌-◌, ◌<◌, ◌≤◌, Bool, true, false, ◌&&◌, [], ◌∷◌, ◌++◌, ◌≡◌, ◌≢◌, refl, arith, length,
  All, length-append, take_all, take-length_append,
}
use mv_git.Bytes.{Bytes, codes, clip, case_starts, to_lower}
use mv_git.Bytes.Split.{Lacks}
use mv_git.Record.{rtrim}
use mv_git.Virtual.{copy_arg, skip_blanks, unquote, unquote_with, quoted, quote_mark, trans_word}
use mv_git.Virtual.Split.{last_end}
use mv_git.Virtual.Whole.{IsPlain}

abbrev pub IsNameByte : ℕ → Type 0
IsNameByte c = IsPlain c × (c ≢ b' ')

-- A name of at most `n` bytes, with no blank and no byte that means something in an expression.
abbrev pub IsName : ℕ → Bytes → Type 0
IsName n s = All IsNameByte s × (0 < length s) × (length s ≤ n)

rtrim_same : (s : Bytes) → All (λ c. c ≢ b' ') s → rtrim b' ' s ≡ s
unfolding rtrim
rtrim_same [] h = refl
rtrim_same (c ∷ []) (hc, h) = ground arith
rtrim_same (c ∷ d ∷ s) (hc, h) = rw (rtrim_same (d ∷ s) h) refl

skip_same : (c : ℕ) (s : Bytes) → c ≢ b' ' → skip_blanks (c ∷ s) ≡ c ∷ s
unfolding skip_blanks
skip_same c s h = ground arith

All-no_blank : (s : Bytes) → All IsNameByte s → All (λ c. c ≢ b' ') s
All-no_blank [] h = tt
All-no_blank (c ∷ s) (hc, h) = (hc.1, All-no_blank s h)

pub All-IsPlain : (s : Bytes) → All IsNameByte s → All IsPlain s
All-IsPlain [] h = tt
All-IsPlain (c ∷ s) (hc, h) = (hc.0, All-IsPlain s h)

pub All-unquoted : (s : Bytes) → All IsNameByte s → Lacks quote_mark s
All-unquoted [] h = tt
All-unquoted (c ∷ s) (hc, h) = (hc.0.0, All-unquoted s h)

pub clip_name : (n : ℕ) (s : Bytes) → length s < n → clip n s ≡ s
clip_name n s h = take_all (n - 1) s (omega arith)

pub copy_arg-IsName : (s : Bytes) → IsName 255 s → copy_arg s ≡ s
unfolding copy_arg
copy_arg-IsName [] (h, p, l) = absurd (omega arith)
copy_arg-IsName (c ∷ s) (h, p, l) =
    rw (skip_same c s h.0.1, rtrim_same (c ∷ s) (All-no_blank (c ∷ s) h))
      (clip_name 256 (c ∷ s) (omega arith))

rtrim_end : (s : Bytes) (c : ℕ) → c ≢ b' ' → rtrim b' ' (s ++ c ∷ []) ≡ s ++ c ∷ []
unfolding rtrim
rtrim_end [] c h = ground arith
rtrim_end (x ∷ []) c h = rw (rtrim_end [] c h) refl
rtrim_end (x ∷ y ∷ s) c h = rw (rtrim_end (y ∷ s) c h) refl

pub length-quoted : (s : Bytes) → length (quoted s) ≡ 2 + length s
length-quoted s = omega (arith, length-append s (quote_mark ∷ []))

pub copy_arg-quoted : (s : Bytes) → length s ≤ 253 → copy_arg (quoted s) ≡ quoted s
unfolding copy_arg
copy_arg-quoted s l =
    rw
      (
        skip_same quote_mark (s ++ quote_mark ∷ []) (omega arith),
        rtrim_end (quote_mark ∷ s) quote_mark (omega arith),
      )
      (clip_name 256 (quoted s) (omega (arith, length-quoted s)))

unquote_plain : (q : ℕ) (s : Bytes) → IsNameByte q → unquote_with q s ≡ q ∷ s
unquote_plain q s h = ground arith

pub unquote-IsName : (s : Bytes) → All IsNameByte s → unquote s ≡ s
unfolding unquote
unquote-IsName [] h = refl
unquote-IsName (c ∷ []) h = refl
unquote-IsName (c ∷ d ∷ s) (hc, h) = unquote_plain c (d ∷ s) hc

pub unquote-quoted : (s : Bytes) → 0 < length s → unquote (quoted s) ≡ s
unfolding unquote
unquote-quoted [] h = absurd (omega arith)
unquote-quoted (c ∷ s) h =
    let e : suc (length (s ++ quote_mark ∷ [])) - 1 ≡ suc (length s) =
      omega (arith, length-append s (quote_mark ∷ [])) in
    rw (last_end (quote_mark ∷ c ∷ s) quote_mark, e) (take-length_append (c ∷ s) (quote_mark ∷ []))

starts_bracket : (c : ℕ) (s : Bytes) → c ≢ b'(' → case_starts (b'(' ∷ []) (c ∷ s) ≡ false
unfolding case_starts to_lower
starts_bracket c s h = ground arith

and_false : (b : Bool) → (b && false) ≡ false
and_false true = refl
and_false false = refl

no_bracket : (p s : Bytes) → All IsNameByte s → case_starts (p ++ b'(' ∷ []) s ≡ false
unfolding case_starts
no_bracket [] [] h = refl
no_bracket [] (c ∷ s) (hc, h) = starts_bracket c s hc.0.2
no_bracket (x ∷ p) [] h = refl
no_bracket (x ∷ p) (c ∷ s) (hc, h) = rw (no_bracket p s h) (and_false _)

-- A name is not itself an expression.
pub not_trans : (s : Bytes) → All IsNameByte s → case_starts trans_word s ≡ false
not_trans s h = no_bracket (codes "TRANS") s h
