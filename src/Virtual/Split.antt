-- ===== src/Virtual/Split.antt =====
-- trans_split (src/mvxgit.c) on a printed TRANS: an argument may hold quoted texts and brackets,
-- and so another TRANS, and comes back whole.
use mv_git.Base.{
  ℕ, ◌+◌, ◌-◌, true, false, [], ◌∷◌, ◌++◌, map, ◌≡◌, ◌<◌, refl, sym, ap, ◌∙◌, arith, ltb, length,
  take, drop, get_or, append-nil, append_assoc, length-append, take-length_append, ==_refl,
}
use mv_git.Bytes.{Bytes, case_starts, to_lower}
use mv_git.Control.{is_gap, skip_gaps}
use mv_git.Virtual.Whole.{Whole, Whole-texts}
use mv_git.Virtual.{
  pos, Scan, outside, scan_byte, ends_arg, arg_texts, copy_arg, drop_gaps, last_is, trans_split,
  trans_word, print_trans,
}

abbrev top : Scan
top = outside (pos 0)

comma_texts : (s : Bytes) → arg_texts top (b',' ∷ s) ≡ [] ∷ arg_texts top s
unfolding arg_texts ends_arg scan_byte
comma_texts s = refl

arg_then :
    {p : Bytes} → Whole 0 p → (s : Bytes) → arg_texts top (p ++ b',' ∷ s) ≡ p ∷ arg_texts top s
arg_then {p} w s = Whole-texts w (b',' ∷ s) ∙ rw (comma_texts s, append-nil) refl

last_arg : {p : Bytes} → Whole 0 p → arg_texts top p ≡ p ∷ []
unfolding arg_texts
last_arg {p} w = ap (arg_texts top) (sym (append-nil p)) ∙ Whole-texts w [] ∙ rw append-nil refl

abbrev inner : Bytes → Bytes → Bytes → Bytes → Bytes
inner a b c d = a ++ b',' ∷ (b ++ b',' ∷ (c ++ b',' ∷ d))

inner_texts :
    {a b c d : Bytes}
    → Whole 0 a
    → Whole 0 b
    → Whole 0 c
    → Whole 0 d
    → arg_texts top (inner a b c d) ≡ a ∷ b ∷ c ∷ d ∷ []
inner_texts {a} {b} {c} {d} wa wb wc wd =
    rw
      (
        arg_then wa (b ++ b',' ∷ (c ++ b',' ∷ d)),
        arg_then wb (c ++ b',' ∷ d),
        arg_then wc d,
        last_arg wd,
      )
      refl

drop_gaps_end : (s : Bytes) (c : ℕ) → is_gap c ≡ false → drop_gaps (s ++ c ∷ []) ≡ s ++ c ∷ []
unfolding drop_gaps
drop_gaps_end [] c h = rw h refl
drop_gaps_end (x ∷ []) c h = rw (drop_gaps_end [] c h) refl
drop_gaps_end (x ∷ y ∷ s) c h = rw (drop_gaps_end (y ∷ s) c h) refl

get_or_end : (s : Bytes) (c : ℕ) → get_or (s ++ c ∷ []) (length s) 0 ≡ c
get_or_end [] c = refl
get_or_end (x ∷ s) c = get_or_end s c

pub last_end : (s : Bytes) (c : ℕ) → last_is c (s ++ c ∷ []) ≡ true
last_end s c =
    let e : length (s ++ c ∷ []) - 1 ≡ length s = omega (arith, length-append s (c ∷ [])) in
    rw (e, get_or_end s c, ==_refl c) refl

in_brackets : Bytes → Bytes
in_brackets s = trans_word ++ (s ++ b')' ∷ [])

in_brackets-length : (s : Bytes) → length (in_brackets s) ≡ 7 + length s
unfolding in_brackets
in_brackets-length s = omega (arith, length-append s (b')' ∷ []))

behind_word : (s : Bytes) → drop 6 (in_brackets s) ≡ s ++ b')' ∷ []
unfolding in_brackets
behind_word s = refl

inside : (s : Bytes) → take (length (in_brackets s) - 7) (drop 6 (in_brackets s)) ≡ s
inside s =
    let e : length (in_brackets s) - 7 ≡ length s = omega (arith, in_brackets-length s) in
    rw (e, behind_word s) (take-length_append s _)

no_gaps : (s : Bytes) → drop_gaps (skip_gaps (in_brackets s)) ≡ in_brackets s
unfolding in_brackets skip_gaps
no_gaps s = drop_gaps_end (trans_word ++ s) b')' refl

starts_well : (s : Bytes) → case_starts trans_word (in_brackets s) ≡ true
unfolding in_brackets case_starts to_lower
starts_well s = refl

ends_well : (s : Bytes) → last_is b')' (in_brackets s) ≡ true
unfolding in_brackets
ends_well s = last_end (trans_word ++ s) b')'

long_enough : (s : Bytes) → 0 < length s → ltb (length (in_brackets s)) 8 ≡ false
long_enough s h = ground (arith, in_brackets-length s)

-- A text between `TRANS(` and `)` is cut into its arguments.
trans_split_text :
    (s : Bytes) → 0 < length s → trans_split (in_brackets s) ≡ map copy_arg (arg_texts top s)
unfolding trans_split
trans_split_text s h = rw (no_gaps s, long_enough s h, starts_well s, ends_well s, inside s) refl

in_brackets-inner : (a b c d : Bytes) → print_trans a b c d ≡ in_brackets (inner a b c d)
unfolding in_brackets
in_brackets-inner a b c d = simp (append_assoc)

inner_long : (a b c d : Bytes) → 0 < length (inner a b c d)
inner_long [] b c d = omega arith
inner_long (x ∷ a) b c d = omega arith

-- A printed TRANS is cut into its four arguments, where no argument has a comma outside of brackets
-- and quotes and each closes the brackets and the quotes that it opens. Each argument comes back as
-- it was but for the blanks around it and for what exceeds 255 bytes.
pub trans_split-print_trans :
    (a b c d : Bytes)
    → Whole 0 a
    → Whole 0 b
    → Whole 0 c
    → Whole 0 d
    → trans_split (print_trans a b c d) ≡ copy_arg a ∷ copy_arg b ∷ copy_arg c ∷ copy_arg d ∷ []
trans_split-print_trans a b c d wa wb wc wd =
    ap trans_split (in_brackets-inner a b c d)
    ∙ trans_split_text (inner a b c d) (inner_long a b c d)
    ∙ ap (map copy_arg) (inner_texts wa wb wc wd)
