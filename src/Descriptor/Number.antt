-- ===== src/Descriptor/Number.antt =====
-- The number in a descriptor (src/mvxgit.c, desc_parse and desc_render_open): it is read back.
use mv_git.Base.{ℕ, ◌<◌, ◌^◌, true, false, [], ◌∷◌, ◌++◌, ◌≡◌, refl, ap, ◌∙◌, arith}
use mv_git.Bytes.{Bytes, codes, newline, case_eq, to_lower, starts_with}
use mv_git.Bytes.Split.{Lacks}
use mv_git.Conn.{after_eq}
use mv_git.Control.{skip_gaps, trim_end, is_white, keep_dark}
use mv_git.Descriptor.{AcctDesc, set_field, is_permit, parse_text, parse_line, form_number}
use mv_git.Descriptor.Line.{IsValue, keyed, keyed_line}
use mv_git.Exchange.Reply.{leading-value}
use mv_git.Furniture.{upto}
use mv_git.Session.{atoi, atoi_digits}
use mv_git.Wire.{show, all_digits, is_digit}
use mv_git.Wire.Number.{value-show, digits-show, length-show}

digits-Lacks : (b : ℕ) (s : Bytes) → is_digit b ≡ false → all_digits s ≡ true → Lacks b s
unfolding all_digits
digits-Lacks b [] h k = tt
digits-Lacks b (c ∷ s) h k =
    let more : all_digits s ≡ true = ground (arith, k) in
    (ground (arith, h, k), digits-Lacks b s h more)

digits_front : (s : Bytes) → all_digits s ≡ true → skip_gaps s ≡ s
unfolding all_digits skip_gaps
digits_front [] h = refl
digits_front (c ∷ s) h = ground (arith, h)

digit_dark : (c : ℕ) → is_digit c ≡ true → is_white c ≡ false
unfolding is_white
digit_dark c h = ground (arith, h)

dark_kept : (c : ℕ) (r : Bytes) → is_white c ≡ false → keep_dark c r ≡ c ∷ r
dark_kept c [] h = rw h refl
dark_kept c (d ∷ r) h = refl

digits_end : (s : Bytes) → all_digits s ≡ true → trim_end s ≡ s
unfolding all_digits trim_end
digits_end [] h = refl
digits_end (c ∷ s) h =
    let more : all_digits s ≡ true = ground (arith, h) in
    let digit : is_digit c ≡ true = ground (arith, h) in
    dark_kept c (trim_end s) (digit_dark c digit) ∙ ap (λ r. c ∷ r) (digits_end s more)

show-IsValue : (n : ℕ) → n < 10 ^ 9 → IsValue 32 (show n)
show-IsValue n small =
    let digits = digits-show n in
    let size = length-show n 9 (omega arith) small in
    record {
      room = omega (arith, size);
      one_line = digits-Lacks newline (show n) (ground arith) digits;
      text = digits-Lacks 0 (show n) (ground arith) digits;
      tight_front = digits_front (show n) digits;
      tight_end = digits_end (show n) digits;
    }

number_text :
    (v : Bytes) (d : AcctDesc)
    → parse_text (skip_gaps (codes "openaccount = " ++ v)) d
      ≡ record d { openaccount = form_number (atoi (trim_end (skip_gaps (b' ' ∷ v)))) }
unfolding parse_text skip_gaps is_permit starts_with set_field case_eq to_lower upto after_eq
    trim_end is_white
number_text v d = refl

number_read : (n : ℕ) → n < 10 ^ 9 → form_number (atoi (trim_end (skip_gaps (b' ' ∷ show n)))) ≡ n
unfolding skip_gaps
number_read n small =
    let h = show-IsValue n small in
    rw (h.tight_front, h.tight_end)
      (ap form_number (atoi_digits (show n) (digits-show n))
        ∙ leading-value (show n) 0 (digits-show n)
        ∙ value-show n)

-- The number of the open form, as it is written.
pub number_line :
    (n : ℕ) (d : AcctDesc)
    → n < 10 ^ 9
    → parse_line (codes "openaccount = " ++ show n) d ≡ record d { openaccount = n }
number_line n d small =
    keyed (codes "openaccount = ") (show n) 32 d (show-IsValue n small) (omega arith) (omega arith)
      refl
    ∙ number_text (show n) d
    ∙ ap (λ x. record d { openaccount = x }) (number_read n small)

pub number-Lacks : (n : ℕ) → n < 10 ^ 9 → Lacks newline (codes "openaccount = " ++ show n)
number-Lacks n small = keyed_line (codes "openaccount = ") (show n) 32 (show-IsValue n small) refl
