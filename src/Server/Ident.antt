-- ===== src/Server/Ident.antt =====
-- The pid file (src/gitd.c): a command reads in it the pid and the build that the server wrote.
use mv_git.Base.{
  ℕ, ◌≤◌, true, false, [], ◌∷◌, ◌++◌, ◌≡◌, ◌≢◌, refl, ap, ◌∙◌, arith, length, All, take_all,
}
use mv_git.Bytes.{Bytes, newline}
use mv_git.Exchange.Reply.{leading-value}
use mv_git.Server.{ident_line, word, skip_number, starts_number, read_pid, server_build}
use mv_git.Server.Greet.{leading_stop, show-ne-nil}
use mv_git.Session.{leading, skip_space, is_space}
use mv_git.Wire.{show, all_digits, is_digit}
use mv_git.Wire.Number.{value-show, digits-show}

-- digits begin no space
skip_space_digits : (s t : Bytes) → s ≢ [] → all_digits s ≡ true → skip_space (s ++ t) ≡ s ++ t
unfolding skip_space all_digits
skip_space_digits [] t ne h = absurd (ne refl)
skip_space_digits (c ∷ s) t ne h = ground arith

starts_digits : (s t : Bytes) → s ≢ [] → all_digits s ≡ true → starts_number (s ++ t) ≡ true
unfolding all_digits
starts_digits [] t ne h = absurd (ne refl)
starts_digits (c ∷ s) t ne h = ground arith

skip_digits_blank : (s t : Bytes) → all_digits s ≡ true → skip_number (s ++ b' ' ∷ t) ≡ b' ' ∷ t
unfolding skip_number all_digits
skip_digits_blank [] t h = refl
skip_digits_blank (c ∷ s) t h =
    let d : is_digit c ≡ true = ground arith in
    let k : all_digits s ≡ true = ground arith in rw (d, skip_digits_blank s t k) refl

abbrev pub IsWord : Bytes → Type 0
IsWord = All (λ c. is_space c ≡ false)

word_line : (s : Bytes) → IsWord s → word (s ++ newline ∷ []) ≡ s
unfolding word
word_line [] h = refl
word_line (c ∷ s) (hc, h) = rw (hc, word_line s h) refl

skip_to_word : (s t : Bytes) → s ≢ [] → IsWord s → skip_space (b' ' ∷ (s ++ t)) ≡ s ++ t
unfolding skip_space
skip_to_word [] t ne h = absurd (ne refl)
skip_to_word (c ∷ s) t ne (hc, h) = rw hc refl

-- A command that reads the pid file of a server has its pid, by which it stops it, and its build, by
-- which it tells whether the server is its own; for a build of 1 to 127 bytes with no white space.
pub server_build-ident_line :
    (pid : ℕ) (ident : Bytes)
    → ident ≢ []
    → IsWord ident
    → length ident ≤ 127
    → (read_pid (ident_line pid ident) ≡ pid) × (server_build (ident_line pid ident) ≡ ident)
unfolding ident_line read_pid server_build
server_build-ident_line pid ident ne h l =
    let d = digits-show pid in
    let s = show-ne-nil pid in
    let behind = ident ++ newline ∷ [] in
    (
      ap (leading 0) (skip_space_digits (show pid) (b' ' ∷ behind) s d)
          ∙ leading_stop 0 (show pid) behind
          ∙ leading-value (show pid) 0 d
          ∙ value-show pid,
      rw
          (
            skip_space_digits (show pid) (b' ' ∷ behind) s d,
            starts_digits (show pid) (b' ' ∷ behind) s d,
            skip_digits_blank (show pid) behind d,
            skip_to_word ident (newline ∷ []) ne h,
            word_line ident h,
          )
          (take_all 127 ident l),
    )
