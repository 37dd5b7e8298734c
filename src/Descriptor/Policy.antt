-- ===== src/Descriptor/Policy.antt =====
-- The lines of a descriptor one by one, and the vendor's policy (src/mvxgit.c, desc_parse).
use mv_git.Base.{
  ℕ, ◌+◌, ◌<◌, true, false, List, [], ◌∷◌, ◌++◌, ◌≡◌, refl, sym, ap, ◌∙◌, arith, lt→ltb, ◌==◌,
  length, All, length-append, append_assoc, append-nil,
}
use mv_git.Bytes.{Bytes, newline, starts_with, c_str}
use mv_git.Bytes.Split.{split, split-append, Lacks}
use mv_git.Control.{skip_gaps, trim_end}
use mv_git.Descriptor.{AcctDesc, add_permit, is_permit, parse_text, parse_line, parse_lines}
use mv_git.Descriptor.Line.{parse_line-short}

-- Parsing what is left of a text, from a line's beginning.
unfoldable pub read_on : Bytes → AcctDesc → AcctDesc
read_on s d = parse_lines (split newline s) d

pub read_line :
    (line s : Bytes) (d : AcctDesc)
    → Lacks newline line
    → read_on (line ++ newline ∷ s) d ≡ read_on s (parse_line line d)
unfolding read_on parse_lines
read_line line s d h = rw (split-append newline line s h) refl

pub read_end : (d : AcctDesc) → read_on [] d ≡ d
unfolding read_on parse_lines split c_str skip_gaps parse_text
read_end d = refl

-- The vendor's policy: lines, each with its newline.
abbrev pub ended : List Bytes → Bytes
ended [] = []
ended (l ∷ ls) = l ++ newline ∷ ended ls

pub record IsPolicyLine (p : Bytes) : Type 0 where
  pub is_policy : is_permit p ≡ true
  pub short : length p < 512
  pub one_line : Lacks newline p
  pub text : Lacks 0 p
  pub tight_front : skip_gaps p ≡ p
  pub tight_end : trim_end p ≡ p

no_comment : (c : ℕ) (s : Bytes) → is_permit (c ∷ s) ≡ true → (c == b'#') ≡ false
unfolding is_permit starts_with
no_comment c s h = ground (arith, h)

nothing : is_permit [] ≡ true → ⊥
unfolding is_permit starts_with
nothing h = cc

permit_text :
    (p : Bytes) (d : AcctDesc) → is_permit p ≡ true → parse_text p d ≡ add_permit (trim_end p) d
unfolding parse_text
permit_text [] d h = absurd (nothing h)
permit_text (c ∷ s) d h = rw (no_comment c s h, h) refl

permit_line : (p : Bytes) (d : AcctDesc) → IsPolicyLine p → parse_line p d ≡ add_permit p d
permit_line p d h =
    parse_line-short p d h.short h.text
    ∙ ap (λ l. parse_text l d) h.tight_front
    ∙ permit_text p d h.is_policy
    ∙ ap (λ l. add_permit l d) h.tight_end

added :
    (p : Bytes) (d : AcctDesc)
    → length d.permits + (length p + 2) < 2048
    → add_permit p d ≡ record d { permits = d.permits ++ (p ++ newline ∷ []) }
unfolding add_permit
added p d h = rw (lt→ltb (length d.permits + (length p + 2)) 2048 h) refl

-- All policy lines are kept, in order, while they fit the buffer.
pub read_policy :
    (ps : List Bytes) (d : AcctDesc)
    → All IsPolicyLine ps
    → length d.permits + length (ended ps) < 2047
    → read_on (ended ps) d ≡ record d { permits = d.permits ++ ended ps }
read_policy [] d h fits =
    read_end d ∙ ap (λ x. record d { permits = x }) (sym (append-nil d.permits))
read_policy (p ∷ ps) d (h, hs) fits =
    let rest = ended ps in
    let size = length-append p (newline ∷ rest) in
    let kept = d.permits ++ (p ++ newline ∷ []) in
    let kept_size = length-append d.permits (p ++ newline ∷ []) in
    let line_size = length-append p (newline ∷ []) in
    let same : kept ++ rest ≡ d.permits ++ (p ++ newline ∷ rest) =
      append_assoc d.permits (p ++ newline ∷ []) rest
      ∙ ap (λ x. d.permits ++ x) (append_assoc p (newline ∷ []) rest) in
    read_line p rest d h.one_line
    ∙ ap (read_on rest) (permit_line p d h ∙ added p d (omega (arith, fits, size)))
    ∙ read_policy ps (record d { permits = kept }) hs
        (omega (arith, fits, size, kept_size, line_size))
    ∙ ap (λ x. record d { permits = x }) same
