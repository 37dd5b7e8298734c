-- ===== src/Descriptor/Trip.antt =====
-- What a descriptor says survives writing and parsing (src/mvxgit.c, desc_render_open, desc_parse
-- and desc_carry_open).
use mv_git.Base.{
  ℕ, zero, suc, ◌+◌, ◌-◌, ◌<◌, ◌^◌, List, [], ◌∷◌, ◌++◌, Option, none, some, ◌≡◌, refl, sym, ap,
  ◌∙◌, arith, length, All, take_all, append_assoc,
}
use mv_git.Bytes.{Bytes, codes, newline, c_str, clip}
use mv_git.Bytes.Split.{Lacks}
use mv_git.Control.{skip_gaps, trim_end, is_white}
use mv_git.Descriptor.{
  AcctDesc, blank_desc, parse_text, parse_line, parse_lines, desc_parse, or_word, or_one, optional,
  open_text, desc_render_open, desc_carry_open, fallback, named, carried_text,
}
use mv_git.Descriptor.Line.{
  IsValue, clear-Lacks, keyed_line, name_line, version_line, description_line, hash_line,
  flavour_line,
}
use mv_git.Descriptor.Policy.{read_on, read_line, ended, IsPolicyLine, read_policy}
use mv_git.Descriptor.Number.{number_line, number-Lacks}
use mv_git.Wire.{show}

-- A field that may be missing.
abbrev pub IsOptional : ℕ → Bytes → Type 0
IsOptional cap [] = Unit
IsOptional cap (c ∷ s) = IsValue cap (c ∷ s)

-- A line that is written only when the field is there, read into a record where it is blank.
read_optional :
    (key : Bytes) (cap : ℕ) (set : Bytes → AcctDesc) (v s : Bytes) (d : AcctDesc)
    → ((x : Bytes) → IsValue cap x → Lacks newline (key ++ x))
    → ((x : Bytes) → IsValue cap x → parse_line (key ++ x) d ≡ set x)
    → d ≡ set []
    → IsOptional cap v
    → read_on (optional key v ++ s) d ≡ read_on s (set v)
read_optional key cap set [] s d line field blank h = ap (read_on s) blank
read_optional key cap set (c ∷ v) s d line field blank h =
    let x = c ∷ v in
    let shape : (key ++ (x ++ newline ∷ [])) ++ s ≡ (key ++ x) ++ newline ∷ s =
      append_assoc key (x ++ newline ∷ []) s
      ∙ ap (λ t. key ++ t) (append_assoc x (newline ∷ []) s)
      ∙ sym (append_assoc key x (newline ∷ s)) in
    ap (λ t. read_on t d) shape ∙ read_line (key ++ x) s d (line x h) ∙ ap (read_on s) (field x h)

abbrev pub header : Bytes
header = codes "# .mv-account - open (portable) account descriptor"

header_line : parse_line header blank_desc ≡ blank_desc
unfolding parse_text skip_gaps c_str
header_line = refl

header-Lacks : Lacks newline header
header-Lacks = clear-Lacks newline header refl

-- The descriptors that the portable form can carry.
pub record IsPortable (d : AcctDesc) (policy : List Bytes) : Type 0 where
  pub name : IsOptional 128 d.name
  pub version : IsOptional 32 d.version
  pub description : IsOptional 256 d.description
  pub hash : IsOptional 32 d.hash
  pub flavour : IsOptional 32 d.flavour
  pub small : or_one d.openaccount < 10 ^ 9
  pub permits : d.permits ≡ ended policy
  pub lines : All IsPolicyLine policy
  pub fits : length (ended policy) < 2047

-- What is written where a field is missing.
abbrev pub filled : AcctDesc → AcctDesc
filled d = record d {
  name = or_word (codes "account") d.name;
  version = or_word (codes "1") d.version;
  openaccount = or_one d.openaccount;
}

or_word-IsValue :
    (cap : ℕ) (w v : Bytes) → IsValue cap w → IsOptional cap v → IsValue cap (or_word w v)
or_word-IsValue cap w [] h o = h
or_word-IsValue cap w (c ∷ s) h o = o

account-IsValue : IsValue 128 (codes "account")
unfolding skip_gaps trim_end is_white
account-IsValue = record {
  room = omega arith;
  one_line = clear-Lacks newline (codes "account") refl;
  text = clear-Lacks 0 (codes "account") refl;
  tight_front = refl;
  tight_end = refl;
}

one-IsValue : IsValue 32 (codes "1")
unfolding skip_gaps trim_end is_white
one-IsValue = record {
  room = omega arith;
  one_line = clear-Lacks newline (codes "1") refl;
  text = clear-Lacks 0 (codes "1") refl;
  tight_front = refl;
  tight_end = refl;
}

module _ (d : AcctDesc) (policy : List Bytes) (h : IsPortable d policy) where
  read_policies :
      (e : AcctDesc) → e.permits ≡ [] → read_on d.permits e ≡ record e { permits = d.permits }
  read_policies e blank =
      let fits = h.fits in
      let none_yet : length e.permits + length (ended policy) < 2047 = rw blank (omega arith) in
      ap (λ t. read_on t e) h.permits
      ∙ read_policy policy e h.lines none_yet
      ∙ ap (λ x. record e { permits = x ++ ended policy }) blank
      ∙ ap (λ x. record e { permits = x }) (sym h.permits)

  -- what is read before the optional fields
  abbrev begun : AcctDesc
  begun = record blank_desc {
    name = or_word (codes "account") d.name;
    version = or_word (codes "1") d.version;
    openaccount = or_one d.openaccount;
  }

  abbrev behind_hash : Bytes
  behind_hash =
      optional (codes "description = ") d.description
      ++ (optional (codes "flavour = ") d.flavour ++ d.permits)

  optional_fields : read_on (optional (codes "hash = ") d.hash ++ behind_hash) begun ≡ filled d
  optional_fields =
      let one = record begun { hash = d.hash } in
      let two = record one { description = d.description } in
      let three = record two { flavour = d.flavour } in
      read_optional (codes "hash = ") 32 (λ x. record begun { hash = x }) d.hash behind_hash begun
        (λ x v. keyed_line (codes "hash = ") x 32 v refl) (λ x v. hash_line x begun v) refl h.hash
      ∙ read_optional (codes "description = ") 256 (λ x. record one { description = x })
          d.description (optional (codes "flavour = ") d.flavour ++ d.permits) one
          (λ x v. keyed_line (codes "description = ") x 256 v refl)
          (λ x v. description_line x one v) refl h.description
      ∙ read_optional (codes "flavour = ") 32 (λ x. record two { flavour = x }) d.flavour d.permits
          two (λ x v. keyed_line (codes "flavour = ") x 32 v refl) (λ x v. flavour_line x two v)
          refl h.flavour
      ∙ read_policies three refl

  open_text_read : read_on (open_text d) blank_desc ≡ filled d
  unfolding open_text
  open_text_read =
      let n = or_word (codes "account") d.name in
      let v = or_word (codes "1") d.version in
      let o = or_one d.openaccount in
      let rest = optional (codes "hash = ") d.hash ++ behind_hash in
      let named : IsValue 128 n =
        or_word-IsValue 128 (codes "account") d.name account-IsValue h.name in
      let dated : IsValue 32 v = or_word-IsValue 32 (codes "1") d.version one-IsValue h.version in
      let one = record blank_desc { name = n } in
      let two = record one { version = v } in
      let numbered = codes "openaccount = " ++ (show o ++ newline ∷ rest) in
      let versioned = codes "version = " ++ (v ++ newline ∷ numbered) in
      read_line header (codes "name = " ++ (n ++ newline ∷ versioned)) blank_desc header-Lacks
      ∙ ap (read_on (codes "name = " ++ (n ++ newline ∷ versioned))) header_line
      ∙ read_line (codes "name = " ++ n) versioned blank_desc
          (keyed_line (codes "name = ") n 128 named refl)
      ∙ ap (read_on versioned) (name_line n blank_desc named)
      ∙ read_line (codes "version = " ++ v) numbered one
          (keyed_line (codes "version = ") v 32 dated refl)
      ∙ ap (read_on numbered) (version_line v one dated)
      ∙ read_line (codes "openaccount = " ++ show o) rest two (number-Lacks o h.small)
      ∙ ap (read_on rest) (number_line o two h.small)
      ∙ optional_fields

  or_word-or_word : (c : ℕ) (w v : Bytes) → or_word (c ∷ w) (or_word (c ∷ w) v) ≡ or_word (c ∷ w) v
  or_word-or_word c w [] = refl
  or_word-or_word c w (x ∷ s) = refl

  or_one-or_one : (n : ℕ) → or_one (or_one n) ≡ or_one n
  or_one-or_one zero = refl
  or_one-or_one (suc n) = refl

  open_text-filled : open_text (filled d) ≡ open_text d
  unfolding open_text
  open_text-filled =
      rw
        (
          or_word-or_word b'a' (codes "ccount") d.name,
          or_word-or_word b'1' [] d.version,
          or_one-or_one d.openaccount,
        )
        refl

  -- A descriptor that is written in the portable form and parsed again says what it said: every
  -- field that was there, the vendor's policy line by line, and the words that are written where
  -- the name, the version or the open-form number was missing. Provided that the buffer holds the
  -- text; that each field is empty or a value that its own buffer holds, with no newline and no NUL
  -- in it and no blank at either end; that the number is below 10^9; and that the policy is lines of
  -- permits, each below 512 bytes, of the same make, and below 2047 bytes together.
  pub desc_parse-desc_render_open :
      (cap : ℕ) → length (open_text d) < cap → desc_parse (desc_render_open cap d) ≡ filled d
  unfolding desc_parse desc_render_open parse_lines read_on
  desc_parse-desc_render_open cap room =
      ap (λ t. read_on t blank_desc) (take_all (cap - 1) (open_text d) (omega arith))
      ∙ open_text_read

  fallback-or_word :
      (base : Bytes) (c : ℕ) (w v : Bytes) → fallback base (or_word (c ∷ w) v) ≡ or_word (c ∷ w) v
  fallback-or_word base c w [] = refl
  fallback-or_word base c w (x ∷ s) = refl

  named-filled : (base : Bytes) → or_one d.openaccount ≡ 1 → named base (filled d) ≡ filled d
  named-filled base form =
      ap (λ n. record (filled d) { name = n; openaccount = 1 })
        (fallback-or_word base b'a' (codes "ccount") d.name)
      ∙ ap (λ k. record (filled d) { openaccount = k }) (sym form)

  carried_again :
      (cap : ℕ) (base : Bytes)
      → length (open_text d) < cap
      → or_one d.openaccount ≡ 1
      → carried_text base cap (some (desc_render_open cap d)) ≡ some (desc_render_open cap d)
  unfolding desc_render_open
  carried_again cap base room form =
      ap (λ e. some (desc_render_open cap (named base e))) (desc_parse-desc_render_open cap room)
      ∙ ap (λ e. some (desc_render_open cap e)) (named-filled base form)
      ∙ ap (λ t. some (clip cap t)) open_text-filled

  -- An add that finds a descriptor that was written in the portable form stages the same text again,
  -- whether it is staged or only committed. Provided that the form's number is 1; that the buffer
  -- holds the text; that each field is empty or a value that its own buffer holds, with no newline
  -- and no NUL in it and no blank at either end; and that the policy is lines of permits, each below
  -- 512 bytes, of the same make, and below 2047 bytes together.
  pub desc_carry_open-desc_render_open :
      (cap : ℕ) (base : Bytes) (committed : Option Bytes)
      → length (open_text d) < cap
      → or_one d.openaccount ≡ 1
      → (desc_carry_open (some (desc_render_open cap d)) committed base cap
          ≡ some (desc_render_open cap d))
        × (desc_carry_open none (some (desc_render_open cap d)) base cap
            ≡ some (desc_render_open cap d))
  unfolding desc_carry_open
  desc_carry_open-desc_render_open cap base committed room form =
      (carried_again cap base room form, carried_again cap base room form)
