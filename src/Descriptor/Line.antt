-- ===== src/Descriptor/Line.antt =====
-- One line of a descriptor (src/mvxgit.c, desc_parse): a field that is written is read back.
use mv_git.Base.{
  ℕ, ◌-◌, ◌≤◌, ◌<◌, Bool, true, not, ◌&&◌, [], ◌∷◌, ◌++◌, ◌≡◌, ◌≢◌, refl, ap, ◌∙◌, arith, ◌==◌,
  length, All-append, take_all, length-append,
}
use mv_git.Bytes.{Bytes, codes, newline, case_eq, to_lower, starts_with, c_str, clip}
use mv_git.Bytes.Split.{Lacks}
use mv_git.Control.{skip_gaps, trim_end, is_white}
use mv_git.Conn.{after_eq}
use mv_git.Exchange.Fields.{c_str_whole}
use mv_git.Furniture.{upto}
use mv_git.Descriptor.{AcctDesc, set_field, is_permit, parse_text, parse_line}

-- A value that a field of `cap` bytes can hold and a line can carry.
pub record IsValue (cap : ℕ) (v : Bytes) : Type 0 where
  pub room : length v < cap
  pub one_line : Lacks newline v
  pub text : Lacks 0 v
  pub tight_front : skip_gaps v ≡ v
  pub tight_end : trim_end v ≡ v

-- A test for the bytes of a literal.
abbrev pub clear : ℕ → Bytes → Bool
clear b [] = true
clear b (c ∷ s) = not (c == b) && clear b s

pub clear-Lacks : (b : ℕ) (s : Bytes) → clear b s ≡ true → Lacks b s
clear-Lacks b [] h = tt
clear-Lacks b (c ∷ s) h =
    let more : clear b s ≡ true = ground (arith, h) in (ground (arith, h), clear-Lacks b s more)

-- A line that its buffer holds is read whole.
pub parse_line-short :
    (line : Bytes) (d : AcctDesc)
    → length line < 512
    → Lacks 0 line
    → parse_line line d ≡ parse_text (skip_gaps line) d
parse_line-short line d short text =
    ap (λ l. parse_text (skip_gaps (c_str l)) d) (take_all 511 line (omega arith))
    ∙ ap (λ l. parse_text (skip_gaps l) d) (c_str_whole line text)

value_read : (cap : ℕ) (v : Bytes) → IsValue cap v → clip cap (trim_end (skip_gaps (b' ' ∷ v))) ≡ v
unfolding skip_gaps
value_read cap v h =
    let room = h.room in rw (h.tight_front, h.tight_end) (take_all (cap - 1) v (omega arith))

-- A key with its equals sign in front of a value.
pub keyed :
    (key v : Bytes) (cap : ℕ) (d : AcctDesc)
    → IsValue cap v
    → cap ≤ 256
    → length key < 256
    → clear 0 key ≡ true
    → parse_line (key ++ v) d ≡ parse_text (skip_gaps (key ++ v)) d
keyed key v cap d h small short text =
    let room = h.room in
    parse_line-short (key ++ v) d (omega (arith, length-append key v))
      (All-append (λ c. c ≢ 0) key v (clear-Lacks 0 key text) h.text)

pub keyed_line :
    (key v : Bytes) (cap : ℕ) → IsValue cap v → clear newline key ≡ true → Lacks newline (key ++ v)
keyed_line key v cap h text =
    All-append (λ c. c ≢ newline) key v (clear-Lacks newline key text) h.one_line

name_text :
    (v : Bytes) (d : AcctDesc)
    → parse_text (skip_gaps (codes "name = " ++ v)) d
      ≡ record d { name = clip 128 (trim_end (skip_gaps (b' ' ∷ v))) }
unfolding parse_text skip_gaps is_permit starts_with set_field case_eq to_lower upto after_eq
    trim_end is_white
name_text v d = refl

pub name_line :
    (v : Bytes) (d : AcctDesc)
    → IsValue 128 v
    → parse_line (codes "name = " ++ v) d ≡ record d { name = v }
name_line v d h =
    keyed (codes "name = ") v 128 d h (omega arith) (omega arith) refl
    ∙ name_text v d
    ∙ ap (λ x. record d { name = x }) (value_read 128 v h)

version_text :
    (v : Bytes) (d : AcctDesc)
    → parse_text (skip_gaps (codes "version = " ++ v)) d
      ≡ record d { version = clip 32 (trim_end (skip_gaps (b' ' ∷ v))) }
unfolding parse_text skip_gaps is_permit starts_with set_field case_eq to_lower upto after_eq
    trim_end is_white
version_text v d = refl

pub version_line :
    (v : Bytes) (d : AcctDesc)
    → IsValue 32 v
    → parse_line (codes "version = " ++ v) d ≡ record d { version = v }
version_line v d h =
    keyed (codes "version = ") v 32 d h (omega arith) (omega arith) refl
    ∙ version_text v d
    ∙ ap (λ x. record d { version = x }) (value_read 32 v h)

description_text :
    (v : Bytes) (d : AcctDesc)
    → parse_text (skip_gaps (codes "description = " ++ v)) d
      ≡ record d { description = clip 256 (trim_end (skip_gaps (b' ' ∷ v))) }
unfolding parse_text skip_gaps is_permit starts_with set_field case_eq to_lower upto after_eq
    trim_end is_white
description_text v d = refl

pub description_line :
    (v : Bytes) (d : AcctDesc)
    → IsValue 256 v
    → parse_line (codes "description = " ++ v) d ≡ record d { description = v }
description_line v d h =
    keyed (codes "description = ") v 256 d h (omega arith) (omega arith) refl
    ∙ description_text v d
    ∙ ap (λ x. record d { description = x }) (value_read 256 v h)

hash_text :
    (v : Bytes) (d : AcctDesc)
    → parse_text (skip_gaps (codes "hash = " ++ v)) d
      ≡ record d { hash = clip 32 (trim_end (skip_gaps (b' ' ∷ v))) }
unfolding parse_text skip_gaps is_permit starts_with set_field case_eq to_lower upto after_eq
    trim_end is_white
hash_text v d = refl

pub hash_line :
    (v : Bytes) (d : AcctDesc)
    → IsValue 32 v
    → parse_line (codes "hash = " ++ v) d ≡ record d { hash = v }
hash_line v d h =
    keyed (codes "hash = ") v 32 d h (omega arith) (omega arith) refl
    ∙ hash_text v d
    ∙ ap (λ x. record d { hash = x }) (value_read 32 v h)

flavour_text :
    (v : Bytes) (d : AcctDesc)
    → parse_text (skip_gaps (codes "flavour = " ++ v)) d
      ≡ record d { flavour = clip 32 (trim_end (skip_gaps (b' ' ∷ v))) }
unfolding parse_text skip_gaps is_permit starts_with set_field case_eq to_lower upto after_eq
    trim_end is_white
flavour_text v d = refl

pub flavour_line :
    (v : Bytes) (d : AcctDesc)
    → IsValue 32 v
    → parse_line (codes "flavour = " ++ v) d ≡ record d { flavour = v }
flavour_line v d h =
    keyed (codes "flavour = ") v 32 d h (omega arith) (omega arith) refl
    ∙ flavour_text v d
    ∙ ap (λ x. record d { flavour = x }) (value_read 32 v h)
