-- ===== src/Control/Sticky.antt =====
-- The geometry that git has learned (src/mvxgit.c, mv_git_sticky_control): it is staged again as it
-- was, and a file never changes its class by it.
use mv_git.Base.{
  ℕ, ◌<◌, Bool, true, false, ◌&&◌, [], ◌∷◌, ◌++◌, Option, none, some, ◌≡◌, refl, sym, ap, ◌∙◌,
  arith, ltb, if◌then◌else◌, length, ◌-◌, take, drop, inl, inr, Bool-cases,
}
use mv_git.Bytes.{Bytes, codes, starts_with, ends_with, case_starts, to_lower, clip}
use mv_git.Control.{
  class_of, control_open, trim_end, is_white, keep_dark, sticky_with, known_control, control_suffix,
  sticky_control,
}

keep_dark-dark : (c : ℕ) (r : Bytes) → is_white c ≡ false → keep_dark c r ≡ c ∷ r
keep_dark-dark c [] h = rw h refl
keep_dark-dark c (d ∷ r) h = refl

trim_dark : (c : ℕ) (s : Bytes) → is_white c ≡ false → trim_end (c ∷ s) ≡ c ∷ trim_end s
unfolding trim_end
trim_dark c s h = keep_dark-dark c (trim_end s) h

dark_letter : (c : ℕ) → 32 < c → is_white c ≡ false
unfolding is_white
dark_letter c h = ground arith

pub hash_trimmed : (s : Bytes) → trim_end (codes "hash" ++ s) ≡ codes "hash" ++ trim_end s
hash_trimmed s =
    trim_dark b'h' _ (dark_letter b'h' (omega arith))
    ∙ ap (λ r. b'h' ∷ r) (trim_dark b'a' _ (dark_letter b'a' (omega arith)))
    ∙ ap (λ r. b'h' ∷ b'a' ∷ r) (trim_dark b's' _ (dark_letter b's' (omega arith)))
    ∙ ap (λ r. b'h' ∷ b'a' ∷ b's' ∷ r) (trim_dark b'h' s (dark_letter b'h' (omega arith)))

shape : (p s : Bytes) → starts_with p s ≡ true → s ≡ p ++ drop (length p) s
unfolding starts_with
shape [] s h = refl
shape (c ∷ p) [] h = cc
shape (c ∷ p) (d ∷ s) h =
    let e : d ≡ c = ground (arith, h) in
    let more : starts_with p s ≡ true = ground (arith, h) in rw e (ap (λ r. c ∷ r) (shape p s more))

class_of_hash : (s : Bytes) → class_of (codes "hash" ++ s) ≡ some (codes "hash")
unfolding case_starts to_lower
class_of_hash s = refl

hash_class :
    (c : Bytes) → starts_with (codes "hash") c ≡ true → control_open c ≡ some (codes "hash")
unfolding control_open
hash_class c h =
    ap (λ s. class_of (trim_end s)) (shape (codes "hash") c h)
    ∙ ap class_of (hash_trimmed (drop 4 c))
    ∙ class_of_hash (trim_end (drop 4 c))

-- What is staged for a control that is a hash file's: another hash file's control.
with_hash :
    (content : Bytes) (o : Option Bytes)
    → starts_with (codes "hash") content ≡ true
    → starts_with (codes "hash") (sticky_with content o) ≡ true
with_hash content none h = h
with_hash content (some keep) h = elim (Bool-cases (starts_with (codes "hash") keep)) [
  | inl e ↦ rw (e, e) refl
  | inr e ↦ rw e h
]

with_again :
    (content : Bytes) (o : Option Bytes)
    → sticky_with (sticky_with content o) o ≡ sticky_with content o
with_again content none = refl
with_again content (some keep) = elim (Bool-cases (starts_with (codes "hash") keep)) [
  | inl e ↦ rw e refl
  | inr e ↦ rw e refl
]

-- the two tests in front
abbrev guarded : Bool → Bytes → Option Bytes → Bytes
guarded named content o =
    if named
    then if starts_with (codes "hash") content then sticky_with content o else content
    else content

guarded_class :
    (named : Bool) (content : Bytes) (o : Option Bytes)
    → control_open (guarded named content o) ≡ control_open content
guarded_class false content o = refl
guarded_class true content o = elim (Bool-cases (starts_with (codes "hash") content)) [
  | inl e ↦
      rw e (hash_class (sticky_with content o) (with_hash content o e) ∙ sym (hash_class content e))
  | inr e ↦ rw e refl
]

guarded_again :
    (named : Bool) (content : Bytes) (o : Option Bytes)
    → guarded named (guarded named content o) o ≡ guarded named content o
guarded_again false content o = refl
guarded_again true content o = elim (Bool-cases (starts_with (codes "hash") content)) [
  | inl e ↦ rw (e, with_hash content o e) (with_again content o)
  | inr e ↦ rw (e, e) refl
]

abbrev is_control : Bytes → Bool
is_control path = ltb (length control_suffix) (length path) && ends_with control_suffix path

module _ (staged committed : Bytes → Option Bytes) (path content : Bytes) where
  found : Option Bytes
  found =
      known_control staged committed (clip 512 (take (length path - length control_suffix) path))

  sticky_guarded :
      (c : Bytes) → sticky_control staged committed path c ≡ guarded (is_control path) c found
  unfolding sticky_control found
  sticky_guarded c = refl

  -- The content to stage for a control has the class of the content at hand, on every path and
  -- whatever is staged and committed: learned geometry never turns a file into one of another kind.
  pub control_open-sticky_control :
      control_open (sticky_control staged committed path content) ≡ control_open content
  control_open-sticky_control =
      ap control_open (sticky_guarded content) ∙ guarded_class (is_control path) content found

  -- Staging the answer again changes nothing.
  pub sticky_control-sticky_control :
      sticky_control staged committed path (sticky_control staged committed path content)
      ≡ sticky_control staged committed path content
  sticky_control-sticky_control =
      sticky_guarded (sticky_control staged committed path content)
      ∙ ap (λ c. guarded (is_control path) c found) (sticky_guarded content)
      ∙ guarded_again (is_control path) content found
      ∙ sym (sticky_guarded content)
