-- ===== src/Control/Class.antt =====
-- The class of a control (src/mvxgit.c, control_open): its answer is a control of that class.
use mv_git.Base.{
  Bool, true, false, ◌&&◌, ◌||◌, none, some, ◌≡◌, refl, sym, if◌then◌else◌, inl, inr, ◌⊎◌, some_inj,
  length, get_or, ◌==◌,
}
use mv_git.Bytes.{Bytes, codes, case_starts, to_lower, case_eq}
use mv_git.Control.{
  control_open, is_open_control, trim_end, is_white, is_gap, is_native, native_kind,
}

abbrev IsClass : Bytes → Type 0
IsClass k = (k ≡ codes "DIR") ⊎ (k ≡ codes "hash")

tests-IsClass :
    (a b d e : Bool) (k : Bytes)
    → (if a
        then some (codes "DIR")
        else if b
        then some (codes "hash")
        else if d
        then if e then some (codes "DIR") else some (codes "hash")
        else none)
      ≡ some k
    → IsClass k
tests-IsClass true b d e k h = inl (sym (some_inj h))
tests-IsClass false true d e k h = inr (sym (some_inj h))
tests-IsClass false false true true k h = inl (sym (some_inj h))
tests-IsClass false false true false k h = inr (sym (some_inj h))
tests-IsClass false false false e k h = cc

control_open-IsClass : (c k : Bytes) → control_open c ≡ some k → IsClass k
unfolding control_open
control_open-IsClass c k h =
    let t = trim_end c in
    tests-IsClass (case_starts (codes "DIR") t && (length t == 3 || is_gap (get_or t 3 0)))
      (case_starts (codes "hash") t) (is_native t) (case_eq (native_kind t) (codes "dir")) k h

class_again : (k : Bytes) → IsClass k → (control_open k ≡ some k) × (is_open_control k ≡ true)
unfolding control_open is_open_control trim_end is_white case_starts to_lower
class_again k (inl e) = rw e (refl, refl)
class_again k (inr e) = rw e (refl, refl)

-- The class that a control comes to is a control in the open form, and it is its own class: what
-- status compares of two controls is stable, whatever they hold besides.
pub control_open-control_open :
    (c k : Bytes) → control_open c ≡ some k → (control_open k ≡ some k) × (is_open_control k ≡ true)
control_open-control_open c k h = class_again k (control_open-IsClass c k h)
