-- ===== src/Record/Plain.antt =====
-- Projection in the builds that do not swap attributes 6 and 7 on the way out (UniVerse and MVX).
use mv_git.Base.{
  ℕ, true, false, [], Option, none, some, some_inj, ◌≡◌, refl, sym, ap, ◌∙◌, arith, ltb, ◌==◌,
  if◌then◌else◌, length, Bool-cases, inl, inr, ==_refl,
}
use mv_git.Build.{Build, opendict, dict_sm_at_6}
use mv_git.Bytes.{Bytes, am}
use mv_git.Record.{
  attr, attr_of, rtrim, swapped, is_empty, is_item, or_else, first, needs_depth, derive_depth,
  finish, open_dict_project, native_dict_record,
}
use mv_git.Record.Attr.{attr-rtrim, rtrim_ext}
use mv_git.Record.Depth.{needs_depth_same, attr_of_same, settled, derive_depth-none}
use mv_git.Record.Project.{project_plain, native_swap}
use mv_git.Record.Swap.{dict_item_swap_lem}

finish_result :
    (o : Option Bytes) (s : Bytes) {t : Bytes}
    → finish (first o none) s (rtrim am (or_else o s)) ≡ some t
    → t ≡ rtrim am (or_else o s)
finish_result none s h = elim (Bool-cases (length (rtrim am s) == length s)) [
  | inl e ↦ cc (rw e at h)
  | inr e ↦ sym (some_inj (rw e at h))
]
finish_result (some w) s h = sym (some_inj h)

rtrim_idem : (s : Bytes) → rtrim am (rtrim am s) ≡ rtrim am s
rtrim_idem s = rtrim_ext am (rtrim am s) s (attr-rtrim am s)

trimmed_unchanged :
    (b : Build) (w : Bytes)
    → dict_sm_at_6 b ≡ false
    → needs_depth w 6 7 ≡ false
    → open_dict_project b (rtrim am w) ≡ none
trimmed_unchanged b w off done =
    let done' =
      needs_depth_same (rtrim am w) w 5 6 5 6 (attr-rtrim am w 5) (attr-rtrim am w 6) ∙ done in
    project_plain b (rtrim am w) off
    ∙ rw (derive_depth-none (rtrim am w) 6 7 done', rtrim_idem w, ==_refl)

-- Projecting the projected record says that nothing changed, so a record that was staged and not
-- touched reads clean.
pub open_dict_project-project :
    (b : Build) (s : Bytes) {t : Bytes}
    → dict_sm_at_6 b ≡ false
    → open_dict_project b s ≡ some t
    → open_dict_project b t ≡ none
open_dict_project-project b s off h =
    let made = finish_result (derive_depth s 6 7) s (sym (project_plain b s off) ∙ h) in
    rw made (trimmed_unchanged b _ off (settled s 6 6 (omega arith)))

has_flag :
    (s : Bytes) (asc sm : ℕ) → is_empty (attr_of s am sm 8) ≡ false → needs_depth s asc sm ≡ false
unfolding needs_depth
has_flag s asc sm h = rw h (ground arith)

finish-attr : (s : Bytes) (k : ℕ) → attr am (or_else (finish none s (rtrim am s)) s) k ≡ attr am s k
finish-attr s k = elim (Bool-cases (length (rtrim am s) == length s)) [
  | inl e ↦ rw e
  | inr e ↦ rw e (attr-rtrim am s k)
]

opened-attr :
    (b : Build) (s : Bytes) (k : ℕ)
    → dict_sm_at_6 b ≡ false
    → is_empty (attr_of s am 7 8) ≡ false
    → attr am (or_else (open_dict_project b s) s) k ≡ attr am s k
opened-attr b s k off flag =
    rw (project_plain b s off, derive_depth-none s 6 7 (has_flag s 6 7 flag)) (finish-attr s k)

swapped_six : (s : Bytes) → (if ltb (swapped 5) 32 then attr am s (swapped 5) else []) ≡ attr am s 6
unfolding swapped
swapped_six s = refl

swapped_five :
    (s : Bytes) → (if ltb (swapped 6) 32 then attr am s (swapped 6) else []) ≡ attr am s 5
unfolding swapped
swapped_five s = refl

-- A build that has the open dictionary form without the swap on the way out, as UniVerse's, still
-- swaps on the way back: a D or I item with an attribute 7 that goes out and comes back has its
-- attributes 6 and 7 exchanged.
pub native-project_exchanges :
    (b : Build) (s : Bytes)
    → opendict b ≡ true
    → dict_sm_at_6 b ≡ false
    → is_item (attr am s 0) ≡ true
    → is_empty (attr_of s am 7 8) ≡ false
    → let back = native_dict_record b (or_else (open_dict_project b s) s) in
      (attr am back 5 ≡ attr am s 6) × (attr am back 6 ≡ attr am s 5)
native-project_exchanges b s on off item flag =
    let o = or_else (open_dict_project b s) s in
    let at = λ (k : ℕ). opened-attr b s k off flag in
    let (q, hq, atq) = dict_item_swap_lem o (ap is_item (at 0) ∙ item) in
    let five : attr am q 5 ≡ attr am s 6 = atq 5 ∙ swapped_six o ∙ at 6 in
    let six : attr am q 6 ≡ attr am s 5 = atq 6 ∙ swapped_five o ∙ at 5 in
    let same = ap is_empty (attr_of_same q s 5 6 8 five) ∙ flag in
    let back = native_swap b o q on hq ∙ rw (derive_depth-none q 7 6 (has_flag q 7 6 same)) in
    (ap (λ x. attr am x 5) back ∙ five, ap (λ x. attr am x 6) back ∙ six)
