-- ===== src/Unidata/Manifest.antt =====
-- The manifest that a package is registered in (src/udt-git.c, manifest_set): its lines, in pieces of
-- the size that fgets reads, are read back as they were written.
use mv_git.Base.{
  ℕ, suc, ◌+◌, ◌-◌, ◌<◌, ◌≤◌, Bool, true, false, ◌||◌, List, [], ◌∷◌, ◌++◌, map, ◌≡◌, ◌≢◌, refl,
  sym, ap, ◌∙◌, subst, arith, ◌==◌, inl, inr, ◌⊎◌, Bool-cases, All, All-append, length,
  length-append, append_assoc, append-nil,
}
use mv_git.Bytes.{c_str_text, c_str, Bytes, newline, bytes_eq, bytes_eq_refl}
use mv_git.Bytes.Split.{Lacks}
use mv_git.Disk.{fgets_lines, last_line}
use mv_git.Unidata.{field, others, concat, ends_line, closed, manifest_set}

-- What one fgets takes: to a newline, or 1023 bytes.
abbrev pub IsLine : Bytes → Type 0
IsLine l =
    (p : Bytes) × (x : ℕ) × (l ≡ p ++ x ∷ [])
    × Lacks newline p
    × ((x ≡ newline) ⊎ (length p ≡ 1022))
    × (length p < 1023)

read_line :
    (p : Bytes) (x left : ℕ) (acc t : Bytes)
    → Lacks newline p
    → (x ≡ newline) ⊎ (left ≡ suc (length p))
    → length p < left
    → fgets_lines 1024 left acc (p ++ x ∷ t) ≡ (acc ++ (p ++ x ∷ [])) ∷ fgets_lines 1024 1023 [] t
unfolding fgets_lines
read_line [] x left acc t h e l =
    let full : (x == newline || left == 1) ≡ true = ground arith in rw full refl
read_line (c ∷ p) x left acc t (hc, h) e l =
    let full : (c == newline || left == 1) ≡ false = ground arith in
    let e' : (x ≡ newline) ⊎ (left - 1 ≡ suc (length p)) = ground arith in
    rw full (
      read_line p x (left - 1) (acc ++ c ∷ []) t h e' (omega arith)
      ∙ ap (λ l. l ∷ fgets_lines 1024 1023 [] t) (append_assoc acc (c ∷ []) (p ++ x ∷ [])))

read_one :
    (l t : Bytes) → IsLine l → fgets_lines 1024 1023 [] (l ++ t) ≡ l ∷ fgets_lines 1024 1023 [] t
read_one l t (p, x, e, h, s, n) =
    let s' : (x ≡ newline) ⊎ (1023 ≡ suc (length p)) = ground arith in
    rw (e, append_assoc p (x ∷ []) t) (read_line p x 1023 [] t h s' n)

pub read_lines :
    (ls : List Bytes) (t : Bytes)
    → All IsLine ls
    → fgets_lines 1024 1023 [] (concat ls ++ t) ≡ ls ++ fgets_lines 1024 1023 [] t
unfolding concat
read_lines [] t h = refl
read_lines (l ∷ ls) t (hl, h) =
    rw (append_assoc l (concat ls) t, read_one l (concat ls ++ t) hl)
      (ap (λ r. l ∷ r) (read_lines ls t h))

-- Whatever a text is, it is read as lines and a rest without a newline.
abbrev AreLines : List Bytes → Type 0
AreLines r =
    (ls : List Bytes) × (part : Bytes) × All IsLine ls
    × Lacks newline part
    × (length part ≤ 1022)
    × (r ≡ ls ++ last_line part)

with_line : (l : Bytes) (r : List Bytes) → IsLine l → AreLines r → AreLines (l ∷ r)
with_line l r h (ls, part, hs, hp, n, e) = (l ∷ ls, part, (h, hs), hp, n, ap (λ r. l ∷ r) e)

reads :
    (s acc : Bytes) (left : ℕ)
    → Lacks newline acc
    → length acc + left ≡ 1023
    → 1 ≤ left
    → AreLines (fgets_lines 1024 left acc s)
unfolding fgets_lines
reads [] acc left h e l = ([], acc, tt, h, omega arith, refl)
reads (c ∷ s) acc left h e l = elim (Bool-cases (c == newline || left == 1)) [
  | inl f ↦
      let ends : (c ≡ newline) ⊎ (length acc ≡ 1022) = ground arith in
      rw f (
        with_line (acc ++ c ∷ []) _ (acc, c, refl, h, ends, omega arith)
          (reads s [] 1023 tt refl (omega arith)))
  | inr f ↦
      let other : c ≢ newline = ground arith in
      let more : left ≢ 1 = ground arith in
      rw f (
        reads s (acc ++ c ∷ []) (left - 1)
          (All-append (λ b. b ≢ newline) acc (c ∷ []) h (other, tt))
          (omega (arith, length-append acc (c ∷ []))) (omega arith))
]

field-newline : (s : Bytes) → field (s ++ newline ∷ []) ≡ field s
unfolding field
field-newline [] = refl
field-newline (c ∷ s) = rw (field-newline s) refl

ends-append : (b : Bool) (s t : Bytes) → ends_line b (s ++ t) ≡ ends_line (ends_line b s) t
unfolding ends_line
ends-append b [] t = refl
ends-append b (c ∷ s) t = ends-append (c == newline) s t

part_open : (p : Bytes) → Lacks newline p → ends_line false p ≡ false
unfolding ends_line
part_open [] h = refl
part_open (c ∷ p) (hc, h) = let e : (c == newline) ≡ false = ground arith in rw e (part_open p h)

empty_field : (n : Bytes) → n ≢ [] → bytes_eq (field []) n ≡ false
unfolding field bytes_eq
empty_field [] ne = absurd (ne refl)
empty_field (c ∷ n) ne = refl

concat-append : (a b : List Bytes) → concat (a ++ b) ≡ concat a ++ concat b
unfolding concat
concat-append [] b = refl
concat-append (l ∷ a) b = rw (concat-append a b) (sym (append_assoc l (concat a) (concat b)))

module _ (name : Bytes) where
  abbrev pub IsOther : Bytes → Type 0
  IsOther l = bytes_eq (field l) name ≡ false

  -- Lines of other names, the last of which is ended.
  abbrev Rest : Bytes → Type 0
  Rest s =
      (ls : List Bytes) × All IsLine ls
      × All IsOther ls
      × (s ≡ concat ls)
      × (ends_line true s ≡ true)

  others-append : (a b : List Bytes) → others name (a ++ b) ≡ others name a ++ others name b
  unfolding others
  others-append [] b = refl
  others-append (l ∷ a) b = elim (Bool-cases (bytes_eq (field l) name)) [
    | inl e ↦ rw e (others-append a b)
    | inr e ↦ rw e (ap (λ r. l ∷ r) (others-append a b))
  ]

  others_lem :
      (ls : List Bytes) → All IsLine ls → All IsLine (others name ls) × All IsOther (others name ls)
  unfolding others
  others_lem [] h = (tt, tt)
  others_lem (l ∷ ls) (hl, h) = elim (Bool-cases (bytes_eq (field l) name)) [
    | inl e ↦ rw e (others_lem ls h)
    | inr e ↦ let r = others_lem ls h in rw e ((hl, r.0), (e, r.1))
  ]

  others_same : (ls : List Bytes) → All IsOther ls → others name ls ≡ ls
  unfolding others
  others_same [] h = refl
  others_same (l ∷ ls) (hl, h) = rw hl (ap (λ r. l ∷ r) (others_same ls h))

  concat_end : (ls : List Bytes) (l : Bytes) → concat (ls ++ l ∷ []) ≡ concat ls ++ l
  unfolding concat
  concat_end ls l = concat-append ls (l ∷ []) ∙ rw append-nil refl

  -- Lines with an ended line behind them.
  with_last :
      (ls : List Bytes) (p : Bytes)
      → All IsLine ls
      → All IsOther ls
      → Lacks newline p
      → length p ≤ 1022
      → IsOther p
      → Rest ((concat ls ++ p) ++ newline ∷ [])
  unfolding ends_line
  with_last ls p h o hp n op = (
    ls ++ (p ++ newline ∷ []) ∷ [],
    All-append IsLine ls _ h ((p, newline, refl, hp, inl refl, omega arith), tt),
    All-append IsOther ls _ o (rw (field-newline p) op, tt),
    append_assoc (concat ls) p (newline ∷ []) ∙ sym (concat_end ls (p ++ newline ∷ [])),
    ends-append true (concat ls ++ p) (newline ∷ []),
  )

  -- the lines that were read, without a rest
  no_part :
      (ls : List Bytes) → name ≢ [] → All IsLine ls → All IsOther ls → Rest (closed (concat ls))
  no_part ls ne h o = elim (Bool-cases (ends_line true (concat ls))) [
    | inl e ↦ rw e (ls, h, o, refl, e)
    | inr e ↦ rw e (
        subst (λ s. Rest (s ++ newline ∷ [])) (append-nil (concat ls))
          (with_last ls [] h o tt (omega arith) (empty_field name ne)))
  ]

  closed_part :
      (ls : List Bytes) (c : ℕ) (p : Bytes)
      → Lacks newline (c ∷ p)
      → closed (concat ls ++ c ∷ p) ≡ (concat ls ++ c ∷ p) ++ newline ∷ []
  unfolding ends_line
  closed_part ls c p (hc, h) =
      let e : (c == newline) ≡ false = ground arith in
      let f : ends_line true (concat ls ++ c ∷ p) ≡ false =
        ends-append true (concat ls) (c ∷ p) ∙ rw e (part_open p h) in
      rw f refl

  with_part :
      (ls : List Bytes) (p : Bytes)
      → name ≢ []
      → All IsLine ls
      → Lacks newline p
      → length p ≤ 1022
      → Rest (closed (concat (others name (ls ++ last_line p))))
  unfolding others
  with_part ls [] ne h hp n =
      let r = others_lem ls h in rw append-nil (no_part (others name ls) ne r.0 r.1)
  with_part ls (c ∷ p) ne h hp n =
      let r = others_lem ls h in
      elim (Bool-cases (bytes_eq (field (c ∷ p)) name)) [
        | inl e ↦
            rw (others-append ls ((c ∷ p) ∷ []), e, append-nil (others name ls))
              (no_part (others name ls) ne r.0 r.1)
        | inr e ↦
            rw
              (
                others-append ls ((c ∷ p) ∷ []),
                e,
                concat_end (others name ls) (c ∷ p),
                closed_part (others name ls) c p hp,
              )
              (with_last (others name ls) (c ∷ p) r.0 r.1 hp n e)
      ]

  rest_of :
      (text : Bytes)
      → name ≢ []
      → Rest (closed (concat (others name (fgets_lines 1024 1023 [] text))))
  rest_of text ne =
      let (ls, part, hs, hp, n, e) = reads text [] 1023 tt refl (omega arith) in
      rw e (with_part ls part ne hs hp n)

  -- The manifest is read back as lines of other names and one for this name, the last.
  read_back :
      (full s : Bytes) (r : Rest s)
      → Lacks newline full
      → length full ≤ 1022
      → fgets_lines 1024 1023 [] (s ++ (full ++ newline ∷ [])) ≡ r.0 ++ (full ++ newline ∷ []) ∷ []
  unfolding fgets_lines
  read_back full s (ls, h, o, e, d) hf n = rw e (
      read_lines ls (full ++ newline ∷ []) h
      ∙ ap (λ r. ls ++ r) (read_line full newline 1023 [] [] hf (inl refl) (omega arith)))

  dropped_last :
      (ls : List Bytes) (full : Bytes)
      → All IsOther ls
      → field full ≡ name
      → others name (ls ++ (full ++ newline ∷ []) ∷ []) ≡ ls
  unfolding others
  dropped_last ls full o f =
      rw
        (
          others-append ls ((full ++ newline ∷ []) ∷ []),
          field-newline full,
          f,
          bytes_eq_refl name,
          append-nil,
        )
        (others_same ls o)

  again :
      (full s : Bytes) (r : Rest s)
      → Lacks newline full
      → length full ≤ 1022
      → field full ≡ name
      → closed (concat (others name (fgets_lines 1024 1023 [] (s ++ (full ++ newline ∷ []))))) ≡ s
  again full s (ls, h, o, e, d) hf n f =
      let lines = read_back full s (ls, h, o, e, d) hf n in
      let closed_same : closed s ≡ s = rw d refl in
      rw (lines, dropped_last ls full o f, ← e) closed_same

  -- The manifest without the cut at a NUL.
  abbrev plain : Bytes → Bytes → Bytes
  plain full text =
      closed (concat (others name (fgets_lines 1024 1023 [] text))) ++ (full ++ newline ∷ [])

  lines_text :
      (s acc : Bytes) (left : ℕ)
      → Lacks 0 acc
      → Lacks 0 s
      → All (Lacks 0) (fgets_lines 1024 left acc s)
  unfolding fgets_lines
  lines_text [] [] left h k = tt
  lines_text [] (c ∷ acc) left h k = (h, tt)
  lines_text (c ∷ s) acc left h (kc, k) =
      let grown = All-append (λ b. b ≢ 0) acc (c ∷ []) h (kc, tt) in
      elim (Bool-cases (c == newline || left == 1)) [
        | inl f ↦ rw f (grown, lines_text s [] 1023 tt k)
        | inr f ↦ rw f (lines_text s (acc ++ c ∷ []) (left - 1) grown k)
      ]

  uncut : (ls : List Bytes) → All (Lacks 0) ls → map c_str ls ≡ ls
  uncut [] h = refl
  uncut (l ∷ ls) (hl, h) = rw (c_str_text l hl, uncut ls h) refl

  others_text : (ls : List Bytes) → All (Lacks 0) ls → Lacks 0 (concat (others name ls))
  unfolding concat others
  others_text [] h = tt
  others_text (l ∷ ls) (hl, h) = elim (Bool-cases (bytes_eq (field l) name)) [
    | inl e ↦ rw e (others_text ls h)
    | inr e ↦ rw e (All-append (λ b. b ≢ 0) l (concat (others name ls)) hl (others_text ls h))
  ]

  closed_text : (s : Bytes) → Lacks 0 s → Lacks 0 (closed s)
  closed_text s h = elim (Bool-cases (ends_line true s)) [
    | inl e ↦ rw e h
    | inr e ↦ rw e (All-append (λ b. b ≢ 0) s (newline ∷ []) h (omega arith, tt))
  ]

  manifest_set-plain :
      (full text : Bytes) → Lacks 0 text → manifest_set name full text ≡ plain full text
  unfolding manifest_set
  manifest_set-plain full text h =
      ap (λ ls. closed (concat (others name ls)) ++ (full ++ newline ∷ []))
        (uncut (fgets_lines 1024 1023 [] text) (lines_text text [] 1023 tt h))

  plain_text : (full text : Bytes) → Lacks 0 full → Lacks 0 text → Lacks 0 (plain full text)
  plain_text full text hf h =
      All-append (λ b. b ≢ 0) (closed (concat (others name (fgets_lines 1024 1023 [] text)))) _
        (closed_text _ (others_text (fgets_lines 1024 1023 [] text) (lines_text text [] 1023 tt h)))
        (All-append (λ b. b ≢ 0) full (newline ∷ []) hf (omega arith, tt))

  -- A package that registers twice is registered once: setting its line again changes nothing, for a
  -- manifest without a NUL, lines that exceed the buffer and one without a newline included. The line
  -- begins with the name, which is not empty, holds no newline and no NUL, and fits in the buffer.
  pub manifest_set-manifest_set :
      (full text : Bytes)
      → name ≢ []
      → field full ≡ name
      → Lacks newline full
      → Lacks 0 full
      → Lacks 0 text
      → length full ≤ 1022
      → manifest_set name full (manifest_set name full text) ≡ manifest_set name full text
  manifest_set-manifest_set full text ne f hf zf zt n =
      let once = manifest_set-plain full text zt in
      ap (manifest_set name full) once
      ∙ manifest_set-plain full (plain full text) (plain_text full text zf zt)
      ∙ ap (λ s. s ++ (full ++ newline ∷ [])) (again full _ (rest_of text ne) hf n f)
      ∙ sym once
