-- ===== src/Stock/Load.antt =====
-- The baseline that is written is the baseline that is loaded (src/mvxgit.c).
use mv_git.Base.{
  ℕ, zero, suc, ◌-◌, ◌<◌, true, false, List, [], ◌∷◌, ◌++◌, map, some, ◌≡◌, ◌≢◌, refl, sym, ap, ◌∙◌,
  arith, ltb, ◌==◌, length, drop, get_or, All, All-append, take_all, length-append, append_assoc,
  take_field, drop_field, drop-drop,
}
use mv_git.Bytes.{Bytes, codes, newline, clip}
use mv_git.Bytes.Split.{Lacks}
use mv_git.Disk.{fgets_lines}
use mv_git.Stock.{
  StockRec, trim_eol, is_note, stock_line, stock_lines, stock_load, stock_records,
  stock_build_jbase,
}

-- A line that the buffer holds is read whole.
fgets_line :
    (cap left : ℕ) (line l s : Bytes)
    → length l < left
    → Lacks newline l
    → fgets_lines cap left line (l ++ newline ∷ s)
      ≡ (line ++ (l ++ newline ∷ [])) ∷ fgets_lines cap (cap - 1) [] s
unfolding fgets_lines
fgets_line cap left line [] s h k = refl
fgets_line cap left line (c ∷ l) s h (kc, k) =
    let a : (c == newline) ≡ false = ground arith in
    let b : (left == 1) ≡ false = ground arith in
    rw (a, b)
      (fgets_line cap (left - 1) (line ++ c ∷ []) l s (omega arith) k
        ∙ ap (λ x. x ∷ fgets_lines cap (cap - 1) [] s)
            (append_assoc line (c ∷ []) (l ++ newline ∷ [])))

abbrev IsText : Bytes → Type 0
IsText = All (λ c. (c ≢ newline) × (c ≢ 13))

trim_text : (s : Bytes) → IsText s → trim_eol (s ++ newline ∷ []) ≡ s
unfolding trim_eol
trim_text [] h = refl
trim_text (c ∷ []) (hc, h) = ground arith
trim_text (c ∷ d ∷ s) (hc, h) = rw (trim_text (d ∷ s) h) refl

IsText-Lacks : (s : Bytes) → IsText s → Lacks newline s
IsText-Lacks [] h = tt
IsText-Lacks (c ∷ s) (hc, h) = (hc.0, IsText-Lacks s h)

IsText-append : (a b : Bytes) → IsText a → IsText b → IsText (a ++ b)
IsText-append [] b h k = k
IsText-append (c ∷ a) b (hc, h) k = (hc, IsText-append a b h k)

-- A blob's id in hexadecimal: 40 bytes, not begun by a hash sign.
abbrev pub IsOid : Bytes → Type 0
IsOid hex = (length hex ≡ 40) × IsText hex × (get_or hex 0 0 ≢ b'#')

-- A record's id that goes on a line: not empty, at most 255 bytes, without line ends.
abbrev pub IsStockId : Bytes → Type 0
IsStockId id = (0 < length id) × (length id < 256) × IsText id

abbrev stock_text : Bytes → Bytes → Bytes
stock_text hex id = hex ++ b' ' ∷ id

behind_oid : (hex id : Bytes) → length hex ≡ 40 → drop 41 (stock_text hex id) ≡ id
behind_oid hex id h =
    drop-drop 40 1 41 (stock_text hex id) (omega arith)
    ∙ ap (drop 1) (drop_field 40 hex (b' ' ∷ id) h)

at_oid : (hex id : Bytes) (n : ℕ) → length hex ≡ n → get_or (stock_text hex id) n 0 ≡ b' '
at_oid [] id zero h = refl
at_oid [] id (suc n) h = absurd (omega arith)
at_oid (c ∷ hex) id zero h = absurd (omega arith)
at_oid (c ∷ hex) id (suc n) h = at_oid hex id n (omega arith)

not_note : (hex s : Bytes) → IsOid hex → is_note (hex ++ s) ≡ false
not_note [] s (l, t, f) = absurd (omega arith)
not_note (c ∷ hex) s (l, (tc, t), f) = ground arith

line_back :
    (hex id : Bytes)
    → IsOid hex
    → IsStockId id
    → stock_line (stock_text hex id ++ newline ∷ []) ≡ some (record { oid = hex; id = id })
unfolding stock_line
line_back hex id o i =
    let text : IsText (stock_text hex id) =
      IsText-append hex (b' ' ∷ id) o.1 ((omega arith, omega arith), i.2) in
    let note : is_note (stock_text hex id ++ newline ∷ []) ≡ false =
      ap is_note (append_assoc hex (b' ' ∷ id) (newline ∷ [])) ∙ not_note hex _ o in
    let long : ltb (length (stock_text hex id)) 42 ≡ false =
      ground (arith, length-append hex (b' ' ∷ id), o.0, i.0) in
    let c : clip 256 id ≡ id = take_all 255 id (omega (arith, i.1)) in
    rw
      (
        note,
        trim_text (stock_text hex id) text,
        long,
        at_oid hex id 40 o.0,
        take_field 40 hex (b' ' ∷ id) o.0,
        behind_oid hex id o.0,
        c,
      )
      refl

note_skipped :
    (ln : Bytes) (more : List Bytes)
    → is_note ln ≡ true
    → stock_lines (ln ∷ more) ≡ stock_lines more
unfolding stock_lines stock_line
note_skipped ln more h = rw h refl

abbrev first_note : Bytes
first_note = codes "# stock MD for this jBASE release -- generated here,"

abbrev second_note : Bytes → Bytes
second_note tmpl = codes "# never committed: it belongs to " ++ (tmpl ++ codes " (mv_git#46).")

notes_skipped :
    (tmpl rest : Bytes)
    → Lacks newline tmpl
    → length tmpl < 400
    → stock_lines
        (fgets_lines 512 511 [] (first_note ++ newline ∷ (second_note tmpl ++ newline ∷ rest)))
      ≡ stock_lines (fgets_lines 512 511 [] rest)
notes_skipped tmpl rest h l =
    let size : length (second_note tmpl) < 511 =
      omega (arith, length-append tmpl (codes " (mv_git#46).")) in
    let clean : Lacks newline (second_note tmpl) =
      All-append (λ c. c ≢ newline) (codes "# never committed: it belongs to ") _ (omega arith)
        (All-append (λ c. c ≢ newline) tmpl (codes " (mv_git#46).") h (omega arith)) in
    ap stock_lines (
      fgets_line 512 511 [] first_note (second_note tmpl ++ newline ∷ rest) (omega arith)
        (omega arith))
    ∙ note_skipped _ _ refl
    ∙ ap stock_lines (fgets_line 512 511 [] (second_note tmpl) rest size clean)
    ∙ note_skipped _ _ refl

module _ (hash : Bytes → Bytes) where
  abbrev pub as_stock : Bytes × Bytes → StockRec
  as_stock (id, content) = record { oid = hash content; id = id }

  abbrev pub IsListed : Bytes × Bytes → Type 0
  IsListed (id, content) = IsOid (hash content) × IsStockId id

  records_back :
      (records : List (Bytes × Bytes))
      → All IsListed records
      → stock_lines (fgets_lines 512 511 [] (stock_records hash records)) ≡ map as_stock records
  unfolding stock_records stock_lines
  records_back [] h = unfold fgets_lines in refl
  records_back ((id, content) ∷ more) ((o, i), h) =
      let line = stock_text (hash content) id in
      let size : length line < 511 =
        omega (arith, length-append (hash content) (b' ' ∷ id), o.0, i.1) in
      let text : IsText line =
        IsText-append (hash content) (b' ' ∷ id) o.1 ((omega arith, omega arith), i.2) in
      rw
        (
          ← append_assoc (hash content) (b' ' ∷ id) (newline ∷ stock_records hash more),
          fgets_line 512 511 [] line (stock_records hash more) size (IsText-Lacks line text),
          line_back (hash content) id o i,
        )
        (ap (λ l. as_stock (id, content) ∷ l) (records_back more h))

  -- The baseline that is written for a master file is loaded again record by record, where each blob
  -- id is 40 bytes that do not begin with a hash sign, each record id has 1 to 255 bytes, neither
  -- holds a line end, and the master file's path stays below 400 bytes and holds no newline.
  pub stock_load-stock_build_jbase :
      (tmpl : Bytes) (records : List (Bytes × Bytes))
      → Lacks newline tmpl
      → length tmpl < 400
      → All IsListed records
      → stock_load (stock_build_jbase hash tmpl records) ≡ map as_stock records
  unfolding stock_load stock_build_jbase
  stock_load-stock_build_jbase tmpl records h l k =
      ap
        (λ t. stock_lines (
          fgets_lines 512 511 []
            (first_note ++ newline ∷ (codes "# never committed: it belongs to " ++ t))))
        (sym (append_assoc tmpl (codes " (mv_git#46).") (newline ∷ stock_records hash records)))
      ∙ notes_skipped tmpl (stock_records hash records) h l
      ∙ records_back records k
