-- ===== src/Stock.antt =====
-- The baseline of a platform's own records (src/mvxgit.c): the file that stock_build_udt and
-- stock_build_jbase write, the loading of it, and the two questions that are asked of it. The id of a
-- blob, in hexadecimal, is a parameter, as are the records of the platform's master file.
pub mod Load
use mv_git.Base.{
  ℕ, zero, suc, ◌+◌, Bool, true, false, not, ◌&&◌, ◌||◌, List, [], ◌∷◌, ◌++◌, Option, none, some,
  ltb, ◌==◌, if◌then◌else◌, length, take, drop, get_or,
}
use mv_git.Bytes.{Bytes, codes, am, newline, bytes_eq, clip}
use mv_git.Disk.{fgets_lines}

-- stock_rec: a blob's id and a record's id
pub record StockRec : Type 0 where
  pub oid : Bytes
  pub id : Bytes

abbrev keep_char : ℕ → Bytes → Bytes
keep_char c [] = if c == newline || c == 13 then [] else c ∷ []
keep_char c (d ∷ r) = c ∷ d ∷ r

-- without newlines and carriage returns at the end
unfoldable pub trim_eol : Bytes → Bytes
trim_eol [] = []
trim_eol (c ∷ s) = keep_char c (trim_eol s)

abbrev pub is_note : Bytes → Bool
is_note ln = get_or ln 0 0 == b'#' || get_or ln 0 0 == newline

-- One line of the file: none for a comment, an empty line and a line of another shape.
unfoldable pub stock_line : Bytes → Option StockRec
unfolding trim_eol
stock_line ln =
    let s = trim_eol ln in
    if is_note ln
    then none
    else if ltb (length s) 42 || not (get_or s 40 0 == b' ')
    then none
    else some (record { oid = take 40 s; id = clip 256 (drop 41 s) })

abbrev pub add_rec : Option StockRec → List StockRec → List StockRec
add_rec none rest = rest
add_rec (some r) rest = r ∷ rest

unfoldable pub stock_lines : List Bytes → List StockRec
unfolding stock_line
stock_lines [] = []
stock_lines (ln ∷ more) = add_rec (stock_line ln) (stock_lines more)

-- stock_load, on the text of the file
unfoldable pub stock_load : Bytes → List StockRec
unfolding fgets_lines stock_lines
stock_load text = stock_lines (fgets_lines 512 511 [] text)

-- mv_git_stock_ids: ids between marks or newlines; `entry` is what was read of the current one
abbrev pub add_stock_id : Bytes → List StockRec → List StockRec
add_stock_id [] rest = rest
add_stock_id (c ∷ id) rest = record { oid = []; id = clip 256 (c ∷ id) } ∷ rest

unfoldable pub stock_ids : Bytes → Bytes → List StockRec
stock_ids entry [] = add_stock_id entry []
stock_ids entry (c ∷ s) =
    let stop = c == am || c == newline in
    let rest = stock_ids (if stop then [] else entry ++ c ∷ []) s in
    if stop then add_stock_id entry rest else rest

-- is_stock_id
unfoldable pub is_stock_id : List StockRec → Bytes → Bool
unfolding bytes_eq
is_stock_id [] id = false
is_stock_id (r ∷ stock) id = bytes_eq r.id id || is_stock_id stock id

unfoldable pub holds_stock : List StockRec → Bytes → Bytes → Bool
unfolding bytes_eq
holds_stock [] id hex = false
holds_stock (r ∷ stock) id hex =
    (bytes_eq r.id id && bytes_eq r.oid hex) || holds_stock stock id hex

module _ (hash : Bytes → Bytes) where
  -- is_stock_record
  unfoldable pub is_stock_record : List StockRec → Bytes → Bytes → Bool
  unfolding holds_stock
  is_stock_record stock id content = holds_stock stock id (hash content)

  unfoldable pub stock_records : List (Bytes × Bytes) → Bytes
  stock_records [] = []
  stock_records ((id, content) ∷ more) = hash content ++ b' ' ∷ (id ++ newline ∷ stock_records more)

  -- the file of jBASE's baseline, of the master file `tmpl` with those records
  unfoldable pub stock_build_jbase : Bytes → List (Bytes × Bytes) → Bytes
  unfolding stock_records
  stock_build_jbase tmpl records =
      codes "# stock MD for this jBASE release -- generated here,"
      ++ newline
        ∷ (codes "# never committed: it belongs to "
            ++ (tmpl ++ (codes " (mv_git#46)." ++ newline ∷ stock_records records)))
