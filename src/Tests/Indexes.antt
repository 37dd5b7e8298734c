-- ===== src/Tests/Indexes.antt =====
-- Witnesses on the index, the plain-file pass and the baseline: an account with a deleted file.
use mv_git.Base.{
  Option, none, Bool, true, false, List, [], ◌∷◌, map, some, ◌≡◌, refl, arith, inl, inr, replicate,
}
use mv_git.Build.{uv_git}
use mv_git.Bytes.{Bytes, codes, am, bytes_eq, has_slash, starts_with}
use mv_git.Bytes.Split.{split}
use mv_git.Disk.{addall_skip}
use mv_git.Disk.Skip.{addall_skip-IsLeft}
use mv_git.Furniture.{named_in}
use mv_git.Index.{
  base_of, live_listed, is_content, entry_top, Entry, gitprune, gitindexids, plain_id, any_path,
  dict_dir,
}
use mv_git.Index.Dictionary.{gitprune_dict, has_path}
use mv_git.Index.Ids.{gitindexids-holds_path, holds_path}
use mv_git.Index.Gone.{status_deleted, deleted_line, status_deleted-is_deleted}
use mv_git.Index.Remove.{kept, IsIndex}
use mv_git.Index.Prune.{is_deleted, gitprune-kept, entry_deleted}
use mv_git.Paths.{unprefix}
use mv_git.Stock.{stock_load, stock_build_jbase}
use mv_git.Stock.Load.{stock_load-stock_build_jbase, as_stock}

abbrev entry : Bytes → Entry
entry path = record { path = path; gitlink = false; oid = [] }

abbrev tracked : List Entry
tracked =
    entry (codes "CUST/C1")
    ∷ entry (codes "CUST/C2")
    ∷ entry (codes "CUST.DICT/%FILE%")
    ∷ entry (codes "CUST.DICT/NAME")
    ∷ entry (codes "ORDERS/1")
    ∷ []

-- the account has ORDERS only
abbrev only_orders : Bytes → Bool
only_orders name = bytes_eq name (codes "ORDERS")

tracked-IsIndex : IsIndex tracked
unfolding bytes_eq
tracked-IsIndex = (
  omega arith,
  (refl, (refl, (refl, (refl, tt)))),
  (
    omega arith,
    (refl, (refl, (refl, tt))),
    (omega arith, (refl, (refl, tt)), (omega arith, (refl, tt), (omega arith, tt, tt))),
  ),
)

gitprune-kept_example :
    gitprune [] false [] only_orders tracked
    ≡ kept (entry_deleted [] false [] only_orders tracked) tracked
gitprune-kept_example = gitprune-kept [] false [] only_orders tracked tracked-IsIndex

bare_dict : any_path (starts_with (dict_dir (codes "CUST.DICT"))) tracked ≡ false
unfolding any_path starts_with
bare_dict = refl

plain_c2 : plain_id (codes "C2") ≡ true
unfolding has_slash
plain_c2 = refl

gitindexids-holds_path_example :
    named_in (split am (gitindexids [] (codes "CUST") tracked)) (codes "C2")
    ≡ holds_path tracked (codes "CUST/C2")
gitindexids-holds_path_example =
    gitindexids-holds_path [] (codes "CUST") (codes "C2") tracked plain_c2 (omega arith)

abbrev nothing_there : Bytes → Bool
nothing_there path = false

own_path : unprefix (codes "sales/") (codes "sales/ORDERS/1") ≡ some (codes "ORDERS/1")
unfolding unprefix starts_with
own_path = refl

is_orders : only_orders (codes "ORDERS") ≡ true
unfolding bytes_eq
is_orders = refl

addall_skip-IsLeft_example :
    addall_skip uv_git nothing_there only_orders (codes "sales/") (codes "sales/ORDERS/1") ≡ true
addall_skip-IsLeft_example =
    addall_skip-IsLeft uv_git nothing_there only_orders (codes "sales/") (codes "sales/ORDERS/1") (
      inr (
        codes "ORDERS/1",
        own_path,
        inl (codes "ORDERS", codes "1", refl, is_orders, omega arith, omega arith),
      ))

abbrev a_hash : Bytes → Bytes
a_hash content = replicate 40 b'a'

stock_load-stock_build_jbase_example :
    stock_load (stock_build_jbase a_hash (codes "/jbase/src/MD]D") ((codes "LIST", codes "V") ∷ []))
    ≡ map (as_stock a_hash) ((codes "LIST", codes "V") ∷ [])
stock_load-stock_build_jbase_example =
    stock_load-stock_build_jbase a_hash (codes "/jbase/src/MD]D") ((codes "LIST", codes "V") ∷ [])
      (omega arith) (omega arith)
      (((refl, omega arith, omega arith), (omega arith, omega arith, omega arith)), tt)

abbrev no_dir : Bytes → Bool
no_dir path = false

abbrev no_read : Bytes → Bytes → Option Bool
no_read fn id = none

c2_top : entry_top [] (entry (codes "CUST/C2")) ≡ some (codes "CUST")
unfolding entry_top unprefix
c2_top = refl

cust_deleted : is_deleted [] false [] only_orders tracked (codes "CUST") ≡ true
unfolding any_path bytes_eq base_of live_listed is_content
cust_deleted = refl

gitprune_dict_example :
    (has_path (codes "CUST/C2") (gitprune [] false [] only_orders tracked).0 ≡ false)
    × (has_path (codes "CUST.DICT/NAME") (gitprune [] false [] only_orders tracked).0
        ≡ has_path (codes "CUST.DICT/NAME") tracked)
gitprune_dict_example =
    gitprune_dict [] [] (codes "CUST") only_orders tracked (codes "C2") (codes "NAME")
      tracked-IsIndex (refl, (refl, (refl, (refl, (refl, tt))))) (omega arith) (omega arith)
      bare_dict cust_deleted

status_deleted-is_deleted_example :
    named_in
      (status_deleted [] false only_orders true
        (codes "@ID")
        (codes "@")
        no_dir
        no_dir
        (codes "ORDERS")
        no_read
        tracked
        tracked
        none)
      (deleted_line (codes "CUST/C2"))
    ≡ true
status_deleted-is_deleted_example =
    status_deleted-is_deleted [] false only_orders true (codes "@ID") (codes "@") no_dir no_dir
      (codes "ORDERS") no_read (entry (codes "CUST/C1") ∷ [])
      (entry (codes "CUST.DICT/%FILE%")
        ∷ entry (codes "CUST.DICT/NAME")
        ∷ entry (codes "ORDERS/1")
        ∷ [])
      (entry (codes "CUST/C2")) (codes "CUST") c2_top cust_deleted refl
