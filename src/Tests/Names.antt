-- ===== src/Tests/Names.antt =====
-- Theorems on names, paths, filters and controls, applied to concrete ones (src/mvxgit.c).
use mv_git.Base.{true, ◌∷◌, ◌++◌, ◌≡◌, refl, arith, length, ◌<◌, ◌+◌, some, none, Option}
use mv_git.Build.{uv_git, jb_git, voc_local_name}
use mv_git.Bytes.{Bytes, codes, am, vm, to_lower, case_eq, bytes_eq}
use mv_git.Bytes.Split.{split, join}
use mv_git.Control.{sticky_control}
use mv_git.Control.Sticky.{sticky_control-sticky_control}
use mv_git.Furniture.{filter_furniture}
use mv_git.Furniture.Filter.{no_furniture, filter_furniture_lem}
use mv_git.Paths.{unprefix, record_path, local_to_tree, path_storable}
use mv_git.Paths.Prefix.{unprefix-record_path}
use mv_git.Paths.Storable.{path_storable_lem, parts_ok}

-- CUST and a file that is furniture on UniVerse, with values behind the names
abbrev candidates : Bytes
candidates = codes "CUST" ++ am ∷ (codes "VOCLIB" ++ vm ∷ (codes "x" ++ am ∷ codes "&PH&"))

filter_furniture_lem_example :
    filter_furniture uv_git candidates ≡ join am (no_furniture uv_git (split am candidates))
filter_furniture_lem_example = filter_furniture_lem uv_git candidates

md_path : length (local_to_tree jb_git true (codes "MD")) ≡ 3
unfolding local_to_tree voc_local_name case_eq to_lower bytes_eq
md_path = refl

md_fits : 2 + (length (local_to_tree jb_git true (codes "MD")) + 5) < 512
md_fits = omega (arith, md_path)

unprefix-record_path_example :
    unprefix (codes "A/") (record_path jb_git true 512 (codes "A/") (codes "MD") (codes "LIST"))
    ≡ some (local_to_tree jb_git true (codes "MD") ++ b'/' ∷ codes "LIST")
unprefix-record_path_example =
    unprefix-record_path jb_git true 512 (codes "A/") (codes "MD") (codes "LIST") md_fits

path_storable_lem_example :
    path_storable (codes "CUST//1") ≡ parts_ok (split b'/' (codes "CUST//1"))
path_storable_lem_example = path_storable_lem b'C' (codes "UST//1")

-- nothing staged, and a control with another modulo committed
abbrev nothing : Bytes → Option Bytes
nothing base = none

abbrev committed_101 : Bytes → Option Bytes
committed_101 base = some (codes "hash 101 STATIC")

sticky_control-sticky_control_example :
    sticky_control nothing committed_101
      (codes "CUST.DICT/%FILE%")
      (sticky_control nothing committed_101 (codes "CUST.DICT/%FILE%") (codes "hash 7 DYNAMIC"))
    ≡ sticky_control nothing committed_101 (codes "CUST.DICT/%FILE%") (codes "hash 7 DYNAMIC")
sticky_control-sticky_control_example =
    sticky_control-sticky_control nothing committed_101 (codes "CUST.DICT/%FILE%")
      (codes "hash 7 DYNAMIC")
