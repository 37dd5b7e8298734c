-- ===== src/Tests/Expressions.antt =====
-- Witnesses on the expressions of virtual fields: a dictionary of orders whose client number leads
-- to the clients.
use mv_git.Base.{
  true, false, List, [], ◌∷◌, ◌++◌, some, ◌>>=◌, ◌≡◌, refl, subst, some_inj, arith, if◌then◌else◌,
}
use mv_git.Bytes.{has_slash, Bytes, codes, am, newline, bytes_eq, case_starts, c_str, clip}
use mv_git.Bytes.Split.{split, join, separated}
use mv_git.Record.{attr_of, rec_is_itype, rec_set_attr2, blobform, rtrim, attr}
use mv_git.Session.{leading, atoi, skip_space}
use mv_git.Wire.{all_digits}
use mv_git.Virtual.{
  trans_split, copy_arg, print_trans, quoted, name_or_number, is_num, find_item, name_for_attr,
  ispec_to_udt, ispec_to_open, open_dict_ispec, describes, lowest_name, str_less,
}
use mv_git.Virtual.Keep.{open_dict_ispec-rec_set_attr2}
use mv_git.Virtual.Lookup.{name_for_attr_lem, IsAnswer}
use mv_git.Virtual.Split.{trans_split-print_trans}
use mv_git.Virtual.Trip.{ispec_to_open-ispec_to_udt, EndsChain}
use mv_git.Virtual.Whole.{
  Whole, All-Whole, quoted-Whole, bracket, plain, close, inner_comma, whole_end,
}

abbrev lines : Bytes → Bytes → Bytes
lines a b = a ++ newline ∷ b

abbrev orders : List (Bytes × Bytes)
orders =
    (codes "CLIENT_NO", lines (codes "D") (codes "1"))
    ∷ (codes "CUSTOMER", lines (codes "D") (codes "1"))
    ∷ (codes "TOTAL", lines (codes "D") (codes "2"))
    ∷ []

abbrev clients : List (Bytes × Bytes)
clients =
    (codes "NAME", lines (codes "D") (codes "1"))
    ∷ (codes "REGION", lines (codes "I") (codes "TRANS(STATES,2,1,X)"))
    ∷ (codes "STATE", lines (codes "D") (codes "2"))
    ∷ []

abbrev dictionaries : Bytes → List (Bytes × Bytes)
dictionaries file = if bytes_eq file (codes "CLIENTS") then clients else orders

nested : Whole 0 (codes "F(A,1)")
nested = plain b'F' _ (omega arith) (
    bracket _
      (plain b'A' _ (omega arith) (inner_comma _ (plain b'1' _ (omega arith) (close _ whole_end)))))

trans_split-print_trans_example :
    trans_split
      (print_trans (quoted (codes "CLIENTS")) (codes "F(A,1)") (codes " NAME ") (codes "X"))
    ≡ copy_arg (quoted (codes "CLIENTS"))
      ∷ copy_arg (codes "F(A,1)")
      ∷ copy_arg (codes " NAME ")
      ∷ copy_arg (codes "X")
      ∷ []
trans_split-print_trans_example =
    trans_split-print_trans (quoted (codes "CLIENTS")) (codes "F(A,1)") (codes " NAME ") (codes "X")
      (quoted-Whole (codes "CLIENTS") (omega arith)) nested
      (All-Whole (codes " NAME ") (omega arith)) (All-Whole (codes "X") (omega arith))

name_for_attr_lem_example : IsAnswer 1 orders (name_for_attr 1 orders)
name_for_attr_lem_example =
    name_for_attr_lem 1 orders (omega arith)
      ((refl, omega arith), ((refl, omega arith), ((refl, omega arith), tt)))

client_number : name_for_attr 1 orders ≡ some (codes "CLIENT_NO")
unfolding name_for_attr lowest_name describes attr_of c_str split atoi skip_space leading str_less
    has_slash
client_number = refl

d_type : rec_is_itype (lines (codes "D") (codes "1")) newline ≡ false
unfolding rec_is_itype attr_of c_str split
d_type = refl

one_number : is_num (codes "1") ≡ true
unfolding is_num all_digits
one_number = refl

client_text : is_num (codes "CLIENT_NO") ≡ false
unfolding is_num all_digits
client_text = refl

client_item : find_item (codes "CLIENT_NO") orders ≡ some (lines (codes "D") (codes "1"))
unfolding find_item bytes_eq
client_item = refl

client_location : attr_of (lines (codes "D") (codes "1")) newline 2 64 ≡ codes "1"
unfolding attr_of c_str split
client_location = refl

ends_at_name : EndsChain dictionaries (codes "CLIENTS") (codes "NAME")
unfolding find_item bytes_eq
ends_at_name text e =
    let f : some (lines (codes "D") (codes "1")) ≡ some text = e in
    subst (λ t. rec_is_itype t newline ≡ false) (some_inj f) d_type

ispec_to_open-ispec_to_udt_example :
    (ispec_to_udt dictionaries
        (codes "ORDERS")
        (print_trans (codes "CLIENTS") (codes "1") (codes "NAME") (codes "X"))
      ≡ some (
          print_trans
            (quoted (codes "CLIENTS"))
            (codes "CLIENT_NO")
            (name_or_number (codes "NAME"))
            (quoted (codes "X"))))
    × ((ispec_to_udt dictionaries
            (codes "ORDERS")
            (print_trans (codes "CLIENTS") (codes "1") (codes "NAME") (codes "X"))
          >>= ispec_to_open dictionaries (codes "ORDERS"))
        ≡ some (print_trans (codes "CLIENTS") (codes "1") (codes "NAME") (codes "X")))
unfolding leading bytes_eq
ispec_to_open-ispec_to_udt_example =
    ispec_to_open-ispec_to_udt dictionaries (codes "ORDERS") (codes "CLIENTS") (codes "1")
      (codes "CLIENT_NO") (codes "NAME") (codes "X") (omega arith) (omega arith) (omega arith)
      (omega arith) (omega arith) (lines (codes "D") (codes "1")) one_number client_text
      client_number client_item client_location ends_at_name

-- An item of ORDERS whose target is an I item of CLIENTS: the chain is flattened.
abbrev region : Bytes
region = codes "I" ++ am ∷ (codes "TRANS(CLIENTS,1,REGION,X)" ++ am ∷ codes "Region")

abbrev region_native : Bytes
region_native = codes "TRANS('STATES',TRANS('CLIENTS',CLIENT_NO,'STATE','X'),1,'X')"

abbrev region_item : Bytes
region_item = codes "I" ++ am ∷ (region_native ++ am ∷ codes "Region")

region_flat : ispec_to_udt dictionaries (codes "ORDERS") (attr am region 1) ≡ some region_native
unfolding ispec_to_udt split trans_split case_starts rtrim name_for_attr leading
region_flat = refl

region_set : rec_set_attr2 region am region_native ≡ some region_item
unfolding rec_set_attr2 split join separated
region_set = refl

region_type : rec_is_itype region am ≡ true
unfolding rec_is_itype attr_of c_str split
region_type = refl

region_fits : attr_of region am 2 512 ≡ attr am region 1
unfolding attr_of c_str split
region_fits = refl

native_fits : c_str (clip 512 region_native) ≡ region_native
unfolding c_str
native_fits = refl

open_dict_ispec-rec_set_attr2_example :
    open_dict_ispec dictionaries (codes "ORDERS") region_item (some (blobform region)) ≡ some region
open_dict_ispec-rec_set_attr2_example =
    open_dict_ispec-rec_set_attr2 dictionaries (codes "ORDERS") region region_native region_item
      (omega arith) region_type region_fits region_flat (omega arith) native_fits region_set
