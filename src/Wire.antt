-- ===== src/Wire.antt =====
-- The wire protocol of src/gitproto.h: its two number formats and the hexadecimal payload encoding,
-- once as src/gitd.c has them (hex_encode, hex_val, hex_decode, put_num, get_num) and once as
-- src/mvsession.c has them (hex_enc, hexv, hex_dec). A result NULL or -1 is `none`. The shift and
-- the or of two hexadecimal digits are written as h * 16 + l.
pub mod Number
pub mod Hex
use mv_git.Base.{
  ℕ, zero, suc, ◌+◌, ◌-◌, ◌*◌, ◌/◌, ◌%◌, ◌^◌, Bool, true, false, ◌&&◌, ◌||◌, List, [], ◌∷◌, ◌++◌,
  Option, none, some, leb, ◌==◌, if◌then◌else◌, ◌>>=◌, length, take, drop, get_or, replicate, min,
}
use mv_git.Bytes.{Bytes, codes}

-- MVG_MAGIC and the field widths
abbrev pub magic : Bytes
magic = codes "MVG1"

abbrev pub magic_len : ℕ
magic_len = 4

abbrev pub token_len : ℕ
token_len = 32

abbrev pub opcode_len : ℕ
opcode_len = 16

abbrev pub nargs_len : ℕ
nargs_len = 2

abbrev pub len_len : ℕ
len_len = 10

abbrev pub status_len : ℕ
status_len = 4

abbrev pub req_hdr : ℕ
req_hdr = magic_len + token_len + opcode_len + nargs_len + len_len

abbrev pub rsp_hdr : ℕ
rsp_hdr = magic_len + status_len + len_len

-- MVG_MAX_BODY
abbrev pub max_body : ℕ
max_body = 256 * 1024 * 1024

pub data Status : Type 0 where
  ok eproto eauth eopcode eargs efail eclosed : Status

unfoldable pub status_code : Status → ℕ
status_code Status.ok = 0
status_code Status.eproto = 1
status_code Status.eauth = 2
status_code Status.eopcode = 3
status_code Status.eargs = 4
status_code Status.efail = 5
status_code Status.eclosed = 6

-- The decimal digits of `n` in front of `out`; `n` rounds are enough.
unfoldable pub show_digits : ℕ → ℕ → Bytes → Bytes
show_digits zero n out = out
show_digits (suc fuel) n out =
    let rest = show_digits fuel (n / 10) ((b'0' + n % 10) ∷ out) in if n == 0 then out else rest

-- what "%ld" prints
unfoldable pub show : ℕ → Bytes
unfolding show_digits
show n = if n == 0 then b'0' ∷ [] else show_digits n n []

-- what "%0*ld" prints
unfoldable pub pad_zero : ℕ → ℕ → Bytes
unfolding show
pad_zero width n = replicate (width - length (show n)) b'0' ++ show n

-- what "%-*s" prints
unfoldable pub pad_right : ℕ → Bytes → Bytes
pad_right width s = s ++ replicate (width - length s) b' '

unfoldable pub put_num : ℕ → ℕ → Bytes
unfolding pad_zero
put_num width v = take width (pad_zero width v)

abbrev pub is_digit : ℕ → Bool
is_digit c = leb b'0' c && leb c b'9'

unfoldable pub all_digits : Bytes → Bool
all_digits [] = true
all_digits (c ∷ s) = is_digit c && all_digits s

-- the number that digits spell behind `n`
unfoldable pub value : ℕ → Bytes → ℕ
value n [] = n
value n (c ∷ s) = value (n * 10 + (c - b'0')) s

-- LONG_MAX, where strtol stops
abbrev pub long_max : ℕ
long_max = 2 ^ 63 - 1

unfoldable pub get_num : Bytes → ℕ → Option ℕ
unfolding all_digits value
get_num src width =
    if leb 32 width
    then none
    else if all_digits (take width src)
    then some (min long_max (value 0 (take width src)))
    else none

abbrev pub hexd : Bytes
hexd = codes "0123456789ABCDEF"

unfoldable pub hex_encode : Bytes → Bytes
hex_encode [] = []
hex_encode (c ∷ s) = get_or hexd (c / 16) 0 ∷ get_or hexd (c % 16) 0 ∷ hex_encode s

unfoldable pub hex_val : ℕ → Option ℕ
hex_val c =
    if leb b'0' c && leb c b'9'
    then some (c - b'0')
    else if leb b'A' c && leb c b'F'
    then some (c - b'A' + 10)
    else if leb b'a' c && leb c b'f'
    then some (c - b'a' + 10)
    else none

unfoldable pub hex_decode : Bytes → Option Bytes
unfolding hex_val
hex_decode [] = some []
hex_decode (c ∷ []) = none
hex_decode (c ∷ d ∷ s) = do
  hi ← hex_val c
  lo ← hex_val d
  rest ← hex_decode s
  some ((hi * 16 + lo) ∷ rest)

-- The client's own copies.
unfoldable pub hex_enc : Bytes → Bytes
hex_enc [] = []
hex_enc (c ∷ s) = get_or hexd (c / 16) 0 ∷ get_or hexd (c % 16) 0 ∷ hex_enc s

unfoldable pub hexv : ℕ → Option ℕ
hexv c =
    if leb b'0' c && leb c b'9'
    then some (c - b'0')
    else if leb b'A' c && leb c b'F'
    then some (c - b'A' + 10)
    else if leb b'a' c && leb c b'f'
    then some (c - b'a' + 10)
    else none

unfoldable pub hex_dec : Bytes → Option Bytes
unfolding hexv
hex_dec [] = some []
hex_dec (c ∷ []) = none
hex_dec (c ∷ d ∷ s) = do h ← hexv c; l ← hexv d; rest ← hex_dec s; some ((h * 16 + l) ∷ rest)
