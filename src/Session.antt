-- ===== src/Session.antt =====
-- The client half of the agent protocol (src/mvsession.c): the frame that call_raw writes, and the
-- reply that it reads.
use mv_git.Base.{
  Bool, false, true, ◌≡◌, refl, arith, leb, ◌&&◌, ◌||◌, ◌*◌, ◌-◌, ◌^◌, ◌%◌, ℕ, ◌+◌, ◌-◌, ◌*◌, not,
  List, [], ◌∷◌, ◌++◌, Option, none, some, ltb, ◌==◌, if◌then◌else◌, length, take, drop,
}
use mv_git.Bytes.{Bytes, bytes_eq}
use mv_git.Wire.{
  magic, magic_len, token_len, opcode_len, nargs_len, len_len, status_len, req_hdr, rsp_hdr,
  max_body, pad_zero, pad_right, hex_enc, hex_dec, is_digit, all_digits,
}

-- The body of a request: each argument behind the length of its encoding.
unfoldable pub request_body : List Bytes → Bytes
request_body [] = []
request_body (a ∷ more) = pad_zero len_len (length (hex_enc a)) ++ (hex_enc a ++ request_body more)

-- The header as snprintf writes it into 65 bytes, of which 64 go out.
unfoldable pub request_header : Bytes → Bytes → ℕ → ℕ → Bytes
request_header token op nargs blen = take req_hdr (
    magic
    ++ (pad_right token_len token
        ++ (pad_right opcode_len op ++ (pad_zero nargs_len nargs ++ pad_zero len_len blen))))

unfoldable pub request : Bytes → Bytes → List Bytes → Bytes
request token op args =
    request_header token op (length args) (length (request_body args)) ++ request_body args

-- What the exchange answers: a status, and the decoded body.
pub record Reply : Type 0 where
  pub status : ℕ
  pub body : Bytes

-- The number that leading digits spell, behind `n`.
unfoldable pub leading : ℕ → Bytes → ℕ
leading n [] = n
leading n (c ∷ s) = if is_digit c then leading (n * 10 + (c - b'0')) s else n

-- isspace
abbrev pub is_space : ℕ → Bool
is_space c = c == b' ' || (leb 9 c && leb c 13)

unfoldable pub skip_space : Bytes → Bytes
skip_space [] = []
skip_space (c ∷ s) = let rest = skip_space s in if is_space c then rest else c ∷ s

abbrev signed : Bytes → Bool × ℕ
signed [] = (false, 0)
signed (c ∷ s) =
    if c == b'-'
    then (true, leading 0 s)
    else if c == b'+'
    then (false, leading 0 s)
    else (false, leading 0 (c ∷ s))

-- atoi and atol: whether there is a minus sign, and the number behind it.
unfoldable pub atoi : Bytes → Bool × ℕ
unfolding skip_space
atoi s = signed (skip_space s)

-- A status is an int, kept as its pattern of 32 bits; a field of four bytes spells none that
-- would not fit.
abbrev pub as_int : Bool × ℕ → ℕ
as_int (false, n) = n
as_int (true, n) = (2 ^ 32 - n) % 2 ^ 32

abbrev pub bad_len : Bool × ℕ → Bool
bad_len (minus, n) = (minus && ltb 0 n) || ltb max_body n

-- The reading half of call_raw, on the bytes that the pipe delivers before the deadline. The
-- results are the reply with the bytes left in the pipe, MVG_ECLOSED and MVG_EPROTO.
pub data Answer : Type 0 where
  answered : Reply → Bytes → Answer
  closed : Answer
  proto : Answer

abbrev read_payload : ℕ → Bytes → Option Bytes → Answer
read_payload status rest none = proto
read_payload status rest (some body) = answered (record { status = status; body = body }) rest

unfoldable pub read_body : ℕ → ℕ → Bytes → Answer
read_body status rlen s =
    if rlen == 0
    then answered (record { status = status; body = [] }) s
    else if ltb (length s) rlen
    then closed
    else read_payload status (drop rlen s) (hex_dec (take rlen s))

unfoldable pub read_reply : Bytes → Answer
read_reply s =
    let status = as_int (atoi (take status_len (drop magic_len s))) in
    let rlen = atoi (take len_len (drop (magic_len + status_len) s)) in
    if ltb (length s) rsp_hdr
    then closed
    else if not (bytes_eq (take magic_len s) magic)
    then proto
    else if bad_len rlen
    then proto
    else read_body status rlen.1 (drop rsp_hdr s)

-- A text of digits is read as the number that they spell.
pub atoi_digits : (s : Bytes) → all_digits s ≡ true → atoi s ≡ (false, leading 0 s)
unfolding all_digits skip_space atoi
atoi_digits [] h = unfold leading in refl
atoi_digits (c ∷ s) h =
    let digit : is_digit c ≡ true = ground (arith, h) in
    let no_space : is_space c ≡ false = ground (arith, digit) in
    let no_minus : (c == b'-') ≡ false = ground (arith, digit) in
    let no_plus : (c == b'+') ≡ false = ground (arith, digit) in
    rw (no_space, no_minus, no_plus) refl
