-- ===== src/Exchange/Request.antt =====
-- A request that call_raw writes is what serve_session reads.
use mv_git.Base.{
  ℕ, suc, ◌+◌, ◌^◌, ◌<◌, ◌≤◌, true, false, List, [], ◌∷◌, ◌++◌, some, ◌≡◌, refl, ◌∙◌, arith, ltb,
  ◌>>=◌, length, take, drop, All, append_assoc, length-append, take_field, drop_field, drop_on,
  not_short,
}
use mv_git.Bytes.{Bytes, IsByte, codes, bytes_eq, bytes_eq_refl}
use mv_git.Bytes.Split.{Lacks}
use mv_git.Exchange.Fields.{rtrim-pad_right, length-pad_right, c_str_whole, header_fields}
use mv_git.Gitd.{call, split_args, opcode_of, parse_body, parse_frame}
use mv_git.Record.{rtrim}
use mv_git.Session.{request_body, request}
use mv_git.Wire.{
  magic, token_len, opcode_len, nargs_len, len_len, req_hdr, max_body, pad_right, pad_zero, hex_enc,
  get_num, hex_decode,
}
use mv_git.Wire.Hex.{hex_decode-encode, hex_enc-encode}
use mv_git.Wire.Number.{length-pad_zero, get_num-pad_zero}

-- The requests that the protocol can carry, under the token of the session.
pub record IsRequest (token op : Bytes) (args : List Bytes) : Type 0 where
  pub token_full : length token ≡ token_len
  pub op_short : length op ≤ opcode_len
  pub op_text : Lacks 0 op
  pub op_tight : rtrim b' ' op ≡ op
  pub not_bye : bytes_eq op (codes "BYE") ≡ false
  pub not_shutdown : bytes_eq op (codes "SHUTDOWN") ≡ false
  pub few : length args ≤ 99
  pub bytes : All (All IsByte) args
  pub fits : length (request_body args) ≤ max_body

-- One argument in front of a body.
take_arg :
    (a more : Bytes)
    → length (hex_enc a) < 10 ^ len_len
    → drop len_len (pad_zero len_len (length (hex_enc a)) ++ (hex_enc a ++ more))
      ≡ hex_enc a ++ more
take_arg a more small =
    drop_field len_len (pad_zero len_len (length (hex_enc a))) (hex_enc a ++ more)
      (length-pad_zero len_len _ (omega arith) small)

-- The length of a body with one more argument in front.
pub length-request_body :
    (a : Bytes) (more : List Bytes)
    → length (request_body (a ∷ more))
      ≡ length (pad_zero len_len (length (hex_enc a)))
        + (length (hex_enc a) + length (request_body more))
unfolding request_body
length-request_body a more = rw (length-append, length-append)

decode_enc : (a : Bytes) → All IsByte a → hex_decode (hex_enc a) ≡ some a
decode_enc a h = rw (hex_enc-encode a) (hex_decode-encode a h)

split_args-cons :
    (n : ℕ) (a body : Bytes)
    → All IsByte a
    → length (hex_enc a) ≤ max_body
    → split_args (suc n) (pad_zero len_len (length (hex_enc a)) ++ (hex_enc a ++ body))
      ≡ (split_args n body >>= λ more. some (a ∷ more))
unfolding split_args
split_args-cons n a body h small =
    let enc = hex_enc a in
    let width = length-pad_zero len_len (length enc) (omega arith) (omega arith) in
    rw
      (
        take_arg a body (omega arith),
        not_short (pad_zero len_len (length enc)) (enc ++ body) 10 (omega arith),
      )
      (rw
        (get_num-pad_zero len_len (length enc) (enc ++ body) (omega arith) (omega arith)
          (omega arith) (omega arith))
        (rw (
          not_short enc body (length enc) (omega arith),
          take_field (length enc) enc body refl,
          drop_field (length enc) enc body refl,
          decode_enc a h,
        )))

split_args-body :
    (args : List Bytes)
    → All (All IsByte) args
    → length (request_body args) ≤ max_body
    → split_args (length args) (request_body args) ≡ some args
split_args-body [] h small = unfold split_args in refl
split_args-body (a ∷ more) (ha, hm) small =
    let parts = length-request_body a more in
    body_cons a more
    ∙ split_args-cons (length more) a (request_body more) ha (omega arith)
    ∙ rw (split_args-body more hm (omega arith))
  where
    body_cons :
        (a : Bytes) (more : List Bytes)
        → split_args (suc (length more)) (request_body (a ∷ more))
          ≡ split_args
              (suc (length more))
              (pad_zero len_len (length (hex_enc a)) ++ (hex_enc a ++ request_body more))
    body_cons a more = unfold request_body in refl

module _ (token op : Bytes) (args : List Bytes) (rest : Bytes) (h : IsRequest token op args) where
  few : length args < 10 ^ nargs_len
  few = let at_most = h.few in omega arith

  small : length (request_body args) < 10 ^ len_len
  small = let fits = h.fits in omega arith

  after_body : Bytes
  after_body = request_body args ++ rest

  after_nargs : Bytes
  after_nargs = pad_zero len_len (length (request_body args)) ++ after_body

  after_op : Bytes
  after_op = pad_zero nargs_len (length args) ++ after_nargs

  after_token : Bytes
  after_token = pad_right opcode_len op ++ after_op

  request_laid_out : request token op args ++ rest ≡ magic ++ (token ++ after_token)
  unfolding request after_token after_op after_nargs after_body
  request_laid_out =
      rw
        (header_fields token op (length args) (length (request_body args)) h.token_full h.op_short
          few small)
        (simp append_assoc)

  stream : Bytes
  stream = magic ++ (token ++ after_token)

  op_at : drop 36 stream ≡ after_token
  unfolding stream
  op_at = drop_on 4 32 36 stream token after_token refl h.token_full (omega arith)

  nargs_at : drop 52 stream ≡ after_op
  nargs_at =
      drop_on 36 16 52 stream (pad_right opcode_len op) after_op
        (op_at ∙ unfold after_token in refl) (length-pad_right opcode_len op h.op_short)
        (omega arith)

  bodylen_at : drop 54 stream ≡ after_nargs
  bodylen_at =
      drop_on 52 2 54 stream (pad_zero nargs_len (length args)) after_nargs
        (nargs_at ∙ unfold after_op in refl) (length-pad_zero nargs_len _ (omega arith) few)
        (omega arith)

  body_at : drop 64 stream ≡ after_body
  body_at =
      drop_on 54 10 64 stream (pad_zero len_len (length (request_body args))) after_body
        (bodylen_at ∙ unfold after_nargs in refl) (length-pad_zero len_len _ (omega arith) small)
        (omega arith)

  op_taken : take opcode_len after_token ≡ pad_right opcode_len op
  unfolding after_token
  op_taken = take_field opcode_len _ after_op (length-pad_right opcode_len op h.op_short)

  name_read : opcode_of stream ≡ op
  unfolding opcode_of
  name_read =
      rw (op_at, op_taken, rtrim-pad_right opcode_len op, h.op_tight) (c_str_whole op h.op_text)

  nargs_read : get_num (drop 52 stream) nargs_len ≡ some (length args)
  nargs_read = rw nargs_at (
      unfold after_op in
      get_num-pad_zero nargs_len (length args) after_nargs (omega arith) (omega arith) few
        (let at_most = h.few in omega arith))

  bodylen_read : get_num (drop 54 stream) len_len ≡ some (length (request_body args))
  bodylen_read = rw bodylen_at (
      unfold after_nargs in
      get_num-pad_zero len_len (length (request_body args)) after_body (omega arith) (omega arith)
        small (let fits = h.fits in omega arith))

  whole_header : ltb (length stream) req_hdr ≡ false
  unfolding stream after_token after_op after_nargs
  whole_header =
      rw (length-append, length-append, length-append, length-append, length-append)
        (ground (
          arith,
          h.token_full,
          length-pad_right opcode_len op h.op_short,
          length-pad_zero nargs_len (length args) (omega arith) few,
          length-pad_zero len_len (length (request_body args)) (omega arith) small,
        ))

  token_read : bytes_eq (take token_len (drop 4 stream)) token ≡ true
  unfolding stream
  token_read = rw (take_field token_len token after_token h.token_full) (bytes_eq_refl token)

  body_read :
      parse_body op (length args) (length (request_body args)) after_body ≡ call op args rest
  unfolding parse_body after_body
  body_read = rw (
    not_short (request_body args) rest (length (request_body args)) (omega arith),
    h.not_bye,
    h.not_shutdown,
    take_field (length (request_body args)) (request_body args) rest refl,
    drop_field (length (request_body args)) (request_body args) rest refl,
    split_args-body args h.bytes h.fits,
  )

  below_max : ltb max_body (length (request_body args)) ≡ false
  below_max = let fits = h.fits in ground arith

  magic_read : bytes_eq (take 4 stream) magic ≡ true
  unfolding stream
  magic_read = bytes_eq_refl magic

  parse_stream : parse_frame token stream ≡ call op args rest
  unfolding parse_frame
  parse_stream =
      rw
        (
          whole_header, magic_read, token_read, name_read, nargs_read, bodylen_read, below_max,
          body_at,
        )
        body_read

  -- Whatever follows a request in the pipe, the server reads the operation and the arguments that
  -- the client sent and stops at the end of the frame.
  pub parse_frame-request : parse_frame token (request token op args ++ rest) ≡ call op args rest
  parse_frame-request = rw request_laid_out (unfold stream in parse_stream)
