-- ===== src/Exchange/Reply.antt =====
-- A reply that the agent writes (BP/GIT.AGENT) is what call_raw reads (src/mvsession.c).
use mv_git.Base.{
  ℕ, ◌+◌, ◌-◌, ◌*◌, ◌^◌, ◌<◌, ◌≤◌, true, false, [], ◌∷◌, ◌++◌, some, ◌≡◌, refl, ap, ◌∙◌, arith, ltb,
  ◌==◌, length, take, drop, All, length-append, take_field, drop_field, drop_on, not_short,
  append_assoc,
}
use mv_git.Bytes.{Bytes, IsByte, bytes_eq, bytes_eq_refl}
use mv_git.Agent.{zpad, send_reply}
use mv_git.Session.{leading, atoi, atoi_digits, read_body, read_reply, answered}
use mv_git.Wire.{
  pad_zero, magic, magic_len, status_len, len_len, rsp_hdr, max_body, put_num, hex_encode, hex_dec,
  all_digits, value,
}
use mv_git.Wire.Hex.{hex_decode-encode, hex_dec-decode, length-hex_encode}
use mv_git.Wire.Number.{length-put_num, put_num_pad, padded}

pub leading-value : (s : Bytes) (n : ℕ) → all_digits s ≡ true → leading n s ≡ value n s
unfolding leading value all_digits
leading-value [] n h = refl
leading-value (c ∷ s) n h = ground (arith, leading-value s (n * 10 + (c - b'0')))

atoi-put_num : (width n : ℕ) → 0 < width → n < 10 ^ width → atoi (put_num width n) ≡ (false, n)
atoi-put_num width n pos small =
    let (digits, exact) = padded width n in
    rw (put_num_pad width n pos small) (
      atoi_digits (pad_zero width n) digits
      ∙ ap (λ k. (false, k)) (leading-value (pad_zero width n) 0 digits ∙ exact))

decoded : (body : Bytes) → All IsByte body → hex_dec (hex_encode body) ≡ some body
decoded body h = rw hex_dec-decode (hex_decode-encode body h)

module _ (status : ℕ) (body rest : Bytes) (small : status < 10 ^ status_len)
    (bytes : All IsByte body) (fits : 2 * length body ≤ max_body) where
  payload_len : length (hex_encode body) ≤ max_body
  payload_len = omega (arith, length-hex_encode body)

  after_len : Bytes
  after_len = hex_encode body ++ rest

  after_status : Bytes
  after_status = put_num len_len (length (hex_encode body)) ++ after_len

  after_magic : Bytes
  after_magic = put_num status_len status ++ after_status

  stream : Bytes
  stream = magic ++ after_magic

  status_at : drop 4 stream ≡ after_magic
  unfolding stream
  status_at = refl

  len_at : drop 8 stream ≡ after_status
  len_at =
      drop_on 4 4 8 stream (put_num status_len status) after_status
        (status_at ∙ unfold after_magic in refl) (length-put_num 4 status (omega arith) small)
        (omega arith)

  long : length (hex_encode body) < 10 ^ len_len
  long = omega (arith, payload_len)

  payload_at : drop 18 stream ≡ after_len
  payload_at =
      drop_on 8 10 18 stream (put_num len_len (length (hex_encode body))) after_len
        (len_at ∙ unfold after_status in refl) (length-put_num 10 _ (omega arith) long)
        (omega arith)

  status_taken : take status_len after_magic ≡ put_num status_len status
  unfolding after_magic
  status_taken = take_field 4 _ after_status (length-put_num 4 status (omega arith) small)

  status_read : atoi (take status_len (drop 4 stream)) ≡ (false, status)
  status_read = rw (status_at, status_taken) (atoi-put_num 4 status (omega arith) small)

  len_taken : take len_len after_status ≡ put_num len_len (length (hex_encode body))
  unfolding after_status
  len_taken = take_field 10 _ after_len (length-put_num 10 _ (omega arith) long)

  len_read : atoi (take len_len (drop 8 stream)) ≡ (false, length (hex_encode body))
  len_read = rw (len_at, len_taken) (atoi-put_num 10 _ (omega arith) long)

  status_spelled : put_num status_len status ≡ zpad status 4
  unfolding zpad pad_zero
  status_spelled = put_num_pad 4 status (omega arith) small

  len_spelled : put_num len_len (length (hex_encode body)) ≡ zpad (length (hex_encode body)) 10
  unfolding zpad pad_zero
  len_spelled = put_num_pad 10 _ (omega arith) long

  reply_laid_out : send_reply status body ++ rest ≡ stream
  unfolding send_reply stream after_magic after_status after_len
  reply_laid_out = rw (status_spelled, len_spelled) (simp append_assoc)

  whole_header : ltb (length stream) rsp_hdr ≡ false
  unfolding stream after_magic after_status
  whole_header =
      rw (length-append, length-append, length-append)
        (ground (
          arith,
          length-put_num 4 status (omega arith) small,
          length-put_num 10 (length (hex_encode body)) (omega arith) long,
        ))

  below_max : ltb max_body (length (hex_encode body)) ≡ false
  below_max = ground (arith, payload_len)

  magic_read : bytes_eq (take magic_len stream) magic ≡ true
  unfolding stream
  magic_read = bytes_eq_refl magic

  stream_read : read_reply stream ≡ read_body status (length (hex_encode body)) (drop 18 stream)
  unfolding read_reply
  stream_read = rw (whole_header, magic_read, status_read, len_read, below_max)

payload_read :
    (status : ℕ) (body rest : Bytes)
    → All IsByte body
    → read_body status (length (hex_encode body)) (hex_encode body ++ rest)
      ≡ answered (record { status = status; body = body }) rest
unfolding read_body
payload_read status [] rest h = unfold hex_encode in refl
payload_read status (c ∷ s) rest h =
    let enc = hex_encode (c ∷ s) in
    let some_payload : (length enc == 0) ≡ false = ground (arith, length-hex_encode (c ∷ s)) in
    rw (
      some_payload,
      not_short enc rest (length enc) (omega arith),
      take_field (length enc) enc rest refl,
      drop_field (length enc) enc rest refl,
      decoded (c ∷ s) h,
    )

-- What the client reads of a reply that the agent wrote is the status and the result that the agent
-- had, every byte of it, and the client stops at the frame's end; for a status of at most four
-- digits and a result whose encoding is within the client's limit of 256 MiB.
pub read_reply-send_reply :
    (status : ℕ) (body rest : Bytes)
    → status < 10 ^ status_len
    → All IsByte body
    → 2 * length body ≤ max_body
    → read_reply (send_reply status body ++ rest)
      ≡ answered (record { status = status; body = body }) rest
read_reply-send_reply status body rest small bytes fits =
    ap read_reply (reply_laid_out status body rest small bytes fits)
    ∙ stream_read status body rest small bytes fits
    ∙ ap (read_body status (length (hex_encode body)))
        (payload_at status body rest small bytes fits)
    ∙ unfold after_len in payload_read status body rest bytes
