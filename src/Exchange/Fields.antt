-- ===== src/Exchange/Fields.antt =====
-- The fields of a request header, and the trimming of the operation's name.
use mv_git.Base.{
  ℕ, zero, suc, ◌-◌, ◌^◌, ◌<◌, ◌≤◌, [], ◌∷◌, ◌++◌, ◌≡◌, refl, ap, ◌∙◌, arith, length, replicate,
  append-nil, length-append, length-replicate, take_all, ==_refl,
}
use mv_git.Bytes.{Bytes, c_str}
use mv_git.Bytes.Split.{Lacks}
use mv_git.Record.{rtrim, keep}
use mv_git.Session.{request_header}
use mv_git.Wire.{magic, token_len, opcode_len, nargs_len, len_len, req_hdr, pad_right, pad_zero}
use mv_git.Wire.Number.{length-pad_zero}

rtrim-replicate : (b k : ℕ) → rtrim b (replicate k b) ≡ []
unfolding rtrim
rtrim-replicate b zero = refl
rtrim-replicate b (suc k) = rw (rtrim-replicate b k, ==_refl b)

rtrim-append : (b k : ℕ) (s : Bytes) → rtrim b (s ++ replicate k b) ≡ rtrim b s
unfolding rtrim
rtrim-append b k [] = rtrim-replicate b k
rtrim-append b k (c ∷ s) = ap (keep b c) (rtrim-append b k s)

pub rtrim-pad_right : (n : ℕ) (s : Bytes) → rtrim b' ' (pad_right n s) ≡ rtrim b' ' s
unfolding pad_right
rtrim-pad_right n s = rtrim-append b' ' (n - length s) s

pub length-pad_right : (n : ℕ) (s : Bytes) → length s ≤ n → length (pad_right n s) ≡ n
unfolding pad_right
length-pad_right n s h =
    length-append s (replicate (n - length s) b' ') ∙ rw length-replicate (omega arith)

pad_right_full : (n : ℕ) (s : Bytes) → length s ≡ n → pad_right n s ≡ s
unfolding pad_right
pad_right_full n s h =
    let e : n - length s ≡ 0 = omega arith in ap (λ k. s ++ replicate k b' ') e ∙ append-nil s

pub c_str_whole : (s : Bytes) → Lacks 0 s → c_str s ≡ s
unfolding c_str
c_str_whole [] h = refl
c_str_whole (c ∷ s) (hc, hs) = ground (arith, c_str_whole s hs)

module _ (token op : Bytes) (nargs blen : ℕ) (full : length token ≡ token_len)
    (short : length op ≤ opcode_len) (few : nargs < 10 ^ nargs_len)
    (small : blen < 10 ^ len_len) where
  -- Nothing of the header is cut off: the fields fill the 64 bytes.
  pub header_fields :
      request_header token op nargs blen
      ≡ magic
        ++ (token
            ++ (pad_right opcode_len op ++ (pad_zero nargs_len nargs ++ pad_zero len_len blen)))
  unfolding request_header
  header_fields = rw (pad_right_full token_len token full) (
      take_all req_hdr _ (
        rw (length-append, length-append, length-append, length-append)
          (omega (
            arith,
            length-pad_right opcode_len op short,
            length-pad_zero nargs_len nargs (omega arith) few,
            length-pad_zero len_len blen (omega arith) small,
          ))))
