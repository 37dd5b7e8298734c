-- ===== src/Tests/Exchanges.antt =====
-- Theorems on the wire, applied to a server that echoes the name of each operation (src/gitd.c,
-- src/mvsession.c).
use mv_git.Base.{
  ℕ, suc, true, false, [], ◌∷◌, ◌++◌, ◌≡◌, ◌≢◌, refl, arith, length, ◌≤◌, ◌+◌, some, inl, List,
  replicate, take,
}
use mv_git.Bytes.{Bytes, codes, bytes_eq, bytes_eq_iff}
use mv_git.Exchange.Request.{IsRequest}
use mv_git.Agent.{send_reply}
use mv_git.Exchange.Reply.{read_reply-send_reply}
use mv_git.Exchange.Talk.{Calls, sent, done_in_order, as_served, serve_session-sent}
use mv_git.Gitd.{OpRes, serve_session, serve}
use mv_git.Gitd.Serve.{serve_session_rounds, serve_session-IsForeign}
use mv_git.Record.{rtrim}
use mv_git.Session.{request_body, read_reply, answered}
use mv_git.Wire.{hex_enc, put_num, get_num, pad_zero, show, show_digits, max_body, magic}
use mv_git.Wire.Number.{get_num-put_num}

abbrev echo : Bytes → List Bytes → ℕ → OpRes × ℕ
echo op args w = (record { status = 0; out = op }, suc w)

-- closing the batch adds a hundred
abbrev close_batch : ℕ → ℕ
close_batch w = w + 100

abbrev token : Bytes
token = replicate 32 b'a'

abbrev one_arg : List Bytes
one_arg = codes "A" ∷ []

body_fits : length (request_body one_arg) ≤ max_body
unfolding request_body hex_enc pad_zero show show_digits
body_fits = omega arith

-- the operation takes one argument
files-IsRequest : IsRequest token (codes "FILES") one_arg
unfolding rtrim bytes_eq
files-IsRequest = record {
  token_full = refl;
  op_short = omega arith;
  op_text = (omega arith, (omega arith, (omega arith, (omega arith, (omega arith, tt)))));
  op_tight = refl;
  not_bye = refl;
  not_shutdown = refl;
  few = omega arith;
  bytes = ((omega arith, tt), tt);
  fits = body_fits;
}

abbrev two_calls : Calls
two_calls = (codes "FILES", one_arg) ∷ (codes "FILES", one_arg) ∷ []

serve_session-sent_example :
    serve_session echo close_batch token (sent token two_calls) 0
    ≡ as_served echo close_batch (done_in_order echo close_batch two_calls 0)
serve_session-sent_example =
    serve_session-sent echo close_batch token two_calls 0 (files-IsRequest, (files-IsRequest, tt))

read_reply-send_reply_example :
    read_reply (send_reply 1 (codes "no") ++ send_reply 0 [])
    ≡ answered (record { status = 1; body = codes "no" }) (send_reply 0 [])
read_reply-send_reply_example =
    read_reply-send_reply 1 (codes "no") (send_reply 0 []) (omega arith)
      (omega arith, (omega arith, tt)) (omega arith)

serve_session_rounds_example :
    serve echo close_batch 9 token (codes "MVG1") 0
    ≡ serve_session echo close_batch token (codes "MVG1") 0
serve_session_rounds_example =
    serve_session_rounds echo close_batch 9 token (codes "MVG1") 0 (omega arith)

foreign : take 4 (codes "HTTP") ≢ magic
unfolding bytes_eq
foreign h = let same = (bytes_eq_iff (codes "HTTP") magic).1 h in not_true same
  where
    not_true : false ≡ true → ⊥
    not_true e = cc

serve_session-IsForeign_example :
    ((serve_session echo close_batch token (codes "HTTP") 0).world ≡ 100)
    × ((serve_session echo close_batch token (codes "HTTP") 0).stop_server ≡ false)
serve_session-IsForeign_example =
    serve_session-IsForeign echo close_batch token (codes "HTTP") 0 (inl foreign)

get_num-put_num_example : get_num (put_num 10 254 ++ codes "FF") 10 ≡ some 254
get_num-put_num_example =
    get_num-put_num 10 254 (codes "FF") (omega arith) (omega arith) (omega arith) (omega arith)
