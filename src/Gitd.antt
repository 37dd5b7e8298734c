-- ===== src/Gitd.antt =====
-- The background process (src/gitd.c): the table of operations, the frames that serve_session
-- reads, the checks that it makes on them in order, and its loop. The engine's operations are a
-- parameter: `run` takes an operation's name and arguments to a status and an output. A pipe is
-- the list of bytes that the client writes before it goes; reading past its end is the client gone.
pub mod Serve
use mv_git.Base.{
  ℕ, zero, suc, ◌+◌, ◌-◌, ◌*◌, Bool, true, false, not, ◌&&◌, ◌||◌, List, [], ◌∷◌, ◌++◌, Option,
  none, some, ltb, leb, ◌==◌, if◌then◌else◌, ◌>>=◌, length, take, drop,
}
use mv_git.Bytes.{Bytes, codes, bytes_eq, c_str}
use mv_git.Record.{rtrim}
use mv_git.Wire.{
  magic, magic_len, token_len, opcode_len, nargs_len, len_len, status_len, req_hdr, rsp_hdr,
  max_body, put_num, get_num, hex_encode, hex_decode, show, Status, status_code,
}

-- OPS: the name of each operation and the number of its arguments.
abbrev pub ops : List (Bytes × ℕ)
ops =
    (codes "PING", 0)
    ∷ (codes "FLUSH", 1)
    ∷ (codes "INIT", 1)
    ∷ (codes "STAGE", 4)
    ∷ (codes "STAGEBLOB", 3)
    ∷ (codes "STAGECTL", 3)
    ∷ (codes "IXCAT", 2)
    ∷ (codes "STAGED", 1)
    ∷ (codes "PUTDESC", 3)
    ∷ (codes "COMMIT", 2)
    ∷ (codes "STATUS", 1)
    ∷ (codes "PRUNE", 2)
    ∷ (codes "INDEXIDS", 2)
    ∷ (codes "LOG", 2)
    ∷ (codes "BRANCH", 2)
    ∷ (codes "FILES", 1)
    ∷ (codes "FURNITURE", 2)
    ∷ (codes "VOCDROP", 2)
    ∷ (codes "ISOPEN", 1)
    ∷ (codes "ADDDISK", 2)
    ∷ (codes "PROJECT", 4)
    ∷ (codes "VERSION", 1)
    ∷ (codes "STAGEDESC", 3)
    ∷ (codes "CAT", 2)
    ∷ (codes "DIFF", 2)
    ∷ (codes "DIFFU", 2)
    ∷ (codes "UDIFF", 4)
    ∷ (codes "SHOW", 3)
    ∷ (codes "RM", 3)
    ∷ (codes "ADDSUB", 2)
    ∷ (codes "MERGE", 2)
    ∷ (codes "CHERRYPICK", 2)
    ∷ (codes "SWITCH", 2)
    ∷ (codes "CHECKOUT", 2)
    ∷ (codes "RESTORE", 2)
    ∷ (codes "TAG", 5)
    ∷ (codes "CONFIG", 3)
    ∷ (codes "REMOTE", 4)
    ∷ (codes "CLONE", 4)
    ∷ (codes "FETCH", 2)
    ∷ (codes "PUSH", 3)
    ∷ (codes "PULL", 3)
    ∷ (codes "PULLREF", 3)
    ∷ []

-- the row of an operation: how many arguments it takes
unfoldable pub find_op : Bytes → List (Bytes × ℕ) → Option ℕ
unfolding bytes_eq
find_op name [] = none
find_op name ((op, n) ∷ rest) = if bytes_eq name op then some n else find_op name rest

-- The length-prefixed arguments of a body; `none` is `malformed`. Bytes behind them are not read.
unfoldable pub split_args : ℕ → Bytes → Option (List Bytes)
split_args zero body = some []
split_args (suc n) body =
    let rest = drop len_len body in
    if ltb (length body) len_len then none else do
      al ← get_num body len_len
      if ltb (length rest) al
          then none
          else do a ← hex_decode (take al rest); more ← split_args n (drop al rest); some (a ∷ more)

-- What a frame comes to: the client is gone; an error that ends the session; a request, with what
-- stands behind it in the pipe.
pub data Parsed : Type 0 where
  gone : Parsed
  refuse : Status → Bytes → Parsed
  call : Bytes → List Bytes → Bytes → Parsed
  bye : Parsed
  shutdown : Parsed

-- the operation's name, without the blanks behind it
unfoldable pub opcode_of : Bytes → Bytes
opcode_of hdr = c_str (rtrim b' ' (take opcode_len (drop (magic_len + token_len) hdr)))

abbrev with_args : Bytes → Bytes → Option (List Bytes) → Parsed
with_args op rest none = refuse Status.eproto (codes "malformed argument framing")
with_args op rest (some args) = call op args rest

unfoldable pub parse_body : Bytes → ℕ → ℕ → Bytes → Parsed
parse_body op nargs bodylen s =
    if ltb (length s) bodylen
    then gone
    else if bytes_eq op (codes "BYE")
    then bye
    else if bytes_eq op (codes "SHUTDOWN")
    then shutdown
    else with_args op (drop bodylen s) (split_args nargs (take bodylen s))

abbrev with_header : Bytes → Option ℕ → Option ℕ → Bytes → Parsed
with_header op none o s = refuse Status.eproto (codes "malformed frame header")
with_header op (some nargs) none s = refuse Status.eproto (codes "malformed frame header")
with_header op (some nargs) (some bodylen) s =
    if ltb max_body bodylen
    then refuse Status.eproto (codes "malformed frame header")
    else parse_body op nargs bodylen s

-- the message holds a dash of three bytes
abbrev pub bad_magic : Bytes
bad_magic = codes "bad frame magic " ++ (0xE2 ∷ 0x80 ∷ 0x94 ∷ codes " stream desynchronised")

unfoldable pub parse_frame : Bytes → Bytes → Parsed
parse_frame token s =
    if ltb (length s) req_hdr
    then gone
    else if not (bytes_eq (take magic_len s) magic)
    then refuse Status.eproto bad_magic
    else if not (bytes_eq (take token_len (drop magic_len s)) token)
    then refuse Status.eauth (codes "token mismatch")
    else with_header (opcode_of s) (get_num (drop (magic_len + token_len + opcode_len) s) nargs_len)
        (get_num (drop (magic_len + token_len + opcode_len + nargs_len) s) len_len) (drop req_hdr s)

-- send_rsp
unfoldable pub send_rsp : ℕ → Bytes → Bytes
send_rsp status body =
    let enc = hex_encode body in
    magic ++ (put_num status_len status ++ (put_num len_len (length enc) ++ enc))

abbrev pub send_err : Status → Bytes → Bytes
send_err status msg = send_rsp (status_code status) msg

-- An operation's result: its status and its output.
pub record OpRes : Type 0 where
  pub status : ℕ
  pub out : Bytes

abbrev unknown_opcode : Bytes → Bytes
unknown_opcode op = codes "unknown opcode '" ++ (op ++ codes "'")

abbrev wrong_count : Bytes → ℕ → ℕ → Bytes
wrong_count op takes got =
    op ++ (codes " takes " ++ (show takes ++ (codes " arguments, got " ++ show got)))

module _ {ℓ} {W : Type ℓ} (run : Bytes → List Bytes → W → OpRes × W) where
  -- The reply to a request whose frame was accepted, and the state that it leaves.
  abbrev pub answer : Bytes → List Bytes → W → Option ℕ → Bytes × W
  answer op args w none = (send_err Status.eopcode (unknown_opcode op), w)
  answer op args w (some n) =
      let (r, w') = run op args w in
      if length args == n
      then (send_rsp r.status r.out, w')
      else (send_err Status.eargs (wrong_count op n (length args)), w)

  unfoldable pub dispatch : Bytes → List Bytes → W → Bytes × W
  unfolding find_op
  dispatch op args w = answer op args w (find_op op ops)

-- How a session ends: what was written to the client, the state, and whether the server was told
-- to stop.
pub record Served {ℓ} (W : Type ℓ) : Type ℓ where
  pub out : Bytes
  pub world : W
  pub stop_server : Bool

abbrev pub after {ℓ} : {W : Type ℓ} → Bytes → Served W → Served W
after out r = record r { out = out ++ r.out }

module _ {ℓ} {W : Type ℓ} (run : Bytes → List Bytes → W → OpRes × W) (batch_end : W → W) where
  -- behind the loop an open batch is closed
  abbrev pub leave : Bytes → W → Bool → Served W
  leave out w stop = record { out = out; world = batch_end w; stop_server = stop }

  -- One round, on what the frame came to; `next` is the rest of the loop.
  abbrev pub round : (Bytes → W → Served W) → W → Parsed → Served W
  round next w gone = leave [] w false
  round next w (refuse status msg) = leave (send_err status msg) w false
  round next w bye = leave (send_rsp 0 []) w false
  round next w shutdown = leave (send_rsp 0 []) w true
  round next w (call op args rest) =
      let (out, w') = dispatch run op args w in after out (next rest w')

  -- The loop, on fuel: each round takes a header off the pipe, so the number of its bytes is enough.
  unfoldable pub serve : ℕ → Bytes → Bytes → W → Served W
  serve zero token s w = leave [] w false
  serve (suc fuel) token s w = round (serve fuel token) w (parse_frame token s)

  -- serve_session: the loop with enough fuel
  unfoldable pub serve_session : Bytes → Bytes → W → Served W
  serve_session token s w = serve (suc (length s)) token s w
