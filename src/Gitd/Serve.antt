-- ===== src/Gitd/Serve.antt =====
-- The loop of serve_session: it always ends, it answers requests in order, and a stream that does
-- not show the session's token reaches no operation.
use mv_git.Base.{
  ℕ, zero, suc, ◌+◌, ◌<◌, ◌≤◌, Bool, true, false, not, List, Option, none, some, ◌≡◌, ◌≢◌, refl, ap,
  arith, ltb, if◌then◌else◌, length, take, drop, length-drop, Bool-cases, inl, inr, ◌⊎◌,
}
use mv_git.Bytes.{Bytes, codes, bytes_eq, bytes_eq_iff}
use mv_git.Gitd.{
  Parsed, refuse, call, shutdown, OpRes, parse_frame, with_header, with_args, parse_body, opcode_of,
  round, bad_magic, split_args, dispatch, Served, after, serve, serve_session,
}
use mv_git.Wire.{Status, magic, token_len, req_hdr, get_num}

-- The bytes that a request leaves behind it in the pipe, and `k` more.
abbrev pub room : ℕ → Parsed → ℕ
room k (call op args rest) = length rest + k
room k _ = 0

with_args-room :
    (n : ℕ) (op rest : Bytes) (o : Option (List Bytes))
    → length rest ≤ n
    → room 0 (with_args op rest o) ≤ n
with_args-room n op rest none h = omega arith
with_args-room n op rest (some args) h = omega arith

parse_body-room :
    (op : Bytes) (nargs bodylen : ℕ) (s : Bytes) → room 0 (parse_body op nargs bodylen s) ≤ length s
unfolding parse_body
parse_body-room op nargs bodylen s = ground (
  arith,
  length-drop bodylen s,
  with_args-room (length s) op (drop bodylen s) (split_args nargs (take bodylen s)),
)

with_header-room :
    (op : Bytes) (nargs bodylen : Option ℕ) (s : Bytes)
    → room 0 (with_header op nargs bodylen s) ≤ length s
with_header-room op none o s = omega arith
with_header-room op (some nargs) none s = omega arith
with_header-room op (some nargs) (some bodylen) s =
    ground (arith, parse_body-room op nargs bodylen s)

room_more : (k n : ℕ) (p : Parsed) → room 0 p + k ≤ n → room k p ≤ n
room_more k n (call op args rest) h = omega arith
room_more k n _ h = omega arith

-- the two checks in front of the header's numbers
checks_room :
    (n : ℕ) (a b : Bool) (s t : Status) (x y : Bytes) (p : Parsed)
    → room 64 p ≤ n
    → room 64 (if a then refuse s x else if b then refuse t y else p) ≤ n
checks_room n true b s t x y p h = omega arith
checks_room n false true s t x y p h = omega arith
checks_room n false false s t x y p h = h

header_room :
    (s : Bytes)
    → ltb (length s) req_hdr ≡ false
    → room 64
        (with_header (opcode_of s) (get_num (drop 52 s) 2) (get_num (drop 54 s) 10) (drop 64 s))
      ≤ length s
header_room s e =
    let behind =
      with_header-room (opcode_of s) (get_num (drop 52 s) 2) (get_num (drop 54 s) 10) (drop 64 s) in
    let long : 64 ≤ length s = ground arith in
    room_more 64 (length s) _ (omega (arith, behind, length-drop 64 s))

-- Every frame that holds a request takes at least its header off the pipe.
pub parse_frame-room : (token s : Bytes) → room req_hdr (parse_frame token s) ≤ length s
unfolding parse_frame
parse_frame-room token s = elim (Bool-cases (ltb (length s) req_hdr)) [
  | inl e ↦ rw e (omega arith)
  | inr e ↦ rw e (
      checks_room (length s) (not (bytes_eq (take 4 s) magic))
        (not (bytes_eq (take token_len (drop 4 s)) token)) Status.eproto Status.eauth bad_magic
        (codes "token mismatch") _ (header_room s e))
]

room_less : (p : Parsed) (n : ℕ) → room 64 p ≤ n → room 1 p ≤ n
room_less (call op args rest) n h = omega arith
room_less _ n h = omega arith

module _ {ℓ} {W : Type ℓ} (run : Bytes → List Bytes → W → OpRes × W) (batch_end : W → W) where
  round_same :
      (one two : Bytes → W → Served W) (w : W) (p : Parsed) (n : ℕ)
      → room 1 p ≤ n
      → ((rest : Bytes) (w' : W) → length rest < n → one rest w' ≡ two rest w')
      → round run batch_end one w p ≡ round run batch_end two w p
  round_same one two w (call op args rest) n h same =
      ap (after (dispatch run op args w).0) (same rest (dispatch run op args w).1 (omega arith))
  round_same one two w _ n h same = refl

  pub serve_same :
      (f g : ℕ) (token s : Bytes) (w : W)
      → length s < f
      → length s < g
      → serve run batch_end f token s w ≡ serve run batch_end g token s w
  unfolding serve
  serve_same zero g token s w hf hg = absurd (omega arith)
  serve_same (suc f) zero token s w hf hg = absurd (omega arith)
  serve_same (suc f) (suc g) token s w hf hg =
      round_same (serve run batch_end f token) (serve run batch_end g token) w (parse_frame token s)
        (length s) (room_less (parse_frame token s) (length s) (parse_frame-room token s))
        (λ rest w' h. serve_same f g token rest w' (omega arith) (omega arith))

  -- The loop does not depend on its fuel once that exceeds the bytes in the pipe: the session is
  -- left at a frame that ends it or at the end of the pipe, and never for want of rounds.
  pub serve_session_rounds :
      (fuel : ℕ) (token s : Bytes) (w : W)
      → length s < fuel
      → serve run batch_end fuel token s w ≡ serve_session run batch_end token s w
  unfolding serve_session
  serve_session_rounds fuel token s w h = serve_same fuel (suc (length s)) token s w h (omega arith)

-- What a frame that shows another magic or another token comes to.
abbrev IsForeign : Bytes → Bytes → Type 0
IsForeign token s = (take 4 s ≢ magic) ⊎ (take token_len (drop 4 s) ≢ token)

abbrev IsCall : Parsed → Type 0
IsCall (call op args rest) = Unit
IsCall shutdown = Unit
IsCall _ = ⊥

checks_no-IsCall :
    (a b : Bool) (s t : Status) (x y : Bytes) (p : Parsed)
    → (a ≡ true) ⊎ (b ≡ true)
    → ¬ IsCall (if a then refuse s x else if b then refuse t y else p)
checks_no-IsCall true b s t x y p h = λ x. x
checks_no-IsCall false true s t x y p h = λ x. x
checks_no-IsCall false false s t x y p (inl h) = absurd (ground (arith, h))
checks_no-IsCall false false s t x y p (inr h) = absurd (ground (arith, h))

differs : (a b : Bytes) → a ≢ b → not (bytes_eq a b) ≡ true
differs a b h = elim (Bool-cases (bytes_eq a b)) [
  | inl e ↦ absurd (h ((bytes_eq_iff a b).0 e))
  | inr e ↦ rw e refl
]

either_check :
    (token s : Bytes)
    → IsForeign token s
    → (not (bytes_eq (take 4 s) magic) ≡ true)
      ⊎ (not (bytes_eq (take token_len (drop 4 s)) token) ≡ true)
either_check token s (inl h) = inl (differs (take 4 s) magic h)
either_check token s (inr h) = inr (differs (take token_len (drop 4 s)) token h)

foreign_no-IsCall : (token s : Bytes) → IsForeign token s → ¬ IsCall (parse_frame token s)
unfolding parse_frame
foreign_no-IsCall token s h = elim (Bool-cases (ltb (length s) req_hdr)) [
  | inl e ↦ rw e (λ x. x)
  | inr e ↦ rw e (
      checks_no-IsCall (not (bytes_eq (take 4 s) magic))
        (not (bytes_eq (take token_len (drop 4 s)) token)) Status.eproto Status.eauth bad_magic
        (codes "token mismatch") _ (either_check token s h))
]

module _ {ℓ} {W : Type ℓ} (run : Bytes → List Bytes → W → OpRes × W) (batch_end : W → W) where
  round_no_call :
      (next : Bytes → W → Served W) (w : W) (p : Parsed)
      → ¬ IsCall p
      → ((round run batch_end next w p).world ≡ batch_end w)
        × ((round run batch_end next w p).stop_server ≡ false)
  round_no_call next w (call op args rest) h = absurd (h tt)
  round_no_call next w shutdown h = absurd (h tt)
  round_no_call next w _ h = (refl, refl)

  -- A stream whose first frame does not show the magic and the session's token runs no operation and
  -- does not stop the server: the session ends with nothing done but the batch closed.
  pub serve_session-IsForeign :
      (token s : Bytes) (w : W)
      → IsForeign token s
      → ((serve_session run batch_end token s w).world ≡ batch_end w)
        × ((serve_session run batch_end token s w).stop_server ≡ false)
  unfolding serve_session serve
  serve_session-IsForeign token s w h =
      round_no_call (serve run batch_end (length s) token) w (parse_frame token s)
        (foreign_no-IsCall token s h)
