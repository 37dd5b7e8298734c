-- ===== src/Agent.antt =====
-- The agent that answers a session of src/mvsession.c (BP/GIT.AGENT): the reply that SENDRSP
-- writes, with the widths that the program sets at its start. OCONV with MX0C spells a string in
-- hexadecimal digits, as hex_encode does.
use mv_git.Base.{ℕ, ◌-◌, ◌++◌, length, replicate}
use mv_git.Bytes.{Bytes, codes}
use mv_git.Wire.{hex_encode, show}

-- W.STATUS and W.LEN
abbrev pub w_status : ℕ
w_status = 4

abbrev pub w_len : ℕ
w_len = 10

-- ZPAD: zeros in front of a number that is shorter than its field
unfoldable pub zpad : ℕ → ℕ → Bytes
unfolding show
zpad padv padw = replicate (padw - length (show padv)) b'0' ++ show padv

-- SENDRSP: the header and the encoded result
unfoldable pub send_reply : ℕ → Bytes → Bytes
unfolding zpad hex_encode
send_reply status result =
    let enc = hex_encode result in
    (codes "MVG1" ++ (zpad status w_status ++ zpad (length enc) w_len)) ++ enc
