-- ===== src/Server/Greet.antt =====
-- The greeting of a session (src/gitd.c): what do_connect writes is what server_loop reads, byte by
-- byte; and what a server writes to the pid file is what the next command reads there.
use mv_git.Base.{
  ℕ, suc, ◌+◌, ◌-◌, ◌*◌, ◌<◌, ◌≤◌, Bool, true, false, List, [], ◌∷◌, ◌++◌, Option, none, some, ◌≡◌,
  ◌≢◌, refl, sym, ap, ◌∙◌, arith, ltb, ◌==◌, length, All-append, append-nil, append_assoc, ==_refl,
  length-append,
}
use mv_git.Bytes.{Bytes, codes, newline, starts_with}
use mv_git.Bytes.Split.{Lacks}
use mv_git.Exchange.Reply.{leading-value}
use mv_git.Paths.Storable.{upto-append}
use mv_git.Record.{is_empty}
use mv_git.Server.{
  Greeting, Loop, Tick, input, greet, hello, behind, line_size, reaped, handed, turn, server_loop,
}
use mv_git.Session.{leading, atoi, skip_space}
use mv_git.Wire.{show, value, all_digits, is_digit}
use mv_git.Wire.Number.{value-show, digits-show}

show_zero : show 0 ≢ []
unfolding show
show_zero = cc

pub show-ne-nil : (n : ℕ) → show n ≢ []
show-ne-nil n e =
    let z : value 0 [] ≡ n = ap (value 0) (sym e) ∙ value-show n in
    let k : n ≡ 0 = (unfold value in sym z) in show_zero (ap show (sym k) ∙ e)

pub leading_stop : (n : ℕ) (s t : Bytes) → leading n (s ++ b' ' ∷ t) ≡ leading n s
unfolding leading
leading_stop n [] t = refl
leading_stop n (c ∷ s) t = rw (leading_stop (n * 10 + (c - b'0')) s t) refl

digits_first :
    (c : ℕ) (s t : Bytes)
    → is_digit c ≡ true
    → atoi (c ∷ (s ++ b' ' ∷ t)) ≡ (false, leading 0 (c ∷ (s ++ b' ' ∷ t)))
unfolding atoi skip_space
digits_first c s t h = ground arith

atoi_number :
    (s t : Bytes) → s ≢ [] → all_digits s ≡ true → atoi (s ++ b' ' ∷ t) ≡ (false, value 0 s)
unfolding all_digits
atoi_number [] t ne h = absurd (ne refl)
atoi_number (c ∷ s) t ne h =
    let d : is_digit c ≡ true = ground arith in
    digits_first c s t d
    ∙ ap (λ n. (false, n)) (leading_stop 0 (c ∷ s) t ∙ leading-value (c ∷ s) 0 h)

behind-append : (b : ℕ) (p s : Bytes) → Lacks b p → behind b (p ++ b ∷ s) ≡ some s
unfolding behind
behind-append b [] s h = rw (==_refl b) refl
behind-append b (c ∷ p) s (hc, h) =
    let e : (c == b) ≡ false = ground arith in rw (e, behind-append b p s h) refl

digits-Lacks : (s : Bytes) → all_digits s ≡ true → Lacks b' ' s
unfolding all_digits
digits-Lacks [] h = tt
digits-Lacks (c ∷ s) h = (ground arith, digits-Lacks s (ground arith))

digits-newline : (s : Bytes) → all_digits s ≡ true → Lacks newline s
unfolding all_digits
digits-newline [] h = tt
digits-newline (c ∷ s) h = (ground arith, digits-newline s (ground arith))

server_step :
    (s t : Loop) (tick : Tick) (ticks : List Tick)
    → turn s tick ≡ (t, true)
    → server_loop s (tick ∷ ticks) ≡ server_loop t ticks
unfolding server_loop
server_step s t tick ticks e = rw e refl

-- a greeting without its newline
abbrev pub greeting_line : Bytes → ℕ → Bytes → Bytes
greeting_line key spid cwd = codes "HELLO " ++ (key ++ b' ' ∷ (show spid ++ b' ' ∷ cwd))

abbrev pub the_greeting : Bytes → ℕ → Bytes → Greeting
the_greeting key spid cwd = record { sid = key; spid = (false, spid); cwd = some cwd }

filled : (key s : Bytes) → key ≢ [] → is_empty (key ++ s) ≡ false
filled [] s h = absurd (h refl)
filled (c ∷ key) s h = refl

greet_line :
    (key cwd : Bytes) (spid : ℕ)
    → key ≢ []
    → Lacks b' ' key
    → greet (greeting_line key spid cwd) ≡ some (the_greeting key spid cwd)
unfolding greet starts_with
greet_line key cwd spid ne h =
    let rest = show spid ++ b' ' ∷ cwd in
    rw
      (
        filled key (b' ' ∷ rest) ne,
        upto-append b' ' key rest h,
        behind-append b' ' key rest h,
        atoi_number (show spid) cwd (show-ne-nil spid) (digits-show spid),
        value-show spid,
        behind-append b' ' (show spid) cwd (digits-Lacks (show spid) (digits-show spid)),
      )
      refl

-- The bytes of a text arriving, with what is reaped before each of them and when; forks succeed.
module _ (finished time : ℕ → ℕ) where
  abbrev pub heard : ℕ → Bytes → List Tick
  heard i [] = []
  heard i (c ∷ s) = input (finished i) (time i) (some c) true ∷ heard (suc i) s

  abbrev with_greeting : List Greeting → Option Greeting → List Greeting
  with_greeting sessions none = sessions
  with_greeting sessions (some g) = sessions ++ g ∷ []

  abbrev After : Loop → Bytes → Loop × Bool → Type 0
  After s line r =
      (r.1 ≡ true)
      × (r.0.used ≡ [])
      × (r.0.sessions ≡ with_greeting s.sessions (greet (s.used ++ line)))

  handed_after :
      (s : Loop) (o : Option Greeting)
      → ((handed s true o).used ≡ s.used)
        × ((handed s true o).sessions ≡ with_greeting s.sessions o)
  handed_after s none = (refl, refl)
  handed_after s (some g) = (refl, refl)

  end_of_line : (s : Loop) (i : ℕ) → After s [] (server_loop s (heard i (newline ∷ [])))
  unfolding server_loop turn reaped
  end_of_line s i =
      let h =
        handed_after (record s { used = []; last = time i; children = s.children - finished i })
          (greet s.used) in
      rw append-nil (refl, h.0, h.1)

  abbrev with_byte : Loop → ℕ → ℕ → Loop
  with_byte s i c = record s {
    used = s.used ++ c ∷ [];
    last = time i;
    children = s.children - finished i;
  }

  byte_in :
      (s : Loop) (i c : ℕ)
      → c ≢ newline
      → suc (length s.used) < line_size
      → turn s (input (finished i) (time i) (some c) true) ≡ (with_byte s i c, true)
  unfolding turn reaped
  byte_in s i c h l =
      let e : (c == newline) ≡ false = ground arith in
      let f : ltb (length s.used) (line_size - 1) ≡ true = ground arith in rw (e, f) refl

  next_byte :
      (s : Loop) (i c : ℕ) (line : Bytes)
      → c ≢ newline
      → suc (length s.used) < line_size
      → After
          (with_byte s i c)
          line
          (server_loop (with_byte s i c) (heard (suc i) (line ++ newline ∷ [])))
      → After s (c ∷ line) (server_loop s (heard i (c ∷ (line ++ newline ∷ []))))
  next_byte s i c line hc l ih =
      let e =
        server_step s (with_byte s i c) (input (finished i) (time i) (some c) true)
          (heard (suc i) (line ++ newline ∷ [])) (byte_in s i c hc l) in
      rw e (
        ih.0,
        ih.1,
        ih.2 ∙ ap (λ x. with_greeting s.sessions (greet x)) (append_assoc s.used (c ∷ []) line),
      )

  heard_line :
      (s : Loop) (i : ℕ) (line : Bytes)
      → Lacks newline line
      → length s.used + length line < line_size
      → After s line (server_loop s (heard i (line ++ newline ∷ [])))
  heard_line s i [] h l = end_of_line s i
  heard_line s i (c ∷ line) (hc, h) l =
      next_byte s i c line hc (omega arith)
        (heard_line (with_byte s i c) (suc i) line h (omega (arith, length-append s.used (c ∷ []))))

  hello_bytes :
      (key cwd : Bytes) (spid : ℕ) → hello key spid cwd ≡ greeting_line key spid cwd ++ newline ∷ []
  unfolding hello
  hello_bytes key cwd spid = simp (append_assoc)

  line_clean :
      (key cwd : Bytes) (spid : ℕ)
      → Lacks newline key
      → Lacks newline cwd
      → Lacks newline (greeting_line key spid cwd)
  line_clean key cwd spid hk hc =
      All-append (λ c. c ≢ newline) (codes "HELLO ") _ (omega arith)
        (All-append (λ c. c ≢ newline) key _ hk
          (
            (omega arith),
            All-append (λ c. c ≢ newline) (show spid) _
                (digits-newline (show spid) (digits-show spid)) (omega arith, hc),
          ))

  -- A greeting that a session writes and the server reads, one byte in each turn and no other turn
  -- in between, whatever children end meanwhile, hands one session to a child, where the forks
  -- succeed: with the connection's name, the session's pid and the directory as they were written,
  -- blanks in it included. The line is empty again and the server goes on. The name is not empty and
  -- holds no blank, nothing holds a newline, the line was empty and the greeting fits in it.
  pub server_loop-hello :
      (s : Loop) (i spid : ℕ) (key cwd : Bytes)
      → s.used ≡ []
      → key ≢ []
      → Lacks b' ' key
      → Lacks newline key
      → Lacks newline cwd
      → length (hello key spid cwd) ≤ line_size
      → ((server_loop s (heard i (hello key spid cwd))).1 ≡ true)
        × ((server_loop s (heard i (hello key spid cwd))).0.used ≡ [])
        × ((server_loop s (heard i (hello key spid cwd))).0.sessions
            ≡ s.sessions ++ the_greeting key spid cwd ∷ [])
  server_loop-hello s i spid key cwd u ne hb hk hc fits =
      let line = greeting_line key spid cwd in
      let e = hello_bytes key cwd spid in
      let size : length s.used + length line < line_size =
        omega (arith, ap length u, ap length e, length-append line (newline ∷ []), fits) in
      let (on, empty, more) = heard_line s i line (line_clean key cwd spid hk hc) size in
      let g : greet (s.used ++ line) ≡ some (the_greeting key spid cwd) =
        ap (λ x. greet (x ++ line)) u ∙ greet_line key cwd spid ne hb in
      rw e (on, empty, more ∙ ap (with_greeting s.sessions) g)
