-- ===== src/Bytes.antt =====
-- Byte strings: what the C code does to `char *` buffers with memchr, strcmp, strncasecmp and
-- snprintf. A byte is a number below 256; the marks of a MultiValue record are 0xFE and 0xFD.
pub mod Split
use Prim.Native.Char.{code}
use Prim.Native.String.{String}
use mv_git.Base.{
  ℕ, zero, suc, ◌+◌, ◌-◌, ◌<◌, ◌≤◌, Bool, true, false, ◌&&◌, ◌||◌, List, [], ◌∷◌, ◌++◌, ◌≡◌, ◌≢◌,
  refl, ap, arith, ltb, leb, ◌==◌, if◌then◌else◌, length, take, drop, All, ◌↔◌,
}

abbrev pub Bytes : Type 0
Bytes = List ℕ

-- The code points of a literal: its bytes when the text is ASCII.
abbrev pub codes : String → Bytes
codes String.[] = []
codes (String.◌∷◌ c s) = code c ∷ codes s

-- The attribute mark and the value mark.
abbrev pub am : ℕ
am = 0xFE

abbrev pub vm : ℕ
vm = 0xFD

abbrev pub newline : ℕ
newline = b'\n'

abbrev pub IsByte : ℕ → Type 0
IsByte c = c < 256

-- strcmp(a, b) == 0, and memcmp of two strings of one length
unfoldable pub bytes_eq : Bytes → Bytes → Bool
bytes_eq [] [] = true
bytes_eq [] (y ∷ ys) = false
bytes_eq (x ∷ xs) [] = false
bytes_eq (x ∷ xs) (y ∷ ys) = x == y && bytes_eq xs ys

pub bytes_eq_iff : (a b : Bytes) → (bytes_eq a b ≡ true) ↔ (a ≡ b)
unfolding bytes_eq
bytes_eq_iff [] [] = ground arith
bytes_eq_iff [] (y ∷ ys) = ground arith
bytes_eq_iff (x ∷ a) [] = ground arith
bytes_eq_iff (x ∷ a) (y ∷ b) = ground (arith, bytes_eq_iff a b)

pub bytes_eq_refl : (s : Bytes) → bytes_eq s s ≡ true
bytes_eq_refl s = (bytes_eq_iff s s).1 refl

-- strncmp(s, p, strlen(p)) == 0
unfoldable pub starts_with : Bytes → Bytes → Bool
starts_with [] s = true
starts_with (p ∷ ps) [] = false
starts_with (p ∷ ps) (c ∷ s) = c == p && starts_with ps s

-- strcmp(s + strlen(s) - strlen(p), p) == 0, false when s is shorter than p
unfoldable pub ends_with : Bytes → Bytes → Bool
unfolding bytes_eq
ends_with p s = leb (length p) (length s) && bytes_eq (drop (length s - length p) s) p

-- tolower in the C locale
unfoldable pub to_lower : ℕ → ℕ
to_lower c = if leb b'A' c && leb c b'Z' then c + 32 else c

-- strcasecmp(a, b) == 0
unfoldable pub case_eq : Bytes → Bytes → Bool
unfolding to_lower
case_eq [] [] = true
case_eq [] (y ∷ ys) = false
case_eq (x ∷ xs) [] = false
case_eq (x ∷ xs) (y ∷ ys) = to_lower x == to_lower y && case_eq xs ys

-- strncasecmp(s, p, strlen(p)) == 0
unfoldable pub case_starts : Bytes → Bytes → Bool
unfolding to_lower
case_starts [] s = true
case_starts (p ∷ ps) [] = false
case_starts (p ∷ ps) (c ∷ s) = to_lower c == to_lower p && case_starts ps s

-- strchr(s, '/') != NULL
unfoldable pub has_slash : Bytes → Bool
has_slash [] = false
has_slash (c ∷ s) = c == b'/' || has_slash s

-- A byte array read as a C string: up to the first NUL.
unfoldable pub c_str : Bytes → Bytes
c_str [] = []
c_str (c ∷ s) = if c == 0 then [] else c ∷ c_str s

-- Bytes without a NUL are a C string whole.
pub c_str_text : (s : Bytes) → All (λ c. c ≢ 0) s → c_str s ≡ s
unfolding c_str
c_str_text [] h = refl
c_str_text (c ∷ s) (hc, h) = let e : (c == 0) ≡ false = ground arith in rw (e, c_str_text s h) refl

-- snprintf(out, cap, "%s", s): at most cap - 1 bytes and a NUL.
abbrev pub clip : ℕ → Bytes → Bytes
clip cap s = take (cap - 1) s
