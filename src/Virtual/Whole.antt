-- ===== src/Virtual/Whole.antt =====
-- Texts that trans_split (src/mvxgit.c) takes whole: with quotes and brackets that close and no
-- comma outside of them.
use mv_git.Base.{
  ℕ, zero, suc, ◌+◌, Bool, true, false, List, [], ◌∷◌, ◌++◌, ◌≡◌, ◌≢◌, ◌⊎◌, inl, inr, refl, subst,
  ap, ◌∙◌, arith, ◌==◌, if◌then◌else◌, All, append_assoc, ==_refl,
}
use mv_git.Bytes.{Bytes}
use mv_git.Bytes.Split.{put_first, Lacks}
use mv_git.Virtual.{
  ℤ, pos, Scan, outside, scan_byte, ends_arg, arg_texts, deeper, shallower, quoted, quote_mark,
}

-- A byte that trans_split only copies.
abbrev pub IsPlain : ℕ → Type 0
IsPlain c = (c ≢ b'\'') × (c ≢ b'"') × (c ≢ b'(') × (c ≢ b')') × (c ≢ b',')

-- `Whole d s`: s closes d brackets that are open in front of it, opens none that it does not close,
-- closes its quotes, and has no comma outside of brackets and quotes.
pub data Whole : ℕ → Bytes → Type 0 where
  whole_end : Whole 0 []
  plain : {d : ℕ} → (c : ℕ) (s : Bytes) → IsPlain c → Whole d s → Whole d (c ∷ s)
  inner_comma : {d : ℕ} → (s : Bytes) → Whole (suc d) s → Whole (suc d) (b',' ∷ s)
  bracket : {d : ℕ} → (s : Bytes) → Whole (suc d) s → Whole d (b'(' ∷ s)
  close : {d : ℕ} → (s : Bytes) → Whole d s → Whole (suc d) (b')' ∷ s)
  quote_text :
      {d : ℕ}
      → (q : ℕ) (body s t : Bytes) → (q ≡ b'\'') ⊎ (q ≡ b'"')
      → Lacks q body
      → t ≡ q ∷ (body ++ q ∷ s)
      → Whole d s
      → Whole d t

abbrev pub put_text : Bytes → List Bytes → List Bytes
put_text p [] = p ∷ []
put_text p (x ∷ xs) = (p ++ x) ∷ xs

put_first-put_text :
    (c : ℕ) (p : Bytes) (l : List Bytes) → put_first c (put_text p l) ≡ put_text (c ∷ p) l
put_first-put_text c p [] = refl
put_first-put_text c p (x ∷ xs) = refl

put_text_nil : (c : ℕ) (l : List Bytes) → put_first c l ≡ put_text (c ∷ []) l
put_text_nil c [] = refl
put_text_nil c (x ∷ xs) = refl

-- A byte that ends no argument goes to the front of the first one.
arg_texts_byte :
    (r next : Scan) (c : ℕ) (s : Bytes)
    → ends_arg r c ≡ false
    → scan_byte r c ≡ next
    → arg_texts r (c ∷ s) ≡ put_first c (arg_texts next s)
unfolding arg_texts
arg_texts_byte r next c s e n = rw (e, n) refl

abbrev in_quote : ℕ → ℤ → Scan
in_quote q d = record { quote = q; depth = d }

==_ne : (a b : ℕ) → a ≢ b → (a == b) ≡ false
==_ne a b h = ground arith

quoted_byte_ends : (q : ℕ) (d : ℤ) (c : ℕ) → q ≢ 0 → ends_arg (in_quote q d) c ≡ false
unfolding ends_arg
quoted_byte_ends q d c h = ground arith

quoted_byte_scan :
    (q : ℕ) (d : ℤ) (c : ℕ) → q ≢ 0 → c ≢ q → scan_byte (in_quote q d) c ≡ in_quote q d
unfolding scan_byte
quoted_byte_scan q d c h k = rw (==_ne q 0 h, ==_ne c q k) refl

quoted_end_scan : (q : ℕ) (d : ℤ) → q ≢ 0 → scan_byte (in_quote q d) q ≡ outside d
unfolding scan_byte
quoted_end_scan q d h = rw (==_ne q 0 h, ==_refl q) refl

plain_ends : (d : ℤ) (c : ℕ) → c ≢ b',' → ends_arg (outside d) c ≡ false
unfolding ends_arg
plain_ends d c h = ground arith

plain_scan : (d : ℤ) (c : ℕ) → IsPlain c → scan_byte (outside d) c ≡ outside d
unfolding scan_byte
plain_scan d c h = ground arith

quote_ends : (d : ℤ) (q : ℕ) → (q ≡ b'\'') ⊎ (q ≡ b'"') → ends_arg (outside d) q ≡ false
unfolding ends_arg
quote_ends d q (inl h) = rw h refl
quote_ends d q (inr h) = rw h refl

quote_scan : (d : ℤ) (q : ℕ) → (q ≡ b'\'') ⊎ (q ≡ b'"') → scan_byte (outside d) q ≡ in_quote q d
unfolding scan_byte
quote_scan d q (inl h) = rw h refl
quote_scan d q (inr h) = rw h refl

quote_ne_zero : (q : ℕ) → (q ≡ b'\'') ⊎ (q ≡ b'"') → q ≢ 0
quote_ne_zero q (inl h) = omega arith
quote_ne_zero q (inr h) = omega arith

-- Inside of a quote everything up to its end is copied.
quoted_texts :
    (q : ℕ) (d : ℤ) (body s : Bytes)
    → q ≢ 0
    → Lacks q body
    → arg_texts (in_quote q d) (body ++ q ∷ s) ≡ put_text (body ++ q ∷ []) (arg_texts (outside d) s)
quoted_texts q d [] s h k =
    arg_texts_byte (in_quote q d) (outside d) q s (quoted_byte_ends q d q h) (quoted_end_scan q d h)
    ∙ put_text_nil q _
quoted_texts q d (c ∷ body) s h (kc, k) =
    arg_texts_byte (in_quote q d) (in_quote q d) c (body ++ q ∷ s) (quoted_byte_ends q d c h)
      (quoted_byte_scan q d c h kc)
    ∙ ap (put_first c) (quoted_texts q d body s h k)
    ∙ put_first-put_text c (body ++ q ∷ []) _

put_text-append : (a b : Bytes) (l : List Bytes) → put_text a (put_text b l) ≡ put_text (a ++ b) l
put_text-append a b [] = refl
put_text-append a b (x ∷ xs) = rw append_assoc refl

step :
    (r next : Scan) (c : ℕ) (p : Bytes) (l : List Bytes) (t : Bytes)
    → ends_arg r c ≡ false
    → scan_byte r c ≡ next
    → arg_texts next t ≡ put_text p l
    → arg_texts r (c ∷ t) ≡ put_text (c ∷ p) l
step r next c p l t e n ih =
    arg_texts_byte r next c t e n ∙ ap (put_first c) ih ∙ put_first-put_text c p l

bracket_step :
    (d : ℕ)
    → (ends_arg (outside (pos d)) b'(' ≡ false)
      × (scan_byte (outside (pos d)) b'(' ≡ outside (pos (suc d)))
unfolding ends_arg scan_byte deeper
bracket_step d = (refl, refl)

close_step :
    (d : ℕ)
    → (ends_arg (outside (pos (suc d))) b')' ≡ false)
      × (scan_byte (outside (pos (suc d))) b')' ≡ outside (pos d))
unfolding ends_arg scan_byte shallower
close_step d = (refl, refl)

comma_step :
    (d : ℕ)
    → (ends_arg (outside (pos (suc d))) b',' ≡ false)
      × (scan_byte (outside (pos (suc d))) b',' ≡ outside (pos (suc d)))
unfolding ends_arg scan_byte
comma_step d = (refl, refl)

if_ne_nil : (b : Bool) (c : ℕ) (l : List Bytes) → (if b then [] ∷ l else put_first c l) ≢ []
if_ne_nil true c l = cc
if_ne_nil false c [] = cc
if_ne_nil false c (x ∷ l) = cc

arg_texts-ne-nil : (r : Scan) (s : Bytes) → arg_texts r s ≢ []
unfolding arg_texts
arg_texts-ne-nil r [] = cc
arg_texts-ne-nil r (c ∷ s) = if_ne_nil (ends_arg r c) c (arg_texts (scan_byte r c) s)

put_text_empty : (l : List Bytes) → l ≢ [] → l ≡ put_text [] l
put_text_empty [] h = absurd (h refl)
put_text_empty (x ∷ xs) h = refl

quote_append : (q : ℕ) (body p s : Bytes) → (q ∷ (body ++ q ∷ p)) ++ s ≡ q ∷ (body ++ q ∷ (p ++ s))
quote_append q body p s = rw append_assoc refl

-- A whole text goes to one argument.
pub Whole-texts :
    {d : ℕ} {p : Bytes}
    → Whole d p
    → (s : Bytes)
    → arg_texts (outside (pos d)) (p ++ s) ≡ put_text p (arg_texts (outside (pos 0)) s)
Whole-texts whole_end s = put_text_empty _ (arg_texts-ne-nil _ s)
Whole-texts (plain {d} c p h w) s =
    step _ _ c p _ (p ++ s) (plain_ends (pos d) c h.4) (plain_scan (pos d) c h) (Whole-texts w s)
Whole-texts (inner_comma {d} p w) s =
    step _ _ b',' p _ (p ++ s) (comma_step d).0 (comma_step d).1 (Whole-texts w s)
Whole-texts (bracket {d} p w) s =
    step _ _ b'(' p _ (p ++ s) (bracket_step d).0 (bracket_step d).1 (Whole-texts w s)
Whole-texts (close {d} p w) s =
    step _ _ b')' p _ (p ++ s) (close_step d).0 (close_step d).1 (Whole-texts w s)
Whole-texts (quote_text {d} q body p t h k e w) s =
    rw (e, quote_append q body p s)
      (step (outside (pos d)) (in_quote q (pos d)) q (body ++ q ∷ p) _ (body ++ q ∷ (p ++ s))
        (quote_ends (pos d) q h) (quote_scan (pos d) q h)
        (quoted_texts q (pos d) body (p ++ s) (quote_ne_zero q h) k
          ∙ ap (put_text (body ++ q ∷ [])) (Whole-texts w s)
          ∙ put_text-append (body ++ q ∷ []) p _
          ∙ ap (λ x. put_text x (arg_texts (outside (pos 0)) s)) (append_assoc body (q ∷ []) p)))

pub Whole-append :
    {d : ℕ} {p : Bytes}
    → Whole d p
    → (k n : ℕ) (s : Bytes) → n ≡ d + k
    → Whole k s
    → Whole n (p ++ s)
Whole-append whole_end k n s e w = let f : k ≡ n = omega arith in subst (λ m. Whole m s) f w
Whole-append (plain c p h v) k n s e w = plain c (p ++ s) h (Whole-append v k n s e w)
Whole-append (inner_comma p v) k zero s e w = absurd (omega arith)
Whole-append (inner_comma p v) k (suc n) s e w =
    inner_comma (p ++ s) (Whole-append v k (suc n) s e w)
Whole-append (bracket p v) k n s e w = bracket (p ++ s) (Whole-append v k (suc n) s (omega arith) w)
Whole-append (close p v) k zero s e w = absurd (omega arith)
Whole-append (close p v) k (suc n) s e w = close (p ++ s) (Whole-append v k n s (omega arith) w)
Whole-append (quote_text q body p t h l f v) k n s e w =
    quote_text q body (p ++ s) (t ++ s) h l (ap (λ x. x ++ s) f ∙ quote_append q body p s)
      (Whole-append v k n s e w)

pub All-Whole : (s : Bytes) → All IsPlain s → Whole 0 s
All-Whole [] h = whole_end
All-Whole (c ∷ s) (hc, h) = plain c s hc (All-Whole s h)

pub quoted-Whole : (s : Bytes) → Lacks quote_mark s → Whole 0 (quoted s)
quoted-Whole s h = quote_text quote_mark s [] (quoted s) (inl refl) h refl whole_end
