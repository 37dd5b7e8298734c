-- ===== src/Paths/Storable.antt =====
-- Which paths git can store (src/mvxgit.c, path_storable): the loop against the components of the
-- path.
use mv_git.Base.{
  ℕ, zero, suc, ◌<◌, Bool, true, false, not, ◌&&◌, List, [], ◌∷◌, ◌++◌, ◌≡◌, ◌≢◌, refl, ap, ◌∙◌,
  arith, ◌==◌, if◌then◌else◌, length, drop, length-append, append-nil, ==_refl, All,
}
use mv_git.Bytes.{Bytes, bytes_eq}
use mv_git.Bytes.Split.{split, separated, join, Lacks, All-split, join-split, split-ne-nil}
use mv_git.Furniture.{upto}
use mv_git.Paths.{component_ok, storable_loop, path_storable}

-- A name that can stand between two slashes: not empty, not a dot and not two dots.
abbrev pub is_proper : Bytes → Bool
is_proper [] = false
is_proper (c ∷ []) = not (c == b'.')
is_proper (c ∷ d ∷ []) = not (c == b'.' && d == b'.')
is_proper (c ∷ d ∷ e ∷ p) = true

abbrev pub last_ok : Bytes → Bool
last_ok [] = true
last_ok (c ∷ p) = is_proper (c ∷ p)

-- All components are proper, but an empty one at the end is let through.
abbrev pub parts_ok : List Bytes → Bool
parts_ok [] = true
parts_ok (p ∷ []) = last_ok p
parts_ok (p ∷ q ∷ ps) = is_proper p && parts_ok (q ∷ ps)

component_ok-is_proper : (p : Bytes) → component_ok p ≡ is_proper p
unfolding component_ok bytes_eq
component_ok-is_proper [] = refl
component_ok-is_proper (c ∷ []) = ground arith
component_ok-is_proper (c ∷ d ∷ []) = ground arith
component_ok-is_proper (c ∷ d ∷ e ∷ p) = ground arith

pub upto-Lacks : (stop : ℕ) (p : Bytes) → Lacks stop p → upto stop p ≡ p
unfolding upto
upto-Lacks stop [] h = refl
upto-Lacks stop (c ∷ p) (h, hs) = rw (upto-Lacks stop p hs) (ground arith)

pub upto-append : (stop : ℕ) (p s : Bytes) → Lacks stop p → upto stop (p ++ stop ∷ s) ≡ p
unfolding upto
upto-append stop [] s h = rw (==_refl stop) refl
upto-append stop (c ∷ p) s (h, hs) = rw (upto-append stop p s hs) (ground arith)

-- One round of the loop, on a path that is not empty.
abbrev round : ℕ → Bytes → Bytes → Bool
round fuel part p =
    let rest = storable_loop fuel (drop (suc (length part)) p) in
    if component_ok part then if length part == length p then true else rest else false

storable_round :
    (fuel : ℕ) (p : Bytes) → p ≢ [] → storable_loop (suc fuel) p ≡ round fuel (upto b'/' p) p
unfolding storable_loop
storable_round fuel [] h = absurd (h refl)
storable_round fuel (c ∷ s) h = refl

storable_end : (fuel : ℕ) → storable_loop fuel [] ≡ true
unfolding storable_loop
storable_end zero = refl
storable_end (suc fuel) = refl

last_round : (fuel : ℕ) (p : Bytes) → round fuel p p ≡ component_ok p
last_round fuel p = rw (==_refl (length p)) (ground arith)

drop_part : (p s : Bytes) → drop (suc (length p)) (p ++ b'/' ∷ s) ≡ s
drop_part [] s = refl
drop_part (c ∷ p) s = drop_part p s

part-ne-nil : (p s : Bytes) → (p ++ b'/' ∷ s) ≢ []
part-ne-nil [] s = cc
part-ne-nil (c ∷ p) s = cc

inner_round :
    (fuel : ℕ) (p s : Bytes)
    → round fuel p (p ++ b'/' ∷ s) ≡ (component_ok p && storable_loop fuel s)
inner_round fuel p s =
    let longer : (length p == length (p ++ b'/' ∷ s)) ≡ false =
      ground (arith, length-append p (b'/' ∷ s)) in
    let behind : drop (suc (length p)) (p ++ b'/' ∷ s) ≡ s = drop_part p s in
    rw (longer, behind) (ground arith)

loop_parts :
    (fuel : ℕ) (p : Bytes) (ps : List Bytes)
    → Lacks b'/' p
    → All (Lacks b'/') ps
    → length (p ++ separated b'/' ps) < fuel
    → storable_loop fuel (p ++ separated b'/' ps) ≡ parts_ok (p ∷ ps)
unfolding separated
loop_parts zero p ps h hs small = absurd (omega arith)
loop_parts (suc fuel) [] [] h hs small = storable_end (suc fuel)
loop_parts (suc fuel) (c ∷ p) [] h hs small = rw append-nil (
    storable_round fuel (c ∷ p) (cc)
    ∙ ap (λ part. round fuel part (c ∷ p)) (upto-Lacks b'/' (c ∷ p) h)
    ∙ last_round fuel (c ∷ p)
    ∙ component_ok-is_proper (c ∷ p))
loop_parts (suc fuel) p (q ∷ ps) h (hq, hs) small =
    let rest = q ++ separated b'/' ps in
    let size = length-append p (b'/' ∷ rest) in
    let shorter : length rest < fuel = omega (arith, size) in
    storable_round fuel (p ++ b'/' ∷ rest) (part-ne-nil p rest)
    ∙ ap (λ part. round fuel part (p ++ b'/' ∷ rest)) (upto-append b'/' p rest h)
    ∙ inner_round fuel p rest
    ∙ ap (λ r. component_ok p && r) (loop_parts fuel q ps hq hs shorter)
    ∙ ap (λ b. b && parts_ok (q ∷ ps)) (component_ok-is_proper p)

loop_split :
    (s : Bytes) (parts : List Bytes)
    → parts ≢ []
    → All (Lacks b'/') parts
    → join b'/' parts ≡ s
    → storable_loop (suc (length s)) s ≡ parts_ok parts
unfolding join
loop_split s [] ne h e = absurd (ne refl)
loop_split s (p ∷ ps) ne (h, hs) e =
    rw (← e) (loop_parts (suc (length (p ++ separated b'/' ps))) p ps h hs (omega arith))

storable_loop_lem : (s : Bytes) → storable_loop (suc (length s)) s ≡ parts_ok (split b'/' s)
storable_loop_lem s =
    loop_split s (split b'/' s) (split-ne-nil b'/' s) (All-split b'/' s) (join-split b'/' s)

storable_more :
    (c : ℕ) (s : Bytes) → path_storable (c ∷ s) ≡ storable_loop (suc (length (c ∷ s))) (c ∷ s)
unfolding path_storable
storable_more c s = refl

-- For every path with a byte in it: it can be stored exactly when each of the components between
-- its slashes is not empty, not `.` and not `..`, where an empty last component is let through.
pub path_storable_lem : (c : ℕ) (s : Bytes) → path_storable (c ∷ s) ≡ parts_ok (split b'/' (c ∷ s))
path_storable_lem c s = storable_more c s ∙ storable_loop_lem (c ∷ s)
