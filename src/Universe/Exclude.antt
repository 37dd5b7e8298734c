-- ===== src/Universe/Exclude.antt =====
-- The exclusions of an adoption (src/uv-git.c, exclude_new): adopting again adds nothing.
use mv_git.Base.{
  ◌≤◌, Bool, true, false, ◌||◌, List, [], ◌∷◌, ◌++◌, ◌≡◌, refl, sym, ap, ◌∙◌, subst, arith, ◌==◌,
  if◌then◌else◌, inl, inr, Bool-cases, All, length, length-append, take, take_all, append_assoc,
  append-nil, ==_refl,
}
use mv_git.Bytes.{c_str_text, c_str, Bytes, starts_with}
use mv_git.Bytes.Split.{Lacks}
use mv_git.Furniture.{named_in}
use mv_git.Universe.{
  occurs, exclude_line, put_back, passed, entry_for, additions, exclude_new, header,
}

starts_self : (l t : Bytes) → starts_with l (l ++ t) ≡ true
unfolding starts_with
starts_self [] t = refl
starts_self (c ∷ l) t = rw (==_refl c) (starts_self l t)

starts_more : (l s t : Bytes) → starts_with l s ≡ true → starts_with l (s ++ t) ≡ true
unfolding starts_with
starts_more [] s t h = refl
starts_more (p ∷ l) [] t h = cc
starts_more (p ∷ l) (c ∷ s) t h =
    let e : (c == p) ≡ true = ground arith in
    let k : starts_with l s ≡ true = ground arith in rw e (starts_more l s t k)

or_right : (a : Bool) {b : Bool} → b ≡ true → (a || b) ≡ true
or_right true h = refl
or_right false h = h

or_left : {a : Bool} (b : Bool) → a ≡ true → (a || b) ≡ true
or_left b h = rw h refl

occurs_here : (l s : Bytes) → starts_with l s ≡ true → occurs l s ≡ true
unfolding occurs
occurs_here l [] h = h
occurs_here l (c ∷ s) h = or_left (occurs l s) h

-- What is found in a text is found with more around it.
occurs_behind : (l x s : Bytes) → occurs l s ≡ true → occurs l (x ++ s) ≡ true
unfolding occurs
occurs_behind l [] s h = h
occurs_behind l (c ∷ x) s h = or_right (starts_with l (c ∷ (x ++ s))) (occurs_behind l x s h)

occurs_more : (l s t : Bytes) → occurs l s ≡ true → occurs l (s ++ t) ≡ true
unfolding occurs
occurs_more l [] t h = occurs_here l t (starts_more l [] t h)
occurs_more l (c ∷ s) t h = elim (Bool-cases (starts_with l (c ∷ s))) [
  | inl e ↦ or_left (occurs l (s ++ t)) (starts_more l (c ∷ s) t e)
  | inr e ↦ or_right (starts_with l (c ∷ (s ++ t))) (occurs_more l s t (rw e at h))
]

module _ (prefix : Bytes) (is_dir : Bytes → Bool) (before : List Bytes) where
  abbrev Passed : Bytes → Bytes → Type 0
  Passed have n = passed prefix is_dir before have n ≡ true

  Passed-more : (x have t n : Bytes) → Passed have n → Passed (x ++ (have ++ t)) n
  unfolding passed
  Passed-more x have t n h = elim (Bool-cases (named_in before n)) [
    | inl e ↦ rw e refl
    | inr e ↦ rw e (
        occurs_behind (exclude_line prefix is_dir before n) x (have ++ t)
          (occurs_more (exclude_line prefix is_dir before n) have t (rw e at h)))
  ]

  Passed-entry :
      (x y n : Bytes) (headed : Bool)
      → Passed (x ++ (entry_for prefix is_dir before headed n ++ y)) n
  unfolding passed
  Passed-entry x y n headed =
      let line = exclude_line prefix is_dir before n in
      let start = if headed then [] else header in
      let found : occurs line (x ++ ((start ++ (line ++ put_back prefix is_dir before n)) ++ y))
          ≡ true =
        occurs_behind line x _ (
          subst (λ s. occurs line s ≡ true)
            (sym (
              append_assoc start (line ++ put_back prefix is_dir before n) y
              ∙ ap (λ s. start ++ s) (append_assoc line (put_back prefix is_dir before n) y)))
            (occurs_behind line start _ (
              occurs_here line (line ++ (put_back prefix is_dir before n ++ y))
                (starts_self line (put_back prefix is_dir before n ++ y))))) in
      or_right (named_in before n) found

  step-Passed :
      (have n : Bytes) (headed : Bool) (now : List Bytes)
      → Passed have n
      → additions prefix is_dir before have headed (n ∷ now)
        ≡ additions prefix is_dir before have headed now
  unfolding additions
  step-Passed have n headed now e = rw e refl

  step_entry :
      (have n : Bytes) (headed : Bool) (now : List Bytes)
      → passed prefix is_dir before have n ≡ false
      → additions prefix is_dir before have headed (n ∷ now)
        ≡ entry_for prefix is_dir before headed n ++ additions prefix is_dir before have true now
  unfolding additions
  step_entry have n headed now e = rw e refl

  -- Every name is passed by a text that holds what was there and what was added.
  all-Passed :
      (have x y : Bytes) (headed : Bool) (now : List Bytes)
      → ((n : Bytes) → Passed have n → Passed x n)
      → All (λ n. Passed (x ++ (additions prefix is_dir before have headed now ++ y)) n) now
  all-Passed have x y headed [] h = tt
  all-Passed have x y headed (n ∷ now) h = elim (Bool-cases (passed prefix is_dir before have n)) [
    | inl e ↦
        subst (λ s. All (Passed (x ++ (s ++ y))) (n ∷ now)) (sym (step-Passed have n headed now e))
          (
            Passed-more [] x (additions prefix is_dir before have headed now ++ y) n (h n e),
            all-Passed have x y headed now h,
          )
    | inr e ↦
        let entry = entry_for prefix is_dir before headed n in
        let rest = additions prefix is_dir before have true now in
        let text : (x ++ entry) ++ (rest ++ y)
            ≡ x ++ (additions prefix is_dir before have headed (n ∷ now) ++ y) =
          append_assoc x entry (rest ++ y)
          ∙ ap (λ s. x ++ s) (sym (append_assoc entry rest y))
          ∙ ap (λ s. x ++ (s ++ y)) (sym (step_entry have n headed now e)) in
        subst (λ s. All (Passed s) (n ∷ now)) text
          (
            subst (λ s. Passed s n) (sym (append_assoc x entry (rest ++ y)))
                (Passed-entry x (rest ++ y) n headed),
            all-Passed have (x ++ entry) y true now (λ m k. Passed-more [] x entry m (h m k)),
          )
  ]

  nothing_added :
      (have : Bytes) (headed : Bool) (now : List Bytes)
      → All (Passed have) now
      → additions prefix is_dir before have headed now ≡ []
  unfolding additions
  nothing_added have headed [] h = refl
  nothing_added have headed (n ∷ now) (hn, h) =
      step-Passed have n headed now hn ∙ nothing_added have headed now h

  All-front : (s t : Bytes) → Lacks 0 (s ++ t) → Lacks 0 s
  All-front [] t h = tt
  All-front (c ∷ s) t (hc, h) = (hc, All-front s t h)

  read_whole : (s : Bytes) → length s ≤ 65535 → Lacks 0 s → c_str (take 65535 s) ≡ s
  read_whole s l h = ap c_str (take_all 65535 s l) ∙ c_str_text s h

  -- Adopting again appends nothing to the exclusions, neither a line nor the header, for the same
  -- names and kinds of files: where the file with what the first adoption appended holds no NUL and is
  -- still read whole, at 65535 bytes.
  pub exclude_new-exclude_new :
      (now : List Bytes) (text : Bytes)
      → Lacks 0 (exclude_new prefix is_dir before now text)
      → length (exclude_new prefix is_dir before now text) ≤ 65535
      → exclude_new prefix is_dir before now (exclude_new prefix is_dir before now text)
        ≡ exclude_new prefix is_dir before now text
  unfolding exclude_new
  exclude_new-exclude_new now text z l =
      let seen = c_str (take 65535 text) in
      let added = additions prefix is_dir before seen false now in
      let whole : seen ≡ text =
        read_whole text (omega (arith, length-append text added, l)) (All-front text added z) in
      let again : c_str (take 65535 (text ++ added)) ≡ text ++ added =
        read_whole (text ++ added) l z in
      let all : All (Passed (text ++ added)) now =
        subst (λ s. All (Passed (text ++ s)) now) (append-nil added)
          (all-Passed seen text [] false now (λ n h. subst (λ s. Passed s n) whole h)) in
      ap (λ s. (text ++ added) ++ s)
        (ap (λ h. additions prefix is_dir before h false now) again
          ∙ nothing_added (text ++ added) false now all)
      ∙ append-nil (text ++ added)
