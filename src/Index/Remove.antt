-- ===== src/Index/Remove.antt =====
-- The removing loop of GITPRUNE (src/mvxgit.c): it runs over an index that becomes shorter below it,
-- by place and by path, and removes each entry that it means.
use mv_git.Base.{
  ℕ, suc, ◌+◌, ◌<◌, Bool, true, false, List, [], ◌∷◌, ◌++◌, some, ◌≡◌, refl, sym, ap, ◌∙◌, arith,
  if◌then◌else◌, All, length, append-nil, take_all,
}
use mv_git.Bytes.{Bytes, bytes_eq, bytes_eq_refl, clip}
use mv_git.Index.{
  Entry, entry_top, entry_at, remove_bypath, remove_entry, remove_loop, remove_tops, top_gone,
}

-- The entries that pass a test, and the number of the others.
abbrev pub kept : (Entry → Bool) → List Entry → List Entry × ℕ
kept drops [] = ([], 0)
kept drops (e ∷ index) =
    let (rest, n) = kept drops index in if drops e then (rest, suc n) else (e ∷ rest, n)

-- Entries, the last first, put in front of others.
abbrev pub onto : List Entry → List Entry → List Entry
onto [] index = index
onto (e ∷ back) index = onto back (e ∷ index)

-- Entries, the last first, whose paths fit into 700 bytes and differ.
abbrev pub AreApart : List Entry → Type 0
AreApart [] = Unit
AreApart (e ∷ back) =
    (length e.path < 700) × All (λ (f : Entry). bytes_eq f.path e.path ≡ false) back × AreApart back

-- An index: one entry for a path, and paths below 700 bytes.
abbrev pub IsIndex : List Entry → Type 0
IsIndex index = AreApart (onto index [])

onto-onto : (xs ys zs : List Entry) → onto (onto xs ys) zs ≡ onto ys (xs ++ zs)
onto-onto [] ys zs = refl
onto-onto (x ∷ xs) ys zs = onto-onto xs (x ∷ ys) zs

onto_twice : (index : List Entry) → onto (onto index []) [] ≡ index
onto_twice index = onto-onto index [] [] ∙ append-nil index

length-onto : (xs ys : List Entry) → length (onto xs ys) ≡ length xs + length ys
length-onto [] ys = omega arith
length-onto (x ∷ xs) ys = omega (arith, length-onto xs (x ∷ ys))

pub All-onto {ℓ} :
    (P : Entry → Type ℓ) (xs ys : List Entry) → All P xs → All P ys → All P (onto xs ys)
All-onto P [] ys h k = k
All-onto P (x ∷ xs) ys (hx, h) k = All-onto P xs (x ∷ ys) h (hx, k)

module _ (prefix : Bytes) (norecords : Bool) (live : Bytes) (is_live : Bytes → Bool) where
  place :
      (back xs : List Entry) (n k : ℕ)
      → n ≡ length back + k
      → entry_at prefix norecords live is_live n (onto back xs)
        ≡ entry_at prefix norecords live is_live k xs
  unfolding entry_at
  place [] xs n k h = let e : n ≡ k = omega arith in rw e refl
  place (f ∷ back) xs n k h = place back (f ∷ xs) n (suc k) (omega arith)

  at_end :
      (back xs : List Entry) (e : Entry)
      → entry_at prefix norecords live is_live (length back) (onto back (e ∷ xs)) ≡ some e
  unfolding entry_at
  at_end back xs e = place back (e ∷ xs) (length back) 0 (omega arith)

  remove_behind :
      (back xs : List Entry) (path : Bytes)
      → All (λ (f : Entry). bytes_eq f.path path ≡ false) back
      → remove_bypath prefix norecords live is_live path (onto back xs)
        ≡ onto back (remove_bypath prefix norecords live is_live path xs)
  unfolding remove_bypath
  remove_behind [] xs path h = refl
  remove_behind (f ∷ back) xs path (hf, h) =
      remove_behind back (f ∷ xs) path h ∙ ap (onto back) (rw hf refl)

  remove_it :
      (back xs : List Entry) (e : Entry)
      → length e.path < 700
      → All (λ (f : Entry). bytes_eq f.path e.path ≡ false) back
      → remove_bypath prefix norecords live is_live (clip 700 e.path) (onto back (e ∷ xs))
        ≡ onto back xs
  unfolding remove_bypath
  remove_it back xs e l h =
      let c : clip 700 e.path ≡ e.path = take_all 699 e.path (omega arith) in
      rw c (remove_behind back (e ∷ xs) e.path h ∙ ap (onto back) (rw (bytes_eq_refl e.path) refl))

  module _ (gone : List Bytes) (drops : Entry → Bool) where
    abbrev Agrees : Entry → Type 0
    Agrees e = top_gone prefix norecords live is_live gone (entry_top prefix e) ≡ drops e

    -- what the rounds for these entries come to
    abbrev left : List Entry → List Entry × ℕ → List Entry × ℕ
    left [] r = r
    left (e ∷ back) (xs, n) = left back (if drops e then (xs, suc n) else (e ∷ xs, n))

    -- One round, on the last entry that is not looked at yet.
    abbrev round_on : List Entry → List Entry → Entry → ℕ → List Entry × ℕ
    round_on back xs e n =
        remove_entry prefix norecords live is_live gone
          (entry_at prefix norecords live is_live (length back) (onto back (e ∷ xs)))
          (onto back (e ∷ xs), n)

    round_left :
        (back xs : List Entry) (e : Entry) (n : ℕ)
        → AreApart (e ∷ back)
        → Agrees e
        → round_on back xs e n
          ≡ (if drops e then (onto back xs, suc n) else (onto back (e ∷ xs), n))
    round_left back xs e n (l, d, h) a =
        ap (λ o. remove_entry prefix norecords live is_live gone o (onto back (e ∷ xs), n))
          (at_end back xs e)
        ∙ ap
            (λ xs'.
              if top_gone prefix norecords live is_live gone (entry_top prefix e)
              then (xs', suc n)
              else (onto back (e ∷ xs), n))
            (remove_it back xs e l d)
        ∙ ap (λ b. if b then (onto back xs, suc n) else (onto back (e ∷ xs), n)) a

    on_answer :
        (back xs : List Entry) (e : Entry) (n : ℕ) (b : Bool)
        → remove_loop prefix norecords live is_live gone (length back) (onto back xs, suc n)
          ≡ left back (xs, suc n)
        → remove_loop prefix norecords live is_live gone (length back) (onto back (e ∷ xs), n)
          ≡ left back (e ∷ xs, n)
        → remove_loop prefix norecords live is_live gone
            (length back)
            (if b then (onto back xs, suc n) else (onto back (e ∷ xs), n))
          ≡ left back (if b then (xs, suc n) else (e ∷ xs, n))
    on_answer back xs e n true h k = h
    on_answer back xs e n false h k = k

    loop_left :
        (back xs : List Entry) (n : ℕ)
        → AreApart back
        → All Agrees back
        → remove_loop prefix norecords live is_live gone (length back) (onto back xs, n)
          ≡ left back (xs, n)
    unfolding remove_loop
    loop_left [] xs n h a = refl
    loop_left (e ∷ back) xs n (l, d, h) (ae, a) =
        ap (remove_loop prefix norecords live is_live gone (length back))
          (round_left back xs e n (l, d, h) ae)
        ∙ on_answer back xs e n (drops e) (loop_left back xs (suc n) h a)
            (loop_left back (e ∷ xs) n h a)

    kept-left : (back xs : List Entry) → kept drops (onto back xs) ≡ left back (kept drops xs)
    kept-left [] xs = refl
    kept-left (e ∷ back) xs = kept-left back (e ∷ xs)

    pub remove_tops-kept :
        (index : List Entry)
        → IsIndex index
        → All Agrees index
        → remove_tops prefix norecords live is_live gone index ≡ kept drops index
    unfolding remove_tops
    remove_tops-kept index h a =
        let back = onto index [] in
        let size : length index ≡ length back = omega (arith, length-onto index []) in
        ap (λ xs. remove_loop prefix norecords live is_live gone (length index) (xs, 0))
          (sym (onto_twice index))
        ∙ ap (λ k. remove_loop prefix norecords live is_live gone k (onto back [], 0)) size
        ∙ loop_left back [] 0 h (All-onto Agrees index [] a tt)
        ∙ sym (kept-left back [])
        ∙ ap (kept drops) (onto_twice index)
