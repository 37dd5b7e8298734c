-- ===== src/Index/Memo.antt =====
-- The answer that tracked_file_gone remembers (src/mvxgit.c): remembering it changes no answer while
-- the index and the account stay as they are.
use mv_git.Base.{
  Bool, false, ◌||◌, List, none, some, ◌≡◌, refl, ap, ◌∙◌, if◌then◌else◌, inl, inr, Bool-cases,
}
use mv_git.Bytes.{Bytes, bytes_eq, bytes_eq_iff}
use mv_git.Record.{is_empty}
use mv_git.Index.{Entry, Memo, gone_now, recall, base_of, tracked_file_gone}

module _ (prefix : Bytes) (norecords : Bool) (live : Bytes) (is_live : Bytes → Bool) where
  -- The memo holds what would be answered now.
  abbrev pub IsFresh : List Entry → Memo → Type 0
  IsFresh index none = Unit
  IsFresh index (some (b, ans)) = ans ≡ gone_now prefix norecords live is_live index b

  -- What is answered with no memo.
  abbrev pub is_gone : List Entry → Bytes → Bool
  is_gone index top =
      if is_empty top || is_empty (base_of top)
      then false
      else gone_now prefix norecords live is_live index (base_of top)

  recall-IsFresh :
      (index : List Entry) (base : Bytes) (memo : Memo)
      → IsFresh index memo
      → ((recall prefix norecords live is_live index base memo).0
          ≡ gone_now prefix norecords live is_live index base)
        × IsFresh index (recall prefix norecords live is_live index base memo).1
  recall-IsFresh index base none h = (refl, refl)
  recall-IsFresh index base (some (b, ans)) h = elim (Bool-cases (bytes_eq b base)) [
    | inl e ↦
        let s : b ≡ base = (bytes_eq_iff b base).0 e in
        rw e (h ∙ ap (gone_now prefix norecords live is_live index) s, h)
    | inr e ↦ rw e (refl, refl)
  ]

  -- With a memo that is right for this index, the answer is the one without a memo, and the memo is
  -- right again.
  pub tracked_file_gone-IsFresh :
      (index : List Entry) (top : Bytes) (memo : Memo)
      → IsFresh index memo
      → ((tracked_file_gone prefix norecords live is_live index top memo).0 ≡ is_gone index top)
        × IsFresh index (tracked_file_gone prefix norecords live is_live index top memo).1
  unfolding tracked_file_gone
  tracked_file_gone-IsFresh index top memo h =
      elim (Bool-cases (is_empty top || is_empty (base_of top))) [
        | inl e ↦ rw e (refl, h)
        | inr e ↦ rw e (recall-IsFresh index (base_of top) memo h)
      ]
