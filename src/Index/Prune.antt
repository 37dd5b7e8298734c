-- ===== src/Index/Prune.antt =====
-- GITPRUNE (src/mvxgit.c): what is decided first and removed then is what every entry's own file
-- says, read against the index as it was.
use mv_git.Base.{
  Bool, true, false, ◌&&◌, ◌||◌, List, [], ◌∷◌, ◌++◌, Option, none, some, some_inj, ◌≡◌, refl, sym,
  ap, ◌∙◌, subst, if◌then◌else◌, inl, inr, Bool-cases, All,
}
use mv_git.Bytes.{Bytes, bytes_eq, bytes_eq_iff, bytes_eq_refl}
use mv_git.Furniture.{named_in}
use mv_git.Index.{Entry, Memo, entry_top, has_dict, decide_top, decide, top_gone, gitprune}
use mv_git.Index.Listed.{named_in-append, named_in_one}
use mv_git.Index.Remove.{kept, IsIndex, remove_tops-kept}
use mv_git.Index.Memo.{IsFresh, is_gone, tracked_file_gone-IsFresh}

pub or_true : (a : Bool) → (a || true) ≡ true
or_true true = refl
or_true false = refl

one_or_other {ℓ} : {P : Type ℓ} (a b : Bool) → (a ≡ true → P) → (b ≡ true → P) → (a || b) ≡ true → P
one_or_other true b f g h = f refl
one_or_other false true f g h = g refl
one_or_other false false f g h = absurd (cc)

named_in-last :
    (gone : List Bytes) (top x : Bytes)
    → named_in (gone ++ top ∷ []) x ≡ (named_in gone x || bytes_eq x top)
named_in-last gone top x =
    named_in-append gone (top ∷ []) x ∙ ap (λ b. named_in gone x || b) (named_in_one x top)

nothing {ℓ} : {P : Type ℓ} (top : Bytes) → named_in [] top ≡ true → P
unfolding named_in
nothing top h = absurd (cc)

module _ (prefix : Bytes) (norecords : Bool) (live : Bytes) (is_live : Bytes → Bool) where
  -- The file of that top-level name is deleted: the account lacks it, git has content for it, and,
  -- where there is a record backend, something lies under a dictionary of that name.
  abbrev pub is_deleted : List Entry → Bytes → Bool
  is_deleted index top =
      is_gone prefix norecords live is_live index top
      && (norecords || has_dict prefix norecords live is_live index top)

  abbrev pub deleted_top : List Entry → Option Bytes → Bool
  deleted_top index none = false
  deleted_top index (some top) = is_deleted index top

  abbrev pub entry_deleted : List Entry → Entry → Bool
  entry_deleted index e = deleted_top index (entry_top prefix e)

  abbrev Decided : List Entry → Memo × List Bytes → Type 0
  Decided index (memo, gone) =
      IsFresh prefix norecords live is_live index memo
      × ((top : Bytes) → named_in gone top ≡ true → is_deleted index top ≡ true)

  -- the name of an entry that was looked at is listed when its file is deleted
  abbrev Seen : List Entry → List Bytes → Entry → Type 0
  Seen index gone e =
      (top : Bytes)
      → entry_top prefix e ≡ some top
      → is_deleted index top ≡ true
      → named_in gone top ≡ true

  abbrev Grows : List Bytes → List Bytes → Type 0
  Grows gone gone' = (top : Bytes) → named_in gone top ≡ true → named_in gone' top ≡ true

  abbrev grow : Bool → List Bytes → Bytes → List Bytes
  grow b gone top = if b then gone ++ top ∷ [] else gone

  grow-Grows : (b : Bool) (gone : List Bytes) (top : Bytes) → Grows gone (grow b gone top)
  grow-Grows true gone top x h = named_in-append gone (top ∷ []) x ∙ rw h refl
  grow-Grows false gone top x h = h

  grow-named_in :
      (b : Bool) (gone : List Bytes) (top : Bytes)
      → b ≡ true
      → named_in (grow b gone top) top ≡ true
  unfolding named_in
  grow-named_in b gone top h =
      rw h (named_in-append gone (top ∷ []) top ∙ rw (bytes_eq_refl top) (or_true _))

  grow_members :
      (index : List Entry) (b : Bool) (gone : List Bytes) (top : Bytes)
      → (b ≡ true → is_deleted index top ≡ true)
      → ((x : Bytes) → named_in gone x ≡ true → is_deleted index x ≡ true)
      → (x : Bytes) → named_in (grow b gone top) x ≡ true
      → is_deleted index x ≡ true
  grow_members index false gone top new old x h = old x h
  grow_members index true gone top new old x h =
      one_or_other (named_in gone x) (bytes_eq x top) (old x)
        (λ e. subst (λ y. is_deleted index y ≡ true) (sym ((bytes_eq_iff x top).0 e)) (new refl))
        (sym (named_in-last gone top x) ∙ h)

  decide_new :
      (index : List Entry) (top : Bytes) (memo : Memo) (gone : List Bytes) (ans : Bool)
      (memo' : Memo)
      → Decided index (memo, gone)
      → ans ≡ is_gone prefix norecords live is_live index top
      → IsFresh prefix norecords live is_live index memo'
      → Decided index (
        memo',
        grow (ans && (norecords || has_dict prefix norecords live is_live index top)) gone top,
      )
  decide_new index top memo gone ans memo' (hm, hg) e f =
      (f, grow_members index _ gone top (λ h. rw (sym e) h) hg)

  abbrev Step : List Entry → Option Bytes → List Bytes → Memo × List Bytes → Type 0
  Step index o gone (memo', gone') =
      Decided index (memo', gone')
      × Grows gone gone'
      × ((top : Bytes) → o ≡ some top → is_deleted index top ≡ true → named_in gone' top ≡ true)

  new-Step :
      (index : List Entry) (top : Bytes) (memo : Memo) (gone : List Bytes) (ans : Bool)
      (memo' : Memo)
      → Decided index (memo, gone)
      → ans ≡ is_gone prefix norecords live is_live index top
      → IsFresh prefix norecords live is_live index memo'
      → Step index (some top) gone (
        memo',
        grow (ans && (norecords || has_dict prefix norecords live is_live index top)) gone top,
      )
  new-Step index top memo gone ans memo' h e f =
      let now = ans && (norecords || has_dict prefix norecords live is_live index top) in
      (
        decide_new index top memo gone ans memo' h e f,
        grow-Grows now gone top,
        (λ t s d.
            let same : top ≡ t = some_inj s in
            subst (λ x. named_in (grow now gone top) x ≡ true) same
              (grow-named_in now gone top
                (rw e (subst (λ x. is_deleted index x ≡ true) (sym same) d)))),
      )

  decide_top_lem :
      (index : List Entry) (o : Option Bytes) (memo : Memo) (gone : List Bytes)
      → Decided index (memo, gone)
      → Step index o gone (decide_top prefix norecords live is_live index o (memo, gone))
  decide_top_lem index none memo gone h = (h, (λ x k. k), (λ top e d. cc))
  decide_top_lem index (some top) memo gone h = elim (Bool-cases (named_in gone top)) [
    | inl e ↦ rw e (h, (λ x k. k), (λ t s d. subst (λ x. named_in gone x ≡ true) (some_inj s) e))
    | inr e ↦
        let f = tracked_file_gone-IsFresh prefix norecords live is_live index top memo h.0 in
        rw e (new-Step index top memo gone _ _ h f.0 f.1)
  ]

  abbrev AllSeen : List Entry → List Bytes → List Entry → Type 0
  AllSeen index gone = All (Seen index gone)

  decide_lem :
      (index es : List Entry) (memo : Memo) (gone : List Bytes)
      → Decided index (memo, gone)
      → Decided index (decide prefix norecords live is_live index es (memo, gone))
        × Grows gone (decide prefix norecords live is_live index es (memo, gone)).1
        × AllSeen index (decide prefix norecords live is_live index es (memo, gone)).1 es
  unfolding decide
  decide_lem index [] memo gone h = (h, (λ x k. k), tt)
  decide_lem index (e ∷ es) memo gone h =
      let s = decide_top_lem index (entry_top prefix e) memo gone h in
      let r = decide_top prefix norecords live is_live index (entry_top prefix e) (memo, gone) in
      let (d, g, a) = decide_lem index es r.0 r.1 s.0 in
      (d, (λ x k. g x (s.1 x k)), ((λ top t k. g top (s.2 top t k)), a))

  same_answer : (a b : Bool) → (a ≡ true → b ≡ true) → (b ≡ true → a ≡ true) → a ≡ b
  same_answer true b f g = sym (f refl)
  same_answer false true f g = g refl
  same_answer false false f g = refl

  top_gone_same :
      (index : List Entry) (gone : List Bytes) (o : Option Bytes)
      → ((top : Bytes) → named_in gone top ≡ true → is_deleted index top ≡ true)
      → ((top : Bytes) → o ≡ some top → is_deleted index top ≡ true → named_in gone top ≡ true)
      → top_gone prefix norecords live is_live gone o ≡ deleted_top index o
  top_gone_same index gone none h k = refl
  top_gone_same index gone (some top) h k = same_answer _ _ (h top) (k top refl)

  answers :
      (index : List Entry) (gone : List Bytes) (es : List Entry)
      → ((top : Bytes) → named_in gone top ≡ true → is_deleted index top ≡ true)
      → AllSeen index gone es
      → All
          (λ (e : Entry).
            top_gone prefix norecords live is_live gone (entry_top prefix e)
            ≡ entry_deleted index e)
          es
  answers index gone [] h k = tt
  answers index gone (e ∷ es) h (ke, k) =
      (top_gone_same index gone (entry_top prefix e) h ke, answers index gone es h k)

  -- GITPRUNE removes an entry exactly when the file that its path lies in is deleted, by the index as
  -- it was before anything was removed and with nothing remembered, keeps the others in order, and
  -- counts what it removes; for an index with one entry for a path and paths below 700 bytes.
  pub gitprune-kept :
      (index : List Entry)
      → IsIndex index
      → gitprune prefix norecords live is_live index ≡ kept (entry_deleted index) index
  unfolding gitprune
  gitprune-kept index ok =
      let (d, g, a) = decide_lem index index none [] (tt, (λ top h. nothing top h)) in
      let gone = (decide prefix norecords live is_live index index (none, [])).1 in
      remove_tops-kept prefix norecords live is_live gone (entry_deleted index) index ok
        (answers index gone index d.1 a)
