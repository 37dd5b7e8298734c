-- ===== src/Staging/Silent.antt =====
-- What an add leaves out (src/mvxgit.c, GITADD and GITSTATUS): a status does not name it; and the
-- dictionary records that a status names for ever.
use mv_git.Base.{
  Bool, true, false, not, ◌&&◌, ◌||◌, ◌∷◌, ◌++◌, Option, none, some, ◌≡◌, refl, sym, ap, ◌∙◌, arith,
  if◌then◌else◌,
}
use mv_git.Build.{opendict}
use mv_git.Bytes.{Bytes, bytes_eq_refl, clip}
use mv_git.Paths.{dict_of_open_account, is_provision_pointer, platform_dict_record, path_storable}
use mv_git.Record.{blobform, open_dict_project}
use mv_git.Staging.{
  Account, left_out, kept_control, staged, Said, nothing, untracked, modified, add_drops, add_form,
  status_form, add_record, status_record, status_drops, untracked_excused, said_of, committed_path,
  path_of, git_copy, is_master, system_pointer, record_is_object, object_pointer, control_class,
  blob_is_record,
}
use mv_git.Staging.Agree.{put, staged_parts}

left_out_drops :
    (drops keeps : Bool) (p b : Bytes)
    → (if drops then left_out else if keeps then kept_control else staged p b) ≡ left_out
    → drops ≡ true
left_out_drops true keeps p b e = refl
left_out_drops false true p b e = absurd (cc)
left_out_drops false false p b e = absurd (cc)

-- The reasons of an add cover those of a status: `m` master file, `p` pointer, `t` stock, `f` and `g`
-- ignored, `v` provisioning, `o` object, `w` another pointer, `u` storable.
covered :
    (i m p t d f g v o w u : Bool) (said : Said)
    → d ≡ false
    → (i ≡ true → f ≡ true)
    → ((i || (m && (p || t))) || (d || ((f || g) || (v || o)))) ≡ true
    → (if (m && (p || w)) || (o || u)
        then nothing
        else if (m && t) || ((f || g) || v)
        then nothing
        else said)
      ≡ nothing
covered i true true t d f g v o w u said hd hi h = refl
covered i true false t d f g v o true u said hd hi h = refl
covered i true false t d f g v true false u said hd hi h = refl
covered i true false t d f g v false false true said hd hi h = refl
covered i true false true d f g v false false false said hd hi h = refl
covered i true false false d true g v false false false said hd hi h = refl
covered i true false false d false true v false false false said hd hi h = refl
covered i true false false d false false true false false false said hd hi h = refl
covered i true false false d false false false false false false said hd hi h =
    absurd (ground arith)
covered i false p t d f g v true w u said hd hi h = refl
covered i false p t d f g v false w true said hd hi h = refl
covered i false p t d true g v false w false said hd hi h = refl
covered i false p t d false true v false w false said hd hi h = refl
covered i false p t d false false true false w false said hd hi h = refl
covered i false p t d false false false false w false said hd hi h = absurd (ground arith)

module _ (acct : Account) (index : Bytes → Option Bytes) (fn id content : Bytes) where
  abbrev pub account_path : Bytes
  account_path = clip 600 (fn ++ b'/' ∷ id)

  excused :
      committed_path acct fn id ≡ account_path
      → untracked_excused acct fn id content ≡ (
          (is_master acct fn && acct.stock id content)
          || ((acct.ignores fn account_path || acct.git_ignores account_path)
              || is_provision_pointer fn id))
  unfolding untracked_excused
  excused q = rw q refl

  said_modified :
      (path blob r : Bytes)
      → path ≡ committed_path acct fn id
      → blob ≡ blobform content
      → control_class acct id content ≡ none
      → blob_is_record (blobform content) (blobform r) ≡ false
      → said_of acct fn id content r (put path blob index (committed_path acct fn id))
        ≡ modified path
  said_modified path blob r p b c other =
      rw (← p, bytes_eq_refl path, c, b, other) (ap modified (sym p))

  -- A record that a wholesale add leaves out and that is not staged is not reported as untracked:
  -- where its path in git is its path in the account, it is no record of the platform's own
  -- dictionary, and a file that is ignored by its name has all of its records ignored.
  pub status_record-left_out :
      path_of acct fn id ≡ account_path
      → committed_path acct fn id ≡ account_path
      → platform_dict_record fn id ≡ false
      → (acct.ignores fn fn ≡ true → acct.ignores fn account_path ≡ true)
      → index account_path ≡ none
      → add_record acct index fn id content ≡ left_out
      → status_record acct index fn id content ≡ nothing
  unfolding add_record add_drops status_record status_drops
  status_record-left_out p q d i n e =
      let drops : add_drops acct fn id content ≡ true =
        left_out_drops (add_drops acct fn id content) _ _ _ e in
      rw (q, n, excused q)
        (covered (acct.ignores fn fn) (is_master acct fn) (system_pointer acct id content)
          (acct.stock id content) (platform_dict_record fn id) (acct.ignores fn account_path)
          (acct.git_ignores account_path) (is_provision_pointer fn id)
          (record_is_object acct fn id content) (object_pointer acct id)
          (not (path_storable account_path)) (untracked (committed_path acct fn id)) d i
          (rw p at drops))

  -- On a build that does not define MVXGIT_OPENDICT, a dictionary record of an open account that the
  -- projection changes, by more than a newline at the end of its blob, is staged as it is and reported
  -- as modified by the status behind the add, unless status passes it over or it is a file control.
  pub status_record-modified :
      (path blob r : Bytes)
      → opendict acct.build ≡ false
      → dict_of_open_account acct.portable fn ≡ true
      → open_dict_project acct.build content ≡ some r
      → blob_is_record (blobform content) (blobform r) ≡ false
      → status_drops acct fn id content ≡ false
      → control_class acct id content ≡ none
      → add_record acct index fn id content ≡ staged path blob
      → status_record acct (put path blob index) fn id content ≡ modified path
  unfolding add_record add_form status_record status_form
  status_record-modified path blob r o d pr other s c e =
      let (p, b) = staged_parts (add_drops acct fn id content) _ _ _ path blob e in
      let raw : add_form acct index fn (git_copy acct index fn id) content ≡ content = rw o refl in
      let form : status_form acct (put path blob index) fn
            (git_copy acct (put path blob index) fn id) content
          ≡ r =
        rw (d, o, pr) refl in
      rw (s, form) (said_modified path blob r p (b ∙ ap blobform raw) c other)
