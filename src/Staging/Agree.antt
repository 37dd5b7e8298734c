-- ===== src/Staging/Agree.antt =====
-- An add and the status behind it (src/mvxgit.c, GITADD and GITSTATUS): a record that was staged is
-- not reported.
use mv_git.Base.{Bool, true, false, Option, some, ◌≡◌, if◌then◌else◌}
use mv_git.Bytes.{Bytes, am, newline, bytes_eq}
use mv_git.Bytes.Split.{Lacks}
use mv_git.Record.{attr, attr_of, or_else, open_dict_project}
use mv_git.Staging.{items_of, Account, left_out, kept_control, staged, git_copy, dict_base}
use mv_git.Staging.Same.{form, FitsSpec}
use mv_git.Virtual.{canonical}

-- The index with another blob at a path.
abbrev pub put : Bytes → Bytes → (Bytes → Option Bytes) → Bytes → Option Bytes
put path blob index q = if bytes_eq q path then some blob else index q

pub staged_parts :
    (drops keeps : Bool) (p b path blob : Bytes)
    → (if drops then left_out else if keeps then kept_control else staged p b) ≡ staged path blob
    → (path ≡ p) × (blob ≡ b)
staged_parts true keeps p b path blob e = absurd (cc)
staged_parts false true p b path blob e = absurd (cc)
staged_parts false false p b path blob e = (cc, cc)

module _ (acct : Account) (index : Bytes → Option Bytes) (fn id content : Bytes) where
  -- the record behind the projection of attributes
  abbrev pub projected : Bytes
  projected = or_else (open_dict_project acct.build content) content

  abbrev pub copy : Option Bytes
  copy = git_copy acct index fn id

  -- An expression that is read and chosen whole, and a form without newlines.
  abbrev pub IsClean : Type 0
  IsClean =
      (attr_of projected am 2 512 ≡ attr am projected 1)
      × ((canon : Bytes)
          → canonical (items_of acct index) (dict_base acct fn) (attr_of projected am 2 512) copy
            ≡ some canon
          → FitsSpec canon)
      × Lacks newline (form (items_of acct index) (dict_base acct fn) projected copy)
