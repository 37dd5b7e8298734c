-- ===== src/Record/Project.antt =====
-- The open form of a dictionary record and the way back: open_dict_project stages it,
-- materialize_file writes it into an account.
use mv_git.Base.{not, ℕ, true, false, ◌&&◌, none, some, ◌≡◌, ◌==◌, if◌then◌else◌}
use mv_git.Build.{Build, opendict, dict_sm_at_6}
use mv_git.Bytes.{Bytes, codes, am}
use mv_git.Record.{
  is_empty, attr, rtrim, or_else, first, derive_depth, finish, open_dict_project,
  native_dict_record, dict_item_swap,
}

-- Where the build does not swap.
pub project_plain :
    (b : Build) (s : Bytes)
    → dict_sm_at_6 b ≡ false
    → open_dict_project b s
      ≡ finish (first (derive_depth s 6 7) none) s (rtrim am (or_else (derive_depth s 6 7) s))
unfolding open_dict_project
project_plain b s off = rw off

pub native_swap :
    (b : Build) (s p : Bytes)
    → opendict b ≡ true
    → dict_item_swap s ≡ some p
    → native_dict_record b s ≡ or_else (derive_depth p 7 6) p
unfolding native_dict_record
native_swap b s p on h = rw (on, h)

-- Attribute k of an item as it was, but that attribute 6 of an item whose attribute 7 names an
-- association and whose attribute 6, the single/multi flag, is empty is the mark M.
abbrev pub marked : Bytes → ℕ → Bytes
marked s k =
    if (is_empty (attr am s 5) && not (is_empty (attr am s 6))) && k == 5
    then codes "M"
    else attr am s k
