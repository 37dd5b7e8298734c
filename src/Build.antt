-- ===== src/Build.antt =====
-- The compile-time switches of the engine (src/mvxgit.c, src/mvxgit.h): one source is built for
-- every MultiValue system, and the macros decide which rules a binary has.
use mv_git.Base.{Bool, true, false, ◌||◌, if◌then◌else◌}
use mv_git.Bytes.{Bytes, codes}

-- MVXGIT_UDT, MVXGIT_GITD, MVXGIT_JBASE, MVXGIT_D3 and MVXGIT_MVXRT.
pub record Build : Type 0 where
  pub udt : Bool
  pub gitd : Bool
  pub jbase : Bool
  pub d3 : Bool
  pub mvxrt : Bool

-- MVXGIT_OPENDICT
abbrev pub opendict : Build → Bool
opendict b = b.gitd || b.udt || b.jbase

-- MVXGIT_DICT_SM_AT_6
abbrev pub dict_sm_at_6 : Build → Bool
dict_sm_at_6 b = b.udt || b.jbase

-- The binaries of the build scripts.
abbrev pub udt_git : Build
udt_git = record { udt = true; gitd = true; jbase = false; d3 = false; mvxrt = false }

abbrev pub uv_git : Build
uv_git = record { udt = false; gitd = true; jbase = false; d3 = false; mvxrt = false }

abbrev pub jb_git : Build
jb_git = record { udt = false; gitd = false; jbase = true; d3 = false; mvxrt = false }

abbrev pub mvx_git : Build
mvx_git = record { udt = false; gitd = false; jbase = false; d3 = false; mvxrt = true }

-- desc_native_name: the account's native descriptor
unfoldable pub desc_native_name : Build → Bytes
desc_native_name b =
    if b.udt
    then codes ".udt"
    else if b.gitd
    then codes ".uv"
    else if b.jbase
    then codes ".jbase"
    else codes ".mvx"

-- voc_local_name: what the account calls its master file
unfoldable pub voc_local_name : Build → Bytes
voc_local_name b = if b.jbase then codes "MD" else codes "VOC"
