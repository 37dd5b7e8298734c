-- ===== src/Tests/Records.antt =====
-- Theorems on records and controls, applied to concrete records (src/mvxgit.c).
use mv_git.Base.{true, false, [], ◌∷◌, ◌≡◌, refl}
use mv_git.Build.{uv_git}
use mv_git.Bytes.{Bytes, am, c_str}
use mv_git.Bytes.Split.{split}
use mv_git.Record.{attr, attr_of, is_item, is_empty, open_dict_project, native_dict_record, or_else}
use mv_git.Record.Plain.{native-project_exchanges}

-- D, 1, no conversion, Name, 10L, an association and the flag
abbrev item : Bytes
item = b'D' ∷ am ∷ b'1' ∷ am ∷ am ∷ b'N' ∷ am ∷ b'9' ∷ am ∷ b'S' ∷ am ∷ b'A' ∷ []

item-is_item : is_item (attr am item 0) ≡ true
unfolding split
item-is_item = refl

flag_at_7 : is_empty (attr_of item am 7 8) ≡ false
unfolding attr_of split c_str
flag_at_7 = refl

native-project_exchanges_example :
    let back = native_dict_record uv_git (or_else (open_dict_project uv_git item) item) in
    (attr am back 5 ≡ attr am item 6) × (attr am back 6 ≡ attr am item 5)
native-project_exchanges_example =
    native-project_exchanges uv_git item refl refl item-is_item flag_at_7
