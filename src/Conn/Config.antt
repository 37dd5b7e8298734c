-- ===== src/Conn/Config.antt =====
-- Which setting of the config decides (src/mvconn.c, config_says_open).
use mv_git.Base.{Bool, true, false, List, [], ◌∷◌, ◌++◌, Option, none, some, ◌≡◌, refl, ◌∙◌, ap}
use mv_git.Bytes.{Bytes}
use mv_git.Conn.{
  Line, section, setting, other, read_line, read_lines, scan_config, config_says_open,
}

-- Whether lines without a setting of their own section `[mvx]` leave the reader in one; `none` when
-- they hold such a setting.
abbrev pub undecided : Bool → List Line → Option Bool
undecided here [] = some here
undecided here (section mine ∷ more) = undecided mine more
undecided false (setting on ∷ more) = undecided false more
undecided true (setting on ∷ more) = none
undecided here (other ∷ more) = undecided here more

scan_first :
    (here on : Bool) (before after : List Line)
    → undecided here before ≡ some true
    → scan_config here (before ++ setting on ∷ after) ≡ on
unfolding scan_config
scan_first false on [] after h = cc
scan_first true on [] after h = refl
scan_first here on (section mine ∷ before) after h = scan_first mine on before after h
scan_first false on (setting off ∷ before) after h = scan_first false on before after h
scan_first true on (setting off ∷ before) after h = cc
scan_first here on (other ∷ before) after h = scan_first here on before after h

scan_none :
    (here : Bool) (lines : List Line) (last : Bool)
    → undecided here lines ≡ some last
    → scan_config here lines ≡ false
unfolding scan_config
scan_none here [] last h = refl
scan_none here (section mine ∷ more) last h = scan_none mine more last h
scan_none false (setting on ∷ more) last h = scan_none false more last h
scan_none true (setting on ∷ more) last h = cc
scan_none here (other ∷ more) last h = scan_none here more last h

read_lines-append :
    (before after : List Bytes)
    → read_lines (before ++ after) ≡ read_lines before ++ read_lines after
read_lines-append [] after = refl
read_lines-append (l ∷ before) after = ap (λ ls. read_line l ∷ ls) (read_lines-append before after)

-- The account is open exactly as the first setting of openaccount in an `[mvx]` section says,
-- whatever stands behind it and in other sections; without one it is not.
pub config_says_open_lem :
    (before : List Bytes)
    → ((line : Bytes) (after : List Bytes) (on : Bool)
        → undecided false (read_lines before) ≡ some true
        → read_line line ≡ setting on
        → config_says_open (before ++ line ∷ after) ≡ on)
      × ((last : Bool)
          → undecided false (read_lines before) ≡ some last
          → config_says_open before ≡ false)
unfolding config_says_open
config_says_open_lem before = (
  λ line after on open_section e.
      ap (scan_config false) (read_lines-append before (line ∷ after))
      ∙ ap (λ l. scan_config false (read_lines before ++ l ∷ read_lines after)) e
      ∙ scan_first false on (read_lines before) (read_lines after) open_section,
  λ last h. scan_none false (read_lines before) last h,
)
