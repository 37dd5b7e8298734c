-- ===== src/Tests/Descriptors.antt =====
-- Theorems on account descriptors, applied to one with a policy (src/mvxgit.c).
use mv_git.Base.{[], ◌∷◌, ◌++◌, ◌≡◌, refl, arith, length, ◌<◌, some, none, List}
use mv_git.Bytes.{Bytes, codes, newline, starts_with}
use mv_git.Control.{skip_gaps, trim_end, is_white}
use mv_git.Descriptor.{
  AcctDesc, is_permit, open_text, desc_render_open, desc_parse, desc_carry_open,
}
use mv_git.Descriptor.Line.{IsValue, clear-Lacks}
use mv_git.Descriptor.Policy.{IsPolicyLine}
use mv_git.Descriptor.Trip.{
  IsPortable, filled, desc_parse-desc_render_open, desc_carry_open-desc_render_open,
}
use mv_git.Wire.{show, show_digits}

abbrev policy : List Bytes
policy = codes "deny prog:A = rm" ∷ []

abbrev account : AcctDesc
account = record {
  name = codes "sales";
  version = [];
  description = [];
  hash = [];
  openaccount = 1;
  flavour = [];
  permits = codes "deny prog:A = rm" ++ newline ∷ [];
}

sales-IsValue : IsValue 128 (codes "sales")
unfolding skip_gaps trim_end is_white
sales-IsValue = record {
  room = omega arith;
  one_line = clear-Lacks newline (codes "sales") refl;
  text = clear-Lacks 0 (codes "sales") refl;
  tight_front = refl;
  tight_end = refl;
}

deny-IsPolicyLine : IsPolicyLine (codes "deny prog:A = rm")
unfolding skip_gaps trim_end is_white is_permit starts_with
deny-IsPolicyLine = record {
  is_policy = refl;
  short = omega arith;
  one_line = clear-Lacks newline (codes "deny prog:A = rm") refl;
  text = clear-Lacks 0 (codes "deny prog:A = rm") refl;
  tight_front = refl;
  tight_end = refl;
}

account-IsPortable : IsPortable account policy
account-IsPortable = record {
  name = sales-IsValue;
  version = tt;
  description = tt;
  hash = tt;
  flavour = tt;
  small = omega arith;
  permits = refl;
  lines = (deny-IsPolicyLine, tt);
  fits = omega arith;
}

account_fits : length (open_text account) < 4096
unfolding open_text show show_digits
account_fits = omega arith

desc_parse-desc_render_open_example : desc_parse (desc_render_open 4096 account) ≡ filled account
desc_parse-desc_render_open_example =
    desc_parse-desc_render_open account policy account-IsPortable 4096 account_fits

desc_carry_open-desc_render_open_example :
    (desc_carry_open (some (desc_render_open 4096 account)) none (codes "x") 4096
      ≡ some (desc_render_open 4096 account))
    × (desc_carry_open none (some (desc_render_open 4096 account)) (codes "x") 4096
        ≡ some (desc_render_open 4096 account))
desc_carry_open-desc_render_open_example =
    desc_carry_open-desc_render_open account policy account-IsPortable 4096 (codes "x") none
      account_fits refl
