-- ===== src/Examples/Naming.antt =====
-- Names and keys.
use kinetic.Prelude.{◌≡◌, ◌↔◌, refl, sym, subst, true, false, none, arith}
use kinetic.Prelude.Bytes.{codes, ends_with, ends_with-append}
use kinetic.Config.{kin_network, toy_platform, toy_platform-LowersAscii}
use kinetic.Names.{is_valid_apex_name}
use kinetic.Names.Label.{IsLabel}
use kinetic.Names.Normal.{IsNamespace}
use kinetic.Names.Apex.{IsApexName, is_valid_apex_name_iff}

kin-IsNamespace : IsNamespace kin_network
kin-IsNamespace = record {
  suffix = refl;
  filled = λ e. cc e;
  no_dot = (omega arith, (omega arith, (omega arith, tt)));
  lower = ((omega arith, refl), ((omega arith, refl), ((omega arith, refl), tt)));
}

kin-no_hyphen : ends_with (codes "kin") (codes "-") ≡ false
unfolding ends_with
kin-no_hyphen = refl

kin-IsLabel : IsLabel kin_network.nsp
kin-IsLabel = record {
  filled = omega arith;
  short = omega arith;
  characters = (ground arith, (ground arith, (ground arith, tt)));
  no_first_hyphen = λ t e. cc e;
  no_last_hyphen = λ t e.
      let h : ends_with (codes "kin") (codes "-") ≡ true =
        subst (λ s. ends_with s (codes "-") ≡ true) (sym e) (ends_with-append t (codes "-")) in
      absurd (ground (arith, kin-no_hyphen, h));
}

is_valid_apex_name_iff_example :
    (is_valid_apex_name kin_network toy_platform (codes "Kinetic-9") ≡ none)
    ↔ IsApexName kin_network toy_platform (codes "Kinetic-9")
is_valid_apex_name_iff_example =
    is_valid_apex_name_iff kin_network toy_platform kin-IsNamespace toy_platform-LowersAscii
      (codes "Kinetic-9") kin-IsLabel
