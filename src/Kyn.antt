-- ===== src/Kyn.antt =====
-- Network time: kinetic-kyn/src/types.rs and kinetic-kyn/src/math.rs. `Kyn`, `UKyn` and the
-- wrappers of `define_nested_kyns` are transparent newtypes over `u64` and stand as ℕ.
pub mod Calendar
pub mod Beacon
use kinetic.Prelude.{ℕ, ◌-◌, ◌/◌, ◌%◌, ltb, if◌then◌else◌}
use kinetic.Prelude.Words.{saturating_add, u64_be, from_be}
use kinetic.Prelude.Bytes.{Bytes}

pub record CrystallizedKyn : Type 0 where
  pub prism : ℕ
  pub facet : ℕ
  pub kyn : ℕ
  pub total : ℕ

-- `Kyn::to_ukyn`
unfoldable pub to_ukyn : ℕ → ℕ → ℕ
to_ukyn kyn genesis = saturating_add genesis kyn

-- `UKyn::to_kyn`: `saturating_sub` is the subtraction of ℕ
unfoldable pub to_kyn : ℕ → ℕ → ℕ
to_kyn ukyn genesis = ukyn - genesis

unfoldable pub to_be_bytes : ℕ → Bytes
to_be_bytes kyn = u64_be kyn

unfoldable pub from_be_bytes : Bytes → ℕ
from_be_bytes bytes = from_be 0 bytes

-- `CrystallizedKyn::from_kyn`
pub from_kyn : ℕ → ℕ → CrystallizedKyn
from_kyn current_kyn genesis_kyn =
    if ltb current_kyn genesis_kyn
    then record { prism = 0; facet = 0; kyn = 0; total = 0 }
    else let total = current_kyn - genesis_kyn in
      let remainder_after_prism = total % 86400 in
      record {
        prism = total / 86400;
        facet = remainder_after_prism / 3600;
        kyn = remainder_after_prism % 3600;
        total = total;
      }
