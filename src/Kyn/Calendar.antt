-- ===== src/Kyn/Calendar.antt =====
-- The crystal calendar and the conversions to Unix time (kinetic-kyn/src/math.rs).
use kinetic.Prelude.{ℕ, ◌+◌, ◌*◌, ◌-◌, ◌^◌, ◌≤◌, ◌<◌, ◌≡◌, arith}
use kinetic.Prelude.Words.{u64_max, from_be-be_bytes}
use kinetic.Kyn.{to_ukyn, to_kyn, to_be_bytes, from_be_bytes, from_kyn}

-- For every two kyns: the facet is below 24 and the kyn below 3600, the three digits add up to the
-- total, and the total is the number of kyns since genesis, 0 before it.
pub from_kyn_lem :
    (current genesis : ℕ)
    → let t = from_kyn current genesis in
      (t.facet < 24)
      × (t.kyn < 3600)
      × (t.prism * 86400 + t.facet * 3600 + t.kyn ≡ t.total)
      × (t.total ≡ current - genesis)
unfolding from_kyn
from_kyn_lem current genesis = ground arith

-- From genesis on the calendar loses nothing: kyns that show the same digits are equal.
pub from_kyn_inj :
    (a b genesis : ℕ)
    → genesis ≤ a
    → genesis ≤ b
    → (from_kyn a genesis).prism ≡ (from_kyn b genesis).prism
    → (from_kyn a genesis).facet ≡ (from_kyn b genesis).facet
    → (from_kyn a genesis).kyn ≡ (from_kyn b genesis).kyn
    → a ≡ b
from_kyn_inj a b genesis ha hb p q r = omega (arith, from_kyn_lem a genesis, from_kyn_lem b genesis)

-- While the sum fits in 64 bits, a kyn that is turned into Unix time and back is unchanged.
pub to_kyn-to_ukyn :
    (kyn genesis : ℕ) → genesis + kyn ≤ u64_max → to_kyn (to_ukyn kyn genesis) genesis ≡ kyn
unfolding to_ukyn to_kyn
to_kyn-to_ukyn kyn genesis h = omega arith

-- A 64-bit kyn is read back from its eight big-endian bytes.
pub from_be_bytes-to_be_bytes : (kyn : ℕ) → kyn < 2 ^ 64 → from_be_bytes (to_be_bytes kyn) ≡ kyn
unfolding from_be_bytes to_be_bytes
from_be_bytes-to_be_bytes kyn h = from_be-be_bytes 8 kyn h
