-- ===== src/Kyn/Beacon.antt =====
-- Randomness beacons: kinetic-kyn/src/beacon.rs.
use kinetic.Prelude.{
  ℕ, ◌-◌, ◌*◌, ◌%◌, ◌^◌, ◌≡◌, Bool, true, false, not, ◌&&◌, none, some, [], arith, leb, inl, inr,
  Option-cases, if◌then◌else◌,
}
use kinetic.Prelude.Bytes.{Bytes, bytes_eq, bytes_eq_iff}
use kinetic.Config.{NetworkConstants, Platform}

abbrev pub max_stale_rounds_for_heartbeat : ℕ
max_stale_rounds_for_heartbeat = 600

pub record RawKyn : Type 0 where
  pub beacon_idx : ℕ
  pub randomness : Bytes
  pub signature : Bytes
  pub is_from_cache : Bool
  pub is_unavailable : Bool

-- The compiled-in public key is part of `verify_drand`.
unfoldable pub verify_beacon_signature : Platform → ℕ → Bytes → Bool → Bool
verify_beacon_signature p beacon_idx signature_hex bypass_signature =
    if bypass_signature then true else elim (p.hex_decode signature_hex) [
      | none ↦ false
      | some sig_bytes ↦ p.verify_drand beacon_idx sig_bytes
    ]

-- `RawKyn::kyn`, a `u64` product
unfoldable pub kyn_of : NetworkConstants → RawKyn → ℕ
kyn_of c r = (r.beacon_idx * c.kyn_period) % 2 ^ 64

unfoldable pub unavailable : RawKyn
unavailable = record {
  beacon_idx = 0;
  randomness = [];
  signature = [];
  is_from_cache = false;
  is_unavailable = true;
}

unfoldable pub can_register : RawKyn → Bool
can_register r = not r.is_unavailable && not r.is_from_cache

unfoldable pub can_heartbeat : NetworkConstants → RawKyn → ℕ → Bool
unfolding kyn_of
can_heartbeat c r current_live_kyn =
    if r.is_unavailable
    then false
    else if not r.is_from_cache
    then true
    else leb (current_live_kyn - kyn_of c r) max_stale_rounds_for_heartbeat

unfoldable pub verify_beacon : Platform → RawKyn → Bool → Bool
unfolding verify_beacon_signature
verify_beacon p r bypass_signature =
    if r.is_unavailable
    then true
    else if bypass_signature
    then true
    else if not (verify_beacon_signature p r.beacon_idx r.signature false)
    then false
    else elim (p.hex_decode r.signature) [
      | none ↦ false
      | some sig_bytes ↦ elim (p.hex_decode r.randomness) [
        | none ↦ false
        | some bytes ↦ bytes_eq bytes (p.sha256 sig_bytes)
      ]
    ]

-- An available beacon that passes the full check carries a signature that the drand check accepts,
-- and its randomness is the SHA-256 of that signature.
pub verify_beacon_sound :
    (p : Platform) (r : RawKyn)
    → r.is_unavailable ≡ false
    → verify_beacon p r false ≡ true
    → (sig : Bytes) × (rand : Bytes) × (p.hex_decode r.signature ≡ some sig)
      × (p.verify_drand r.beacon_idx sig ≡ true)
      × (p.hex_decode r.randomness ≡ some rand)
      × (rand ≡ p.sha256 sig)
unfolding verify_beacon
verify_beacon_sound p r u h = elim (Option-cases (p.hex_decode r.signature)) [
  | inl e ↦ absurd (ground arith)
  | inr (sig, e) ↦ elim (Option-cases (p.hex_decode r.randomness)) [
    | inl f ↦ absurd (ground arith)
    | inr (rand, f) ↦
        let eq : bytes_eq rand (p.sha256 sig) ≡ true = ground arith in
        (sig, rand, e, ground arith, f, (bytes_eq_iff rand (p.sha256 sig)).0 eq)
  ]
]

-- Registering is stricter than heartbeating: a beacon that may register may also heartbeat, at any
-- live kyn.
pub can_register→can_heartbeat :
    (c : NetworkConstants) (r : RawKyn) (live : ℕ)
    → can_register r ≡ true
    → can_heartbeat c r live ≡ true
unfolding can_register can_heartbeat
can_register→can_heartbeat c r live h = ground arith
