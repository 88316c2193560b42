-- ===== src/Store/RevealCheck.antt =====
-- `compute_required_iterations` and `verify_reveal` of
-- kinetic-network/src/store/verification.rs. The check of a reveal returns `none` for `Ok(())`.
use kinetic.Prelude.{
  ℕ, ◌-◌, ◌*◌, ◌/◌, ◌%◌, ◌^◌, max, Bool, true, false, ◌&&◌, not, Option, none, some, ◌++◌, ltb, leb,
  ◌==◌, if◌then◌else◌, length,
}
use kinetic.Prelude.Bytes.{Bytes}
use kinetic.Prelude.Words.{from_be}
use kinetic.Config.{NetworkConstants, Platform, VdfAnswer, accepted, refused, engine_failure}
use kinetic.Names.{normalize_name, is_valid_apex_name}
use kinetic.Physics.{label_of, iterations}
use kinetic.Kyn.Beacon.{verify_beacon_signature}
use kinetic.Action.{ActionState, paused_kyns_since}
use kinetic.Kid.{Jcs}
use kinetic.Vdf.{PreviousProof, Reveal, derive}
use kinetic.Vdf.Validate.{validate}
use kinetic.Signature.{verify_signature}
use kinetic.Store.{
  KineticStoreError, invalid_vdf, vdf_engine_error, invalid_signature, insufficient_iterations,
  invalid_beacon_hex, stale_reveal, invalid_name, network_halted, invalid_beacon_signature,
  missing_commitment, krs_commit_prefix, resquaring_epoch_kyns, Surroundings,
}

-- the required iterations, or an error
pub data Required : Type 0 where
  required : ℕ → Required
  rejected : KineticStoreError → Required

-- `get_u64_from_db`
unfoldable pub get_u64_from_db : (Bytes → Option Bytes) → Bytes → Option ℕ
get_u64_from_db stored key = elim (stored key) [
  | none ↦ none
  | some bytes ↦ if length bytes == 8 then some (from_be 0 bytes) else none
]

-- the kyns that the network was paused since a kyn
unfoldable pub paused_since : Option ActionState → ℕ → ℕ
paused_since none kyn = 0
paused_since (some s) kyn = paused_kyns_since s kyn

-- the age of a kyn, less the pauses
unfoldable pub effective_age : Option ActionState → ℕ → ℕ → ℕ
effective_age s current_kyn kyn = current_kyn - kyn - paused_since s kyn

unfoldable pub is_accepted : VdfAnswer → Bool
is_accepted accepted = true
is_accepted refused = false
is_accepted engine_failure = false

-- the `match` on the length of the name; the product is a `u64`
unfoldable pub discount_iterations : NetworkConstants → ℕ → ℕ → ℕ
discount_iterations k base name_len =
    if name_len == 1
    then k.vdf_discount_min_iterations
    else if leb 2 name_len && leb name_len 6
    then base / 2
    else if leb 7 name_len && leb name_len 10
    then base / 5
    else (base * k.vdf_discount_percentage) % 2 ^ 64 / 100

-- whether the previous proof, whose beacon bytes are given, earns the discount
unfoldable pub earns_discount :
    NetworkConstants → Platform → Surroundings → Reveal → PreviousProof → ℕ → Bytes → Bool
earns_discount k p env r prev current_kyn sig_bytes =
    is_accepted (
      p.vdf_verify (derive p k.network_salt r.name prev.salt sig_bytes r.pubkey) prev.vdf_proof
        prev.iterations)
    && (leb (iterations k p r.name) prev.iterations
        && leb (effective_age env.action_state current_kyn prev.kyn) (resquaring_epoch_kyns * 2))

-- the discounted iterations
unfoldable pub discounted : NetworkConstants → Platform → Bytes → ℕ
discounted k p name =
    let name_len = length (label_of k (normalize_name k p name)) in
    max k.vdf_discount_min_iterations (discount_iterations k (iterations k p name) name_len)

-- the iterations once the name and the beacon are valid
unfoldable pub loyalty_iterations :
    NetworkConstants → Platform → Surroundings → Reveal → ℕ → Option PreviousProof → ℕ
loyalty_iterations k p env r current_kyn none = iterations k p r.name
loyalty_iterations k p env r current_kyn (some prev) = elim (p.hex_decode prev.beacon_signature) [
  | none ↦ iterations k p r.name
  | some sig_bytes ↦
      if not (verify_beacon_signature p prev.kyn prev.beacon_signature k.dev_mode)
      then iterations k p r.name
      else if earns_discount k p env r prev current_kyn sig_bytes
      then discounted k p r.name
      else iterations k p r.name
]

unfoldable pub compute_required_iterations :
    NetworkConstants → Platform → Surroundings → Reveal → ℕ → Required
compute_required_iterations k p env r current_kyn = elim (is_valid_apex_name k p r.name) [
  | some e ↦ rejected invalid_name
  | none ↦
      if not (verify_beacon_signature p r.kyn r.beacon_signature k.dev_mode)
      then rejected invalid_beacon_signature
      else required (loyalty_iterations k p env r current_kyn r.previous_proof)
]

unfoldable pub commit_key : Bytes → Bytes
commit_key hash = krs_commit_prefix ++ hash

unfoldable pub vdf_error : VdfAnswer → Option KineticStoreError
vdf_error accepted = none
vdf_error refused = some invalid_vdf
vdf_error engine_failure = some vdf_engine_error

-- the check that the name was committed to, long enough ago
unfoldable pub check_commitment :
    NetworkConstants → Surroundings → ℕ → Bytes → Option KineticStoreError
check_commitment k env current_kyn hash = elim (get_u64_from_db env.stored (commit_key hash)) [
  | some commit_kyn ↦
      if not k.dev_mode && ltb (current_kyn - commit_kyn) k.minimum_commit_age_kyns
      then some stale_reveal
      else none
  | none ↦ if not k.dev_mode then some (missing_commitment (commit_key hash)) else none
]

-- the check of the work, after the commitment
unfoldable pub check_work :
    NetworkConstants → Platform → Surroundings → Reveal → ℕ → Bytes → Option KineticStoreError
check_work k p env r current_kyn hash = elim (compute_required_iterations k p env r current_kyn) [
  | rejected e ↦ some e
  | required n ↦
      if k.dev_mode
      then none
      else if ltb r.iterations n
      then some insufficient_iterations
      else vdf_error (p.vdf_verify hash r.vdf_proof r.iterations)
]

-- the checks of the commitment and the work, on the beacon bytes
unfoldable pub check_challenge :
    NetworkConstants → Platform → Surroundings → Reveal → ℕ → Bytes → Option KineticStoreError
check_challenge k p env r current_kyn sig_bytes =
    let hash = derive p k.network_salt r.name r.salt sig_bytes r.pubkey in
    elim (check_commitment k env current_kyn hash) [
      | some e ↦ some e
      | none ↦ check_work k p env r current_kyn hash
    ]

unfoldable pub is_none {ℓ} : {A : Type ℓ} → Option A → Bool
is_none none = true
is_none (some a) = false

unfoldable pub is_halted_now : Option ActionState → Bool
is_halted_now none = false
is_halted_now (some s) = s.is_halted

unfoldable pub verify_reveal :
    NetworkConstants → Platform → Jcs → Surroundings → Reveal → ℕ → Option KineticStoreError
verify_reveal k p j env r current_kyn =
    if is_halted_now env.action_state
    then some network_halted
    else if not (is_none (validate k p r))
    then some invalid_name
    else if not k.dev_mode && not (is_none (verify_signature k p j r))
    then some invalid_signature
    else if not (verify_beacon_signature p r.kyn r.beacon_signature k.dev_mode)
    then some invalid_beacon_signature
    else elim (p.hex_decode r.beacon_signature) [
      | none ↦ some invalid_beacon_hex
      | some sig_bytes ↦ check_challenge k p env r current_kyn sig_bytes
    ]
