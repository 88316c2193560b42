-- ===== src/Store.antt =====
-- The record store of kinetic-network/src/store: its errors (kinetic-network/src/error.rs), and the
-- checks that a reveal passes before it is stored (kinetic-network/src/store/verification.rs).
pub mod RevealCheck
pub mod IdentityCheck
pub mod State
pub mod Conflict
pub mod Handlers
pub mod Liveness
pub mod TieBreak
pub mod Rejection
pub mod RateLimit
pub mod Ownership
pub mod Reveals
pub mod Identities
pub mod Kademlia
pub mod Prune
pub mod Restore
pub mod Run
use kinetic.Prelude.{ℕ, Option}
use kinetic.Prelude.Bytes.{Bytes, codes}
use kinetic.Action.{ActionState}

pub data KineticStoreError : Type 0 where
  payload_too_large : KineticStoreError
  vdf_expired : ℕ → KineticStoreError
  invalid_vdf : KineticStoreError
  vdf_engine_error : KineticStoreError
  invalid_signature : KineticStoreError
  invalid_public_key : KineticStoreError
  malformed_signature : KineticStoreError
  tie_broken : KineticStoreError
  insufficient_iterations : KineticStoreError
  internal_store_error : KineticStoreError
  invalid_kid_signature : KineticStoreError
  invalid_manifest_signature : KineticStoreError
  unknown_record_type : KineticStoreError
  invalid_beacon_hex : KineticStoreError
  stale_heartbeat : KineticStoreError
  invalid_host_route_signature : KineticStoreError
  rate_limited : KineticStoreError
  stale_reveal : KineticStoreError
  schema_validation_error : KineticStoreError
  invalid_name : KineticStoreError
  network_halted : KineticStoreError
  delegated_capability_missing : KineticStoreError
  delegated_authorization_invalid : KineticStoreError
  invalid_beacon_signature : KineticStoreError
  malformed_json : KineticStoreError
  invalid_kid_document : KineticStoreError
  genesis_binding_failed : KineticStoreError
  unauthorized_update : KineticStoreError
  manifest_version_rollback : KineticStoreError
  manifest_verification_failed : KineticStoreError
  future_heartbeat : KineticStoreError
  reveal_not_found : KineticStoreError
  missing_commitment : Bytes → KineticStoreError
  name_not_found : KineticStoreError
  missing_kid_document : KineticStoreError

-- `KRS_COMMIT_PREFIX`, `KRS_REVEAL_PREFIX` and `KRS_HB_PREFIX`
abbrev pub krs_commit_prefix : Bytes
krs_commit_prefix = codes "krs_cmt:"

abbrev pub krs_reveal_prefix : Bytes
krs_reveal_prefix = codes "krs_reveal:"

abbrev pub krs_hb_prefix : Bytes
krs_hb_prefix = codes "krs_hb:"

-- `RESQUARING_EPOCH_KYNS` of kinetic-verify/src/lib.rs
abbrev pub resquaring_epoch_kyns : ℕ
resquaring_epoch_kyns = 5256000

-- What the checks read from outside their arguments: the lock on the global action state, which
-- yields nothing when it is poisoned, and the storage engine, whose `get` yields nothing on an error
-- as on a missing key.
pub record Surroundings : Type 0 where
  pub action_state : Option ActionState
  pub stored : Bytes → Option Bytes
