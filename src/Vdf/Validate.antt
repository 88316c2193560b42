-- ===== src/Vdf/Validate.antt =====
-- `RevealExt::validate` of kinetic-core/src/types/vdf.rs; `none` is `Ok(())`.
use kinetic.Prelude.{ℕ, ◌≤◌, ◌≡◌, not, Option, none, some, arith, ltb, ◌==◌, if◌then◌else◌, length}
use kinetic.Config.{NetworkConstants, Platform}
use kinetic.Names.{NamesError, is_valid_apex_name}
use kinetic.Vdf.{Reveal}

pub data RevealValidationError : Type 0 where
  invalid_protocol_version : ℕ → RevealValidationError
  invalid_name : NamesError → RevealValidationError
  payload_too_large : ℕ → ℕ → RevealValidationError
  invalid_beacon_signature_length : ℕ → ℕ → RevealValidationError
  invalid_pubkey_length : ℕ → ℕ → RevealValidationError
  invalid_signature_length : ℕ → ℕ → RevealValidationError
  vdf_proof_too_large : ℕ → ℕ → RevealValidationError

-- `MAX_PAYLOAD_SIZE` of kinetic-verify/src/lib.rs
abbrev pub max_payload_size : ℕ
max_payload_size = 65536

-- `KINETIC_SIGNATURE_LENGTH` of kinetic-primitives/src/lib.rs
abbrev pub signature_length : ℕ
signature_length = 3309

-- the checks after the name
unfoldable pub validate_sizes : Reveal → Option RevealValidationError
validate_sizes r =
    if ltb max_payload_size (length r.embedded_nrs)
    then some (payload_too_large (length r.embedded_nrs) max_payload_size)
    else if not (length r.beacon_signature == 192)
    then some (invalid_beacon_signature_length 192 (length r.beacon_signature))
    else if not (length r.pubkey == 1952)
    then some (invalid_pubkey_length 1952 (length r.pubkey))
    else if not (length r.identity_signature == signature_length)
    then some (invalid_signature_length signature_length (length r.identity_signature))
    else if ltb 2048 (length r.vdf_proof)
    then some (vdf_proof_too_large (length r.vdf_proof) 2048)
    else none

unfoldable pub validate : NetworkConstants → Platform → Reveal → Option RevealValidationError
validate k p r =
    if not (r.protocol_version == 1)
    then some (invalid_protocol_version r.protocol_version)
    else elim (is_valid_apex_name k p r.name) [
      | some e ↦ some (invalid_name e)
      | none ↦ validate_sizes r
    ]

-- A reveal that validates has protocol version 1, a valid apex name, and sizes within the limits of
-- the protocol.
pub validate_sound :
    (k : NetworkConstants) (p : Platform) (r : Reveal)
    → validate k p r ≡ none
    → (r.protocol_version ≡ 1)
      × (is_valid_apex_name k p r.name ≡ none)
      × (length r.embedded_nrs ≤ 65536)
      × (length r.beacon_signature ≡ 192)
      × (length r.pubkey ≡ 1952)
      × (length r.identity_signature ≡ 3309)
      × (length r.vdf_proof ≤ 2048)
unfolding validate validate_sizes
validate_sound k p r h = ground arith
