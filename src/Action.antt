-- ===== src/Action.antt =====
-- Privileged network actions: the wire types of kinetic-types/src/action.rs, the state of
-- kinetic-action/src/types.rs, and its operations of kinetic-action/src/logic.rs. Keys, signatures
-- and hashes are byte strings; `HashMap` is an association list.
pub mod Codec
pub mod Engine
pub mod Atomic
pub mod Replay
pub mod Timeline
pub mod Pause
use kinetic.Prelude.{
  ℕ, ◌+◌, ◌-◌, ◌≤◌, Bool, true, false, Option, none, some, List, [], ◌∷◌, ◌++◌, leb, ◌==◌, not,
  ◌||◌, if◌then◌else◌, length,
}
use kinetic.Prelude.Bytes.{Bytes, codes, bytes_eq}
use kinetic.Prelude.Words.{u64_be, add64}
use kinetic.Prelude.Assoc.{Assoc, retain}
use kinetic.Config.{Platform}

-- `KINETIC_PUBKEY_LENGTH` of kinetic-primitives/src/lib.rs
abbrev pub pubkey_length : ℕ
pubkey_length = 1952

pub data NetworkAction : Type 0 where
  rotate_sovereign_key : Bytes → NetworkAction
  emergency_halt : NetworkAction
  emergency_resume : NetworkAction

pub record SignedNetworkAction : Type 0 where
  pub action : NetworkAction
  pub timestamp_kyn : ℕ
  pub sovereign_signatures : List Bytes

unfoldable pub opcode_bytes : NetworkAction → Bytes
opcode_bytes (rotate_sovereign_key new_key) = 0x0b ∷ new_key
opcode_bytes emergency_halt = 0x0c ∷ []
opcode_bytes emergency_resume = 0x0d ∷ []

-- `SignedNetworkAction::to_bytes`
unfoldable pub to_bytes : SignedNetworkAction → Bytes
to_bytes msg = opcode_bytes msg.action ++ u64_be msg.timestamp_kyn

pub data ActionEffect : Type 0 where
  sovereign_key_rotated : Bytes → ActionEffect
  network_halted : ActionEffect
  network_resumed : ActionEffect

pub data ActionError : Type 0 where
  missing_sovereign_key : ActionError
  malformed_sovereign_key : ActionError
  key_length_mismatch : ActionError
  stale_proposal : ActionError
  invalid_signature : ActionError
  action_disabled : ActionError
  already_executed : ActionError

-- a call returns, fails, or panics
pub data Result {ℓ} (A : Type ℓ) : Type ℓ where
  ok : A → Result A
  err : ActionError → Result A
  panic : Result A

pub record ActionState : Type 0 where
  pub genesis_kyn : ℕ
  pub active_sovereign_key : Option Bytes
  pub is_halted : Bool
  pub halt_start_kyn : Option ℕ
  pub total_paused_kyns : ℕ
  pub pause_history : List (ℕ × ℕ)
  pub executed_hashes : Assoc ℕ
  pub action_log : List SignedNetworkAction

pub record ActionConfig : Type 0 where
  pub sovereign_key_hex : Bytes
  pub max_age_kyns : ℕ
  pub is_dev_mode : Bool
  pub action_model : Bytes

-- `ActionState::new`
abbrev pub new : ℕ → ActionState
new genesis_kyn = record {
  genesis_kyn = genesis_kyn;
  active_sovereign_key = none;
  is_halted = false;
  halt_start_kyn = none;
  total_paused_kyns = 0;
  pause_history = [];
  executed_hashes = [];
  action_log = [];
}

unfoldable pub hash_action : Platform → SignedNetworkAction → Bytes
hash_action p msg = p.sha256 (to_bytes msg)

-- `ActionState::prune`; the sum is a `u64`
unfoldable pub prune : ActionConfig → ℕ → ActionState → ActionState
prune config current_kyn s = record s {
  executed_hashes =
      retain (λ exec_kyn. leb current_kyn (add64 exec_kyn config.max_age_kyns)) s.executed_hashes;
}

unfoldable pub decoded_key : Platform → Bytes → Result Bytes
decoded_key p hex = elim (p.hex_decode hex) [
  | none ↦ err malformed_sovereign_key
  | some bytes ↦ if length bytes == pubkey_length then ok bytes else err key_length_mismatch
]

-- `ActionState::sovereign_key`
unfoldable pub sovereign_key : Platform → ActionConfig → ActionState → Result Bytes
sovereign_key p config s = elim s.active_sovereign_key [
  | some key ↦ ok key
  | none ↦ decoded_key p config.sovereign_key_hex
]

-- `s.contains(pattern)`
unfoldable pub starts_with : Bytes → Bytes → Bool
starts_with s [] = true
starts_with [] (c ∷ pattern) = false
starts_with (d ∷ s) (c ∷ pattern) =
    let rest = starts_with s pattern in if d == c then rest else false

unfoldable pub contains : Bytes → Bytes → Bool
contains [] pattern = starts_with [] pattern
contains (c ∷ s) pattern = starts_with (c ∷ s) pattern || contains s pattern

-- `validate_keys_initialized`; `ok` carries nothing
unfoldable pub validate_keys_initialized : Platform → Bytes → Bool → Result (Unit {0})
validate_keys_initialized p sovereign_key_hex is_dev_mode =
    if is_dev_mode
    then ok tt
    else if contains sovereign_key_hex (codes "REPLACE_ME")
    then err missing_sovereign_key
    else elim (decoded_key p sovereign_key_hex) [ ok key ↦ ok tt | err e ↦ err e | panic ↦ panic ]

-- one round of the loop of `paused_kyns_since`
unfoldable pub add_pause : ℕ → ℕ → ℕ × ℕ → ℕ
add_pause target_kyn total (start, end) =
    if leb end target_kyn
    then total
    else if leb target_kyn start
    then add64 total (end - start)
    else add64 total (end - target_kyn)

unfoldable pub paused_from : ℕ → ℕ → List (ℕ × ℕ) → ℕ
paused_from target_kyn total [] = total
paused_from target_kyn total (pause ∷ history) =
    paused_from target_kyn (add_pause target_kyn total pause) history

-- `ActionState::paused_kyns_since`
unfoldable pub paused_kyns_since : ActionState → ℕ → ℕ
paused_kyns_since s target_kyn = paused_from target_kyn 0 s.pause_history
