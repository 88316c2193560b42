-- ===== src/Action/Engine.antt =====
-- The engines behind `ActionEngine` (kinetic-action/src/engine/) and `process_action_message` of
-- kinetic-action/src/logic.rs. A call that mutates the state returns the new state beside its
-- result; on an error the state is what it was at that point.
use kinetic.Prelude.{
  ℕ, ◌-◌, Bool, true, false, Option, none, some, List, [], ◌∷◌, ◌++◌, ltb, ◌==◌, if◌then◌else◌,
  length, any,
}
use kinetic.Prelude.Bytes.{Bytes, codes, bytes_eq}
use kinetic.Prelude.Words.{abs_diff, saturating_add}
use kinetic.Prelude.Assoc.{insert, contains_key}
use kinetic.Config.{Platform}
use kinetic.Action.{
  NetworkAction, rotate_sovereign_key, emergency_halt, emergency_resume, SignedNetworkAction,
  ActionState, ActionConfig, ActionEffect, sovereign_key_rotated, network_halted, network_resumed,
  Result, ok, err, panic, stale_proposal, invalid_signature, key_length_mismatch, action_disabled,
  already_executed, pubkey_length, to_bytes, hash_action, prune, sovereign_key,
}

pub data ActionModel : Type 0 where
  sovereign : ActionModel
  permissionless : ActionModel

-- `active_engine`; `none` is its panic
unfoldable pub active_engine : Bytes → Option ActionModel
active_engine model =
    if bytes_eq model (codes "sovereign")
    then some sovereign
    else if bytes_eq model (codes "permissionless")
    then some permissionless
    else none

-- the effect of a signed action
unfoldable pub effect_of : NetworkAction → Result (Option ActionEffect)
effect_of (rotate_sovereign_key new_key) =
    if length new_key == pubkey_length
    then ok (some (sovereign_key_rotated new_key))
    else err key_length_mismatch
effect_of emergency_halt = ok (some network_halted)
effect_of emergency_resume = ok (some network_resumed)

-- one of the signatures is the sovereign's
unfoldable pub is_sovereign_signed : Platform → Bytes → SignedNetworkAction → Bool
is_sovereign_signed p key msg =
    any (λ sig. p.verify_signature key (to_bytes msg) sig) msg.sovereign_signatures

-- the rest of `SovereignEngine::verify_action`, after the key was found
unfoldable pub verify_with_key :
    Platform → SignedNetworkAction → Result Bytes → Result (Option ActionEffect)
verify_with_key p msg (ok key) =
    if is_sovereign_signed p key msg then effect_of msg.action else err invalid_signature
verify_with_key p msg (err e) = err e
verify_with_key p msg panic = panic

-- `SovereignEngine::verify_action`
unfoldable pub verify_sovereign :
    Platform → ActionConfig → ℕ → SignedNetworkAction → ActionState → Result (Option ActionEffect)
verify_sovereign p config current_kyn msg s =
    if ltb config.max_age_kyns (abs_diff current_kyn msg.timestamp_kyn)
    then err stale_proposal
    else verify_with_key p msg (sovereign_key p config s)

-- the `EmergencyHalt` arm
unfoldable pub halt : ℕ → ActionState → ActionState
halt current_kyn s = if s.is_halted then s else elim s.halt_start_kyn [
  | none ↦ record s { is_halted = true; halt_start_kyn = some current_kyn }
  | some start ↦ record s { is_halted = true }
]

-- `halt_start_kyn.take().unwrap_or(current_kyn)`
abbrev pub halt_start : ℕ → Option ℕ → ℕ
halt_start current_kyn none = current_kyn
halt_start current_kyn (some start) = start

-- the `EmergencyResume` arm
unfoldable pub resume : ℕ → ActionState → ActionState
resume current_kyn s =
    if s.is_halted
    then (let start_kyn = halt_start current_kyn s.halt_start_kyn in
        record s {
          is_halted = false;
          halt_start_kyn = none;
          total_paused_kyns = saturating_add s.total_paused_kyns (current_kyn - start_kyn);
          pause_history = s.pause_history ++ (start_kyn, current_kyn) ∷ [];
        })
    else s

unfoldable pub apply_action : NetworkAction → ℕ → ActionState → ActionState
unfolding halt resume
apply_action (rotate_sovereign_key new_key) current_kyn s = record s {
  active_sovereign_key = some new_key;
}
apply_action emergency_halt current_kyn s = halt current_kyn s
apply_action emergency_resume current_kyn s = resume current_kyn s

-- `SovereignEngine::execute_action`; the effect that it returns is not used
unfoldable pub execute_sovereign : Platform → ℕ → SignedNetworkAction → ActionState → ActionState
execute_sovereign p current_kyn msg s =
    apply_action msg.action current_kyn (record s {
      executed_hashes = insert (hash_action p msg) msg.timestamp_kyn s.executed_hashes;
    })

-- `ActionState::verify_action` of the engine that the configuration names
unfoldable pub verify_action :
    Platform → ActionConfig → ℕ → SignedNetworkAction → ActionState → Result (Option ActionEffect)
verify_action p config current_kyn msg s = elim (active_engine config.action_model) [
  | none ↦ panic
  | some sovereign ↦ verify_sovereign p config current_kyn msg s
  | some permissionless ↦ err action_disabled
]

-- the state of a message that passed its verification
unfoldable pub execute_once :
    Platform
    → ActionConfig
    → ℕ
    → SignedNetworkAction
    → Option ActionEffect
    → ActionState
    → ActionState × Result (Option ActionEffect)
execute_once p config current_kyn msg effect s =
    let pruned = prune config current_kyn s in
    if contains_key (hash_action p msg) pruned.executed_hashes
    then (pruned, err already_executed)
    else let done = execute_sovereign p current_kyn msg pruned in
      (record done { action_log = done.action_log ++ msg ∷ [] }, ok effect)

-- `process_action_message`. An engine other than the sovereign one lets no message pass, so only
-- the sovereign engine executes.
unfoldable pub process_action_message :
    Platform
    → ActionConfig
    → ℕ
    → SignedNetworkAction
    → ActionState
    → ActionState × Result (Option ActionEffect)
process_action_message p config current_kyn msg s =
    elim (verify_action p config current_kyn msg s) [
      | ok effect ↦ execute_once p config current_kyn msg effect s
      | err e ↦ (s, err e)
      | panic ↦ (s, panic)
    ]

-- the messages that arrive, each with the kyn of its arrival
abbrev pub Events : Type 0
Events = List (SignedNetworkAction × ℕ)

unfoldable pub run : Platform → ActionConfig → Events → ActionState → ActionState
run p config [] s = s
run p config ((msg, current_kyn) ∷ events) s =
    run p config events (process_action_message p config current_kyn msg s).0
