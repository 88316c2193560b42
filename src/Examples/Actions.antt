-- ===== src/Examples/Actions.antt =====
-- Signed actions.
use kinetic.Prelude.{
  ℕ, ◌+◌, ◌-◌, ◌^◌, ◌<◌, ◌≤◌, ◌≡◌, ◌≢◌, ◌⊎◌, refl, Bool, true, false, Option, none, some, [], ◌∷◌,
  arith, ◌++◌,
}
use kinetic.Prelude.Bytes.{Bytes, codes}
use kinetic.Config.{toy_platform}
use kinetic.Action.{
  SignedNetworkAction, ActionState, ActionEffect, network_halted, ActionError, Result, ok, err,
  to_bytes, prune, paused_kyns_since, new, stale_proposal,
}
use kinetic.Action.Codec.{parsed, parse_payload, parse_payload-to_bytes}
use kinetic.Action.Engine.{process_action_message, verify_action, run}
use kinetic.Action.Atomic.{IsAuthorized, verify_action-IsAuthorized}
use kinetic.Action.Replay.{last_kyn, no_replay}
use kinetic.Action.Pause.{IsConsistent, run-IsConsistent, new-IsConsistent}
use kinetic.Examples.{halt_message, resume_message, toy_config, toy_actions}

parse_payload-to_bytes_example :
    parse_payload (to_bytes halt_message) ≡ parsed halt_message.action halt_message.timestamp_kyn
parse_payload-to_bytes_example = parse_payload-to_bytes halt_message tt (omega arith)

halt-runs :
    (process_action_message toy_platform toy_config 1005 halt_message toy_actions).1
    ≡ ok (some network_halted)
unfolding process_action_message verify_action kinetic.Action.Engine.active_engine
    kinetic.Prelude.Bytes.bytes_eq kinetic.Action.Engine.verify_sovereign
    kinetic.Action.Engine.verify_with_key kinetic.Action.sovereign_key
    kinetic.Action.Engine.is_sovereign_signed kinetic.Action.Engine.effect_of
    kinetic.Action.Engine.execute_once kinetic.Prelude.Assoc.contains_key
    kinetic.Prelude.Assoc.lookup prune kinetic.Prelude.Assoc.retain
halt-runs = refl

no_replay_example :
    (process_action_message toy_platform toy_config
      (last_kyn 1005 ((resume_message, 1020) ∷ []))
      halt_message
      (run toy_platform toy_config
        ((resume_message, 1020) ∷ [])
        (process_action_message toy_platform toy_config 1005 halt_message toy_actions).0)).1
    ≢ ok (some network_halted)
no_replay_example =
    no_replay toy_platform toy_config halt_message (omega arith) 1005 toy_actions
      ((resume_message, 1020) ∷ []) (some network_halted) (some network_halted) (omega arith, tt)
      halt-runs

stale-halt :
    (process_action_message toy_platform toy_config 5000 halt_message toy_actions).1
    ≡ err stale_proposal
unfolding process_action_message verify_action kinetic.Action.Engine.active_engine
    kinetic.Prelude.Bytes.bytes_eq kinetic.Action.Engine.verify_sovereign
stale-halt = refl

halt-verifies :
    verify_action toy_platform toy_config 1005 halt_message toy_actions ≡ ok (some network_halted)
unfolding verify_action kinetic.Action.Engine.active_engine kinetic.Prelude.Bytes.bytes_eq
    kinetic.Action.Engine.verify_sovereign kinetic.Action.Engine.verify_with_key
    kinetic.Action.sovereign_key kinetic.Action.Engine.is_sovereign_signed
    kinetic.Action.Engine.effect_of
halt-verifies = refl

verify_action-IsAuthorized_example :
    (key : Bytes) × IsAuthorized toy_platform toy_config 1005 halt_message toy_actions key
verify_action-IsAuthorized_example =
    verify_action-IsAuthorized toy_platform toy_config 1005 halt_message toy_actions
      (some network_halted) halt-verifies

run-IsConsistent_example :
    IsConsistent
      (last_kyn 1000 ((halt_message, 1005) ∷ (resume_message, 1020) ∷ []))
      (run toy_platform toy_config ((halt_message, 1005) ∷ (resume_message, 1020) ∷ []) (new 0))
run-IsConsistent_example =
    run-IsConsistent toy_platform toy_config 1000
      ((halt_message, 1005) ∷ (resume_message, 1020) ∷ []) (new 0) (omega arith, (omega arith, tt))
      (omega arith) (new-IsConsistent 0 1000)
