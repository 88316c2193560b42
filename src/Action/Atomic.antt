-- ===== src/Action/Atomic.antt =====
-- What one message may change (kinetic-action/src/logic.rs).
use mathlib.Core.List.{Memᴰ}
use kinetic.Prelude.{any, any→mem, ℕ, ◌+◌, ◌≤◌, ◌≡◌, refl, ◌⊎◌, true, Option, some, arith}
use kinetic.Prelude.Bytes.{Bytes}
use kinetic.Config.{Platform}
use kinetic.Action.{
  SignedNetworkAction, ActionState, ActionConfig, ActionEffect, ActionError, Result, ok, err, panic,
  sovereign_key, prune, to_bytes,
}
use kinetic.Action.Engine.{
  is_sovereign_signed, verify_with_key, verify_sovereign, verify_action, execute_once,
  process_action_message, active_engine, sovereign,
}

module _ (p : Platform) (config : ActionConfig) (now : ℕ) (msg : SignedNetworkAction)
    (s : ActionState) where
  -- A message that is refused changes nothing but the set of executed hashes, from which at most old
  -- entries are pruned: keys, halts, pauses and the log are as before.
  pub refused_keeps :
      {e : ActionError}
      → (process_action_message p config now msg s).1 ≡ err e
      → let s' = (process_action_message p config now msg s).0 in
        (s' ≡ s) ⊎ (s' ≡ prune config now s)
  unfolding process_action_message execute_once
  refused_keeps h = ground arith

  -- what a verified message has passed
  pub record IsAuthorized (key : Bytes) : Type 0 where
    pub key_found : sovereign_key p config s ≡ ok key
    pub signature : Bytes
    pub attached : Memᴰ signature msg.sovereign_signatures
    pub signed : p.verify_signature key (to_bytes msg) signature ≡ true
    pub fresh :
        (now ≤ msg.timestamp_kyn + config.max_age_kyns)
        × (msg.timestamp_kyn ≤ now + config.max_age_kyns)
    pub model : active_engine config.action_model ≡ some sovereign

  with_key :
      (r : Result Bytes) (effect : Option ActionEffect)
      → verify_with_key p msg r ≡ ok effect
      → (key : Bytes) × (r ≡ ok key)
        × (any (λ sig. p.verify_signature key (to_bytes msg) sig) msg.sovereign_signatures ≡ true)
  unfolding verify_with_key is_sovereign_signed
  with_key (ok key) effect h = (key, refl, ground (arith, h))
  with_key (err e) effect h = cc
  with_key panic effect h = cc

  sovereign_only :
      (effect : Option ActionEffect)
      → verify_action p config now msg s ≡ ok effect
      → (active_engine config.action_model ≡ some sovereign)
        × (verify_sovereign p config now msg s ≡ ok effect)
  unfolding verify_action
  sovereign_only effect h = ground arith

  -- A message is verified only under the sovereign model, within the maximal age of its timestamp in
  -- both directions, and with an attached signature over its bytes that the current sovereign key
  -- verifies.
  pub verify_action-IsAuthorized :
      (effect : Option ActionEffect)
      → verify_action p config now msg s ≡ ok effect
      → (key : Bytes) × IsAuthorized key
  verify_action-IsAuthorized effect h =
      let (m, v) = sovereign_only effect h in
      let w : verify_with_key p msg (sovereign_key p config s) ≡ ok effect =
        unfold verify_sovereign in ground arith in
      let (key, found, some_sig) = with_key (sovereign_key p config s) effect w in
      let (sig, listed, verified) =
        any→mem (λ sig. p.verify_signature key (to_bytes msg) sig) msg.sovereign_signatures
          some_sig in
      (
        key,
        record {
          key_found = found;
          signature = sig;
          attached = listed;
          signed = verified;
          fresh = unfold verify_sovereign in ground arith;
          model = m;
        },
      )
