-- ===== src/Action/Replay.antt =====
-- No action runs twice: the executed hashes and the maximal age work together
-- (kinetic-action/src/logic.rs).
use kinetic.Prelude.{
  ℕ, ◌+◌, ◌^◌, ◌≤◌, ◌<◌, ◌≡◌, ◌≢◌, refl, ◌⊎◌, inl, inr, false, Option, some, [], ◌∷◌, arith,
  Bool-cases, leb,
}
use kinetic.Prelude.Bytes.{bytes_eq_iff}
use kinetic.Prelude.Words.{add64}
use kinetic.Prelude.Assoc.{lookup, insert, contains_key, lookup-insert, lookup-retain}
use kinetic.Config.{Platform}
use kinetic.Action.{
  NetworkAction, rotate_sovereign_key, emergency_halt, emergency_resume, SignedNetworkAction,
  ActionState, ActionConfig, ActionEffect, Result, ok, err, panic, hash_action, prune,
}
use kinetic.Action.Engine.{
  apply_action, execute_sovereign, execute_once, process_action_message, verify_action, Events, run,
}
use kinetic.Action.Atomic.{verify_action-IsAuthorized}

executed-apply_action :
    (a : NetworkAction) (now : ℕ) (s : ActionState)
    → (apply_action a now s).executed_hashes ≡ s.executed_hashes
unfolding apply_action
executed-apply_action (rotate_sovereign_key key) now s = refl
executed-apply_action emergency_halt now s = ground arith
executed-apply_action emergency_resume now s = ground arith

-- the kyns of the events do not go back
abbrev pub IsOrdered : ℕ → Events → Type 0
IsOrdered now [] = Unit
IsOrdered now ((msg, kyn) ∷ events) = (now ≤ kyn) × IsOrdered kyn events

abbrev pub last_kyn : ℕ → Events → ℕ
last_kyn now [] = now
last_kyn now ((msg, kyn) ∷ events) = last_kyn kyn events

module _ (p : Platform) (config : ActionConfig) (m : SignedNetworkAction) where
  -- from `now` on, the message is either remembered or too old
  abbrev IsSpent : ℕ → ActionState → Type 0
  IsSpent now s =
      (lookup (hash_action p m) s.executed_hashes ≡ some m.timestamp_kyn)
      ⊎ (m.timestamp_kyn + config.max_age_kyns < now)

  -- the hashes after an execution
  executed_hashes_lem :
      (now : ℕ) (msg : SignedNetworkAction) (effect : Option ActionEffect) (s : ActionState)
      → contains_key (hash_action p msg) (prune config now s).executed_hashes ≡ false
      → (execute_once p config now msg effect s).0.executed_hashes
        ≡ insert (hash_action p msg) msg.timestamp_kyn (prune config now s).executed_hashes
  unfolding execute_once execute_sovereign
  executed_hashes_lem now msg effect s h = ground (
    arith,
    executed-apply_action msg.action now (record (prune config now s) {
      executed_hashes =
          insert (hash_action p msg) msg.timestamp_kyn (prune config now s).executed_hashes;
    }),
  )

  -- an entry that survives the pruning survives the execution of any message
  kept :
      (now : ℕ) (msg : SignedNetworkAction) (effect : Option ActionEffect) (s : ActionState)
      → lookup (hash_action p m) (prune config now s).executed_hashes ≡ some m.timestamp_kyn
      → lookup (hash_action p m) (execute_once p config now msg effect s).0.executed_hashes
        ≡ some m.timestamp_kyn
  kept now msg effect s e =
      let held = (prune config now s).executed_hashes in
      elim (Bool-cases (contains_key (hash_action p msg) held)) [
        | inl old ↦ unfold execute_once in rw old e
        | inr new ↦ rw (executed_hashes_lem now msg effect s new) (
            unfold contains_key in
            ground (
              arith,
              lookup-insert (hash_action p msg) (hash_action p m) msg.timestamp_kyn held,
              bytes_eq_iff (hash_action p msg) (hash_action p m),
            ))
      ]

  -- what a success says
  verified :
      (now : ℕ) (s : ActionState) (effect : Option ActionEffect)
      → (process_action_message p config now m s).1 ≡ ok effect
      → (contains_key (hash_action p m) (prune config now s).executed_hashes ≡ false)
        × (verify_action p config now m s ≡ ok effect)
  unfolding process_action_message execute_once
  verified now s effect h = ground arith

  remembered :
      (now : ℕ) (s : ActionState) (effect : Option ActionEffect)
      → (process_action_message p config now m s).1 ≡ ok effect
      → lookup (hash_action p m) (process_action_message p config now m s).0.executed_hashes
        ≡ some m.timestamp_kyn
  remembered now s effect h =
      let (new, v) = verified now s effect h in
      let held = (prune config now s).executed_hashes in
      let state : (process_action_message p config now m s).0
          ≡ (execute_once p config now m effect s).0 =
        unfold process_action_message in ground (arith, v) in
      rw (state, executed_hashes_lem now m effect s new)
        (ground (
          arith,
          lookup-insert (hash_action p m) (hash_action p m) m.timestamp_kyn held,
          bytes_eq_iff (hash_action p m) (hash_action p m),
        ))

  module _ (fits : m.timestamp_kyn + config.max_age_kyns < 2 ^ 64) where
    later : (a b : ℕ) (s : ActionState) → a ≤ b → IsSpent a s → IsSpent b s
    later a b s h (inl e) = inl e
    later a b s h (inr old) = inr (omega arith)

    prune-IsSpent : (now : ℕ) (s : ActionState) → IsSpent now s → IsSpent now (prune config now s)
    prune-IsSpent now s (inr old) = inr old
    prune-IsSpent now s (inl e) =
        elim (Bool-cases (leb now (add64 m.timestamp_kyn config.max_age_kyns))) [
          | inl young ↦ inl (
              unfold prune in
              lookup-retain (λ x. leb now (add64 x config.max_age_kyns)) (hash_action p m)
                m.timestamp_kyn s.executed_hashes e young)
          | inr old ↦ inr (ground arith)
        ]

    execute_once-IsSpent :
        (now : ℕ) (msg : SignedNetworkAction) (effect : Option ActionEffect) (s : ActionState)
        → IsSpent now s
        → IsSpent now (execute_once p config now msg effect s).0
    execute_once-IsSpent now msg effect s h = elim (prune-IsSpent now s h) [
      | inr old ↦ inr old
      | inl e ↦ inl (kept now msg effect s e)
    ]

    step-IsSpent :
        (now : ℕ) (msg : SignedNetworkAction) (s : ActionState)
        → IsSpent now s
        → IsSpent now (process_action_message p config now msg s).0
    unfolding process_action_message
    step-IsSpent now msg s h = from_result (verify_action p config now msg s)
      where
        from_result :
            (r : Result (Option ActionEffect))
            → IsSpent now
                (elim r as (λ _. ActionState × Result (Option ActionEffect)) [
                  | ok effect ↦ execute_once p config now msg effect s
                  | err e ↦ (s, err e)
                  | panic ↦ (s, panic)
                ]).0
        from_result (ok effect) = execute_once-IsSpent now msg effect s h
        from_result (err e) = h
        from_result panic = h

    run-IsSpent :
        (now : ℕ) (events : Events) (s : ActionState)
        → IsOrdered now events
        → IsSpent now s
        → IsSpent (last_kyn now events) (run p config events s)
    unfolding run
    run-IsSpent now [] s o h = h
    run-IsSpent now ((msg, kyn) ∷ events) s (o, os) h =
        run-IsSpent kyn events (process_action_message p config kyn msg s).0 os
          (step-IsSpent kyn msg s (later now kyn s o h))

    spent-refused :
        (now : ℕ) (s : ActionState) (effect : Option ActionEffect)
        → IsSpent now s
        → (process_action_message p config now m s).1 ≢ ok effect
    spent-refused now s effect h done =
        let (found, v) = verified now s effect done in
        let fresh = (verify_action-IsAuthorized p config now m s effect v).1.fresh in
        elim (prune-IsSpent now s h) [
          | inr old ↦ absurd (omega arith)
          | inl e ↦ absurd (unfold contains_key in ground arith)
        ]

    -- A message that was executed is executed never again: after any further messages, whatever
    -- they are, at kyns that never go back, processing it once more does not succeed. Its last
    -- valid kyn has to fit in 64 bits.
    pub no_replay :
        (now : ℕ) (s : ActionState) (events : Events) (effect again : Option ActionEffect)
        → IsOrdered now events
        → (process_action_message p config now m s).1 ≡ ok effect
        → (process_action_message p config
            (last_kyn now events)
            m
            (run p config events (process_action_message p config now m s).0)).1
          ≢ ok again
    no_replay now s events effect again o done =
        let s' = (process_action_message p config now m s).0 in
        spent-refused (last_kyn now events) (run p config events s') again
          (run-IsSpent now events s' o (inl (remembered now s effect done)))
