-- ===== src/Action/Pause.antt =====
-- Halts, resumes and the paused time (kinetic-action/src/types.rs, engine/sovereign.rs).
use kinetic.Prelude.{
  ℕ, ◌-◌, ◌^◌, ◌≤◌, ◌<◌, ◌≡◌, ◌≢◌, refl, sym, subst, inl, inr, true, false, Option, none, some, [],
  ◌∷◌, ◌++◌, arith, Bool-cases,
}
use kinetic.Prelude.Words.{saturating_add}
use kinetic.Prelude.Assoc.{insert, contains_key}
use kinetic.Config.{Platform}
use kinetic.Action.{
  NetworkAction, rotate_sovereign_key, emergency_halt, emergency_resume, SignedNetworkAction,
  ActionState, ActionConfig, ActionEffect, Result, ok, err, panic, prune, new, paused_kyns_since,
  hash_action,
}
use kinetic.Action.Engine.{
  halt, resume, halt_start, apply_action, execute_sovereign, execute_once, process_action_message,
  verify_action, Events, run,
}
use kinetic.Action.Replay.{IsOrdered, last_kyn}
use kinetic.Action.Timeline.{
  IsTimeline, paused_after, paused_after_bound, paused_from-eq, IsTimeline-snoc, paused_after_snoc,
  IsTimeline-later,
}

-- Up to `now`: the pauses are a timeline, their total is kept, and a start is stored exactly while
-- the network is halted.
pub record IsConsistent (now : ℕ) (s : ActionState) : Type 0 where
  pub timeline : IsTimeline 0 s.pause_history (halt_start now s.halt_start_kyn)
  pub started : halt_start now s.halt_start_kyn ≤ now
  pub total : s.total_paused_kyns ≡ paused_after 0 s.pause_history
  pub halted : s.is_halted ≡ false → s.halt_start_kyn ≡ none
  pub running : s.is_halted ≡ true → s.halt_start_kyn ≢ none

halt_start_later : (a b : ℕ) (o : Option ℕ) → a ≤ b → halt_start a o ≤ halt_start b o
halt_start_later a b none h = h
halt_start_later a b (some start) h = omega arith

started_later : (a b : ℕ) (o : Option ℕ) → halt_start a o ≤ a → a ≤ b → halt_start b o ≤ b
started_later a b none h le = omega arith
started_later a b (some start) h le = omega arith

pub later-IsConsistent : (a b : ℕ) (s : ActionState) → a ≤ b → IsConsistent a s → IsConsistent b s
later-IsConsistent a b s le h = record {
  timeline =
      IsTimeline-later 0 s.pause_history (halt_start a s.halt_start_kyn)
        (halt_start b s.halt_start_kyn) h.timeline (halt_start_later a b s.halt_start_kyn le);
  started = started_later a b s.halt_start_kyn h.started le;
  total = h.total;
  halted = h.halted;
  running = h.running;
}

last_kyn_le : (now : ℕ) (events : Events) → IsOrdered now events → now ≤ last_kyn now events
last_kyn_le now [] o = omega arith
last_kyn_le now ((msg, kyn) ∷ events) (o, os) = omega (arith, last_kyn_le kyn events os)

-- the fields that an action reads and writes
abbrev SamePauses : ActionState → ActionState → Type 0
SamePauses s t =
    (s.pause_history ≡ t.pause_history)
    × (s.halt_start_kyn ≡ t.halt_start_kyn)
    × (s.total_paused_kyns ≡ t.total_paused_kyns)
    × (s.is_halted ≡ t.is_halted)

transfer : (now : ℕ) (s t : ActionState) → SamePauses s t → IsConsistent now s → IsConsistent now t
transfer now s t (a, b, c, d) h = record {
  timeline = rw (← a, ← b) h.timeline;
  started = rw (← b) h.started;
  total = rw (← a, ← c) h.total;
  halted = rw (← d, ← b) h.halted;
  running = rw (← d, ← b) h.running;
}

halt_again : (now : ℕ) (s : ActionState) → s.is_halted ≡ true → halt now s ≡ s
unfolding halt
halt_again now s h = ground arith

halt_running :
    (now : ℕ) (s : ActionState)
    → s.is_halted ≡ false
    → s.halt_start_kyn ≡ none
    → halt now s ≡ record s { is_halted = true; halt_start_kyn = some now }
unfolding halt
halt_running now s h e = ground arith

halt-IsConsistent : (now : ℕ) (s : ActionState) → IsConsistent now s → IsConsistent now (halt now s)
halt-IsConsistent now s h = elim (Bool-cases s.is_halted) [
  | inl e ↦ subst (IsConsistent now) (sym (halt_again now s e)) h
  | inr e ↦
      let line : IsTimeline 0 s.pause_history (halt_start now none) =
        subst (λ o. IsTimeline 0 s.pause_history (halt_start now o)) (h.halted e) h.timeline in
      subst (IsConsistent now) (sym (halt_running now s e (h.halted e))) (record {
        timeline = line;
        started = omega arith;
        total = h.total;
        halted = λ x. cc;
        running = λ x y. cc;
      })
]

resume_running : (now : ℕ) (s : ActionState) → s.is_halted ≡ false → resume now s ≡ s
unfolding resume
resume_running now s h = ground arith

abbrev resumed : ℕ → ActionState → ActionState
resumed now s =
    let start = halt_start now s.halt_start_kyn in
    record s {
      is_halted = false;
      halt_start_kyn = none;
      total_paused_kyns = saturating_add s.total_paused_kyns (now - start);
      pause_history = s.pause_history ++ (start, now) ∷ [];
    }

resume_halted : (now : ℕ) (s : ActionState) → s.is_halted ≡ true → resume now s ≡ resumed now s
unfolding resume
resume_halted now s h = ground arith

resume-IsConsistent :
    (now : ℕ) (s : ActionState)
    → now < 2 ^ 64
    → IsConsistent now s
    → IsConsistent now (resume now s)
resume-IsConsistent now s fits h = elim (Bool-cases s.is_halted) [
  | inr e ↦ subst (IsConsistent now) (sym (resume_running now s e)) h
  | inl e ↦
      let start = halt_start now s.halt_start_kyn in
      let bound = paused_after_bound 0 0 s.pause_history start h.timeline in
      subst (IsConsistent now) (sym (resume_halted now s e)) (record {
        timeline = IsTimeline-snoc 0 s.pause_history start now h.timeline h.started;
        started = omega arith;
        total = omega (arith, paused_after_snoc 0 s.pause_history start now, h.total, h.started);
        halted = λ x. refl;
        running = λ x y. cc;
      })
]

apply_action-IsConsistent :
    (a : NetworkAction) (now : ℕ) (s : ActionState)
    → now < 2 ^ 64
    → IsConsistent now s
    → IsConsistent now (apply_action a now s)
unfolding apply_action
apply_action-IsConsistent (rotate_sovereign_key key) now s fits h =
    transfer now s (record s { active_sovereign_key = some key }) (refl, refl, refl, refl) h
apply_action-IsConsistent emergency_halt now s fits h = halt-IsConsistent now s h
apply_action-IsConsistent emergency_resume now s fits h = resume-IsConsistent now s fits h

module _ (p : Platform) (config : ActionConfig) where
  execute_sovereign-IsConsistent :
      (now : ℕ) (msg : SignedNetworkAction) (s : ActionState)
      → now < 2 ^ 64
      → IsConsistent now s
      → IsConsistent now (execute_sovereign p now msg s)
  unfolding execute_sovereign
  execute_sovereign-IsConsistent now msg s fits h =
      let t = record s {
        executed_hashes = insert (hash_action p msg) msg.timestamp_kyn s.executed_hashes;
      } in
      apply_action-IsConsistent msg.action now t fits (transfer now s t (refl, refl, refl, refl) h)

  execute_once-IsConsistent :
      (now : ℕ) (msg : SignedNetworkAction) (effect : Option ActionEffect) (s : ActionState)
      → now < 2 ^ 64
      → IsConsistent now s
      → IsConsistent now (execute_once p config now msg effect s).0
  execute_once-IsConsistent now msg effect s fits h =
      let pruned = prune config now s in
      let hp = transfer now s pruned (unfold prune in (refl, refl, refl, refl)) h in
      let done = execute_sovereign p now msg pruned in
      let hd = execute_sovereign-IsConsistent now msg pruned fits hp in
      elim (Bool-cases (contains_key (hash_action p msg) pruned.executed_hashes)) [
        | inl old ↦ unfold execute_once in rw old hp
        | inr fresh ↦
            unfold execute_once in
            rw fresh (
              transfer now done (record done { action_log = done.action_log ++ msg ∷ [] })
                (refl, refl, refl, refl) hd)
      ]

  pub step-IsConsistent :
      (now : ℕ) (msg : SignedNetworkAction) (s : ActionState)
      → now < 2 ^ 64
      → IsConsistent now s
      → IsConsistent now (process_action_message p config now msg s).0
  unfolding process_action_message
  step-IsConsistent now msg s fits h = from_result (verify_action p config now msg s)
    where
      from_result :
          (r : Result (Option ActionEffect))
          → IsConsistent now
              (elim r as (λ _. ActionState × Result (Option ActionEffect)) [
                | ok effect ↦ execute_once p config now msg effect s
                | err e ↦ (s, err e)
                | panic ↦ (s, panic)
              ]).0
      from_result (ok effect) = execute_once-IsConsistent now msg effect s fits h
      from_result (err e) = h
      from_result panic = h

  -- Whatever messages arrive, at kyns that do not go back and stay below 2 ^ 64, a consistent state
  -- stays consistent: the pauses are disjoint and in order, their total is the stored one, and a
  -- start is stored exactly while the network is halted.
  pub run-IsConsistent :
      (now : ℕ) (events : Events) (s : ActionState)
      → IsOrdered now events
      → last_kyn now events < 2 ^ 64
      → IsConsistent now s
      → IsConsistent (last_kyn now events) (run p config events s)
  unfolding run
  run-IsConsistent now [] s o fits h = h
  run-IsConsistent now ((msg, kyn) ∷ events) s (o, os) fits h =
      run-IsConsistent kyn events (process_action_message p config kyn msg s).0 os fits (
        step-IsConsistent kyn msg s (omega (arith, last_kyn_le kyn events os))
          (later-IsConsistent now kyn s o h))

pub new-IsConsistent : (genesis now : ℕ) → IsConsistent now (new genesis)
new-IsConsistent genesis now = record {
  timeline = omega arith;
  started = omega arith;
  total = refl;
  halted = λ x. refl;
  running = λ x y. cc;
}

-- In a consistent state at a kyn below 2 ^ 64: the paused time since a kyn is the time of the pauses
-- after it, it is at most the time that has passed since then, and since kyn 0 it is the stored
-- total.
pub paused_kyns_since_lem :
    (now : ℕ) (s : ActionState) (target : ℕ)
    → now < 2 ^ 64
    → IsConsistent now s
    → (paused_kyns_since s target ≡ paused_after target s.pause_history)
      × (paused_kyns_since s target ≤ now - target)
      × (paused_kyns_since s 0 ≡ s.total_paused_kyns)
unfolding paused_kyns_since
paused_kyns_since_lem now s target fits h =
    let high = halt_start now s.halt_start_kyn in
    let b = paused_after_bound target 0 s.pause_history high h.timeline in
    let b0 = paused_after_bound 0 0 s.pause_history high h.timeline in
    let e = paused_from-eq target 0 0 s.pause_history high h.timeline (omega (arith, h.started)) in
    let e0 = paused_from-eq 0 0 0 s.pause_history high h.timeline (omega (arith, h.started)) in
    (omega arith, omega (arith, h.started), omega (arith, h.total))
