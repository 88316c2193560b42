-- ===== src/Store/Reveals.antt =====
-- What an accepted reveal has shown (kinetic-network/src/store/verification.rs).
use kinetic.Prelude.{
  ℕ, ◌-◌, ◌*◌, ◌≤◌, ◌<◌, ◌≡◌, refl, subst, inl, inr, max, min, true, false, Option, none, some,
  arith, Option-cases, length,
}
use kinetic.Prelude.Bytes.{Bytes}
use kinetic.Config.{NetworkConstants, Platform, VdfAnswer, accepted, refused, engine_failure}
use kinetic.Names.{is_valid_apex_name, normalize_name}
use kinetic.Physics.{iterations, label_of}
use kinetic.Kyn.Beacon.{verify_beacon_signature}
use kinetic.Kid.{Jcs}
use kinetic.Vdf.{PreviousProof, Reveal, derive}
use kinetic.Vdf.Validate.{validate}
use kinetic.Signature.{verify_signature}
use kinetic.Store.{Surroundings}
use kinetic.Store.RevealCheck.{
  get_u64_from_db, effective_age, is_accepted, discount_iterations, earns_discount, discounted,
  loyalty_iterations, compute_required_iterations, commit_key, vdf_error, check_commitment,
  check_work, check_challenge, is_none, is_halted_now, verify_reveal,
}

pub is_none→≡ {ℓ} : {A : Type ℓ} (o : Option A) → is_none o ≡ true → o ≡ none
unfolding is_none
is_none→≡ none h = refl
is_none→≡ (some a) h = absurd (ground arith)

is_accepted→≡ : (a : VdfAnswer) → is_accepted a ≡ true → a ≡ accepted
unfolding is_accepted
is_accepted→≡ accepted h = refl
is_accepted→≡ refused h = absurd (ground arith)
is_accepted→≡ engine_failure h = absurd (ground arith)

vdf_error→≡ : (a : VdfAnswer) → vdf_error a ≡ none → a ≡ accepted
unfolding vdf_error
vdf_error→≡ accepted h = refl
vdf_error→≡ refused h = absurd (ground arith)
vdf_error→≡ engine_failure h = absurd (ground arith)

pub is_accepted-accepted : (v : VdfAnswer) → is_accepted v ≡ true → v ≡ accepted
unfolding is_accepted
is_accepted-accepted accepted h = refl
is_accepted-accepted refused h = absurd (ground arith)
is_accepted-accepted engine_failure h = absurd (ground arith)

module _ (k : NetworkConstants) (p : Platform) (env : Surroundings) where
  -- the proof of work and the commitment of a reveal, on the bytes of its beacon signature
  pub record IsWorked (r : Reveal) (current_kyn : ℕ) (sig_bytes : Bytes) : Type 0 where
    pub commit_kyn : ℕ
    pub committed :
        get_u64_from_db env.stored
          (commit_key (derive p k.network_salt r.name r.salt sig_bytes r.pubkey))
        ≡ some commit_kyn
    pub aged : k.minimum_commit_age_kyns ≤ current_kyn - commit_kyn
    pub enough : loyalty_iterations k p env r current_kyn r.previous_proof ≤ r.iterations
    pub proved :
        p.vdf_verify
          (derive p k.network_salt r.name r.salt sig_bytes r.pubkey)
          r.vdf_proof
          r.iterations
        ≡ accepted

  commitment_sound :
      (now : ℕ) (hash : Bytes)
      → k.dev_mode ≡ false
      → check_commitment k env now hash ≡ none
      → (kyn : ℕ) × (get_u64_from_db env.stored (commit_key hash) ≡ some kyn)
        × (k.minimum_commit_age_kyns ≤ now - kyn)
  unfolding check_commitment
  commitment_sound now hash live h =
      elim (Option-cases (get_u64_from_db env.stored (commit_key hash))) [
        | inl e ↦ absurd (ground arith)
        | inr (kyn, e) ↦ (kyn, e, ground arith)
      ]

  work_sound :
      (r : Reveal) (now : ℕ) (hash : Bytes)
      → k.dev_mode ≡ false
      → check_work k p env r now hash ≡ none
      → (loyalty_iterations k p env r now r.previous_proof ≤ r.iterations)
        × (p.vdf_verify hash r.vdf_proof r.iterations ≡ accepted)
  unfolding check_work compute_required_iterations
  work_sound r now hash live h = elim (Option-cases (is_valid_apex_name k p r.name)) [
    | inr (e, he) ↦ absurd (ground arith)
    | inl he ↦
        let answer : vdf_error (p.vdf_verify hash r.vdf_proof r.iterations) ≡ none = ground arith in
        (ground arith, vdf_error→≡ (p.vdf_verify hash r.vdf_proof r.iterations) answer)
  ]

  challenge_sound :
      (r : Reveal) (now : ℕ) (sig_bytes : Bytes)
      → k.dev_mode ≡ false
      → check_challenge k p env r now sig_bytes ≡ none
      → IsWorked r now sig_bytes
  unfolding check_challenge
  challenge_sound r now sig_bytes live h =
      let hash = derive p k.network_salt r.name r.salt sig_bytes r.pubkey in
      elim (Option-cases (check_commitment k env now hash)) [
        | inr (e, he) ↦ absurd (ground arith)
        | inl he ↦
            let (kyn, stored, old) = commitment_sound now hash live he in
            let (enough, proved) = work_sound r now hash live (ground arith) in
            record {
              commit_kyn = kyn;
              committed = stored;
              aged = old;
              enough = enough;
              proved = proved;
            }
      ]

  -- Outside of dev mode, a reveal that is accepted came while the network was not halted, is
  -- well-formed, carries valid signatures and a valid beacon signature, was committed to at least
  -- the minimum commit age before, and its VDF proof verifies for at least the required iterations.
  pub verify_reveal_sound :
      (j : Jcs) (r : Reveal) (current_kyn : ℕ)
      → k.dev_mode ≡ false
      → verify_reveal k p j env r current_kyn ≡ none
      → (is_halted_now env.action_state ≡ false)
        × (validate k p r ≡ none)
        × (verify_signature k p j r ≡ none)
        × (verify_beacon_signature p r.kyn r.beacon_signature false ≡ true)
        × ((sig_bytes : Bytes) × (p.hex_decode r.beacon_signature ≡ some sig_bytes)
            × IsWorked r current_kyn sig_bytes)
  unfolding verify_reveal
  verify_reveal_sound j r now live h = elim (Option-cases (p.hex_decode r.beacon_signature)) [
    | inl e ↦ absurd (ground arith)
    | inr (sig_bytes, e) ↦
        let valid : is_none (validate k p r) ≡ true = ground arith in
        let signed : is_none (verify_signature k p j r) ≡ true = ground arith in
        let beacon : verify_beacon_signature p r.kyn r.beacon_signature k.dev_mode ≡ true =
          ground arith in
        (
          ground arith,
          is_none→≡ (validate k p r) valid,
          is_none→≡ (verify_signature k p j r) signed,
          subst (λ b. verify_beacon_signature p r.kyn r.beacon_signature b ≡ true) live beacon,
          (sig_bytes, e, challenge_sound r now sig_bytes live (ground arith)),
        )
  ]

  discount_le :
      (base len : ℕ)
      → k.vdf_discount_percentage ≤ 100
      → discount_iterations k base len ≤ max k.vdf_discount_min_iterations base
  unfolding discount_iterations
  discount_le base len pct =
      let product : base * k.vdf_discount_percentage ≤ base * 100 = grind arith in ground arith

  -- With a discount percentage of at most 100, the required iterations of a reveal are between the
  -- smaller and the larger of the full cost of its name and the minimum of the discount, so a
  -- previous proof never makes a name dearer than that.
  pub loyalty_iterations_bounds :
      (r : Reveal) (current_kyn : ℕ) (prev : Option PreviousProof)
      → k.vdf_discount_percentage ≤ 100
      → (min (iterations k p r.name) k.vdf_discount_min_iterations
          ≤ loyalty_iterations k p env r current_kyn prev)
        × (loyalty_iterations k p env r current_kyn prev
            ≤ max k.vdf_discount_min_iterations (iterations k p r.name))
  unfolding loyalty_iterations
  loyalty_iterations_bounds r now none pct = (omega arith, omega arith)
  loyalty_iterations_bounds r now (some prev) pct =
      let len = length (label_of k (normalize_name k p r.name)) in
      let bound = discount_le (iterations k p r.name) len pct in
      elim (Option-cases (p.hex_decode prev.beacon_signature)) [
        | inl e ↦ (ground arith, ground arith)
        | inr (sig_bytes, e) ↦
            (unfold discounted in ground (arith, bound), unfold discounted in ground (arith, bound))
      ]

  -- what a previous proof has shown that earns a discount
  pub record IsLoyal (r : Reveal) (current_kyn : ℕ) (prev : PreviousProof) : Type 0 where
    pub sig_bytes : Bytes
    pub decoded : p.hex_decode prev.beacon_signature ≡ some sig_bytes
    pub beacon : verify_beacon_signature p prev.kyn prev.beacon_signature k.dev_mode ≡ true
    pub proved :
        p.vdf_verify
          (derive p k.network_salt r.name prev.salt sig_bytes r.pubkey)
          prev.vdf_proof
          prev.iterations
        ≡ accepted
    pub full_cost : iterations k p r.name ≤ prev.iterations
    pub recent : effective_age env.action_state current_kyn prev.kyn ≤ 10512000

  -- Less than the full cost of a name is required only of a reveal with a previous proof of the same
  -- name and key, whose beacon and VDF proof verify, which paid the full cost, and which is at most
  -- two resquaring epochs old, pauses not counted.
  pub discount_earned :
      (r : Reveal) (current_kyn : ℕ) (prev : Option PreviousProof)
      → loyalty_iterations k p env r current_kyn prev < iterations k p r.name
      → (proof : PreviousProof) × (prev ≡ some proof) × IsLoyal r current_kyn proof
  unfolding loyalty_iterations
  discount_earned r now none h = absurd (omega arith)
  discount_earned r now (some prev) h = elim (Option-cases (p.hex_decode prev.beacon_signature)) [
    | inl e ↦ absurd (ground arith)
    | inr (sig_bytes, e) ↦
        let earns : earns_discount k p env r prev now sig_bytes ≡ true = ground arith in
        let answer : is_accepted (
              p.vdf_verify (derive p k.network_salt r.name prev.salt sig_bytes r.pubkey)
                prev.vdf_proof prev.iterations)
            ≡ true =
          unfold earns_discount in ground (arith, earns) in
        (
          prev,
          refl,
          record {
            sig_bytes = sig_bytes;
            decoded = e;
            beacon = ground arith;
            proved = is_accepted→≡ _ answer;
            full_cost = unfold earns_discount in ground (arith, earns);
            recent = unfold earns_discount in ground (arith, earns);
          },
        )
  ]
