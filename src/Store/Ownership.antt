-- ===== src/Store/Ownership.antt =====
-- Who may hold a name (kinetic-network/src/store/handlers.rs).
use kinetic.Prelude.{
  ℕ, ◌≤◌, ◌<◌, ◌≡◌, ◌≢◌, refl, ◌⊎◌, inl, inr, Bool, true, false, ◌&&◌, Option, none, some, List,
  arith, Option-cases, Bool-cases,
}
use kinetic.Prelude.Bytes.{bytes_eq, bytes_eq→≡}
use kinetic.Config.{NetworkConstants, Platform}
use kinetic.Physics.{iterations, takeover_iterations}
use kinetic.Action.{ActionState}
use kinetic.Kid.{Jcs}
use kinetic.Identity.{AuthorizedManifest}
use kinetic.Vdf.{Reveal}
use kinetic.Signature.{verify_signature}
use kinetic.NameRecord.{NameEnvelope, reveal_of}
use kinetic.Store.RevealCheck.{effective_age, verify_reveal}
use kinetic.Store.State.{Lru, Serde, StoreState, done, surroundings_of, get_fallback}
use kinetic.Store.Conflict.{
  distance, bytes_gt, takeover_error, Renewal, unchanged, replaced, refused, signature_error,
  hierarchy, renewal,
}
use kinetic.Store.Handlers.{
  heartbeat_age, put_over, put_fresh, resolve, reveal_error, handle_put_record,
}

module _ (k : NetworkConstants) (p : Platform) (j : Jcs) (a : Option ActionState) where
  -- a name changes hands on a tie that the new reveal does not lose, or for the takeover cost
  pub TakesOver : Reveal → Reveal → ℕ → Type 0
  TakesOver old new hb_age =
      ((new.iterations ≡ old.iterations)
        × (hb_age < 100)
        × (bytes_gt (distance new) (distance old) ≡ false))
      ⊎ (takeover_iterations k (iterations k p new.name) hb_age ≤ new.iterations)

  pub takeover_sound :
      (old new : Reveal) (hb_age : ℕ)
      → takeover_error k p old new hb_age ≡ none
      → TakesOver old new hb_age
  unfolding takeover_error TakesOver
  takeover_sound old new hb_age h = ground arith

  -- the owner's own record does not yield to a delegate's, nor a delegation to an earlier one
  pub Yields : Option AuthorizedManifest → Option AuthorizedManifest → Type 0
  Yields none none = Unit {0}
  Yields (some existing) none = Unit {0}
  Yields none (some new) = ⊥
  Yields (some existing) (some new) = existing.manifest.valid_from ≤ new.manifest.valid_from

  -- signatures are valid, unless checks are skipped or the network is in development mode
  pub IsSignedUnless : Bool → Reveal → Type 0
  IsSignedUnless skip_verify r =
      ((skip_verify ≡ true) ⊎ (k.dev_mode ≡ true)) ⊎ (verify_signature k p j r ≡ none)

  signature_error-IsSignedUnless :
      (skip_verify : Bool) (r : Reveal)
      → signature_error k p j skip_verify r ≡ none
      → IsSignedUnless skip_verify r
  unfolding signature_error IsSignedUnless
  signature_error-IsSignedUnless true r h = inl (inl refl)
  signature_error-IsSignedUnless false r h = elim (Bool-cases k.dev_mode) [
    | inl dev ↦ inl (inr dev)
    | inr live ↦ elim (Option-cases (verify_signature k p j r)) [
      | inl q ↦ inr q
      | inr (x, q) ↦ absurd (ground (arith, h, live, q))
    ]
  ]

  -- a record that the same owner renews: not an earlier one, and either the same content, or a
  -- signed one that takes precedence
  pub record Renews (skip_verify : Bool) (old new : Reveal) : Type 0 where
    pub not_earlier : old.kyn ≤ new.kyn
    pub content :
        ((bytes_eq new.embedded_nrs old.embedded_nrs ≡ true)
          × (bytes_eq new.identity_signature old.identity_signature ≡ true))
        ⊎ (IsSignedUnless skip_verify new × Yields old.authorization new.authorization)

  hierarchy_sound :
      (old new : Option AuthorizedManifest) → hierarchy old new ≡ replaced → Yields old new
  unfolding hierarchy Yields
  hierarchy_sound none none h = tt
  hierarchy_sound (some x) none h = tt
  hierarchy_sound none (some y) h = absurd (ground arith)
  hierarchy_sound (some x) (some y) h = ground arith

  hierarchy_moves : (x y : Option AuthorizedManifest) → hierarchy x y ≢ unchanged
  unfolding hierarchy
  hierarchy_moves none none h = absurd (ground arith)
  hierarchy_moves (some x) none h = absurd (ground arith)
  hierarchy_moves none (some y) h = absurd (ground arith)
  hierarchy_moves (some x) (some y) h = absurd (ground arith)

  unchanged_sound :
      (skip_verify : Bool) (old new : Reveal)
      → renewal k p j skip_verify old new ≡ unchanged
      → Renews skip_verify old new
  unfolding renewal
  unchanged_sound skip_verify old new h =
      elim (Option-cases (signature_error k p j skip_verify new)) [
        | inr (e, s) ↦ record {
          not_earlier = ground arith;
          content = inl (ground arith, ground arith);
        }
        | inl s ↦
            elim (Bool-cases (
              bytes_eq new.embedded_nrs old.embedded_nrs
              && bytes_eq new.identity_signature old.identity_signature)) [
                | inl same ↦ record {
                  not_earlier = ground arith;
                  content = inl (ground arith, ground arith);
                }
                | inr other ↦
                    let end : hierarchy old.authorization new.authorization ≡ unchanged =
                      ground arith in
                    absurd (hierarchy_moves old.authorization new.authorization end)
              ]
      ]

  replaced_sound :
      (skip_verify : Bool) (old new : Reveal)
      → renewal k p j skip_verify old new ≡ replaced
      → Renews skip_verify old new
  unfolding renewal
  replaced_sound skip_verify old new h =
      elim (Option-cases (signature_error k p j skip_verify new)) [
        | inr (e, s) ↦ absurd (ground arith)
        | inl s ↦
            let end : hierarchy old.authorization new.authorization ≡ replaced = ground arith in
            record {
              not_earlier = ground arith;
              content = inr (
                signature_error-IsSignedUnless skip_verify new s,
                hierarchy_sound old.authorization new.authorization end,
              );
            }
      ]

  module _ {C D : Type 0} (lru : Lru NameEnvelope C) (times : Lru (List ℕ) D) (serde : Serde) where
    -- why a record was let in, given what the store held under its name
    pub Admitted : Bool → Reveal → Option NameEnvelope → StoreState C D → Type 0
    Admitted skip_verify new none u = IsSignedUnless skip_verify new
    Admitted skip_verify new (some existing) u =
        ((bytes_eq (reveal_of existing).pubkey new.pubkey ≡ false)
          × TakesOver (reveal_of existing) new (heartbeat_age k p j a lru times serde new u))
        ⊎ (((reveal_of existing).pubkey ≡ new.pubkey) × Renews skip_verify (reveal_of existing) new)

    put_over_sound :
        (now : ℕ) (skip_verify : Bool) (existing new : NameEnvelope) (u t : StoreState C D)
        → put_over k p j a lru times serde now skip_verify existing new u ≡ done t
        → Admitted skip_verify (reveal_of new) (some existing) u
    unfolding put_over Admitted
    put_over_sound now skip_verify existing new u t h =
        let old = reveal_of existing in
        let r = reveal_of new in
        let age = heartbeat_age k p j a lru times serde r u in
        elim (Bool-cases (bytes_eq old.pubkey r.pubkey)) [
          | inr other ↦ elim (Option-cases (takeover_error k p old r age)) [
            | inl fine ↦ inl (other, takeover_sound old r age fine)
            | inr (e, he) ↦ absurd (ground arith)
          ]
          | inl same ↦ inr (
            bytes_eq→≡ old.pubkey r.pubkey same,
            by_renewal (renewal k p j skip_verify old r) refl same,
          )
        ]
      where
        by_renewal :
            (n : Renewal)
            → renewal k p j skip_verify (reveal_of existing) (reveal_of new) ≡ n
            → bytes_eq (reveal_of existing).pubkey (reveal_of new).pubkey ≡ true
            → Renews skip_verify (reveal_of existing) (reveal_of new)
        by_renewal unchanged e same =
            unchanged_sound skip_verify (reveal_of existing) (reveal_of new) e
        by_renewal replaced e same =
            replaced_sound skip_verify (reveal_of existing) (reveal_of new) e
        by_renewal (refused x) e same = absurd (ground arith)

    resolve_sound :
        (now : ℕ) (skip_verify : Bool) (new : NameEnvelope) (o : Option NameEnvelope)
        (u t : StoreState C D)
        → resolve k p j a lru times serde now skip_verify new (o, u) ≡ done t
        → Admitted skip_verify (reveal_of new) o u
    unfolding resolve Admitted
    resolve_sound now skip_verify new none u t h =
        elim (Option-cases (signature_error k p j skip_verify (reveal_of new))) [
          | inl e ↦ signature_error-IsSignedUnless skip_verify (reveal_of new) e
          | inr (x, e) ↦ absurd (unfold put_fresh in ground arith)
        ]
    resolve_sound now skip_verify new (some existing) u t h =
        put_over_sound now skip_verify existing new u t h

    -- A record that is accepted is at most one resquaring epoch old, pauses not counted, and passed
    -- the check of its reveal unless that was skipped. If the name was free, the record's signatures
    -- are valid, unless checks were skipped or the network is in development mode; if it was held by
    -- another key, the reveal does not lose a tie or pays the takeover cost; if it was held by the
    -- same key, the record is not earlier and either repeats the stored content or takes precedence
    -- over it with valid signatures, again unless checks were skipped or in development mode.
    pub handle_put_record_sound :
        (now : ℕ) (new : NameEnvelope) (skip_verify : Bool) (s t : StoreState C D)
        → handle_put_record k p j a lru times serde now new skip_verify s ≡ done t
        → (effective_age a s.current_kyn (reveal_of new).kyn ≤ 5256000)
          × ((skip_verify ≡ true)
              ⊎ (verify_reveal k p j (surroundings_of a s) (reveal_of new) s.current_kyn ≡ none))
          × Admitted skip_verify
              (reveal_of new)
              (get_fallback lru serde (reveal_of new).name s).0
              (get_fallback lru serde (reveal_of new).name s).1
    unfolding handle_put_record
    handle_put_record_sound now new skip_verify s t h =
        let r = reveal_of new in
        let (o, u) = get_fallback lru serde r.name s in
        elim (Option-cases (reveal_error k p j a lru times serde skip_verify r s)) [
          | inr (e, he) ↦ absurd (ground arith)
          | inl fine ↦
              let end : resolve k p j a lru times serde now skip_verify new (o, u) ≡ done t =
                ground arith in
              (
                ground arith,
                unfold reveal_error in ground (arith, fine),
                resolve_sound now skip_verify new o u t end,
              )
        ]
