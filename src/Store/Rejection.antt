-- ===== src/Store/Rejection.antt =====
-- What a rejected record leaves (kinetic-network/src/store/handlers.rs).
use kinetic.Prelude.{
  ℕ, ◌≡◌, refl, sym, ap, inl, inr, Bool, true, Option, none, some, List, arith, leb, length,
  Option-cases, Bool-cases, ltb, ◌∙◌,
}
use kinetic.Prelude.Bytes.{bytes_eq}
use kinetic.Config.{NetworkConstants, Platform}
use kinetic.Action.{ActionState}
use kinetic.Kid.{Jcs}
use kinetic.NameRecord.{NameEnvelope, reveal_of}
use kinetic.Store.{KineticStoreError, rate_limited, vdf_expired, resquaring_epoch_kyns}
use kinetic.Store.RevealCheck.{effective_age}
use kinetic.Store.State.{Lru, Serde, StoreState, failed, state_of, get_fallback}
use kinetic.Store.Conflict.{
  takeover_error, Renewal, unchanged, replaced, refused, renewal, signature_error,
}
use kinetic.Store.Handlers.{
  drop_old, open_queue, limit_and_store, clean_owner, heartbeat_age, put_over, put_fresh, resolve,
  reveal_error, handle_put_record,
}
use kinetic.Store.Liveness.{get_fallback_keeps}

module _ (k : NetworkConstants) (p : Platform) (j : Jcs) (a : Option ActionState) where
  module _ {C D : Type 0} (lru : Lru NameEnvelope C) (times : Lru (List ℕ) D) (serde : Serde) where
    limit_refused :
        (now : ℕ) (new : NameEnvelope) (s t : StoreState C D) (e : KineticStoreError)
        → limit_and_store k p j a lru times serde now new s ≡ failed e t
        → t.last_heartbeats_by_name ≡ s.last_heartbeats_by_name
    unfolding limit_and_store
    limit_refused now new s t e h =
        let name = (reveal_of new).name in
        let opened = open_queue k p j a lru times serde name s.accepted_reveals_timestamps in
        let (found, d) = times.get name opened in
        elim (Option-cases found) [
          | inl x ↦ absurd (ground arith)
          | inr (queue, x) ↦
              let deque = drop_old now queue in
              elim (Bool-cases (leb s.max_reveals_per_hour (length deque))) [
                | inr free ↦ absurd (ground arith)
                | inl full ↦
                    let end : failed rate_limited
                          (record s { accepted_reveals_timestamps = times.write name deque d })
                        ≡ failed e t =
                      ground arith in
                    sym (ap (λ o. (state_of s o).last_heartbeats_by_name) end)
              ]
        ]

    over_refused :
        (now : ℕ) (skip_verify : Bool) (existing new : NameEnvelope) (s t : StoreState C D)
        (e : KineticStoreError)
        → put_over k p j a lru times serde now skip_verify existing new s ≡ failed e t
        → t.last_heartbeats_by_name ≡ s.last_heartbeats_by_name
    unfolding put_over
    over_refused now skip_verify existing new s t e h =
        let old = reveal_of existing in
        let r = reveal_of new in
        let age = heartbeat_age k p j a lru times serde r s in
        elim (Bool-cases (bytes_eq old.pubkey r.pubkey)) [
          | inr other ↦ elim (Option-cases (takeover_error k p old r age)) [
            | inl fine ↦
                let cleaned = clean_owner k p j a lru times serde r.name s in
                let end : limit_and_store k p j a lru times serde now new cleaned ≡ failed e t =
                  ground arith in
                limit_refused now new cleaned t e end ∙ unfold clean_owner in refl
            | inr (x, hx) ↦
                let end : failed x s ≡ failed e t = ground arith in
                sym (ap (λ o. (state_of s o).last_heartbeats_by_name) end)
          ]
          | inl same ↦ by_renewal (renewal k p j skip_verify old r) refl same
        ]
      where
        by_renewal :
            (n : Renewal)
            → renewal k p j skip_verify (reveal_of existing) (reveal_of new) ≡ n
            → bytes_eq (reveal_of existing).pubkey (reveal_of new).pubkey ≡ true
            → t.last_heartbeats_by_name ≡ s.last_heartbeats_by_name
        by_renewal unchanged q same = absurd (ground (arith, h))
        by_renewal replaced q same = limit_refused now new s t e (ground (arith, h))
        by_renewal (refused x) q same =
            let end : failed x s ≡ failed e t = ground (arith, h) in
            sym (ap (λ o. (state_of s o).last_heartbeats_by_name) end)

    resolve_refused :
        (now : ℕ) (skip_verify : Bool) (new : NameEnvelope) (o : Option NameEnvelope)
        (u t : StoreState C D) (e : KineticStoreError)
        → resolve k p j a lru times serde now skip_verify new (o, u) ≡ failed e t
        → t.last_heartbeats_by_name ≡ u.last_heartbeats_by_name
    unfolding resolve
    resolve_refused now skip_verify new none u t e h =
        elim (Option-cases (signature_error k p j skip_verify (reveal_of new))) [
          | inl x ↦ limit_refused now new u t e (unfold put_fresh in ground (arith, h))
          | inr (x, hx) ↦
              let end : failed x u ≡ failed e t = unfold put_fresh in ground (arith, h) in
              sym (ap (λ o. (state_of u o).last_heartbeats_by_name) end)
        ]
    resolve_refused now skip_verify new (some existing) u t e h =
        over_refused now skip_verify existing new u t e h

    -- A rejected record leaves the recorded heartbeats of all names as they were.
    pub rejected_keeps_heartbeats :
        (now : ℕ) (new : NameEnvelope) (skip_verify : Bool) (s t : StoreState C D)
        (e : KineticStoreError)
        → handle_put_record k p j a lru times serde now new skip_verify s ≡ failed e t
        → t.last_heartbeats_by_name ≡ s.last_heartbeats_by_name
    unfolding handle_put_record
    rejected_keeps_heartbeats now new skip_verify s t e h =
        let r = reveal_of new in
        let age = effective_age a s.current_kyn r.kyn in
        let (o, u) = get_fallback lru serde r.name s in
        let same = (get_fallback_keeps k p j a lru times serde r.name s).0 in
        elim (Bool-cases (ltb resquaring_epoch_kyns age)) [
          | inl old ↦
              let end : failed (vdf_expired age) s ≡ failed e t = ground arith in
              sym (ap (λ o. (state_of s o).last_heartbeats_by_name) end)
          | inr young ↦ elim (Option-cases (reveal_error k p j a lru times serde skip_verify r s)) [
            | inr (x, hx) ↦
                let end : failed x s ≡ failed e t = ground arith in
                sym (ap (λ o. (state_of s o).last_heartbeats_by_name) end)
            | inl fine ↦
                let end : resolve k p j a lru times serde now skip_verify new (o, u) ≡ failed e t =
                  ground arith in
                resolve_refused now skip_verify new o u t e end ∙ same
          ]
        ]
