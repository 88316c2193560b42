-- ===== src/Store/Handlers.antt =====
-- `handle_put_record` and `handle_process_heartbeat` of kinetic-network/src/store/handlers.rs.
-- Instants are nanoseconds, as `Duration`s compare.
use kinetic.Prelude.{
  ℕ, ◌*◌, ◌-◌, max, Bool, not, Option, none, some, List, [], ◌∷◌, ◌++◌, ltb, leb, ◌==◌,
  if◌then◌else◌, length, any,
}
use kinetic.Prelude.Bytes.{Bytes, codes, bytes_eq}
use kinetic.Prelude.Words.{u64_be, add64}
use kinetic.Prelude.Assoc.{Assoc, lookup, insert, remove}
use kinetic.Config.{NetworkConstants, Platform}
use kinetic.Action.{ActionState}
use kinetic.Kid.{Jcs}
use kinetic.Identity.{AuthorizedManifest, manifest_signable}
use kinetic.Vdf.{Reveal}
use kinetic.NameRecord.{
  Heartbeat, heartbeat_signable, NameEnvelope, reveal_of, derive_storage_keys,
  derive_heartbeat_keys,
}
use kinetic.Signature.{has_capability, delegated_key_verifies}
use kinetic.Store.{
  KineticStoreError, vdf_expired, rate_limited, stale_heartbeat, reveal_not_found, future_heartbeat,
  invalid_signature, delegated_authorization_invalid, delegated_capability_missing,
  missing_kid_document, krs_reveal_prefix, krs_hb_prefix, resquaring_epoch_kyns,
}
use kinetic.Store.RevealCheck.{effective_age, verify_reveal}
use kinetic.Store.State.{
  Lru, Serde, StoreState, Outcome, done, failed, panicked, kyn_or, surroundings_of, get_fallback,
}
use kinetic.Store.Conflict.{takeover_error, unchanged, replaced, refused, signature_error, renewal}

-- `Duration::from_secs(3600)`
abbrev pub an_hour : ℕ
an_hour = 3600 * 1000000000

-- the loop that drops the timestamps of more than an hour ago from the front
unfoldable pub drop_old : ℕ → List ℕ → List ℕ
drop_old now [] = []
drop_old now (t ∷ deque) =
    let rest = drop_old now deque in if ltb an_hour (now - t) then rest else t ∷ deque

unfoldable pub delete_all : List Bytes → Assoc Bytes → Assoc Bytes
delete_all [] storage = storage
delete_all (key ∷ keys) storage = delete_all keys (remove (codes "kad_record:" ++ key) storage)

unfoldable pub reveal_write : Bytes → Option Bytes → List (Bytes × Bytes)
reveal_write name none = []
reveal_write name (some bytes) = (krs_reveal_prefix ++ name, bytes) ∷ []

unfoldable pub forget_evicted : Bytes → Option (Bytes × NameEnvelope) → Assoc ℕ → Assoc ℕ
forget_evicted name none heartbeats = heartbeats
forget_evicted name (some (evicted_name, r)) heartbeats =
    if bytes_eq evicted_name name then heartbeats else remove evicted_name heartbeats

-- the signature of a delegated heartbeat; `none` is a valid one
unfoldable pub delegated_heartbeat_error :
    NetworkConstants
    → Platform
    → Jcs
    → Heartbeat
    → Reveal
    → AuthorizedManifest
    → Option KineticStoreError
delegated_heartbeat_error k p j hb existing auth =
    if not (p.verify_signature existing.pubkey (manifest_signable k j auth) auth.owner_signature)
    then some delegated_authorization_invalid
    else if not (has_capability auth.manifest (codes "kinetic.capability.heartbeat"))
    then some delegated_capability_missing
    else elim auth.kid_doc [
      | none ↦ some missing_kid_document
      | some kid_doc ↦
          if any (delegated_key_verifies p (heartbeat_signable k hb) hb.owner_signature)
            kid_doc.controller_keys
          then none
          else some invalid_signature
    ]

-- the signature of a heartbeat
unfoldable pub heartbeat_error :
    NetworkConstants
    → Platform
    → Jcs
    → Heartbeat
    → Reveal
    → Option AuthorizedManifest
    → Option KineticStoreError
heartbeat_error k p j hb existing none =
    if p.verify_signature existing.pubkey (heartbeat_signable k hb) hb.owner_signature
    then none
    else some invalid_signature
heartbeat_error k p j hb existing (some auth) = delegated_heartbeat_error k p j hb existing auth

module _ (k : NetworkConstants) (p : Platform) (j : Jcs) (action_state : Option ActionState) where
  module _ {C D : Type 0} (lru : Lru NameEnvelope C) (times : Lru (List ℕ) D) (serde : Serde) where
    -- the tail of `handle_put_record`, once the rate limit let the record through
    unfoldable pub store_record : NameEnvelope → List ℕ → StoreState C D → StoreState C D
    store_record record_new deque s =
        let r = reveal_of record_new in
        let (cache, evicted) = lru.push r.name record_new s.reveals_by_name in
        let kyn = max s.current_kyn r.kyn in
        record s {
          reveals_by_name = cache;
          last_heartbeats_by_name =
              insert r.name kyn (forget_evicted r.name evicted s.last_heartbeats_by_name);
          accepted_reveals_timestamps = times.write r.name deque s.accepted_reveals_timestamps;
          pending =
              s.pending
              ++ (reveal_write r.name (serde.print_envelope record_new)
                  ++ (krs_hb_prefix ++ r.name, u64_be kyn) ∷ []);
        }

    -- the queue of a name, made when it is missing
    unfoldable pub open_queue : Bytes → D → D
    open_queue name d = if times.contains name d then d else (times.push name [] d).0

    unfoldable pub limit_and_store : ℕ → NameEnvelope → StoreState C D → Outcome C D
    limit_and_store now record_new s =
        let name = (reveal_of record_new).name in
        let (found, d) = times.get name (open_queue name s.accepted_reveals_timestamps) in
        elim found [
          | none ↦ panicked
          | some times_of ↦
              let deque = drop_old now times_of in
              if leb s.max_reveals_per_hour (length deque)
              then failed rate_limited
                  (record s { accepted_reveals_timestamps = times.write name deque d })
              else done (
                  store_record record_new (deque ++ now ∷ [])
                    (record s { accepted_reveals_timestamps = d }))
        ]

    -- the storage without the records of the previous owner
    unfoldable pub clean_owner : Bytes → StoreState C D → StoreState C D
    clean_owner name s = record s {
      storage =
          delete_all (derive_heartbeat_keys k p name)
            (delete_all (derive_storage_keys k p name) s.storage);
    }

    -- the kyns since the last heartbeat of a name, from a reveal's kyn when there was none
    unfoldable pub heartbeat_age : Reveal → StoreState C D → ℕ
    heartbeat_age r s = s.current_kyn - kyn_or r.kyn (lookup r.name s.last_heartbeats_by_name)

    -- a record for a name that is taken
    unfoldable pub put_over : ℕ → Bool → NameEnvelope → NameEnvelope → StoreState C D → Outcome C D
    put_over now skip_verify existing record_new s =
        let old = reveal_of existing in
        let new = reveal_of record_new in
        if not (bytes_eq old.pubkey new.pubkey)
        then elim (takeover_error k p old new (heartbeat_age new s)) [
          | some e ↦ failed e s
          | none ↦ limit_and_store now record_new (clean_owner new.name s)
        ]
        else elim (renewal k p j skip_verify old new) [
          | unchanged ↦ done s
          | refused e ↦ failed e s
          | replaced ↦ limit_and_store now record_new s
        ]

    -- a record for a free name
    unfoldable pub put_fresh : ℕ → Bool → NameEnvelope → StoreState C D → Outcome C D
    put_fresh now skip_verify record_new s =
        elim (signature_error k p j skip_verify (reveal_of record_new)) [
          | some e ↦ failed e s
          | none ↦ limit_and_store now record_new s
        ]

    unfoldable pub resolve :
        ℕ → Bool → NameEnvelope → Option NameEnvelope × StoreState C D → Outcome C D
    resolve now skip_verify record_new (none, s) = put_fresh now skip_verify record_new s
    resolve now skip_verify record_new (some existing, s) =
        put_over now skip_verify existing record_new s

    -- the check of a reveal that was not checked elsewhere
    unfoldable pub reveal_error : Bool → Reveal → StoreState C D → Option KineticStoreError
    reveal_error skip_verify r s =
        if skip_verify
        then none
        else verify_reveal k p j (surroundings_of action_state s) r s.current_kyn

    unfoldable pub handle_put_record : ℕ → NameEnvelope → Bool → StoreState C D → Outcome C D
    handle_put_record now record_new skip_verify s =
        let r = reveal_of record_new in
        let age = effective_age action_state s.current_kyn r.kyn in
        if ltb resquaring_epoch_kyns age
        then failed (vdf_expired age) s
        else elim (reveal_error skip_verify r s) [
          | some e ↦ failed e s
          | none ↦ resolve now skip_verify record_new (get_fallback lru serde r.name s)
        ]

    -- a heartbeat that is accepted
    unfoldable pub record_heartbeat : Heartbeat → StoreState C D → StoreState C D
    record_heartbeat hb s = record s {
      last_heartbeats_by_name = insert hb.name hb.latest_kyn s.last_heartbeats_by_name;
      pending = s.pending ++ (krs_hb_prefix ++ hb.name, u64_be hb.latest_kyn) ∷ [];
    }

    unfoldable pub beat : Heartbeat → Option NameEnvelope × StoreState C D → Outcome C D
    beat hb (none, s) = failed reveal_not_found s
    beat hb (some existing, s) =
        elim (heartbeat_error k p j hb (reveal_of existing) hb.authorization) [
          | some e ↦ failed e s
          | none ↦
              if ltb (add64 s.current_kyn 2) hb.latest_kyn
              then failed future_heartbeat s
              else done (record_heartbeat hb s)
        ]

    unfoldable pub handle_process_heartbeat : Heartbeat → StoreState C D → Outcome C D
    handle_process_heartbeat hb s =
        let existing_pulse = kyn_or 0 (lookup hb.name s.last_heartbeats_by_name) in
        if hb.latest_kyn == existing_pulse
        then done s
        else if ltb hb.latest_kyn existing_pulse
        then failed stale_heartbeat s
        else beat hb (get_fallback lru serde hb.name s)
