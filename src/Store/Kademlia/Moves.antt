-- ===== src/Store/Kademlia/Moves.antt =====
-- What a name record does to the storage (kinetic-network/src/store/handlers.rs).
use kinetic.Prelude.{
  false, ℕ, ◌≡◌, refl, ap, ◌∙◌, ◌⊎◌, inl, inr, Bool, true, Option, none, some, All, arith, ltb,
  Option-cases, Bool-cases,
}
use kinetic.Prelude.Bytes.{Bytes, bytes_eq}
use kinetic.Prelude.Assoc.{Assoc}
use kinetic.NameRecord.{NameEnvelope, reveal_of, derive_storage_keys, derive_heartbeat_keys}
use kinetic.Store.{vdf_expired, resquaring_epoch_kyns}
use kinetic.Store.RevealCheck.{effective_age}
use kinetic.Store.State.{StoreState, done, failed, get_fallback}
use kinetic.Store.Conflict.{
  takeover_error, Renewal, unchanged, replaced, refused, renewal, signature_error,
}
use kinetic.Store.Handlers.{
  delete_all, limit_and_store, clean_owner, heartbeat_age, put_over, put_fresh, resolve,
  reveal_error, handle_put_record,
}
use kinetic.Store.Ownership.{TakesOver, takeover_sound}
use kinetic.Store.Liveness.{get_fallback_keeps}
use kinetic.Store.Kademlia.{StoreEnv}
use kinetic.Store.Kademlia.Quiet.{
  IsReserved, Quiet, Quiet-refl, Quiet-trans, Ends, Ends-at, Ends-imp, get_fallback-Quiet,
  limit-Quiet,
}

module _ {M C D J : Type 0} (e : StoreEnv M C D J) where
  -- the kyns since the last heartbeat of the name of a record
  unfoldable pub hb_age : NameEnvelope → StoreState C D → ℕ
  hb_age new s = heartbeat_age e.k e.p e.j e.action_state e.lru e.times e.serde (reveal_of new) s

  -- the storage without the records of a name
  unfoldable pub cleaned : NameEnvelope → StoreState C D → Assoc Bytes
  cleaned new s =
      (clean_owner e.k e.p e.j e.action_state e.lru e.times e.serde (reveal_of new).name s).storage

  -- the records of the previous owner, whose record was held, are gone after a takeover
  pub record Evicts (o : Option NameEnvelope) (new : NameEnvelope) (s t : StoreState C D)
      : Type 0 where
    pub existing : NameEnvelope
    pub was : o ≡ some existing
    pub other_owner : bytes_eq (reveal_of existing).pubkey (reveal_of new).pubkey ≡ false
    pub takes_over :
        TakesOver e.k e.p e.j e.action_state (reveal_of existing) (reveal_of new) (hb_age new s)
    pub storage : t.storage ≡ cleaned new s
    pub pending : All IsReserved s.pending → All IsReserved t.pending

  unfoldable pub Moves :
      Option NameEnvelope → NameEnvelope → StoreState C D → StoreState C D → Type 0
  Moves o new s t = Quiet s t ⊎ Evicts o new s t

  over-Moves :
      (now : ℕ) (skip : Bool) (existing new : NameEnvelope) (s : StoreState C D)
      → Ends
          (Moves (some existing) new s)
          (put_over e.k e.p e.j e.action_state e.lru e.times e.serde now skip existing new s)
  unfolding put_over Ends Moves hb_age cleaned clean_owner
  over-Moves now skip existing new s =
      let old = reveal_of existing in
      let r = reveal_of new in
      let age = heartbeat_age e.k e.p e.j e.action_state e.lru e.times e.serde r s in
      let limited = limit_and_store e.k e.p e.j e.action_state e.lru e.times e.serde now new in
      let freed = clean_owner e.k e.p e.j e.action_state e.lru e.times e.serde r.name s in
      elim (Bool-cases (bytes_eq old.pubkey r.pubkey)) [
        | inr other ↦ elim (Option-cases (takeover_error e.k e.p old r age)) [
          | inr (x, q) ↦
              Ends-at (Moves (some existing) new s) {x = failed x s} (ground arith)
                (inl (Quiet-refl s))
          | inl q ↦
              let fine = takeover_sound e.k e.p e.j e.action_state old r age q in
              Ends-at (Moves (some existing) new s) {x = limited freed} (ground arith) (
                Ends-imp
                  (λ t f. inr (record {
                    existing = existing;
                    was = refl;
                    other_owner = other;
                    takes_over = fine;
                    storage = f.storage;
                    pending = f.pending;
                  }))
                  (limited freed) (limit-Quiet e now new freed))
        ]
        | inl same ↦ by_renewal (renewal e.k e.p e.j skip old r) refl same
      ]
    where
      by_renewal :
          (v : Renewal)
          → renewal e.k e.p e.j skip (reveal_of existing) (reveal_of new) ≡ v
          → bytes_eq (reveal_of existing).pubkey (reveal_of new).pubkey ≡ true
          → Ends
              (Moves (some existing) new s)
              (put_over e.k e.p e.j e.action_state e.lru e.times e.serde now skip existing new s)
      by_renewal unchanged q same =
          Ends-at (Moves (some existing) new s) {x = done s} (ground arith) (inl (Quiet-refl s))
      by_renewal (refused x) q same =
          Ends-at (Moves (some existing) new s) {x = failed x s} (ground arith) (inl (Quiet-refl s))
      by_renewal replaced q same =
          let limited =
            limit_and_store e.k e.p e.j e.action_state e.lru e.times e.serde now new s in
          Ends-at (Moves (some existing) new s) {x = limited} (ground arith)
            (Ends-imp (λ t. inl) limited (limit-Quiet e now new s))

  Moves-after :
      (o : Option NameEnvelope) (new : NameEnvelope) (s u t : StoreState C D)
      → Quiet s u
      → u.last_heartbeats_by_name ≡ s.last_heartbeats_by_name
      → u.current_kyn ≡ s.current_kyn
      → Moves o new u t
      → Moves o new s t
  unfolding Moves hb_age cleaned clean_owner heartbeat_age
  Moves-after o new s u t q hbs kyn (inl f) = inl (Quiet-trans q f)
  Moves-after o new s u t q hbs kyn (inr f) = inr (record {
    existing = f.existing;
    was = f.was;
    other_owner = f.other_owner;
    takes_over = rw (hbs, kyn) at f.takes_over;
    storage =
        f.storage
        ∙ ap
            (λ m.
              delete_all (derive_heartbeat_keys e.k e.p (reveal_of new).name)
                (delete_all (derive_storage_keys e.k e.p (reveal_of new).name) m))
            q.storage;
    pending = λ h. f.pending (q.pending h);
  })

  resolve-Moves :
      (now : ℕ) (skip : Bool) (new : NameEnvelope) (o : Option NameEnvelope) (s : StoreState C D)
      → Ends
          (Moves o new s)
          (resolve e.k e.p e.j e.action_state e.lru e.times e.serde now skip new (o, s))
  unfolding resolve Ends Moves
  resolve-Moves now skip new none s =
      elim (Option-cases (signature_error e.k e.p e.j skip (reveal_of new))) [
        | inr (x, q) ↦
            Ends-at (Moves none new s) {x = failed x s} (unfold put_fresh in ground arith)
              (inl (Quiet-refl s))
        | inl q ↦
            let limited =
              limit_and_store e.k e.p e.j e.action_state e.lru e.times e.serde now new s in
            Ends-at (Moves none new s) {x = limited} (unfold put_fresh in ground arith)
              (Ends-imp (λ t. inl) limited (limit-Quiet e now new s))
      ]
  resolve-Moves now skip new (some existing) s = over-Moves now skip existing new s

  -- A name record leaves the storage as it is, or takes over a name that was held by another key, and removes the
  -- records of the previous owner from it.
  pub handle_put_record-Moves :
      (now : ℕ) (new : NameEnvelope) (skip : Bool) (s : StoreState C D)
      → Ends
          (Moves (get_fallback e.lru e.serde (reveal_of new).name s).0 new s)
          (handle_put_record e.k e.p e.j e.action_state e.lru e.times e.serde now new skip s)
  unfolding handle_put_record Ends Moves
  handle_put_record-Moves now new skip s =
      let r = reveal_of new in
      let age = effective_age e.action_state s.current_kyn r.kyn in
      let (o, u) = get_fallback e.lru e.serde r.name s in
      let (hbs, kyn) =
        get_fallback_keeps e.k e.p e.j e.action_state e.lru e.times e.serde r.name s in
      elim (Bool-cases (ltb resquaring_epoch_kyns age)) [
        | inl old ↦
            Ends-at (Moves (get_fallback e.lru e.serde (reveal_of new).name s).0 new s)
              {x = failed (vdf_expired age) s} (ground arith) (inl (Quiet-refl s))
        | inr young ↦
            elim (Option-cases
              (reveal_error e.k e.p e.j e.action_state e.lru e.times e.serde skip r s)) [
                | inr (x, q) ↦
                    Ends-at (Moves (get_fallback e.lru e.serde (reveal_of new).name s).0 new s)
                      {x = failed x s} (ground arith) (inl (Quiet-refl s))
                | inl fine ↦
                    let end =
                      resolve e.k e.p e.j e.action_state e.lru e.times e.serde now skip new
                        (o, u) in
                    Ends-at (Moves (get_fallback e.lru e.serde (reveal_of new).name s).0 new s)
                      {x = end} (ground arith)
                      (Ends-imp
                        (λ t. Moves-after o new s u t (get_fallback-Quiet e r.name s) hbs kyn) end
                        (resolve-Moves now skip new o u))
              ]
      ]
