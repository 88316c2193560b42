-- ===== src/Store/Kademlia/Passed.antt =====
-- The checks of the record types (kinetic-network/src/store/kademlia.rs).
use kinetic.Prelude.{
  subst, ℕ, ◌≡◌, refl, sym, inl, inr, Bool, Option, none, some, arith, Option-cases, Bool-cases,
  ◌||◌,
}
use kinetic.Prelude.Bytes.{codes}
use kinetic.Identity.{AuthorizedKid, AuthorizedManifest}
use kinetic.NameRecord.{NameEnvelope, Heartbeat}
use kinetic.HostRoute.{HostRoute, verify_host_routing_record}
use kinetic.Store.{KineticStoreError}
use kinetic.Store.IdentityCheck.{verify_authorized_kid, verify_authorized_manifest}
use kinetic.Store.State.{StoreState, done, get_fallback}
use kinetic.Store.Handlers.{handle_put_record, handle_process_heartbeat}
use kinetic.Store.Kademlia.{
  KadRecord, RecordStore, StoreEnv, existing_as, checked, put_kid, put_manifest, check_record,
}

module _ {M C D J : Type 0} (e : StoreEnv M C D J) where
  -- The five ways in which a record passes its checks, and the state it leaves.
  pub data Passed (now : ℕ) (skip : Bool) (r : KadRecord) (parsed : J) (n : RecordStore M C D)
      (s : StoreState C D) : Type 0 where
    as_envelope :
        (record_new : NameEnvelope)
        → e.json.envelope parsed ≡ some record_new
        → handle_put_record e.k e.p e.j e.action_state e.lru e.times e.serde now record_new skip
            n.store
          ≡ done s
        → Passed now skip r parsed n s
    as_heartbeat :
        (hb : Heartbeat)
        → e.json.heartbeat parsed ≡ some hb
        → handle_process_heartbeat e.k e.p e.j e.action_state e.lru e.times e.serde hb n.store
          ≡ done s
        → Passed now skip r parsed n s
    as_kid :
        (auth : AuthorizedKid)
        → e.json.authorized_kid parsed ≡ some auth
        → verify_authorized_kid e.k e.p e.j auth
            (get_fallback e.lru e.serde auth.name n.store).0
            (existing_as e.json.kid_from_slice (e.mem.get r.key n.inner))
          ≡ none
        → s ≡ (get_fallback e.lru e.serde auth.name n.store).1
        → Passed now skip r parsed n s
    as_manifest :
        (auth : AuthorizedManifest)
        → e.json.authorized_manifest parsed ≡ some auth
        → verify_authorized_manifest e.k e.p e.j auth
            (get_fallback e.lru e.serde auth.name n.store).0
            (existing_as e.json.manifest_from_slice (e.mem.get r.key n.inner))
            s.current_kyn
          ≡ none
        → s ≡ (get_fallback e.lru e.serde auth.name n.store).1
        → Passed now skip r parsed n s
    as_host_route :
        (route : HostRoute)
        → e.json.host_route parsed ≡ some route
        → verify_host_routing_record e.k e.keys route n.store.current_kyn ≡ none
        → s ≡ n.store
        → Passed now skip r parsed n s

  checked_sound :
      (o : Option KineticStoreError) (s t : StoreState C D)
      → checked o s ≡ done t
      → (o ≡ none) × (t ≡ s)
  unfolding checked
  checked_sound none s t h = (refl, cc)
  checked_sound (some x) s t h = absurd (ground arith)

  put_kid_sound :
      (now : ℕ) (skip : Bool) (r : KadRecord) (parsed : J) (n : RecordStore M C D)
      (s : StoreState C D)
      → put_kid e r (e.json.authorized_kid parsed) n ≡ done s
      → Passed now skip r parsed n s
  unfolding put_kid
  put_kid_sound now skip r parsed n s h = elim (Option-cases (e.json.authorized_kid parsed)) [
    | inl x ↦ absurd (ground arith)
    | inr (auth, x) ↦
        let (active, u) = get_fallback e.lru e.serde auth.name n.store in
        let verdict =
          verify_authorized_kid e.k e.p e.j auth active
            (existing_as e.json.kid_from_slice (e.mem.get r.key n.inner)) in
        let end : checked verdict u ≡ done s = ground arith in
        let (fine, left) = checked_sound verdict u s end in as_kid auth x fine left
  ]

  put_manifest_sound :
      (now : ℕ) (skip : Bool) (r : KadRecord) (parsed : J) (n : RecordStore M C D)
      (s : StoreState C D)
      → put_manifest e r (e.json.authorized_manifest parsed) n ≡ done s
      → Passed now skip r parsed n s
  unfolding put_manifest
  put_manifest_sound now skip r parsed n s h =
      elim (Option-cases (e.json.authorized_manifest parsed)) [
        | inl x ↦ absurd (ground arith)
        | inr (auth, x) ↦
            let (active, u) = get_fallback e.lru e.serde auth.name n.store in
            let verdict : ℕ → Option KineticStoreError =
              verify_authorized_manifest e.k e.p e.j auth active
                (existing_as e.json.manifest_from_slice (e.mem.get r.key n.inner)) in
            let end : checked (verdict u.current_kyn) u ≡ done s = ground arith in
            let (fine, left) = checked_sound (verdict u.current_kyn) u s end in
            as_manifest auth x (subst (λ t. verdict t.current_kyn ≡ none) (sym left) fine) left
      ]

  pub check_record_sound :
      (now : ℕ) (skip : Bool) (r : KadRecord) (parsed : J) (n : RecordStore M C D)
      (s : StoreState C D)
      → check_record e now skip r parsed n ≡ done s
      → Passed now skip r parsed n s
  unfolding check_record
  check_record_sound now skip r parsed n s h =
      elim (Bool-cases (e.json.has (codes "vdf_proof") parsed || e.json.has (codes "kyn") parsed)) [
        | inl x ↦ elim (Option-cases (e.json.envelope parsed)) [
          | inl y ↦ absurd (ground arith)
          | inr (record_new, y) ↦ as_envelope record_new y (ground arith)
        ]
        | inr x1 ↦ elim (Bool-cases (e.json.has (codes "latest_kyn") parsed)) [
          | inl x ↦ elim (Option-cases (e.json.heartbeat parsed)) [
            | inl y ↦ absurd (ground arith)
            | inr (hb, y) ↦ as_heartbeat hb y (ground arith)
          ]
          | inr x2 ↦ elim (Bool-cases (e.json.has (codes "delegation_signature") parsed)) [
            | inl x ↦ put_kid_sound now skip r parsed n s (ground arith)
            | inr x3 ↦ elim (Bool-cases (e.json.has (codes "manifest") parsed)) [
              | inl x ↦ put_manifest_sound now skip r parsed n s (ground arith)
              | inr x4 ↦ elim (Bool-cases (e.json.has (codes "host_id") parsed)) [
                | inr x ↦ absurd (ground arith)
                | inl x ↦ elim (Option-cases (e.json.host_route parsed)) [
                  | inl y ↦ absurd (ground arith)
                  | inr (route, y) ↦
                      let verdict =
                        verify_host_routing_record e.k e.keys route n.store.current_kyn in
                      let (fine, left) = checked_sound verdict n.store s (ground arith) in
                      as_host_route route y fine left
                ]
              ]
            ]
          ]
        ]
      ]
