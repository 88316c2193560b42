-- ===== src/Store/Kademlia.antt =====
-- `KineticRecordStore` as a record store of libp2p: `put_record_internal`, `put`, `put_verified` and
-- the methods of the trait (kinetic-network/src/store/kademlia.rs). The memory store of libp2p and
-- the JSON codec are third-party and parameters.
pub mod Passed
pub mod Accepted
pub mod Unchecked
pub mod View
pub mod Quiet
pub mod Moves
use kinetic.Prelude.{
  ℕ, Bool, true, false, not, ◌&&◌, ◌||◌, Option, none, some, List, ◌++◌, ltb, if◌then◌else◌, length,
}
use kinetic.Prelude.Bytes.{Bytes, codes}
use kinetic.Prelude.Words.{u64_be}
use kinetic.Prelude.Assoc.{insert}
use kinetic.Config.{NetworkConstants, Platform}
use kinetic.Action.{ActionState}
use kinetic.Kid.{Jcs}
use kinetic.Identity.{AuthorizedKid, AuthorizedManifest}
use kinetic.NameRecord.{Heartbeat, NameEnvelope}
use kinetic.HostRoute.{HostRoute, PeerKeys, verify_host_routing_record}
use kinetic.Store.{
  KineticStoreError, payload_too_large, internal_store_error, schema_validation_error,
  unknown_record_type, malformed_json, krs_commit_prefix,
}
use kinetic.Store.IdentityCheck.{
  Existing, absent, unreadable, present, verify_authorized_kid, verify_authorized_manifest,
}
use kinetic.Store.State.{Lru, Serde, StoreState, Outcome, done, failed, panicked, get_fallback}
use kinetic.Store.Handlers.{handle_put_record, handle_process_heartbeat}

-- `kad::Record`; the store leaves the publisher and the expiry alone
pub record KadRecord : Type 0 where
  pub key : Bytes
  pub value : Bytes

-- `kad::store::MemoryStore`; `put` yields nothing on an error
pub record MemoryStore (M : Type 0) : Type 0 where
  pub get : Bytes → M → Option KadRecord
  pub put : KadRecord → M → Option M
  pub remove : Bytes → M → M

-- `serde_json`: the parser of values, `Value::get(field).is_some()`, `from_value` at each type of
-- record, and `from_slice` at the types that are compared with an existing record
pub record Json (J : Type 0) : Type 0 where
  pub from_slice : Bytes → Option J
  pub has : Bytes → J → Bool
  pub commitment_hash : J → Option Bytes
  pub envelope : J → Option NameEnvelope
  pub heartbeat : J → Option Heartbeat
  pub authorized_kid : J → Option AuthorizedKid
  pub authorized_manifest : J → Option AuthorizedManifest
  pub host_route : J → Option HostRoute
  pub kid_from_slice : Bytes → Option AuthorizedKid
  pub manifest_from_slice : Bytes → Option AuthorizedManifest

-- the whole `KineticRecordStore`, and the keys that its background tasks still have to delete from
-- the storage
pub record RecordStore (M C D : Type 0) : Type 0 where
  pub inner : M
  pub deletions : List Bytes
  pub store : StoreState C D

-- how a `put` ends
pub data PutResult (M C D : Type 0) : Type 0 where
  accepted : RecordStore M C D → PutResult M C D
  rejected : KineticStoreError → RecordStore M C D → PutResult M C D
  crashed : PutResult M C D

-- the store that a `put` leaves; a panic leaves the one it started from
abbrev pub store_of : {M C D : Type 0} → RecordStore M C D → PutResult M C D → RecordStore M C D
store_of n (accepted m) = m
store_of n (rejected e m) = m
store_of n crashed = n

-- the key of a record in the storage
abbrev pub db_key : Bytes → Bytes
db_key key = codes "kad_record:" ++ key

-- what the value of an existing record parses to
unfoldable pub existing_as : {A : Type 0} → (Bytes → Option A) → Option KadRecord → Existing A
existing_as parse none = absent
existing_as parse (some r) = elim (parse r.value) [ none ↦ unreadable | some a ↦ present a ]

-- the outcome of a check that changes nothing
unfoldable pub checked : {C D : Type 0} → Option KineticStoreError → StoreState C D → Outcome C D
checked none s = done s
checked (some e) s = failed e s

-- what a record store is built on: the network, the platform, the global action state, and the
-- third-party parts
pub record StoreEnv (M C D J : Type 0) : Type 0 where
  pub k : NetworkConstants
  pub p : Platform
  pub j : Jcs
  pub action_state : Option ActionState
  pub lru : Lru NameEnvelope C
  pub times : Lru (List ℕ) D
  pub serde : Serde
  pub mem : MemoryStore M
  pub json : Json J
  pub keys : PeerKeys

-- the storage with a commitment's hash and the current kyn
unfoldable pub save_commitment : {C D : Type 0} → Bytes → StoreState C D → StoreState C D
save_commitment hash s = record s {
  storage = insert (krs_commit_prefix ++ hash) (u64_be s.current_kyn) s.storage;
}

-- the storage with a record under its key
unfoldable pub save_record : {C D : Type 0} → KadRecord → StoreState C D → StoreState C D
save_record r s = record s { storage = insert (db_key r.key) r.value s.storage }

module _ {M C D J : Type 0} (e : StoreEnv M C D J) where
  unfoldable pub put_kid : KadRecord → Option AuthorizedKid → RecordStore M C D → Outcome C D
  put_kid r none n = failed schema_validation_error n.store
  put_kid r (some auth) n =
      let (active_record, s) = get_fallback e.lru e.serde auth.name n.store in
      checked
        (verify_authorized_kid e.k e.p e.j auth active_record
          (existing_as e.json.kid_from_slice (e.mem.get r.key n.inner)))
        s

  unfoldable pub put_manifest :
      KadRecord → Option AuthorizedManifest → RecordStore M C D → Outcome C D
  put_manifest r none n = failed schema_validation_error n.store
  put_manifest r (some auth) n =
      let (active_record, s) = get_fallback e.lru e.serde auth.name n.store in
      checked
        (verify_authorized_manifest e.k e.p e.j auth active_record
          (existing_as e.json.manifest_from_slice (e.mem.get r.key n.inner)) s.current_kyn)
        s

  -- the checks of a record that is not a commitment, by the fields it has
  unfoldable pub check_record : ℕ → Bool → KadRecord → J → RecordStore M C D → Outcome C D
  check_record now skip r parsed n =
      if e.json.has (codes "vdf_proof") parsed || e.json.has (codes "kyn") parsed
      then elim (e.json.envelope parsed) [
        | none ↦ failed schema_validation_error n.store
        | some record_new ↦
            handle_put_record e.k e.p e.j e.action_state e.lru e.times e.serde now record_new skip
              n.store
      ]
      else if e.json.has (codes "latest_kyn") parsed
      then elim (e.json.heartbeat parsed) [
        | none ↦ failed schema_validation_error n.store
        | some hb ↦
            handle_process_heartbeat e.k e.p e.j e.action_state e.lru e.times e.serde hb n.store
      ]
      else if e.json.has (codes "delegation_signature") parsed
      then put_kid r (e.json.authorized_kid parsed) n
      else if e.json.has (codes "manifest") parsed
      then put_manifest r (e.json.authorized_manifest parsed) n
      else if e.json.has (codes "host_id") parsed
      then elim (e.json.host_route parsed) [
        | none ↦ failed schema_validation_error n.store
        | some route ↦
            checked (verify_host_routing_record e.k e.keys route n.store.current_kyn) n.store
      ]
      else failed unknown_record_type n.store

  -- `self.inner.put(r).map_err(..)`
  unfoldable pub put_inner : KadRecord → RecordStore M C D → PutResult M C D
  put_inner r n = elim (e.mem.put r n.inner) [
    | none ↦ rejected internal_store_error n
    | some inner ↦ accepted (record n { inner = inner })
  ]

  -- the writes at the end
  unfoldable pub finish : KadRecord → RecordStore M C D → Outcome C D → PutResult M C D
  finish r n (done s) = put_inner r (record n { store = save_record r s })
  finish r n (failed x s) = rejected x (record n { store = s })
  finish r n panicked = crashed

  unfoldable pub put_commitment : KadRecord → Option Bytes → RecordStore M C D → PutResult M C D
  put_commitment r none n = rejected schema_validation_error n
  put_commitment r (some hash) n = put_inner r (record n { store = save_commitment hash n.store })

  unfoldable pub is_commitment : J → Bool
  is_commitment parsed =
      e.json.has (codes "hash") parsed && not (e.json.has (codes "vdf_proof") parsed)

  unfoldable pub put_parsed : ℕ → Bool → KadRecord → J → RecordStore M C D → PutResult M C D
  put_parsed now skip r parsed n =
      if is_commitment parsed
      then put_commitment r (e.json.commitment_hash parsed) n
      else finish r n (check_record now skip r parsed n)

  unfoldable pub put_record_internal : ℕ → KadRecord → Bool → RecordStore M C D → PutResult M C D
  put_record_internal now r skip n =
      if ltb e.k.storage_max_value_bytes (length r.value)
      then rejected payload_too_large n
      else elim (e.json.from_slice r.value) [
        | none ↦ rejected malformed_json n
        | some parsed ↦ put_parsed now skip r parsed n
      ]

  -- `put` and `put_verified`
  unfoldable pub put : ℕ → KadRecord → RecordStore M C D → PutResult M C D
  put now r n = put_record_internal now r false n

  unfoldable pub put_verified : ℕ → KadRecord → RecordStore M C D → PutResult M C D
  put_verified now r n = put_record_internal now r true n

  -- `RecordStore::remove`
  unfoldable pub remove_record : Bytes → RecordStore M C D → RecordStore M C D
  remove_record key n = record n { inner = e.mem.remove key n.inner }
