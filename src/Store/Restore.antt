-- ===== src/Store/Restore.antt =====
-- `KineticRecordStore::new` (kinetic-network/src/store/kademlia.rs): the state that a node restores
-- from its storage.
pub mod Verified
use kinetic.Prelude.{
  ℕ, Bool, true, false, ◌&&◌, ◌||◌, Option, none, some, List, [], ◌∷◌, ltb, leb, ◌==◌,
  if◌then◌else◌, length, take, drop, replicate,
}
use kinetic.Prelude.Bytes.{Bytes}
use kinetic.Prelude.Words.{from_be}
use kinetic.Prelude.Assoc.{Assoc, insert, remove}
use kinetic.Vdf.{Reveal, derive}
use kinetic.NameRecord.{NameEnvelope, reveal_of, derive_storage_keys}
use kinetic.Signature.{verify_signature}
use kinetic.Store.{krs_reveal_prefix, krs_hb_prefix, Surroundings}
use kinetic.Store.RevealCheck.{
  Required, required, rejected, is_accepted, is_none, compute_required_iterations,
}
use kinetic.Store.State.{StoreState}
use kinetic.Store.Kademlia.{RecordStore, StoreEnv}
use kinetic.Store.Prune.{LruWalk, scan_prefix}

-- the third-party parts that `new` makes, and `String::from_utf8_lossy`
pub record Fresh (M C D : Type 0) : Type 0 where
  pub inner : M
  pub cache : C
  pub times : D
  pub from_utf8_lossy : Bytes → Bytes

-- the heartbeats that were restored, and the storage
pub record Restored : Type 0 where
  pub heartbeats : Assoc ℕ
  pub storage : Assoc Bytes

-- `hex::decode(..).unwrap_or_else(..)`
unfoldable pub beacon_bytes : Option Bytes → Bytes
beacon_bytes none = replicate 32 0
beacon_bytes (some bytes) = bytes

module _ {M C D J : Type 0} (e : StoreEnv M C D J) where
  -- the VDF of a reveal, on its own challenge
  unfoldable pub proves : Reveal → Bool
  proves reveal = is_accepted (
      e.p.vdf_verify
        (derive e.p e.k.network_salt reveal.name reveal.salt
          (beacon_bytes (e.p.hex_decode reveal.beacon_signature)) reveal.pubkey)
        reveal.vdf_proof reveal.iterations)

  -- what `compute_required_iterations` asks for is met
  unfoldable pub meets : Reveal → Required → Bool
  meets reveal (required n) = leb n reveal.iterations
  meets reveal (rejected x) = false

  -- the global action state alone; the storage is not read
  unfoldable pub no_storage : Surroundings
  no_storage = record { action_state = e.action_state; stored = λ key. none }

  -- `is_valid`
  unfoldable pub is_restorable : ℕ → Reveal → Bool
  is_restorable initial_kyn reveal =
      meets reveal (compute_required_iterations e.k e.p no_storage reveal initial_kyn)
      && ((e.k.dev_mode || is_none (verify_signature e.k e.p e.j reveal)) && proves reveal)

  module _ (fresh : Fresh M C D) where
    unfoldable pub restore_reveal : ℕ → Bytes → Option NameEnvelope → C → C
    restore_reveal initial_kyn name none cache = cache
    restore_reveal initial_kyn name (some r) cache =
        if is_restorable initial_kyn (reveal_of r) then (e.lru.push name r cache).0 else cache

    -- the loop over the stored reveals
    unfoldable pub restore_reveals : ℕ → Assoc Bytes → C → C
    restore_reveals initial_kyn [] cache = cache
    restore_reveals initial_kyn ((key, value) ∷ found) cache = restore_reveals initial_kyn found (
        if leb (length key) (length krs_reveal_prefix)
        then cache
        else restore_reveal initial_kyn
            (fresh.from_utf8_lossy (drop (length krs_reveal_prefix) key))
            (e.serde.parse_envelope value) cache)

    -- the body of the loop over the stored heartbeats
    unfoldable pub restore_heartbeat : C → Bytes → Bytes → Restored → Restored
    restore_heartbeat cache key value s =
        let name = fresh.from_utf8_lossy (drop (length krs_hb_prefix) key) in
        if leb (length key) (length krs_hb_prefix)
        then s
        else if length value == 8
        then (if e.lru.contains name cache
            then record s { heartbeats = insert name (from_be 0 value) s.heartbeats }
            else record s { storage = remove key s.storage })
        else s

    unfoldable pub restore_heartbeats : C → Assoc Bytes → Restored → Restored
    restore_heartbeats cache [] s = s
    restore_heartbeats cache ((key, value) ∷ found) s =
        restore_heartbeats cache found (restore_heartbeat cache key value s)

    -- `let _ = inner.put(record)` for the keys of a name
    unfoldable pub fill_keys : List Bytes → Bytes → M → M
    fill_keys [] value inner = inner
    fill_keys (key ∷ keys) value inner =
        fill_keys keys value (elim (e.mem.put (record { key = key; value = value }) inner) [
          | none ↦ inner
          | some inner' ↦ inner'
        ])

    unfoldable pub fill_inner : List (Bytes × NameEnvelope) → M → M
    fill_inner [] inner = inner
    fill_inner ((name, r) ∷ records) inner = fill_inner records (elim (e.serde.print_envelope r) [
      | none ↦ inner
      | some value ↦ fill_keys (derive_storage_keys e.k e.p name) value inner
    ])

    -- the cache that is restored
    unfoldable pub restored_cache : ℕ → Assoc Bytes → C
    restored_cache initial_kyn storage =
        restore_reveals initial_kyn (take 100000 (scan_prefix krs_reveal_prefix storage))
          fresh.cache

    unfoldable pub restore : LruWalk NameEnvelope C → Assoc Bytes → ℕ → ℕ → RecordStore M C D
    restore walk storage initial_kyn max_reveals_per_hour =
        let cache = restored_cache initial_kyn storage in
        let s =
          restore_heartbeats cache (scan_prefix krs_hb_prefix storage)
            (record { heartbeats = []; storage = storage }) in
        record {
          inner = fill_inner (walk.entries cache) fresh.inner;
          deletions = [];
          store = record {
            storage = s.storage;
            reveals_by_name = cache;
            last_heartbeats_by_name = s.heartbeats;
            accepted_reveals_timestamps = fresh.times;
            current_kyn = initial_kyn;
            max_reveals_per_hour = max_reveals_per_hour;
            pending = [];
          };
        }
