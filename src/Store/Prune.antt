-- ===== src/Store/Prune.antt =====
-- `KineticRecordStore::prune` (kinetic-network/src/store/kademlia.rs). The deletions that it gives to
-- a background task go to `deletions`.
pub mod Live
pub mod Settled
pub mod Commitments
use kinetic.Prelude.{
  ℕ, ◌-◌, ◌/◌, ◌*◌, Bool, true, ◌&&◌, List, [], ◌∷◌, ◌++◌, ltb, leb, ◌==◌, if◌then◌else◌, length,
  map, drop,
}
use kinetic.Prelude.Bytes.{Bytes}
use kinetic.Action.{starts_with}
use kinetic.Prelude.Words.{from_be}
use kinetic.Prelude.Assoc.{Assoc, lookup, remove, remove_all}
use kinetic.Vdf.{Reveal}
use kinetic.NameRecord.{NameEnvelope, reveal_of, derive_storage_keys, derive_heartbeat_keys}
use kinetic.Store.{krs_commit_prefix, krs_reveal_prefix, krs_hb_prefix, resquaring_epoch_kyns}
use kinetic.Store.State.{StoreState, kyn_or}
use kinetic.Store.Kademlia.{RecordStore, StoreEnv, db_key}

-- `LruCache`: the entries that an iteration yields, and `pop`
pub record LruWalk (V C : Type 0) : Type 0 where
  pub entries : C → List (Bytes × V)
  pub pop : Bytes → C → C

-- `StorageEngine::scan_prefix` without a limit
unfoldable pub scan_prefix : Bytes → Assoc Bytes → Assoc Bytes
scan_prefix prefix [] = []
scan_prefix prefix ((key, value) ∷ storage) =
    let rest = scan_prefix prefix storage in
    if starts_with key prefix then (key, value) ∷ rest else rest

-- `idle_timeout`
abbrev pub idle_timeout : ℕ
idle_timeout = 7 * 24 * 3600 / 3

-- a stored commitment of at least 100 kyns
unfoldable pub is_old_commitment : ℕ → Bytes → Bool
is_old_commitment current_kyn value = length value == 8 && leb 100 (current_kyn - from_be 0 value)

-- a name that prune drops
unfoldable pub is_expired : ℕ → Assoc ℕ → Bytes → Reveal → Bool
is_expired current_kyn heartbeats name reveal =
    if ltb resquaring_epoch_kyns (current_kyn - reveal.kyn)
    then true
    else ltb idle_timeout (current_kyn - kyn_or reveal.kyn (lookup name heartbeats))

unfoldable pub expired_names : ℕ → Assoc ℕ → List (Bytes × NameEnvelope) → List Bytes
expired_names current_kyn heartbeats [] = []
expired_names current_kyn heartbeats ((name, r) ∷ records) =
    let rest = expired_names current_kyn heartbeats records in
    if is_expired current_kyn heartbeats name (reveal_of r) then name ∷ rest else rest

module _ {M C D J : Type 0} (e : StoreEnv M C D J) (walk : LruWalk NameEnvelope C) where
  -- the memory store without some records
  unfoldable pub remove_inner : List Bytes → M → M
  remove_inner [] inner = inner
  remove_inner (key ∷ keys) inner = remove_inner keys (e.mem.remove key inner)

  -- a record under a commitment's hash
  unfoldable pub forget_hash : Bytes → RecordStore M C D → RecordStore M C D
  forget_hash key n =
      let hash = drop (length krs_commit_prefix) key in
      if ltb (length krs_commit_prefix) (length key)
      then record n {
        inner = e.mem.remove hash n.inner;
        deletions = n.deletions ++ db_key hash ∷ [];
      }
      else n

  -- the body of the loop over the stored commitments
  unfoldable pub forget_commitment : Bytes → Bytes → RecordStore M C D → RecordStore M C D
  forget_commitment key value n =
      if is_old_commitment n.store.current_kyn value
      then forget_hash key (record n { deletions = n.deletions ++ key ∷ [] })
      else n

  unfoldable pub forget_commitments : Assoc Bytes → RecordStore M C D → RecordStore M C D
  forget_commitments [] n = n
  forget_commitments ((key, value) ∷ found) n =
      forget_commitments found (forget_commitment key value n)

  -- the body of the loop over the expired names
  unfoldable pub forget_name : Bytes → RecordStore M C D → RecordStore M C D
  forget_name name n =
      let s = n.store in
      let keys = derive_storage_keys e.k e.p name in
      let hb_keys = derive_heartbeat_keys e.k e.p name in
      record {
        inner = remove_inner hb_keys (remove_inner keys n.inner);
        deletions =
            n.deletions
            ++ (krs_reveal_prefix ++ name)
              ∷ (krs_hb_prefix ++ name)
              ∷ (map db_key keys ++ map db_key hb_keys);
        store = record s {
          reveals_by_name = walk.pop name s.reveals_by_name;
          last_heartbeats_by_name = remove name s.last_heartbeats_by_name;
        };
      }

  unfoldable pub forget_names : List Bytes → RecordStore M C D → RecordStore M C D
  forget_names [] n = n
  forget_names (name ∷ names) n = forget_names names (forget_name name n)

  -- the names that are due
  unfoldable pub due_names : StoreState C D → List Bytes
  due_names s =
      expired_names s.current_kyn s.last_heartbeats_by_name (walk.entries s.reveals_by_name)

  unfoldable pub prune : RecordStore M C D → RecordStore M C D
  prune n =
      forget_names (due_names n.store)
        (forget_commitments (scan_prefix krs_commit_prefix n.store.storage) n)

-- the background task of `prune`: its deletions reach the storage
unfoldable pub run_deletions : {M C D : Type 0} → RecordStore M C D → RecordStore M C D
run_deletions n = record n {
  deletions = [];
  store = record n.store { storage = remove_all n.deletions n.store.storage };
}
