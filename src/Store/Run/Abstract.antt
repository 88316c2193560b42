-- ===== src/Store/Run/Abstract.antt =====
-- An abstract map of records, and what may happen to it in a run of the record store
-- (kinetic-network/src/store/kademlia.rs).
use mathlib.Core.List.{Memᴰ}
use kinetic.Prelude.{ℕ, ◌-◌, ◌≤◌, ◌≡◌, ◌⊎◌, Bool, true, false, some, length, drop}
use kinetic.Prelude.Bytes.{Bytes, bytes_eq}
use kinetic.Prelude.Words.{from_be}
use kinetic.Prelude.Assoc.{among}
use kinetic.NameRecord.{NameEnvelope, reveal_of}
use kinetic.Store.{krs_commit_prefix}
use kinetic.Store.State.{StoreState, get_fallback}
use kinetic.Store.Ownership.{TakesOver}
use kinetic.Store.Kademlia.{KadRecord, RecordStore, StoreEnv, db_key}
use kinetic.Store.Kademlia.Passed.{Passed}
use kinetic.Store.Kademlia.Moves.{hb_age}
use kinetic.Store.Kademlia.View.{View, update, erase, keys_of}
use kinetic.Store.Prune.{LruWalk}
use kinetic.Store.Prune.Live.{IsDueIn}
use kinetic.Store.Run.{Run}

module _ {M C D J : Type 0} (e : StoreEnv M C D J) (walk : LruWalk NameEnvelope C)
    (start : RecordStore M C D) where
  -- the hash of a commitment that the storage held for at least 100 kyns
  unfoldable pub IsOldHash : RecordStore M C D → Bytes → Type 0
  IsOldHash m q =
      (key : Bytes) × (value : Bytes) × Memᴰ (key, value) m.store.storage
      × (drop (length krs_commit_prefix) key ≡ q)
      × (100 ≤ m.store.current_kyn - from_be 0 value)

  -- A key that may be deleted: its deletion was pending at the start, or in a state of the run it
  -- was a key of a name that was due, or the hash of an old commitment.
  unfoldable pub IsDead : Bytes → Type 0
  IsDead q =
      (among (db_key q) start.deletions ≡ true)
      ⊎ ((m : RecordStore M C D) × Run e walk start m
          × (((name : Bytes) × IsDueIn e walk m name × (among q (keys_of e.k e.p name) ≡ true))
              ⊎ IsOldHash m q))

  -- What may happen to the records: nothing; a record of the allowed size that is JSON and passed
  -- the checks of its type in a state of the run is stored under its key; in a state of the
  -- run a record takes a name over from the record of another key that is held, and the records of
  -- the name are removed; or dead keys are erased.
  pub data ViewStep (f : View) : View → Type 0 where
    keep : ViewStep f f
    store :
        (n : RecordStore M C D) (now : ℕ) (skip : Bool) (r : KadRecord) (parsed : J)
        (s : StoreState C D)
        → Run e walk start n
        → length r.value ≤ e.k.storage_max_value_bytes
        → e.json.from_slice r.value ≡ some parsed
        → Passed e now skip r parsed n s
        → ViewStep f (update r.key r.value f)
    evict :
        (n : RecordStore M C D) (existing new : NameEnvelope)
        → Run e walk start n
        → (get_fallback e.lru e.serde (reveal_of new).name n.store).0 ≡ some existing
        → bytes_eq (reveal_of existing).pubkey (reveal_of new).pubkey ≡ false
        → TakesOver e.k e.p e.j e.action_state
            (reveal_of existing)
            (reveal_of new)
            (hb_age e new n.store)
        → ViewStep f (erase (λ q. among q (keys_of e.k e.p (reveal_of new).name)) f)
    expire :
        (dead : Bytes → Bool) → ((q : Bytes) → dead q ≡ true → IsDead q) → ViewStep f (erase dead f)
