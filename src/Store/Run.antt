-- ===== src/Store/Run.antt =====
-- Runs of `KineticRecordStore` (kinetic-network/src/store/kademlia.rs): its public operations, the
-- clock that the node sets, and the background tasks, in any order.
pub mod Abstract
pub mod Deletions
pub mod PutDeletions
pub mod Checks
pub mod Refinement
pub mod Fit
use kinetic.Prelude.{ℕ, ◌≡◌, Bool, List, ◌∷◌, ◌++◌}
use kinetic.Prelude.Bytes.{Bytes}
use kinetic.Prelude.Assoc.{insert}
use kinetic.NameRecord.{NameEnvelope}
use kinetic.Store.Kademlia.{
  KadRecord, RecordStore, StoreEnv, store_of, put_record_internal, remove_record,
}
use kinetic.Store.Prune.{LruWalk, prune, run_deletions}

module _ {M C D J : Type 0} (e : StoreEnv M C D J) (walk : LruWalk NameEnvelope C) where
  pub data Step : RecordStore M C D → RecordStore M C D → Type 0 where
    putting :
        (now : ℕ) (r : KadRecord) (skip : Bool) (n : RecordStore M C D)
        → Step n (store_of n (put_record_internal e now r skip n))
    removing : (key : Bytes) (n : RecordStore M C D) → Step n (remove_record e key n)
    advancing :
        (kyn : ℕ) (n : RecordStore M C D)
        → Step n (record n { store = record n.store { current_kyn = kyn } })
    pruning : (n : RecordStore M C D) → Step n (prune e walk n)
    deleting : (n : RecordStore M C D) → Step n (run_deletions n)
    -- a background task writes one of the pending pairs
    writing :
        (before after : List (Bytes × Bytes)) (key value : Bytes) (n : RecordStore M C D)
        → n.store.pending ≡ before ++ (key, value) ∷ after
        → Step n (record n {
          store = record n.store {
            pending = before ++ after;
            storage = insert key value n.store.storage;
          };
        })

  pub data Run : RecordStore M C D → RecordStore M C D → Type 0 where
    stop : (n : RecordStore M C D) → Run n n
    step : {n m l : RecordStore M C D} → Step n m → Run m l → Run n l
