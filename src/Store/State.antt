-- ===== src/Store/State.antt =====
-- The state of `KineticRecordStore` (kinetic-network/src/store/kademlia.rs) that the handlers use.
-- The LRU cache and the JSON codec are third-party and parameters. The storage engine is an
-- association list whose operations succeed; the writes that the handlers give to background tasks
-- wait in `pending`.
use kinetic.Prelude.{ℕ, Option, none, some, List, ◌++◌}
use kinetic.Prelude.Bytes.{Bytes}
use kinetic.Prelude.Assoc.{Assoc, lookup}
use kinetic.Action.{ActionState}
use kinetic.NameRecord.{NameEnvelope}
use kinetic.Store.{KineticStoreError, krs_reveal_prefix, Surroundings}
use mathlib.Core.Bool.{Bool}

-- `LruCache`: `get` and `push` make an entry the most recent one; `push` also returns what the
-- cache gave up for it; `write` stores through the reference of `get_mut`.
pub record Lru (V C : Type 0) : Type 0 where
  pub contains : Bytes → C → Bool
  pub get : Bytes → C → Option V × C
  pub push : Bytes → V → C → C × Option (Bytes × V)
  pub write : Bytes → V → C → C

-- `serde_json::from_slice` and `serde_json::to_vec`
pub record Serde : Type 0 where
  pub parse_envelope : Bytes → Option NameEnvelope
  pub print_envelope : NameEnvelope → Option Bytes

pub record StoreState (C D : Type 0) : Type 0 where
  pub storage : Assoc Bytes
  pub reveals_by_name : C
  pub last_heartbeats_by_name : Assoc ℕ
  pub accepted_reveals_timestamps : D
  pub current_kyn : ℕ
  pub max_reveals_per_hour : ℕ
  pub pending : List (Bytes × Bytes)

-- how a handler ends: `Ok(())`, an error, or a panic
pub data Outcome (C D : Type 0) : Type 0 where
  done : StoreState C D → Outcome C D
  failed : KineticStoreError → StoreState C D → Outcome C D
  panicked : Outcome C D

-- the state a handler leaves; a panic leaves the one it started from
abbrev pub state_of : {C D : Type 0} → StoreState C D → Outcome C D → StoreState C D
state_of s (done t) = t
state_of s (failed e t) = t
state_of s panicked = s

-- `unwrap_or`
unfoldable pub kyn_or : ℕ → Option ℕ → ℕ
kyn_or default none = default
kyn_or default (some kyn) = kyn

unfoldable pub surroundings_of : {C D : Type 0} → Option ActionState → StoreState C D → Surroundings
surroundings_of action_state s = record {
  action_state = action_state;
  stored = λ key. lookup key s.storage;
}

unfoldable pub parse_stored : Serde → Option Bytes → Option NameEnvelope
parse_stored serde none = none
parse_stored serde (some bytes) = serde.parse_envelope bytes

module _ {C D : Type 0} (lru : Lru NameEnvelope C) (serde : Serde) where
  -- a record read from the storage goes to the cache
  unfoldable pub cache_read :
      Bytes → Option NameEnvelope → StoreState C D → Option NameEnvelope × StoreState C D
  cache_read name none s = (none, s)
  cache_read name (some r) s =
      (some r, record s { reveals_by_name = (lru.push name r s.reveals_by_name).0 })

  -- what the cache holds, or else the storage
  unfoldable pub serve :
      Bytes → Option NameEnvelope → StoreState C D → Option NameEnvelope × StoreState C D
  serve name (some r) s = (some r, s)
  serve name none s =
      cache_read name (parse_stored serde (lookup (krs_reveal_prefix ++ name) s.storage)) s

  unfoldable pub get_fallback : Bytes → StoreState C D → Option NameEnvelope × StoreState C D
  get_fallback name s =
      let (hit, cache) = lru.get name s.reveals_by_name in
      serve name hit (record s { reveals_by_name = cache })
