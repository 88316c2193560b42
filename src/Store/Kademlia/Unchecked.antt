-- ===== src/Store/Kademlia/Unchecked.antt =====
-- Records that the dispatch on JSON fields treats in a way that their type does not suggest
-- (kinetic-network/src/store/kademlia.rs).
use kinetic.Prelude.{ℕ, ◌≤◌, ◌≡◌, Bool, true, false, some, arith, length}
use kinetic.Prelude.Bytes.{codes}
use kinetic.NameRecord.{Heartbeat}
use kinetic.Store.State.{StoreState, done}
use kinetic.Store.Handlers.{handle_process_heartbeat}
use kinetic.Store.Liveness.{pulse}
use kinetic.Store.Kademlia.{
  KadRecord, RecordStore, accepted, StoreEnv, check_record, put_inner, save_record, finish,
  is_commitment, put_parsed, put_record_internal,
}

module _ {M C D J : Type 0} (e : StoreEnv M C D J) where
  repeated_done :
      (hb : Heartbeat) (s : StoreState C D)
      → hb.latest_kyn ≡ pulse hb.name s
      → handle_process_heartbeat e.k e.p e.j e.action_state e.lru e.times e.serde hb s ≡ done s
  unfolding handle_process_heartbeat pulse
  repeated_done hb s h = ground arith

  -- A heartbeat that repeats the last kyn of its name, which is 0 for an unknown name, is stored
  -- under whatever key it comes with, and whatever its signature is.
  pub repeated_heartbeat_unchecked :
      (now : ℕ) (r : KadRecord) (skip : Bool) (n : RecordStore M C D) (parsed : J) (hb : Heartbeat)
      (inner : M)
      → length r.value ≤ e.k.storage_max_value_bytes
      → e.json.from_slice r.value ≡ some parsed
      → e.json.has (codes "hash") parsed ≡ false
      → e.json.has (codes "vdf_proof") parsed ≡ false
      → e.json.has (codes "kyn") parsed ≡ false
      → e.json.has (codes "latest_kyn") parsed ≡ true
      → e.json.heartbeat parsed ≡ some hb
      → hb.latest_kyn ≡ pulse hb.name n.store
      → e.mem.put r n.inner ≡ some inner
      → put_record_internal e now r skip n
        ≡ accepted (record n { inner = inner; store = save_record r n.store })
  unfolding put_record_internal put_parsed is_commitment check_record finish put_inner
  repeated_heartbeat_unchecked now r skip n parsed hb inner small x h1 h2 h3 h4 y same put =
      ground (arith, repeated_done hb n.store same)
