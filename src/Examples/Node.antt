-- ===== src/Examples/Node.antt =====
-- The record store of a node, with a toy JSON whose texts are one byte.
use kinetic.Prelude.{
  ◌⊎◌, ◌+◌, replicate, ℕ, zero, suc, ◌≤◌, ◌≡◌, ◌⊎◌, refl, Bool, true, false, Option, none, some,
  List, [], ◌∷◌, ◌++◌, length, take, drop, if◌then◌else◌, arith,
}
use kinetic.Prelude.Bytes.{Bytes, codes, bytes_eq}
use kinetic.Prelude.Words.{u64_be, add64}
use kinetic.Prelude.Assoc.{Assoc, lookup, insert, remove, among}
use kinetic.Config.{kin_network, toy_platform}
use kinetic.NameRecord.{Heartbeat, NameEnvelope, standard}
use kinetic.HostRoute.{HostRoute, PeerKeys, key_prefix, route_signable, verify_host_routing_record}
use kinetic.HostRoute.Digest.{verify_host_routing_record_sound, ed25519_route_refused}
use kinetic.Store.{krs_commit_prefix, schema_validation_error, invalid_public_key}
use kinetic.Store.State.{StoreState}
use kinetic.Store.Kademlia.{
  KadRecord, MemoryStore, Json, RecordStore, StoreEnv, PutResult, accepted, rejected, store_of,
  db_key, save_record, save_commitment, put_record_internal,
}
use kinetic.Action.{starts_with}
use kinetic.Prelude.Words.{from_be}
use kinetic.Store.Liveness.{pulse}
use kinetic.Store.Kademlia.Passed.{Passed}
use kinetic.Store.Kademlia.Accepted.{Held, put_record_internal_sound}
use kinetic.Store.Kademlia.Unchecked.{repeated_heartbeat_unchecked}
use kinetic.Store.Prune.{LruWalk, due_names, prune, run_deletions}
use kinetic.Store.Prune.Live.{PopsEntries, IsDueIn, IsForgotten, IsKept, prune_exact}
use kinetic.Store.Prune.Commitments.{commitment_ends}
use kinetic.Store.Run.{Run, stop, step, putting, advancing, pruning, deleting}
use kinetic.Store.Run.Fit.{IsFit, stored_fits}
use kinetic.Examples.{toy_jcs, toy_reveal}
use kinetic.Examples.Storing.{map_cache, no_serde}

-- 0 is a commitment, 1 a heartbeat of kyn 0, and the rest host routes
pub data ToyJson : Type 0 where
  a_commitment : ToyJson
  a_heartbeat : ToyJson
  a_route : ToyJson

abbrev toy_from_slice : Bytes → Option ToyJson
toy_from_slice [] = none
toy_from_slice (zero ∷ rest) = some a_commitment
toy_from_slice (suc zero ∷ rest) = some a_heartbeat
toy_from_slice (suc (suc n) ∷ rest) = some a_route

abbrev toy_has : Bytes → ToyJson → Bool
toy_has name a_commitment = bytes_eq name (codes "hash")
toy_has name a_heartbeat = bytes_eq name (codes "latest_kyn")
toy_has name a_route = bytes_eq name (codes "kyn")

abbrev first_heartbeat : Heartbeat
first_heartbeat = record {
  name = codes "unknown.kin";
  latest_kyn = 0;
  owner_signature = [];
  authorization = none;
}

abbrev toy_json : Json ToyJson
toy_json = record {
  from_slice = toy_from_slice;
  has = toy_has;
  commitment_hash = λ v. some (3 ∷ []);
  envelope = λ v. none;
  heartbeat = λ v. some first_heartbeat;
  authorized_kid = λ v. none;
  authorized_manifest = λ v. none;
  host_route = λ v. none;
  kid_from_slice = λ b. none;
  manifest_from_slice = λ b. none;
}

abbrev toy_memory : MemoryStore (Assoc KadRecord)
toy_memory = record { get = lookup; put = λ r m. some (insert r.key r m); remove = remove }

-- a peer id is its own digest
abbrev pub toy_keys : PeerKeys
toy_keys = record {
  digest = some;
  is_key = λ b. true;
  is_signature = λ b. true;
  verify = λ key msg sig. true;
}

abbrev pub toy_env : StoreEnv (Assoc KadRecord) (Assoc NameEnvelope) (Assoc (List ℕ)) ToyJson
toy_env = record {
  k = kin_network;
  p = toy_platform;
  j = toy_jcs;
  action_state = none;
  lru = map_cache NameEnvelope;
  times = map_cache (List ℕ);
  serde = no_serde;
  mem = toy_memory;
  json = toy_json;
  keys = toy_keys;
}

abbrev pub map_walk : LruWalk NameEnvelope (Assoc NameEnvelope)
map_walk = record { entries = λ c. c; pop = remove }

map_walk-PopsEntries : PopsEntries map_walk
map_walk-PopsEntries = record { entries-pop = λ name c. refl }

abbrev Node : Type 0
Node = RecordStore (Assoc KadRecord) (Assoc NameEnvelope) (Assoc (List ℕ))

abbrev empty_node : Node
empty_node = record {
  inner = [];
  deletions = [];
  store = record {
    storage = [];
    reveals_by_name = [];
    last_heartbeats_by_name = [];
    accepted_reveals_timestamps = [];
    current_kyn = 5000;
    max_reveals_per_hour = 10;
    pending = [];
  };
}

abbrev commitment_record : KadRecord
commitment_record = record { key = 3 ∷ []; value = 0 ∷ [] }

abbrev heartbeat_record : KadRecord
heartbeat_record = record { key = 4 ∷ []; value = 1 ∷ [] }

abbrev route_record : KadRecord
route_record = record { key = 5 ∷ []; value = 2 ∷ [] }

abbrev put : KadRecord → Node → PutResult (Assoc KadRecord) (Assoc NameEnvelope) (Assoc (List ℕ))
put r n = put_record_internal toy_env 100 r false n

abbrev committed_node : Node
committed_node = store_of empty_node (put commitment_record empty_node)

commitment_record-accepted : put commitment_record empty_node ≡ accepted committed_node
unfolding put_record_internal kinetic.Store.Kademlia.put_parsed kinetic.Store.Kademlia.is_commitment
    bytes_eq kinetic.Store.Kademlia.put_commitment kinetic.Store.Kademlia.put_inner
commitment_record-accepted = refl

put_record_internal_sound_example :
    (length commitment_record.value ≤ 81920)
    × (parsed : ToyJson) × (toy_from_slice commitment_record.value ≡ some parsed)
    × (((hash : Bytes) × (toy_json.commitment_hash parsed ≡ some hash)
          × Held toy_env commitment_record empty_node
              (save_commitment hash empty_node.store)
              committed_node)
        ⊎ ((s : StoreState (Assoc NameEnvelope) (Assoc (List ℕ))) × Passed toy_env 100 false
              commitment_record parsed empty_node s
            × Held toy_env commitment_record empty_node
                (save_record commitment_record s)
                committed_node))
put_record_internal_sound_example =
    put_record_internal_sound toy_env 100 commitment_record false empty_node committed_node
      commitment_record-accepted

abbrev beaten_node : Node
beaten_node = record empty_node {
  inner = (4 ∷ [], heartbeat_record) ∷ [];
  store = save_record heartbeat_record empty_node.store;
}

unknown-pulse : 0 ≡ pulse (codes "unknown.kin") empty_node.store
unfolding pulse kinetic.Store.State.kyn_or lookup
unknown-pulse = refl

hash-absent : toy_has (codes "hash") a_heartbeat ≡ false
unfolding bytes_eq
hash-absent = refl

proof-absent : toy_has (codes "vdf_proof") a_heartbeat ≡ false
unfolding bytes_eq
proof-absent = refl

kyn-absent : toy_has (codes "kyn") a_heartbeat ≡ false
unfolding bytes_eq
kyn-absent = refl

kyn-present : toy_has (codes "latest_kyn") a_heartbeat ≡ true
unfolding bytes_eq
kyn-present = refl

route-hash_absent : toy_has (codes "hash") a_route ≡ false
unfolding bytes_eq
route-hash_absent = refl

route-kyn_present : toy_has (codes "kyn") a_route ≡ true
unfolding bytes_eq
route-kyn_present = refl

small : 1 ≤ 81920
small = omega arith

added : toy_memory.put heartbeat_record [] ≡ some ((4 ∷ [], heartbeat_record) ∷ [])
unfolding insert
added = refl

repeated_heartbeat_unchecked_example : put heartbeat_record empty_node ≡ accepted beaten_node
repeated_heartbeat_unchecked_example =
    repeated_heartbeat_unchecked toy_env 100 heartbeat_record false empty_node a_heartbeat
      first_heartbeat ((4 ∷ [], heartbeat_record) ∷ []) small refl hash-absent proof-absent
      kyn-absent kyn-present refl unknown-pulse added

-- a run: a heartbeat is stored, the clock advances, and the store is pruned
abbrev later_node : Node
later_node = record (store_of empty_node (put heartbeat_record empty_node)) {
  store = record (store_of empty_node (put heartbeat_record empty_node)).store {
    current_kyn = 6000;
  };
}

abbrev last_node : Node
last_node = run_deletions (prune toy_env map_walk later_node)

toy-Run : Run toy_env map_walk empty_node last_node
toy-Run = step (putting 100 heartbeat_record false empty_node) (
    step (advancing 6000 (store_of empty_node (put heartbeat_record empty_node))) (
      step (pruning later_node)
        (step (deleting (prune toy_env map_walk later_node)) (stop last_node))))

heartbeat_record-held : lookup (db_key (4 ∷ [])) last_node.store.storage ≡ some (1 ∷ [])
unfolding lookup run_deletions kinetic.Prelude.Assoc.remove_all prune
    kinetic.Store.Prune.forget_names due_names kinetic.Store.Prune.expired_names put_record_internal
    kinetic.Store.Kademlia.put_parsed kinetic.Store.Kademlia.is_commitment bytes_eq
    kinetic.Store.Kademlia.finish kinetic.Store.Kademlia.check_record
    kinetic.Store.Handlers.handle_process_heartbeat kinetic.Store.State.kyn_or
    kinetic.Store.Kademlia.put_inner save_record insert kinetic.Store.Prune.scan_prefix
    kinetic.Store.Prune.forget_commitments starts_with
heartbeat_record-held = refl

stored_fits_example : IsFit toy_env (1 ∷ [])
stored_fits_example =
    stored_fits toy_env map_walk toy-Run refl refl (4 ∷ []) (1 ∷ []) heartbeat_record-held

-- a name that was last heard of at kyn 4990, and a commitment of kyn 4000
abbrev old_node : Node
old_node = record empty_node {
  store = record empty_node.store {
    storage = (krs_commit_prefix ++ 3 ∷ [], u64_be 4000) ∷ [];
    reveals_by_name = (codes "kinetic.kin", standard toy_reveal) ∷ [];
    last_heartbeats_by_name = (codes "kinetic.kin", 4990) ∷ [];
    current_kyn = 300000;
  };
}

prune_exact_example :
    (IsDueIn toy_env map_walk old_node (codes "kinetic.kin")
      × IsForgotten toy_env map_walk (codes "kinetic.kin") (prune toy_env map_walk old_node))
    ⊎ ((¬ IsDueIn toy_env map_walk old_node (codes "kinetic.kin"))
        × IsKept toy_env map_walk (codes "kinetic.kin") old_node (prune toy_env map_walk old_node))
prune_exact_example =
    prune_exact toy_env map_walk map_walk-PopsEntries old_node (codes "kinetic.kin")

old-held : lookup (krs_commit_prefix ++ 3 ∷ []) old_node.store.storage ≡ some (u64_be 4000)
unfolding lookup bytes_eq
old-held = refl

old-starts : starts_with (krs_commit_prefix ++ 3 ∷ []) krs_commit_prefix ≡ true
unfolding starts_with
old-starts = refl

old-length : length (u64_be 4000) ≡ 8
unfolding kinetic.Prelude.Words.be_bytes
old-length = refl

old-is_old : from_be 0 (u64_be 4000) + 100 ≤ 300000
unfolding from_be kinetic.Prelude.Words.be_bytes
old-is_old = omega arith

commitment_ends_example :
    lookup
      (krs_commit_prefix ++ 3 ∷ [])
      (run_deletions (prune toy_env map_walk old_node)).store.storage
    ≡ none
commitment_ends_example =
    commitment_ends toy_env map_walk old_node (krs_commit_prefix ++ 3 ∷ []) (u64_be 4000) old-held
      old-starts old-length old-is_old

abbrev pub toy_route : HostRoute
toy_route = record {
  host_id = key_prefix ++ replicate 32 7;
  current_peer_id = 1 ∷ [];
  kyn = 4990;
  host_signature = 1 ∷ [];
}

pub toy_route-accepted : verify_host_routing_record kin_network toy_keys toy_route 5000 ≡ none
unfolding verify_host_routing_record kinetic.HostRoute.host_key kinetic.HostRoute.digest_key
    bytes_eq kinetic.HostRoute.signed_by
toy_route-accepted = refl

verify_host_routing_record_sound_example :
    (5000 ≤ 5090)
    × (4990 ≤ add64 5000 2)
    × ((bytes : Bytes) × (some toy_route.host_id ≡ some bytes)
        × (length bytes ≡ 38)
        × (take 6 bytes ≡ key_prefix)
        × (toy_keys.verify
              (take 32 (drop 6 bytes))
              (route_signable kin_network toy_route)
              toy_route.host_signature
            ≡ true))
verify_host_routing_record_sound_example =
    verify_host_routing_record_sound kin_network toy_keys toy_route 5000 toy_route-accepted

abbrev ed25519_route : HostRoute
ed25519_route = record toy_route { host_id = 8 ∷ 1 ∷ 18 ∷ 32 ∷ replicate 32 7 }

ed25519_route_refused_example :
    verify_host_routing_record kin_network toy_keys ed25519_route 5000 ≡ some invalid_public_key
ed25519_route_refused_example =
    ed25519_route_refused kin_network toy_keys ed25519_route 5000 (replicate 32 7) refl refl
      (omega arith) (omega arith)
