-- ===== src/Examples/Restoring.antt =====
-- A node that restores its store.
use mathlib.Core.List.{Memᴰ}
use kinetic.Prelude.{
  ℕ, ◌≤◌, ◌≡◌, ◌⊎◌, refl, sym, subst, inl, inr, Bool, true, false, Option, none, some, List, [],
  ◌∷◌, ◌++◌, Bool-cases,
}
use kinetic.Prelude.Bytes.{Bytes, codes, bytes_eq}
use kinetic.Prelude.Words.{u64_be}
use kinetic.Prelude.Assoc.{Assoc, insert, lookup, contains_key}
use kinetic.Config.{kin_network, toy_platform}
use kinetic.NameRecord.{NameEnvelope, standard}
use kinetic.Signature.{verify_signature}
use kinetic.Store.{krs_reveal_prefix, krs_hb_prefix}
use kinetic.Store.RevealCheck.{required, compute_required_iterations}
use kinetic.Store.State.{Serde}
use kinetic.Store.Kademlia.{KadRecord, StoreEnv}
use kinetic.Store.Restore.{Fresh, no_storage, proves, is_restorable, restored_cache, restore}
use kinetic.Store.Restore.Verified.{
  IsProved, PushesEntries, restored_reveals_verified, restored_heartbeats_referenced,
}
use kinetic.Examples.{toy_jcs, toy_reveal}
use kinetic.Examples.Storing.{map_cache}
use kinetic.Examples.Node.{ToyJson, toy_env, map_walk}

-- an entry of one list behind one that may have been replaced
replaced : {A : Type 0} (x y z : A) (c : List A) → Memᴰ x (y ∷ c) → (x ≡ y) ⊎ Memᴰ x (z ∷ c)
replaced x y z c (Memᴰ.head q) = inl q
replaced x y z c (Memᴰ.tail n) = inr (Memᴰ.tail n)

passed :
    {A : Type 0} (x y z : A) (c d : List A)
    → (Memᴰ x d → (x ≡ y) ⊎ Memᴰ x c)
    → Memᴰ x (z ∷ d)
    → (x ≡ y) ⊎ Memᴰ x (z ∷ c)
passed x y z c d f (Memᴰ.head q) = inr (Memᴰ.head q)
passed x y z c d f (Memᴰ.tail n) = elim (f n) [ inl q ↦ inl q | inr m ↦ inr (Memᴰ.tail m) ]

mem-insert :
    {V : Type 0} (name : Bytes) (v : V) (c : Assoc V) (x : Bytes × V)
    → Memᴰ x (insert name v c)
    → (x ≡ (name, v)) ⊎ Memᴰ x c
unfolding insert
mem-insert name v [] x (Memᴰ.head q) = inl q
mem-insert name v [] x (Memᴰ.tail m) = inr m
mem-insert name v ((k, w) ∷ c) x m = elim (Bool-cases (bytes_eq k name)) [
  | inl q ↦ replaced x (name, v) (k, w) c (rw q at m)
  | inr q ↦ passed x (name, v) (k, w) c (insert name v c) (mem-insert name v c x) (rw q at m)
]

map_cache-PushesEntries : PushesEntries (map_cache NameEnvelope) map_walk
map_cache-PushesEntries = record { entries-push = mem-insert }

-- every text is the toy reveal
abbrev one_reveal : Serde
one_reveal = record { parse_envelope = λ b. some (standard toy_reveal); print_envelope = λ r. none }

abbrev reveal_env : StoreEnv (Assoc KadRecord) (Assoc NameEnvelope) (Assoc (List ℕ)) ToyJson
reveal_env = record toy_env { serde = one_reveal }

abbrev fresh : Fresh (Assoc KadRecord) (Assoc NameEnvelope) (Assoc (List ℕ))
fresh = record { inner = []; cache = []; times = []; from_utf8_lossy = λ b. b }

abbrev kept_storage : Assoc Bytes
kept_storage =
    (krs_reveal_prefix ++ codes "kinetic.kin", 1 ∷ [])
    ∷ (krs_hb_prefix ++ codes "kinetic.kin", u64_be 4990)
    ∷ (krs_hb_prefix ++ codes "other.kin", u64_be 4990)
    ∷ []

toy_reveal-restorable : is_restorable reveal_env 5000 toy_reveal ≡ true
unfolding is_restorable kinetic.Store.Restore.meets compute_required_iterations
    kinetic.Names.is_valid_apex_name kinetic.Names.normalize_name kinetic.Prelude.Bytes.ends_with
    kinetic.Names.trim_dots kinetic.Names.trim_step kinetic.Names.check_labels
    kinetic.Names.split_dots kinetic.Names.check_label kinetic.Kyn.Beacon.verify_beacon_signature
    kinetic.Names.extract_apex_name kinetic.Names.has_bad_character kinetic.Names.is_reserved_name
    kinetic.Names.last_two kinetic.Physics.curve kinetic.Physics.iterations
    kinetic.Physics.label_iters kinetic.Physics.label_of kinetic.Physics.scaled bytes_eq
    kinetic.Prelude.Bytes.strip_suffix kinetic.Signature.verify_identity
    kinetic.Signature.verify_previous verify_signature proves kinetic.Store.RevealCheck.is_accepted
    kinetic.Store.RevealCheck.is_none kinetic.Store.RevealCheck.loyalty_iterations
toy_reveal-restorable = refl

cache-restored :
    restored_cache reveal_env fresh 5000 kept_storage
    ≡ (codes "kinetic.kin", standard toy_reveal) ∷ []
unfolding restored_cache kinetic.Store.Restore.restore_reveals kinetic.Store.Prune.scan_prefix
    kinetic.Action.starts_with kinetic.Store.Restore.restore_reveal insert
cache-restored = rw toy_reveal-restorable refl

toy_reveal-restored :
    Memᴰ
      (codes "kinetic.kin", standard toy_reveal)
      (restore reveal_env fresh map_walk kept_storage 5000 10).store.reveals_by_name
unfolding restore
toy_reveal-restored =
    subst (Memᴰ (codes "kinetic.kin", standard toy_reveal)) (sym cache-restored) (Memᴰ.head refl)

restored_reveals_verified_example :
    (n : ℕ) × (compute_required_iterations kin_network toy_platform
        (no_storage reveal_env)
        toy_reveal
        5000
      ≡ required n)
    × (n ≤ toy_reveal.iterations)
    × ((false ≡ true) ⊎ (verify_signature kin_network toy_platform toy_jcs toy_reveal ≡ none))
    × IsProved reveal_env fresh toy_reveal
restored_reveals_verified_example =
    restored_reveals_verified reveal_env fresh map_walk kept_storage 5000 10 (codes "kinetic.kin")
      (standard toy_reveal) map_cache-PushesEntries refl toy_reveal-restored

heartbeat-restored :
    lookup
      (codes "kinetic.kin")
      (restore reveal_env fresh map_walk kept_storage 5000 10).store.last_heartbeats_by_name
    ≡ some 4990
unfolding restore lookup bytes_eq kinetic.Store.Restore.restore_heartbeats
    kinetic.Store.Prune.scan_prefix kinetic.Action.starts_with
    kinetic.Store.Restore.restore_heartbeat contains_key insert kinetic.Prelude.Words.be_bytes
    kinetic.Prelude.Words.from_be
heartbeat-restored = rw cache-restored refl

restored_heartbeats_referenced_example :
    contains_key
      (codes "kinetic.kin")
      (restore reveal_env fresh map_walk kept_storage 5000 10).store.reveals_by_name
    ≡ true
restored_heartbeats_referenced_example =
    restored_heartbeats_referenced reveal_env fresh map_walk kept_storage 5000 10
      (codes "kinetic.kin") 4990 heartbeat-restored
