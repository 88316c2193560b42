-- ===== src/Store/Kademlia/View.antt =====
-- The records that the storage holds, as a map from keys to values: what a client of
-- `KineticRecordStore` (kinetic-network/src/store/kademlia.rs) may rely on across restarts.
use kinetic.Prelude.{
  any_append, [], ◌∷◌, ◌≡◌, refl, inl, inr, Bool, Option, none, some, List, ◌++◌, arith,
  if◌then◌else◌, false,
}
use kinetic.Prelude.Bytes.{Bytes, bytes_eq}
use kinetic.Prelude.Assoc.{
  Assoc, lookup, insert, remove, remove_all, lookup-insert, lookup-remove, lookup-remove_all, among,
}
use kinetic.Config.{NetworkConstants, Platform}
use kinetic.NameRecord.{NameEnvelope, reveal_of, derive_storage_keys, derive_heartbeat_keys}
use kinetic.Store.{krs_commit_prefix}
use kinetic.Store.State.{StoreState}
use kinetic.Store.Handlers.{delete_all, clean_owner}
use kinetic.Store.Kademlia.{KadRecord, StoreEnv, db_key, save_record, save_commitment}
use kinetic.Store.Kademlia.Quiet.{IsReserved}
use kinetic.Store.Kademlia.Moves.{cleaned}
use mathlib.Core.Path.{fun_ext}

abbrev pub View : Type 0
View = Bytes → Option Bytes

unfoldable pub view_of : Assoc Bytes → View
view_of storage key = lookup (db_key key) storage

abbrev pub update : Bytes → Bytes → View → View
update key value f q = if bytes_eq key q then some value else f q

abbrev pub erase : (Bytes → Bool) → View → View
erase dead f q = if dead q then none else f q

-- the DHT keys of a name
unfoldable pub keys_of : NetworkConstants → Platform → Bytes → List Bytes
keys_of k p name = derive_storage_keys k p name ++ derive_heartbeat_keys k p name

view-delete_all :
    (keys : List Bytes) (storage : Assoc Bytes) (q : Bytes)
    → view_of (delete_all keys storage) q ≡ (if among q keys then none else view_of storage q)
unfolding view_of delete_all
view-delete_all [] storage q = refl
view-delete_all (key ∷ keys) storage q =
    let same : bytes_eq (db_key key) (db_key q) ≡ bytes_eq key q = unfold bytes_eq in refl in
    ground (
      arith,
      view-delete_all keys (remove (db_key key) storage) q,
      lookup-remove (db_key key) (db_key q) storage,
      same,
    )

-- a record that is saved is read back under its key, and no other key changes
pub view-save_record :
    {C D : Type 0} (r : KadRecord) (s : StoreState C D)
    → view_of (save_record r s).storage ≡ update r.key r.value (view_of s.storage)
unfolding view_of save_record
view-save_record r s = fun_ext λ q.
    let same : bytes_eq (db_key r.key) (db_key q) ≡ bytes_eq r.key q = unfold bytes_eq in refl in
    ground (arith, lookup-insert (db_key r.key) (db_key q) r.value s.storage, same)

-- a reserved key is the key of no record
pub view-reserved :
    (key value : Bytes) (storage : Assoc Bytes)
    → ((q : Bytes) → bytes_eq key (db_key q) ≡ false)
    → view_of (insert key value storage) ≡ view_of storage
unfolding view_of
view-reserved key value storage h =
    fun_ext λ q. ground (arith, h q, lookup-insert key (db_key q) value storage)

pub view-save_commitment :
    {C D : Type 0} (hash : Bytes) (s : StoreState C D)
    → view_of (save_commitment hash s).storage ≡ view_of s.storage
unfolding save_commitment
view-save_commitment hash s =
    view-reserved (krs_commit_prefix ++ hash) _ s.storage (λ q. unfold bytes_eq in refl)

pub IsReserved-apart :
    (key value : Bytes) → IsReserved (key, value) → (q : Bytes) → bytes_eq key (db_key q) ≡ false
unfolding IsReserved
IsReserved-apart key value (name, inl h) q = rw h (unfold bytes_eq in refl)
IsReserved-apart key value (name, inr h) q = rw h (unfold bytes_eq in refl)

pub view-remove_all :
    (keys : List Bytes) (storage : Assoc Bytes)
    → view_of (remove_all keys storage) ≡ erase (λ q. among (db_key q) keys) (view_of storage)
unfolding view_of
view-remove_all keys storage = fun_ext λ q. lookup-remove_all keys (db_key q) storage

module _ {M C D J : Type 0} (e : StoreEnv M C D J) where
  pub view-cleaned :
      (new : NameEnvelope) (s : StoreState C D)
      → view_of (cleaned e new s)
        ≡ erase (λ q. among q (keys_of e.k e.p (reveal_of new).name)) (view_of s.storage)
  unfolding cleaned clean_owner keys_of
  view-cleaned new s = fun_ext λ q.
      let keys = derive_storage_keys e.k e.p (reveal_of new).name in
      let hb_keys = derive_heartbeat_keys e.k e.p (reveal_of new).name in
      ground (
        arith,
        view-delete_all hb_keys (delete_all keys s.storage) q,
        view-delete_all keys s.storage q,
        any_append (λ j. bytes_eq j q) keys hb_keys,
      )
