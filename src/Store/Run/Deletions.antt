-- ===== src/Store/Run/Deletions.antt =====
-- What the background task of `prune` may delete (kinetic-network/src/store/kademlia.rs).
use mathlib.Core.List.{Memᴰ}
use kinetic.Prelude.{
  ◌-◌, ◌≤◌, ◌≡◌, refl, sym, subst, ap, ◌∙◌, inl, inr, true, false, ◌||◌, List, [], ◌∷◌, ◌++◌, arith,
  any_append, length, drop, map, ltb, Bool-cases,
}
use kinetic.Prelude.Bytes.{Bytes, bytes_eq, bytes_eq→≡, bytes_eq_refl}
use kinetic.Prelude.Words.{from_be}
use kinetic.Prelude.Assoc.{Assoc, among}
use kinetic.Action.{starts_with}
use kinetic.NameRecord.{NameEnvelope, derive_storage_keys, derive_heartbeat_keys}
use kinetic.Store.{krs_commit_prefix, krs_reveal_prefix, krs_hb_prefix}
use kinetic.Store.Kademlia.{RecordStore, StoreEnv, db_key}
use kinetic.Store.Kademlia.View.{keys_of}
use kinetic.Store.Prune.{
  LruWalk, scan_prefix, is_old_commitment, forget_hash, forget_commitment, forget_commitments,
  forget_name, forget_names, due_names, prune,
}
use kinetic.Store.Prune.Live.{IsDueIn, forget_commitment_keeps, due_names-IsDueIn}
use kinetic.Store.Run.{Run}
use kinetic.Store.Run.Abstract.{IsOldHash, IsDead}

among-append : (x : Bytes) (ks js : List Bytes) → among x (ks ++ js) ≡ (among x ks || among x js)
among-append x ks js = any_append (λ k. bytes_eq k x) ks js

among-db_key : (q : Bytes) (keys : List Bytes) → among (db_key q) (map db_key keys) ≡ among q keys
among-db_key q [] = refl
among-db_key q (key ∷ keys) =
    let same : bytes_eq (db_key key) (db_key q) ≡ bytes_eq key q = unfold bytes_eq in refl in
    ground (arith, same, among-db_key q keys)

-- a key with the prefix of the commitments is the key of no record
commit_apart :
    (key q : Bytes) → starts_with key krs_commit_prefix ≡ true → bytes_eq key (db_key q) ≡ false
unfolding starts_with bytes_eq
commit_apart [] q h = refl
commit_apart (x ∷ []) q h = ground (arith, h)
commit_apart (x ∷ y ∷ key) q h = ground (arith, h)

mem-scan_prefix :
    (prefix key value : Bytes) (storage : Assoc Bytes)
    → Memᴰ (key, value) (scan_prefix prefix storage)
    → Memᴰ (key, value) storage × (starts_with key prefix ≡ true)
unfolding scan_prefix
mem-scan_prefix prefix key value [] m = elim m [ ]
mem-scan_prefix prefix key value ((k, v) ∷ storage) m = elim (Bool-cases (starts_with k prefix)) [
  | inr q ↦
      let (n, s) = mem-scan_prefix prefix key value storage (rw (scan_prefix, q) at m) in
      (Memᴰ.tail n, s)
  | inl q ↦ elim (rw (scan_prefix, q) at m) [
    | Memᴰ.head same ↦
        (Memᴰ.head same, subst (λ z. starts_with z prefix ≡ true) (sym (ap (λ z. z.0) same)) q)
    | Memᴰ.tail n ↦ let (n', s) = mem-scan_prefix prefix key value storage n in (Memᴰ.tail n', s)
  ]
]

module _ {M C D J : Type 0} (e : StoreEnv M C D J) (walk : LruWalk NameEnvelope C)
    (start : RecordStore M C D) where
  -- every record that waits for its deletion is dead
  unfoldable pub IsNoted : List Bytes → Type 0
  IsNoted deletions = (q : Bytes) → among (db_key q) deletions ≡ true → IsDead e walk start q

  -- more deletions, of keys of no record or of dead ones
  IsNoted-append : (ks js : List Bytes) → IsNoted ks → IsNoted js → IsNoted (ks ++ js)
  unfolding IsNoted
  IsNoted-append ks js f g q h = elim (Bool-cases (among (db_key q) ks)) [
    | inl here ↦ f q here
    | inr other ↦ g q (ground (arith, h, other, among-append (db_key q) ks js))
  ]

  -- the records under dead keys
  keys-IsNoted :
      (keys : List Bytes)
      → ((q : Bytes) → among q keys ≡ true → IsDead e walk start q)
      → IsNoted (map db_key keys)
  unfolding IsNoted
  keys-IsNoted keys f q h = f q (sym (among-db_key q keys) ∙ h)

  -- a key of no record
  apart-IsNoted :
      (key : Bytes) → ((q : Bytes) → bytes_eq key (db_key q) ≡ false) → IsNoted (key ∷ [])
  unfolding IsNoted
  apart-IsNoted key f q h = absurd (ground (arith, h, f q))

  pub none-IsNoted : IsNoted []
  unfolding IsNoted
  none-IsNoted q h = absurd (ground (arith, h))

  pub start-IsNoted : IsNoted start.deletions
  unfolding IsNoted IsDead
  start-IsNoted q h = inl h

  module _ (m : RecordStore M C D) (reached : Run e walk start m) where
    hash-IsNoted : (hash : Bytes) → IsOldHash e walk start m hash → IsNoted (map db_key (hash ∷ []))
    unfolding IsDead
    hash-IsNoted hash old = keys-IsNoted (hash ∷ []) λ q h. elim (Bool-cases (bytes_eq hash q)) [
      | inl same ↦
          inr (m, reached, inr (subst (IsOldHash e walk start m) (bytes_eq→≡ hash q same) old))
      | inr other ↦ absurd (ground (arith, h, other))
    ]

    forget_hash-IsNoted :
        (key : Bytes) (n : RecordStore M C D)
        → IsOldHash e walk start m (drop (length krs_commit_prefix) key)
        → IsNoted n.deletions
        → IsNoted (forget_hash e walk key n).deletions
    unfolding forget_hash
    forget_hash-IsNoted key n old f =
        let hash = drop (length krs_commit_prefix) key in
        elim (Bool-cases (ltb (length krs_commit_prefix) (length key))) [
          | inr x ↦ rw x f
          | inl x ↦ rw x (IsNoted-append n.deletions _ f (hash-IsNoted hash old))
        ]

    forget_commitment-IsNoted :
        (key value : Bytes) (n : RecordStore M C D)
        → n.store ≡ m.store
        → Memᴰ (key, value) m.store.storage
        → starts_with key krs_commit_prefix ≡ true
        → IsNoted n.deletions
        → IsNoted (forget_commitment e walk key value n).deletions
    unfolding forget_commitment
    forget_commitment-IsNoted key value n same held start_ f =
        let now : n.store.current_kyn ≡ m.store.current_kyn = ap (λ s. s.current_kyn) same in
        elim (Bool-cases (is_old_commitment n.store.current_kyn value)) [
          | inr x ↦ rw x f
          | inl x ↦
              let age : 100 ≤ m.store.current_kyn - from_be 0 value =
                unfold is_old_commitment in ground (arith, x, now) in
              rw x (
                forget_hash-IsNoted key (record n { deletions = n.deletions ++ key ∷ [] })
                  (unfold IsOldHash in (key, value, held, refl, age))
                  (IsNoted-append n.deletions (key ∷ []) f
                    (apart-IsNoted key (λ q. commit_apart key q start_))))
        ]

    forget_commitments-IsNoted :
        (found : Assoc Bytes) (n : RecordStore M C D)
        → n.store ≡ m.store
        → ((key value : Bytes)
            → Memᴰ (key, value) found
            → Memᴰ (key, value) m.store.storage × (starts_with key krs_commit_prefix ≡ true))
        → IsNoted n.deletions
        → IsNoted (forget_commitments e walk found n).deletions
    unfolding forget_commitments
    forget_commitments-IsNoted [] n same from f = f
    forget_commitments-IsNoted ((key, value) ∷ found) n same from f =
        let (held, start_) = from key value (Memᴰ.head refl) in
        forget_commitments-IsNoted found (forget_commitment e walk key value n)
          (forget_commitment_keeps e walk key value n ∙ same) (λ k v x. from k v (Memᴰ.tail x))
          (forget_commitment-IsNoted key value n same held start_ f)

    names-IsNoted :
        (name : Bytes)
        → IsDueIn e walk m name
        → IsNoted (
            (krs_reveal_prefix ++ name)
            ∷ (krs_hb_prefix ++ name)
            ∷ (map db_key (derive_storage_keys e.k e.p name)
                ++ map db_key (derive_heartbeat_keys e.k e.p name)))
    unfolding IsDead keys_of
    names-IsNoted name due =
        let keys = derive_storage_keys e.k e.p name in
        let hb_keys = derive_heartbeat_keys e.k e.p name in
        let both = λ (q : Bytes). among-append q keys hb_keys in
        IsNoted-append ((krs_reveal_prefix ++ name) ∷ []) _
          (apart-IsNoted (krs_reveal_prefix ++ name) (λ q. unfold bytes_eq in refl))
          (IsNoted-append ((krs_hb_prefix ++ name) ∷ []) _
            (apart-IsNoted (krs_hb_prefix ++ name) (λ q. unfold bytes_eq in refl))
            (IsNoted-append (map db_key keys) (map db_key hb_keys)
              (keys-IsNoted keys
                (λ q h. inr (m, reached, inl (name, due, ground (arith, h, both q)))))
              (keys-IsNoted hb_keys
                (λ q h. inr (m, reached, inl (name, due, ground (arith, h, both q)))))))

    forget_names-IsNoted :
        (names : List Bytes) (n : RecordStore M C D)
        → ((name : Bytes) → among name names ≡ true → IsDueIn e walk m name)
        → IsNoted n.deletions
        → IsNoted (forget_names e walk names n).deletions
    unfolding forget_names
    forget_names-IsNoted [] n due f = f
    forget_names-IsNoted (name ∷ names) n due f =
        forget_names-IsNoted names (forget_name e walk name n) (λ x h. due x (ground (arith, h)))
          (unfold forget_name in
            IsNoted-append n.deletions _ f
              (names-IsNoted name (due name (ground (arith, bytes_eq_refl name)))))

    pub prune-IsNoted : IsNoted m.deletions → IsNoted (prune e walk m).deletions
    unfolding prune
    prune-IsNoted f =
        let found = scan_prefix krs_commit_prefix m.store.storage in
        forget_names-IsNoted (due_names e walk m.store) (forget_commitments e walk found m)
          (due_names-IsDueIn e walk m)
          (forget_commitments-IsNoted found m refl
            (λ key value. mem-scan_prefix krs_commit_prefix key value m.store.storage) f)
