-- ===== src/Store/Prune/Commitments.antt =====
-- Old commitments do not stay (kinetic-network/src/store/kademlia.rs).
use kinetic.Prelude.{
  ◌≤◌, ◌+◌, ◌≡◌, refl, inl, inr, true, ◌||◌, some, none, List, [], ◌∷◌, ◌++◌, any_append, arith,
  Bool-cases, ltb, length, ap, ◌∙◌,
}
use kinetic.Prelude.Bytes.{Bytes, bytes_eq, bytes_eq_iff, bytes_eq→≡}
use kinetic.Prelude.Words.{from_be}
use kinetic.Prelude.Assoc.{Assoc, lookup, lookup-remove_all, among}
use kinetic.Action.{starts_with}
use kinetic.NameRecord.{NameEnvelope}
use kinetic.Store.{krs_commit_prefix}
use kinetic.Store.Kademlia.{RecordStore, StoreEnv}
use kinetic.Store.Prune.Live.{forget_commitment_keeps}
use kinetic.Store.Prune.{
  LruWalk, scan_prefix, is_old_commitment, forget_hash, forget_commitment, forget_commitments,
  forget_name, forget_names, due_names, prune, run_deletions,
}

lookup-scan_prefix :
    (prefix key : Bytes) (storage : Assoc Bytes)
    → starts_with key prefix ≡ true
    → lookup key (scan_prefix prefix storage) ≡ lookup key storage
unfolding lookup scan_prefix
lookup-scan_prefix prefix key [] h = refl
lookup-scan_prefix prefix key ((i, v) ∷ storage) h =
    ground (arith, lookup-scan_prefix prefix key storage h, bytes_eq_iff i key)

among-append : (x : Bytes) (ks js : List Bytes) → among x (ks ++ js) ≡ (among x ks || among x js)
among-append x ks js = any_append (λ k. bytes_eq k x) ks js

-- a key of the list stays in a longer one
kept : (x : Bytes) (ks js : List Bytes) → among x ks ≡ true → among x (ks ++ js) ≡ true
kept x ks js h = ground (arith, among-append x ks js)

module _ {M C D J : Type 0} (e : StoreEnv M C D J) (walk : LruWalk NameEnvelope C) where
  forget_hash_grows :
      (key x : Bytes) (n : RecordStore M C D)
      → among x n.deletions ≡ true
      → among x (forget_hash e walk key n).deletions ≡ true
  unfolding forget_hash
  forget_hash_grows key x n h = elim (Bool-cases (ltb (length krs_commit_prefix) (length key))) [
    | inl q ↦ rw q (kept x n.deletions _ h)
    | inr q ↦ rw q h
  ]

  forget_commitment_grows :
      (key value x : Bytes) (n : RecordStore M C D)
      → among x n.deletions ≡ true
      → among x (forget_commitment e walk key value n).deletions ≡ true
  unfolding forget_commitment
  forget_commitment_grows key value x n h =
      elim (Bool-cases (is_old_commitment n.store.current_kyn value)) [
        | inr q ↦ rw q h
        | inl q ↦ rw q (forget_hash_grows key x _ (kept x n.deletions (key ∷ []) h))
      ]

  forget_commitments_grows :
      (found : Assoc Bytes) (x : Bytes) (n : RecordStore M C D)
      → among x n.deletions ≡ true
      → among x (forget_commitments e walk found n).deletions ≡ true
  unfolding forget_commitments
  forget_commitments_grows [] x n h = h
  forget_commitments_grows ((key, value) ∷ found) x n h =
      forget_commitments_grows found x (forget_commitment e walk key value n)
        (forget_commitment_grows key value x n h)

  forget_names_grows :
      (names : List Bytes) (x : Bytes) (n : RecordStore M C D)
      → among x n.deletions ≡ true
      → among x (forget_names e walk names n).deletions ≡ true
  unfolding forget_names forget_name
  forget_names_grows [] x n h = h
  forget_names_grows (name ∷ names) x n h =
      forget_names_grows names x (forget_name e walk name n) (kept x n.deletions _ h)

  forget_commitment_notes :
      (key value : Bytes) (n : RecordStore M C D)
      → is_old_commitment n.store.current_kyn value ≡ true
      → among key (forget_commitment e walk key value n).deletions ≡ true
  unfolding forget_commitment
  forget_commitment_notes key value n old = rw old (
      forget_hash_grows key key _
        (ground (arith, among-append key n.deletions (key ∷ []), bytes_eq_iff key key)))

  forget_commitments_notes :
      (found : Assoc Bytes) (key value : Bytes) (n : RecordStore M C D)
      → lookup key found ≡ some value
      → is_old_commitment n.store.current_kyn value ≡ true
      → among key (forget_commitments e walk found n).deletions ≡ true
  unfolding forget_commitments lookup
  forget_commitments_notes [] key value n h old = absurd (ground arith)
  forget_commitments_notes ((i, v) ∷ found) key value n h old = elim (Bool-cases (bytes_eq i key)) [
    | inl q ↦
        let same : i ≡ key = bytes_eq→≡ i key q in
        let held : v ≡ value = ground arith in
        forget_commitments_grows found key (forget_commitment e walk i v n)
          (rw (same, held) (forget_commitment_notes key value n old))
    | inr q ↦
        forget_commitments_notes found key value (forget_commitment e walk i v n) (ground arith)
          (rw (ap (λ s. s.current_kyn) (forget_commitment_keeps e walk i v n)) old)
  ]

  -- A commitment that the storage holds since at least 100 kyns is gone from the storage after a
  -- `prune` and its background task.
  pub commitment_ends :
      (n : RecordStore M C D) (key value : Bytes)
      → lookup key n.store.storage ≡ some value
      → starts_with key krs_commit_prefix ≡ true
      → length value ≡ 8
      → from_be 0 value + 100 ≤ n.store.current_kyn
      → lookup key (run_deletions (prune e walk n)).store.storage ≡ none
  unfolding prune run_deletions
  commitment_ends n key value h start long old =
      let found = scan_prefix krs_commit_prefix n.store.storage in
      let there : lookup key found ≡ some value =
        lookup-scan_prefix krs_commit_prefix key n.store.storage start ∙ h in
      let due : is_old_commitment n.store.current_kyn value ≡ true =
        unfold is_old_commitment in ground arith in
      let noted =
        forget_names_grows (due_names e walk n.store) key (forget_commitments e walk found n)
          (forget_commitments_notes found key value n there due) in
      let left =
        forget_names e walk (due_names e walk n.store) (forget_commitments e walk found n) in
      ground (arith, noted, lookup-remove_all left.deletions key left.store.storage)
