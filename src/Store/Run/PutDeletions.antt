-- ===== src/Store/Run/PutDeletions.antt =====
-- Putting a record leaves the pending deletions alone (kinetic-network/src/store/kademlia.rs).
use kinetic.Prelude.{
  ℕ, ◌≡◌, refl, ap, ◌∙◌, inl, inr, Bool, Option, none, some, arith, ltb, length, Bool-cases,
  Option-cases,
}
use kinetic.Prelude.Bytes.{Bytes}
use kinetic.Store.{internal_store_error, payload_too_large, malformed_json}
use kinetic.Store.State.{Outcome, done, failed, panicked}
use kinetic.Store.Kademlia.{
  KadRecord, RecordStore, StoreEnv, PutResult, accepted, rejected, store_of, check_record,
  put_inner, save_record, finish, save_commitment, put_commitment, is_commitment, put_parsed,
  put_record_internal,
}

module _ {M C D J : Type 0} (e : StoreEnv M C D J) where
  put_inner_deletions :
      (r : KadRecord) (n l : RecordStore M C D)
      → l.deletions ≡ n.deletions
      → (store_of l (put_inner e r n)).deletions ≡ n.deletions
  unfolding put_inner
  put_inner_deletions r n l same = elim (Option-cases (e.mem.put r n.inner)) [
    | inl x ↦
        let end : put_inner e r n ≡ rejected internal_store_error n = ground (arith, x) in
        ap (λ o. (store_of l o).deletions) end
    | inr (inner, x) ↦
        let end : put_inner e r n ≡ accepted (record n { inner = inner }) = ground (arith, x) in
        ap (λ o. (store_of l o).deletions) end
  ]

  finish_deletions :
      (r : KadRecord) (n : RecordStore M C D) (o : Outcome C D)
      → (store_of n (finish e r n o)).deletions ≡ n.deletions
  unfolding finish
  finish_deletions r n (done s) =
      put_inner_deletions r (record n { store = save_record r s }) n refl
  finish_deletions r n (failed y s) = refl
  finish_deletions r n panicked = refl

  put_commitment_deletions :
      (r : KadRecord) (o : Option Bytes) (n : RecordStore M C D)
      → (store_of n (put_commitment e r o n)).deletions ≡ n.deletions
  unfolding put_commitment
  put_commitment_deletions r none n = refl
  put_commitment_deletions r (some hash) n =
      put_inner_deletions r (record n { store = save_commitment hash n.store }) n refl

  -- a record that is put adds no deletions
  pub put_deletions :
      (now : ℕ) (r : KadRecord) (skip : Bool) (n : RecordStore M C D)
      → (store_of n (put_record_internal e now r skip n)).deletions ≡ n.deletions
  unfolding put_record_internal put_parsed
  put_deletions now r skip n =
      let at : (o : PutResult M C D)
          → put_record_internal e now r skip n ≡ o
          → (store_of n o).deletions ≡ n.deletions
          → (store_of n (put_record_internal e now r skip n)).deletions ≡ n.deletions =
        λ o q h. ap (λ x. (store_of n x).deletions) q ∙ h in
      elim (Bool-cases (ltb e.k.storage_max_value_bytes (length r.value))) [
        | inl x ↦ at (rejected payload_too_large n) (ground arith) refl
        | inr small ↦ elim (Option-cases (e.json.from_slice r.value)) [
          | inl x ↦ at (rejected malformed_json n) (ground arith) refl
          | inr (parsed, x) ↦ elim (Bool-cases (is_commitment e parsed)) [
            | inl c ↦
                at (put_commitment e r (e.json.commitment_hash parsed) n) (ground arith)
                  (put_commitment_deletions r (e.json.commitment_hash parsed) n)
            | inr c ↦
                let o = check_record e now skip r parsed n in
                at (finish e r n o) (ground arith) (finish_deletions r n o)
          ]
        ]
      ]
