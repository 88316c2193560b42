-- ===== src/Store/Kademlia/Accepted.antt =====
-- What an accepted record leaves (kinetic-network/src/store/kademlia.rs).
use kinetic.Prelude.{
  ap, ℕ, ◌∙◌, ◌≤◌, ◌≡◌, refl, sym, ◌⊎◌, inl, inr, Bool, Option, none, some, arith, ltb, length,
  Option-cases, Bool-cases,
}
use kinetic.Prelude.Bytes.{Bytes}
use kinetic.Store.State.{StoreState, Outcome, done, failed, panicked}
use kinetic.Store.Kademlia.Passed.{Passed, check_record_sound}
use kinetic.Store.Kademlia.{
  KadRecord, RecordStore, accepted, store_of, StoreEnv, check_record, put_inner, save_record,
  save_commitment, finish, put_commitment, is_commitment, put_parsed, put_record_internal,
}

module _ {M C D J : Type 0} (e : StoreEnv M C D J) where
  -- the record is in the memory store, and the rest is the given state
  pub Held : KadRecord → RecordStore M C D → StoreState C D → RecordStore M C D → Type 0
  Held r n s m = (e.mem.put r n.inner ≡ some m.inner) × (m.store ≡ s)

  put_inner_sound :
      (r : KadRecord) (n m : RecordStore M C D) → put_inner e r n ≡ accepted m → Held r n n.store m
  unfolding put_inner Held
  put_inner_sound r n m h = elim (Option-cases (e.mem.put r n.inner)) [
    | inl x ↦ absurd (ground arith)
    | inr (inner, x) ↦
        let end : accepted (record n { inner = inner }) ≡ accepted m = ground arith in
        (x ∙ ap (λ o. some (store_of n o).inner) end, sym (ap (λ o. (store_of n o).store) end))
  ]

  put_commitment_sound :
      (r : KadRecord) (o : Option Bytes) (n m : RecordStore M C D)
      → put_commitment e r o n ≡ accepted m
      → (hash : Bytes) × (o ≡ some hash) × Held r n (save_commitment hash n.store) m
  unfolding put_commitment Held
  put_commitment_sound r none n m h = absurd (ground arith)
  put_commitment_sound r (some hash) n m h =
      (hash, refl, put_inner_sound r (record n { store = save_commitment hash n.store }) m h)

  finish_sound :
      (r : KadRecord) (n : RecordStore M C D) (o : Outcome C D) (m : RecordStore M C D)
      → finish e r n o ≡ accepted m
      → (s : StoreState C D) × (o ≡ done s) × Held r n (save_record r s) m
  unfolding finish Held
  finish_sound r n (done s) m h =
      (s, refl, put_inner_sound r (record n { store = save_record r s }) m h)
  finish_sound r n (failed x s) m h = absurd (ground arith)
  finish_sound r n panicked m h = absurd (ground arith)

  -- A record that is accepted has at most the allowed size and is JSON. It is put in the memory
  -- store under its own key. Either it is a commitment, whose hash is stored with the current kyn, or
  -- it passed the checks of its type and is stored under its key in the state that these left.
  pub put_record_internal_sound :
      (now : ℕ) (r : KadRecord) (skip : Bool) (n m : RecordStore M C D)
      → put_record_internal e now r skip n ≡ accepted m
      → (length r.value ≤ e.k.storage_max_value_bytes)
        × (parsed : J) × (e.json.from_slice r.value ≡ some parsed)
        × (((hash : Bytes) × (e.json.commitment_hash parsed ≡ some hash)
              × Held r n (save_commitment hash n.store) m)
            ⊎ ((s : StoreState C D) × Passed e now skip r parsed n s
                × Held r n (save_record r s) m))
  unfolding put_record_internal put_parsed
  put_record_internal_sound now r skip n m h =
      elim (Bool-cases (ltb e.k.storage_max_value_bytes (length r.value))) [
        | inl x ↦ absurd (ground arith)
        | inr small ↦ elim (Option-cases (e.json.from_slice r.value)) [
          | inl x ↦ absurd (ground arith)
          | inr (parsed, x) ↦ elim (Bool-cases (is_commitment e parsed)) [
            | inl c ↦
                let end : put_commitment e r (e.json.commitment_hash parsed) n ≡ accepted m =
                  ground arith in
                (
                  ground arith,
                  parsed,
                  x,
                  inl (put_commitment_sound r (e.json.commitment_hash parsed) n m end),
                )
            | inr c ↦
                let end : finish e r n (check_record e now skip r parsed n) ≡ accepted m =
                  ground arith in
                let (s, passed, held) =
                  finish_sound r n (check_record e now skip r parsed n) m end in
                (
                  ground arith,
                  parsed,
                  x,
                  inr (s, check_record_sound e now skip r parsed n s passed, held),
                )
          ]
        ]
      ]
