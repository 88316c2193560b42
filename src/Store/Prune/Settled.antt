-- ===== src/Store/Prune/Settled.antt =====
-- After a prune no name is due (kinetic-network/src/store/kademlia.rs).
use kinetic.Prelude.{
  All, ◌⊎◌, ap₂, ℕ, ◌≡◌, refl, ap, ◌∙◌, inl, inr, true, false, List, [], ◌∷◌, arith, Bool-cases,
}
use kinetic.Prelude.Bytes.{Bytes, bytes_eq, bytes_eq_iff}
use kinetic.Prelude.Assoc.{Assoc, lookup, remove, lookup-remove, remove_all, among}
use kinetic.Vdf.{Reveal}
use kinetic.NameRecord.{NameEnvelope, reveal_of}
use kinetic.Store.{krs_commit_prefix}
use kinetic.Store.Kademlia.{RecordStore, StoreEnv}
use kinetic.Store.Prune.Live.{
  PopsEntries, forget_commitments_keeps, forget_names_heartbeats, forget_names_entries,
  forget_names_kyn,
}
use kinetic.Store.Prune.{
  LruWalk, is_expired, expired_names, scan_prefix, forget_commitments, forget_names, due_names,
  prune,
}

-- heartbeats that agree on a name
is_expired_same :
    (kyn : ℕ) (h1 h2 : Assoc ℕ) (name : Bytes) (r : Reveal)
    → lookup name h1 ≡ lookup name h2
    → is_expired kyn h1 name r ≡ is_expired kyn h2 name r
unfolding is_expired
is_expired_same kyn h1 h2 name r q = rw q refl

-- an entry that is due has one of the names
Caught : ℕ → Assoc ℕ → List Bytes → Bytes × NameEnvelope → Type 0
Caught kyn heartbeats names (x, r) =
    is_expired kyn heartbeats x (reveal_of r) ≡ true → among x names ≡ true

Caught-by_expired :
    (kyn : ℕ) (heartbeats : Assoc ℕ) (names : List Bytes) (records : List (Bytes × NameEnvelope))
    → ((x : Bytes) → among x (expired_names kyn heartbeats records) ≡ true → among x names ≡ true)
    → All (Caught kyn heartbeats names) records
unfolding expired_names Caught
Caught-by_expired kyn heartbeats names [] sub = tt
Caught-by_expired kyn heartbeats names ((name, r) ∷ records) sub = (
  λ h. sub name (ground (arith, h, bytes_eq_iff name name)),
  Caught-by_expired kyn heartbeats names records
      (λ x h. sub x (later x h (Bool-cases (is_expired kyn heartbeats name (reveal_of r))))),
)
  where
    later :
        (x : Bytes)
        → among x (expired_names kyn heartbeats records) ≡ true
        → (is_expired kyn heartbeats name (reveal_of r) ≡ true)
          ⊎ (is_expired kyn heartbeats name (reveal_of r) ≡ false)
        → among x (expired_names kyn heartbeats ((name, r) ∷ records)) ≡ true
    later x h (inl q) = unfold expired_names in ground arith
    later x h (inr q) = unfold expired_names in ground arith

-- without a name, what was caught by it or by others is caught by the others
Caught-remove :
    (kyn : ℕ) (heartbeats : Assoc ℕ) (name : Bytes) (names : List Bytes)
    (records : Assoc NameEnvelope)
    → All (Caught kyn heartbeats (name ∷ names)) records
    → All (Caught kyn (remove name heartbeats) names) (remove name records)
unfolding remove Caught
Caught-remove kyn heartbeats name names [] h = tt
Caught-remove kyn heartbeats name names ((x, r) ∷ records) h = elim (Bool-cases (bytes_eq x name)) [
  | inl q ↦ rw q (Caught-remove kyn heartbeats name names records h.1)
  | inr q ↦
      let apart : bytes_eq name x ≡ false =
        ground (arith, bytes_eq_iff name x, bytes_eq_iff x name) in
      let same : lookup x (remove name heartbeats) ≡ lookup x heartbeats =
        ground (arith, lookup-remove name x heartbeats) in
      let caught : is_expired kyn (remove name heartbeats) x (reveal_of r) ≡ true
          → among x names ≡ true =
        λ d. ground (
          arith,
          d,
          h.0,
          is_expired_same kyn (remove name heartbeats) heartbeats x (reveal_of r) same,
        ) in
      rw q (caught, Caught-remove kyn heartbeats name names records h.1)
]

Caught-remove_all :
    (kyn : ℕ) (names : List Bytes) (heartbeats : Assoc ℕ) (records : Assoc NameEnvelope)
    → All (Caught kyn heartbeats names) records
    → All (Caught kyn (remove_all names heartbeats) []) (remove_all names records)
unfolding remove_all
Caught-remove_all kyn [] heartbeats records h = h
Caught-remove_all kyn (name ∷ names) heartbeats records h =
    Caught-remove_all kyn names (remove name heartbeats) (remove name records)
      (Caught-remove kyn heartbeats name names records h)

none_expired :
    (kyn : ℕ) (heartbeats : Assoc ℕ) (records : Assoc NameEnvelope)
    → All (Caught kyn heartbeats []) records
    → expired_names kyn heartbeats records ≡ []
unfolding expired_names Caught
none_expired kyn heartbeats [] h = refl
none_expired kyn heartbeats ((x, r) ∷ records) h =
    ground (arith, h.0, none_expired kyn heartbeats records h.1)

module _ {M C D J : Type 0} (e : StoreEnv M C D J) (walk : LruWalk NameEnvelope C) where
  -- After `prune` no name is due: every name that is left was registered and last heard of recently
  -- enough.
  pub prune_settles :
      PopsEntries walk → (n : RecordStore M C D) → due_names e walk (prune e walk n).store ≡ []
  unfolding prune due_names
  prune_settles w n =
      let s = n.store in
      let names = due_names e walk s in
      let cleaned = forget_commitments e walk (scan_prefix krs_commit_prefix s.storage) n in
      let same : cleaned.store ≡ s =
        forget_commitments_keeps e walk (scan_prefix krs_commit_prefix s.storage) n in
      let records = walk.entries s.reveals_by_name in
      let caught =
        Caught-by_expired s.current_kyn s.last_heartbeats_by_name names records (λ x h. h) in
      let left = forget_names e walk names cleaned in
      ap
        (λ t.
          expired_names t left.store.last_heartbeats_by_name
            (walk.entries left.store.reveals_by_name))
        (forget_names_kyn e walk names cleaned ∙ ap (λ t. t.current_kyn) same)
      ∙ ap₂ (expired_names s.current_kyn)
          (forget_names_heartbeats e walk names cleaned
            ∙ ap (λ t. remove_all names t.last_heartbeats_by_name) same)
          (forget_names_entries e walk w names cleaned
            ∙ ap (λ t. remove_all names (walk.entries t.reveals_by_name)) same)
      ∙ none_expired s.current_kyn (remove_all names s.last_heartbeats_by_name)
          (remove_all names records)
          (Caught-remove_all s.current_kyn names s.last_heartbeats_by_name records caught)
