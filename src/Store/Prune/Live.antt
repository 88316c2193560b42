-- ===== src/Store/Prune/Live.antt =====
-- What `prune` drops and what it keeps (kinetic-network/src/store/kademlia.rs).
use mathlib.Core.List.{Memᴰ}
use kinetic.Vdf.{Reveal}
use kinetic.Prelude.{
  ◌↔◌, ℕ, ◌-◌, ◌<◌, ◌⊎◌, true, arith, subst, sym, ◌≡◌, refl, ap, ◌∙◌, inl, inr, none, List, [], ◌∷◌,
  ◌++◌, ltb, length, if◌then◌else◌, Bool-cases,
}
use kinetic.Prelude.Bytes.{Bytes, bytes_eq, bytes_eq→≡, bytes_eq_refl}
use kinetic.Prelude.Assoc.{Assoc, lookup, remove, remove_all, lookup-remove_all, among}
use kinetic.NameRecord.{NameEnvelope, reveal_of}
use kinetic.Store.State.{kyn_or}
use kinetic.Store.{krs_commit_prefix}
use kinetic.Store.Kademlia.{RecordStore, StoreEnv}
use kinetic.Store.Prune.{
  LruWalk, idle_timeout, is_expired, expired_names, scan_prefix, is_old_commitment, forget_hash,
  forget_commitment, forget_commitments, forget_name, forget_names, due_names, prune,
}

-- `pop` takes the entry of its name
pub record PopsEntries {V C : Type 0} (walk : LruWalk V C) : Type 0 where
  pub entries-pop :
      (name : Bytes) (c : C) → walk.entries (walk.pop name c) ≡ remove name (walk.entries c)

-- the name has a record in the cache that is more than an epoch old, or whose last heartbeat, or
-- whose own kyn where there was none, is longer ago than the idle timeout
pub IsDue : ℕ → Assoc ℕ → List (Bytes × NameEnvelope) → Bytes → Type 0
IsDue current_kyn heartbeats records x =
    (r : NameEnvelope) × Memᴰ (x, r) records
    × ((5256000 < current_kyn - (reveal_of r).kyn)
        ⊎ (idle_timeout < current_kyn - kyn_or (reveal_of r).kyn (lookup x heartbeats)))

module _ (current_kyn : ℕ) (heartbeats : Assoc ℕ) where
  expired_iff :
      (name : Bytes) (r : Reveal)
      → (is_expired current_kyn heartbeats name r ≡ true) ↔ (
          (5256000 < current_kyn - r.kyn)
          ⊎ (idle_timeout < current_kyn - kyn_or r.kyn (lookup name heartbeats)))
  unfolding is_expired
  expired_iff name r = ((λ h. ground (arith, h)), (λ h. ground (arith, h)))

  IsDue-tail :
      (x : Bytes) (y : Bytes × NameEnvelope) (records : List (Bytes × NameEnvelope))
      → IsDue current_kyn heartbeats records x
      → IsDue current_kyn heartbeats (y ∷ records) x
  unfolding IsDue
  IsDue-tail x y records (r, m, old) = (r, Memᴰ.tail m, old)

  expired-IsDue :
      (records : List (Bytes × NameEnvelope)) (x : Bytes)
      → among x (expired_names current_kyn heartbeats records) ≡ true
      → IsDue current_kyn heartbeats records x
  unfolding expired_names IsDue
  expired-IsDue [] x h = absurd (ground (arith, h))
  expired-IsDue ((name, r) ∷ records) x h =
      elim (Bool-cases (is_expired current_kyn heartbeats name (reveal_of r))) [
        | inr live ↦
            IsDue-tail x (name, r) records (expired-IsDue records x (rw (expired_names, live) at h))
        | inl due ↦ elim (Bool-cases (bytes_eq name x)) [
          | inr other ↦
              IsDue-tail x (name, r) records
                (expired-IsDue records x (rw (expired_names, due, other) at h))
          | inl same ↦
              let here = bytes_eq→≡ name x same in
              (
                r,
                Memᴰ.head (ap (λ n. (n, r)) (sym here)),
                (expired_iff x (reveal_of r)).0 (
                    subst (λ n. is_expired current_kyn heartbeats n (reveal_of r) ≡ true) here due),
              )
        ]
      ]

  IsDue-expired :
      (records : List (Bytes × NameEnvelope)) (x : Bytes)
      → IsDue current_kyn heartbeats records x
      → among x (expired_names current_kyn heartbeats records) ≡ true
  unfolding expired_names IsDue
  IsDue-expired [] x (r, m, old) = elim m [ ]
  IsDue-expired ((name, r) ∷ records) x (r', Memᴰ.head q, old) =
      let due : is_expired current_kyn heartbeats name (reveal_of r) ≡ true =
        subst (λ y. is_expired current_kyn heartbeats y.0 (reveal_of y.1) ≡ true) q
          ((expired_iff x (reveal_of r')).1 old) in
      let same : bytes_eq name x ≡ true =
        subst (λ n. bytes_eq n x ≡ true) (ap (λ y. y.0) q) (bytes_eq_refl x) in
      ground (arith, due, same)
  IsDue-expired ((name, r) ∷ records) x (r', Memᴰ.tail m, old) =
      let rest = IsDue-expired records x (r', m, old) in ground (arith, rest)

module _ {M C D J : Type 0} (e : StoreEnv M C D J) (walk : LruWalk NameEnvelope C) where
  forget_hash_keeps :
      (key : Bytes) (n : RecordStore M C D) → (forget_hash e walk key n).store ≡ n.store
  unfolding forget_hash
  forget_hash_keeps key n = elim (Bool-cases (ltb (length krs_commit_prefix) (length key))) [
    | inl h ↦ rw h refl
    | inr h ↦ rw h refl
  ]

  pub forget_commitment_keeps :
      (key value : Bytes) (n : RecordStore M C D)
      → (forget_commitment e walk key value n).store ≡ n.store
  unfolding forget_commitment
  forget_commitment_keeps key value n =
      elim (Bool-cases (is_old_commitment n.store.current_kyn value)) [
        | inr h ↦ rw h refl
        | inl h ↦ rw h (forget_hash_keeps key (record n { deletions = n.deletions ++ key ∷ [] }))
      ]

  pub forget_commitments_keeps :
      (found : Assoc Bytes) (n : RecordStore M C D)
      → (forget_commitments e walk found n).store ≡ n.store
  unfolding forget_commitments
  forget_commitments_keeps [] n = refl
  forget_commitments_keeps ((key, value) ∷ found) n =
      forget_commitments_keeps found (forget_commitment e walk key value n)
      ∙ forget_commitment_keeps key value n

  pub forget_names_heartbeats :
      (names : List Bytes) (n : RecordStore M C D)
      → (forget_names e walk names n).store.last_heartbeats_by_name
        ≡ remove_all names n.store.last_heartbeats_by_name
  unfolding forget_names forget_name remove_all
  forget_names_heartbeats [] n = refl
  forget_names_heartbeats (name ∷ names) n =
      forget_names_heartbeats names (forget_name e walk name n)

  pub forget_names_entries :
      PopsEntries walk
      → (names : List Bytes) (n : RecordStore M C D)
      → walk.entries (forget_names e walk names n).store.reveals_by_name
        ≡ remove_all names (walk.entries n.store.reveals_by_name)
  unfolding forget_names forget_name remove_all
  forget_names_entries w [] n = refl
  forget_names_entries w (name ∷ names) n =
      forget_names_entries w names (forget_name e walk name n)
      ∙ ap (remove_all names) (w.entries-pop name n.store.reveals_by_name)

  pub forget_names_kyn :
      (names : List Bytes) (n : RecordStore M C D)
      → (forget_names e walk names n).store.current_kyn ≡ n.store.current_kyn
  unfolding forget_names forget_name
  forget_names_kyn [] n = refl
  forget_names_kyn (name ∷ names) n = forget_names_kyn names (forget_name e walk name n)

  -- the names that the code finds due have lost their entries
  prune_by_due :
      PopsEntries walk
      → (n : RecordStore M C D) (x : Bytes)
      → (lookup x (walk.entries (prune e walk n).store.reveals_by_name) ≡ (
          if among x (due_names e walk n.store)
          then none
          else lookup x (walk.entries n.store.reveals_by_name)))
        × (lookup x (prune e walk n).store.last_heartbeats_by_name ≡ (
            if among x (due_names e walk n.store)
            then none
            else lookup x n.store.last_heartbeats_by_name))
  unfolding prune
  prune_by_due w n x =
      let names = due_names e walk n.store in
      let cleaned = forget_commitments e walk (scan_prefix krs_commit_prefix n.store.storage) n in
      let same : cleaned.store ≡ n.store =
        forget_commitments_keeps (scan_prefix krs_commit_prefix n.store.storage) n in
      (
        ap (lookup x) (forget_names_entries w names cleaned)
            ∙ lookup-remove_all names x (walk.entries cleaned.store.reveals_by_name)
            ∙ ap (λ s. if among x names then none else lookup x (walk.entries s.reveals_by_name))
                same,
        ap (lookup x) (forget_names_heartbeats names cleaned)
            ∙ lookup-remove_all names x cleaned.store.last_heartbeats_by_name
            ∙ ap (λ s. if among x names then none else lookup x s.last_heartbeats_by_name) same,
      )

  -- the cache and the heartbeats of a name are gone, or as they were
  pub IsForgotten : Bytes → RecordStore M C D → Type 0
  IsForgotten x m =
      (lookup x (walk.entries m.store.reveals_by_name) ≡ none)
      × (lookup x m.store.last_heartbeats_by_name ≡ none)

  pub IsKept : Bytes → RecordStore M C D → RecordStore M C D → Type 0
  IsKept x n m =
      (lookup x (walk.entries m.store.reveals_by_name)
        ≡ lookup x (walk.entries n.store.reveals_by_name))
      × (lookup x m.store.last_heartbeats_by_name ≡ lookup x n.store.last_heartbeats_by_name)

  pub IsDueIn : RecordStore M C D → Bytes → Type 0
  IsDueIn n x =
      IsDue n.store.current_kyn n.store.last_heartbeats_by_name
        (walk.entries n.store.reveals_by_name) x

  pub due_names-IsDueIn :
      (n : RecordStore M C D) (x : Bytes) → among x (due_names e walk n.store) ≡ true → IsDueIn n x
  unfolding due_names IsDueIn
  due_names-IsDueIn n x =
      expired-IsDue n.store.current_kyn n.store.last_heartbeats_by_name
        (walk.entries n.store.reveals_by_name) x

  -- After `prune`, a name whose cached record is more than an epoch old, or whose last heartbeat (or
  -- record, where there was none) is longer ago than the idle timeout, has no entry in the cache and
  -- no recorded heartbeat, and every other name has those it had, where popping a name from the
  -- cache takes exactly its entry.
  pub prune_exact :
      PopsEntries walk
      → (n : RecordStore M C D) (x : Bytes)
      → (IsDueIn n x × IsForgotten x (prune e walk n))
        ⊎ ((¬ IsDueIn n x) × IsKept x n (prune e walk n))
  unfolding due_names IsDueIn IsForgotten IsKept
  prune_exact w n x =
      let (cached, beats) = prune_by_due w n x in
      let s = n.store in
      let records = walk.entries s.reveals_by_name in
      elim (Bool-cases (among x (expired_names s.current_kyn s.last_heartbeats_by_name records))) [
        | inl due ↦ inl (
          expired-IsDue s.current_kyn s.last_heartbeats_by_name records x due,
          (rw due at cached, rw due at beats),
        )
        | inr live ↦ inr (
          (λ h.
              let due = IsDue-expired s.current_kyn s.last_heartbeats_by_name records x h in
              absurd (ground (arith, due, live))),
          (rw live at cached, rw live at beats),
        )
      ]
