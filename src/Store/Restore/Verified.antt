-- ===== src/Store/Restore/Verified.antt =====
-- What a restored store holds (kinetic-network/src/store/kademlia.rs).
use mathlib.Core.List.{Memᴰ}
use kinetic.Prelude.{
  ℕ, ◌≤◌, ap, subst, ◌≡◌, refl, ◌⊎◌, inl, inr, true, Option, none, some, [], ◌∷◌, arith, leb,
  length, take, drop, Bool-cases, ◌==◌,
}
use kinetic.Prelude.Bytes.{Bytes, bytes_eq, bytes_eq→≡}
use kinetic.Prelude.Words.{from_be}
use kinetic.Prelude.Assoc.{Assoc, lookup, lookup-insert}
use kinetic.NameRecord.{NameEnvelope, reveal_of}
use kinetic.Store.{krs_reveal_prefix, krs_hb_prefix}
use kinetic.Store.State.{Lru}
use kinetic.Store.Kademlia.{StoreEnv}
use kinetic.Store.Prune.{LruWalk, scan_prefix}
use mathlib.Core.List.Memᴰ
use kinetic.Vdf.{Reveal, derive}
use kinetic.Config.{accepted}
use kinetic.Store.Reveals.{is_accepted-accepted}
use kinetic.Signature.{SignatureVerifyError, verify_signature}
use kinetic.Store.RevealCheck.{Required, required, rejected, is_none, compute_required_iterations}
use kinetic.Store.Restore.{
  proves, beacon_bytes, meets, no_storage, Fresh, Restored, is_restorable, restore_reveal,
  restore_reveals, restore_heartbeat, restore_heartbeats, restored_cache, restore,
}

-- an entry of the cache after a push was there before, or is the one that was pushed
pub record PushesEntries {V C : Type 0} (lru : Lru V C) (walk : LruWalk V C) : Type 0 where
  pub entries-push :
      (name : Bytes) (v : V) (c : C) (x : Bytes × V)
      → Memᴰ x (walk.entries (lru.push name v c).0)
      → (x ≡ (name, v)) ⊎ Memᴰ x (walk.entries c)

module _ {M C D J : Type 0} (e : StoreEnv M C D J) (fresh : Fresh M C D) where
  -- every heartbeat belongs to a name of the cache
  Referenced : C → Assoc ℕ → Type 0
  Referenced cache heartbeats =
      (name : Bytes) (kyn : ℕ)
      → lookup name heartbeats ≡ some kyn
      → e.lru.contains name cache ≡ true

  restore_heartbeat-Referenced :
      (cache : C) (key value : Bytes) (s : Restored)
      → Referenced cache s.heartbeats
      → Referenced cache (restore_heartbeat e fresh cache key value s).heartbeats
  unfolding restore_heartbeat Referenced
  restore_heartbeat-Referenced cache key value s h name kyn found =
      let new = fresh.from_utf8_lossy (drop (length krs_hb_prefix) key) in
      elim (Bool-cases (leb (length key) (length krs_hb_prefix))) [
        | inl x ↦ h name kyn (ground arith)
        | inr x ↦ elim (Bool-cases (length value == 8)) [
          | inr y ↦ h name kyn (ground arith)
          | inl y ↦ elim (Bool-cases (e.lru.contains new cache)) [
            | inr z ↦ h name kyn (ground arith)
            | inl z ↦ elim (Bool-cases (bytes_eq new name)) [
              | inl same ↦ rw (bytes_eq→≡ new name same) at z
              | inr other ↦
                  h name kyn (ground (arith, lookup-insert new name (from_be 0 value) s.heartbeats))
            ]
          ]
        ]
      ]

  restore_heartbeats-Referenced :
      (cache : C) (found : Assoc Bytes) (s : Restored)
      → Referenced cache s.heartbeats
      → Referenced cache (restore_heartbeats e fresh cache found s).heartbeats
  unfolding restore_heartbeats
  restore_heartbeats-Referenced cache [] s h = h
  restore_heartbeats-Referenced cache ((key, value) ∷ found) s h =
      restore_heartbeats-Referenced cache found (restore_heartbeat e fresh cache key value s)
        (restore_heartbeat-Referenced cache key value s h)

  -- every entry was verified
  Verified : LruWalk NameEnvelope C → ℕ → C → Type 0
  Verified walk kyn cache =
      (name : Bytes) (r : NameEnvelope)
      → Memᴰ (name, r) (walk.entries cache)
      → is_restorable e kyn (reveal_of r) ≡ true

  restore_reveal-Verified :
      (walk : LruWalk NameEnvelope C)
      → PushesEntries e.lru walk
      → (kyn : ℕ) (name : Bytes) (o : Option NameEnvelope) (cache : C) → Verified walk kyn cache
      → Verified walk kyn (restore_reveal e fresh kyn name o cache)
  unfolding restore_reveal Verified
  restore_reveal-Verified walk w kyn name none cache h = h
  restore_reveal-Verified walk w kyn name (some r) cache h =
      elim (Bool-cases (is_restorable e kyn (reveal_of r))) [
        | inr x ↦ rw x h
        | inl x ↦ rw x λ other r' m. elim (w.entries-push name r cache (other, r') m) [
          | inl same ↦ rw (ap (λ y. y.1) same) x
          | inr before ↦ h other r' before
        ]
      ]

  restore_reveals-Verified :
      (walk : LruWalk NameEnvelope C)
      → PushesEntries e.lru walk
      → (kyn : ℕ) (found : Assoc Bytes) (cache : C) → Verified walk kyn cache
      → Verified walk kyn (restore_reveals e fresh kyn found cache)
  unfolding restore_reveals
  restore_reveals-Verified walk w kyn [] cache h = h
  restore_reveals-Verified walk w kyn ((key, value) ∷ found) cache h =
      let name = fresh.from_utf8_lossy (drop (length krs_reveal_prefix) key) in
      elim (Bool-cases (leb (length key) (length krs_reveal_prefix))) [
        | inl x ↦ rw x (restore_reveals-Verified walk w kyn found cache h)
        | inr x ↦ rw x (
            restore_reveals-Verified walk w kyn found _
              (restore_reveal-Verified walk w kyn name (e.serde.parse_envelope value) cache h))
      ]

  -- the VDF engine accepts the proof for the hash of the commitment and the number of iterations
  pub IsProved : Reveal → Type 0
  IsProved r =
      e.p.vdf_verify
        (derive e.p e.k.network_salt r.name r.salt
          (beacon_bytes (e.p.hex_decode r.beacon_signature)) r.pubkey)
        r.vdf_proof r.iterations
      ≡ accepted

  proves_sound : (r : Reveal) → proves e r ≡ true → IsProved r
  unfolding proves IsProved
  proves_sound r h = is_accepted-accepted _ h

  restorable_sound :
      (kyn : ℕ) (r : Reveal)
      → is_restorable e kyn r ≡ true
      → (n : ℕ) × (compute_required_iterations e.k e.p (no_storage e) r kyn ≡ required n)
        × (n ≤ r.iterations)
        × ((e.k.dev_mode ≡ true) ⊎ (verify_signature e.k e.p e.j r ≡ none))
        × IsProved r
  unfolding is_restorable IsProved
  restorable_sound kyn r h =
      by_required (compute_required_iterations e.k e.p (no_storage e) r kyn) refl
    where
      signed : (o : Option SignatureVerifyError) → is_none o ≡ true → o ≡ none
      signed none q = refl
      signed (some x) q = absurd (unfold is_none in cc)

      by_required :
          (o : Required)
          → compute_required_iterations e.k e.p (no_storage e) r kyn ≡ o
          → (n : ℕ) × (compute_required_iterations e.k e.p (no_storage e) r kyn ≡ required n)
            × (n ≤ r.iterations)
            × ((e.k.dev_mode ≡ true) ⊎ (verify_signature e.k e.p e.j r ≡ none))
            × IsProved r
      by_required (rejected x) q = absurd (unfold meets in ground arith)
      by_required (required n) q =
          let fits : leb n r.iterations ≡ true = unfold meets in ground arith in
          (
            n,
            q,
            ground arith,
            elim (Bool-cases e.k.dev_mode) [
              | inl dev ↦ inl dev
              | inr live ↦ inr (signed (verify_signature e.k e.p e.j r) (ground arith))
            ],
            proves_sound r (ground arith),
          )

  -- Where the fresh cache is empty and a push adds no entry but its own, every name that a restored
  -- store holds in its cache was verified again: its reveal has the
  -- iterations that are required at the initial kyn, its signature is valid unless in development
  -- mode, and the VDF engine accepts its proof for its iterations and for the commitment derived
  -- from its name, salt, beacon signature and key.
  pub restored_reveals_verified :
      (walk : LruWalk NameEnvelope C) (storage : Assoc Bytes) (initial_kyn max_reveals : ℕ)
      (name : Bytes) (r : NameEnvelope)
      → PushesEntries e.lru walk
      → walk.entries fresh.cache ≡ []
      → Memᴰ
          (name, r)
          (walk.entries
            (restore e fresh walk storage initial_kyn max_reveals).store.reveals_by_name)
      → (n : ℕ) × (compute_required_iterations e.k e.p (no_storage e) (reveal_of r) initial_kyn
          ≡ required n)
        × (n ≤ (reveal_of r).iterations)
        × ((e.k.dev_mode ≡ true) ⊎ (verify_signature e.k e.p e.j (reveal_of r) ≡ none))
        × IsProved (reveal_of r)
  unfolding restore restored_cache Verified
  restored_reveals_verified walk storage initial_kyn max_reveals name r w empty m =
      let none_yet : Verified walk initial_kyn fresh.cache =
        λ other r' n. absurd (Memᴰ.not-nil (subst (λ xs. Memᴰ (other, r') xs) empty n)) in
      let all =
        restore_reveals-Verified walk w initial_kyn
          (take 100000 (scan_prefix krs_reveal_prefix storage)) fresh.cache none_yet in
      restorable_sound initial_kyn (reveal_of r) (all name r m)

  -- A restored store has a heartbeat for a name only if it holds a record of the name in its cache.
  pub restored_heartbeats_referenced :
      (walk : LruWalk NameEnvelope C) (storage : Assoc Bytes) (initial_kyn max_reveals : ℕ)
      (name : Bytes) (kyn : ℕ)
      → lookup name
          (restore e fresh walk storage initial_kyn max_reveals).store.last_heartbeats_by_name
        ≡ some kyn
      → e.lru.contains name
          (restore e fresh walk storage initial_kyn max_reveals).store.reveals_by_name
        ≡ true
  unfolding restore Referenced
  restored_heartbeats_referenced walk storage initial_kyn max_reveals name kyn found =
      let cache = restored_cache e fresh initial_kyn storage in
      let none_yet : Referenced cache [] = λ other n h. absurd (unfold lookup in cc) in
      let all =
        restore_heartbeats-Referenced cache (scan_prefix krs_hb_prefix storage)
          (record { heartbeats = []; storage = storage }) none_yet in
      all name kyn found
