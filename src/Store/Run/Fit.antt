-- ===== src/Store/Run/Fit.antt =====
-- What the storage holds after a run (kinetic-network/src/store/kademlia.rs).
use kinetic.Prelude.{◌≤◌, ◌≡◌, sym, subst, inl, inr, some, [], All, arith, length, Bool-cases}
use kinetic.Prelude.Bytes.{Bytes}
use kinetic.NameRecord.{NameEnvelope}
use kinetic.Store.Kademlia.{RecordStore, StoreEnv}
use kinetic.Store.Kademlia.Quiet.{IsReserved}
use kinetic.Store.Kademlia.View.{View, view_of}
use kinetic.Store.Run.Abstract.{ViewStep, keep, store, evict, expire}
use kinetic.Store.Kademlia.{db_key}
use kinetic.Prelude.Assoc.{lookup}
use kinetic.Prelude.Bytes.{bytes_eq}
use kinetic.Store.Prune.{LruWalk}
use kinetic.Store.Run.{Run}
use kinetic.Store.Run.Checks.{ViewRun, done_at, then_by}
use kinetic.Store.Run.Refinement.{Run-refines}

module _ {M C D J : Type 0} (e : StoreEnv M C D J) where
  -- a value of the allowed size that is JSON
  pub IsFit : Bytes → Type 0
  IsFit value =
      (length value ≤ e.k.storage_max_value_bytes)
      × ((parsed : J) × (e.json.from_slice value ≡ some parsed))

  step-IsFit :
      (walk : LruWalk NameEnvelope C) (start : RecordStore M C D) {f g : View}
      → ViewStep e walk start f g
      → ((q value : Bytes) → f q ≡ some value → IsFit value)
      → (q value : Bytes) → g q ≡ some value
      → IsFit value
  unfolding IsFit
  step-IsFit walk start keep h q value found = h q value found
  step-IsFit walk start {f} (store n now skip r parsed s reached small x passed) h q value found =
      elim (Bool-cases (bytes_eq r.key q)) [
        | inl same ↦
            let is : r.value ≡ value = ground arith in subst (λ v. IsFit v) is (small, (parsed, x))
        | inr other ↦ h q value (ground arith)
      ]
  step-IsFit walk start (evict n old new reached was other t) h q value found =
      h q value (ground arith)
  step-IsFit walk start (expire dead due) h q value found = h q value (ground arith)

  ViewRun-IsFit :
      (walk : LruWalk NameEnvelope C) (start : RecordStore M C D) {f g : View}
      → ViewRun e walk start f g
      → ((q value : Bytes) → f q ≡ some value → IsFit value)
      → (q value : Bytes) → g q ≡ some value
      → IsFit value
  ViewRun-IsFit walk start done_at h = h
  ViewRun-IsFit walk start (then_by run x) h =
      step-IsFit walk start x (ViewRun-IsFit walk start run h)

  -- From an empty storage without pending writes, every record that the storage holds after any run
  -- has at most the allowed size and is JSON.
  pub stored_fits :
      (walk : LruWalk NameEnvelope C) {n m : RecordStore M C D}
      → Run e walk n m
      → n.store.storage ≡ []
      → n.store.pending ≡ []
      → (key value : Bytes) → lookup (db_key key) m.store.storage ≡ some value
      → IsFit value
  stored_fits walk {n} {m} run fresh none_pend key value found =
      let views = (Run-refines e walk n run (subst (All IsReserved) (sym none_pend) tt)).0 in
      ViewRun-IsFit walk n views (λ q v h. absurd (unfold view_of lookup in ground arith)) key value
        (unfold view_of in found)
