-- ===== src/Store/Run/Refinement.antt =====
-- The record store refines a map of records (kinetic-network/src/store/kademlia.rs).
use kinetic.Prelude.{
  ℕ, ◌≤◌, ◌≡◌, refl, sym, ap, subst, inl, inr, Bool, Option, none, some, List, [], ◌∷◌, ◌++◌, All,
  arith, ltb, length, Bool-cases, Option-cases,
}
use kinetic.Prelude.Bytes.{Bytes}
use kinetic.Prelude.Assoc.{among}
use kinetic.NameRecord.{NameEnvelope}
use kinetic.Store.{internal_store_error, payload_too_large, malformed_json}
use kinetic.Store.State.{StoreState, Outcome, done, failed, panicked}
use kinetic.Store.Kademlia.{
  KadRecord, RecordStore, StoreEnv, PutResult, accepted, rejected, store_of, check_record,
  put_inner, save_record, finish, save_commitment, put_commitment, is_commitment, put_parsed,
  put_record_internal,
}
use kinetic.Store.Kademlia.Quiet.{IsReserved, Quiet, Quiet-refl, Ends}
use kinetic.Store.Kademlia.View.{
  view_of, view-save_record, view-reserved, view-save_commitment, IsReserved-apart, view-remove_all,
}
use kinetic.Store.{krs_commit_prefix}
use kinetic.Store.Kademlia.{db_key, remove_record}
use kinetic.Store.Prune.Live.{forget_commitments_keeps}
use kinetic.Store.Prune.{
  LruWalk, prune, run_deletions, scan_prefix, forget_name, forget_names, forget_commitments,
  due_names,
}
use kinetic.Store.Run.{
  Step, Run, putting, removing, advancing, pruning, deleting, writing, stop, step,
}
use kinetic.Store.Run.Abstract.{keep, store, expire}
use kinetic.Store.Run.PutDeletions.{put_deletions}
use kinetic.Store.Run.Deletions.{IsNoted, prune-IsNoted, none-IsNoted, start-IsNoted}
use kinetic.Store.Kademlia.Passed.{Passed, check_record_sound}
use kinetic.Store.Run.Checks.{
  ViewRun, done_at, ViewRun-trans, Refines, Refines-trans, Refines-by, Quiet-Refines,
  check_record-Refines,
}

module _ {M C D J : Type 0} (e : StoreEnv M C D J) (walk : LruWalk NameEnvelope C)
    (start : RecordStore M C D) where
  put_inner_store :
      (r : KadRecord) (n l : RecordStore M C D) → (store_of l (put_inner e r n)).store ≡ n.store
  unfolding put_inner
  put_inner_store r n l = elim (Option-cases (e.mem.put r n.inner)) [
    | inl x ↦
        let end : put_inner e r n ≡ rejected internal_store_error n = ground arith in
        ap (λ o. (store_of l o).store) end
    | inr (inner, x) ↦
        let end : put_inner e r n ≡ accepted (record n { inner = inner }) = ground arith in
        ap (λ o. (store_of l o).store) end
  ]

  Refines-to :
      {s t u : StoreState C D} → u ≡ t → Refines e walk start s t → Refines e walk start s u
  Refines-to {s} q f = subst (Refines e walk start s) (sym q) f

  finish-Refines :
      (now : ℕ) (skip : Bool) (r : KadRecord) (n : RecordStore M C D) (parsed : J)
      → Run e walk start n
      → length r.value ≤ e.k.storage_max_value_bytes
      → e.json.from_slice r.value ≡ some parsed
      → (o : Outcome C D) → ((s : StoreState C D) → o ≡ done s → Passed e now skip r parsed n s)
      → Ends (Refines e walk start n.store) o
      → Refines e walk start n.store (store_of n (finish e r n o)).store
  unfolding finish Ends
  finish-Refines now skip r n parsed reached small x (done s) passed h =
      let saved : Refines e walk start s (save_record r s) =
        Refines-by e walk start (store n now skip r parsed s reached small x (passed s refl))
          (view-save_record r s) (unfold save_record in λ p. p) in
      Refines-to (put_inner_store r (record n { store = save_record r s }) n)
        (Refines-trans e walk start h saved)
  finish-Refines now skip r n parsed reached small x (failed y s) passed h = h
  finish-Refines now skip r n parsed reached small x panicked passed h =
      Quiet-Refines e walk start (Quiet-refl n.store)

  put_commitment-Refines :
      (r : KadRecord) (o : Option Bytes) (n : RecordStore M C D)
      → Refines e walk start n.store (store_of n (put_commitment e r o n)).store
  unfolding put_commitment
  put_commitment-Refines r none n = Quiet-Refines e walk start (Quiet-refl n.store)
  put_commitment-Refines r (some hash) n =
      Refines-to (put_inner_store r (record n { store = save_commitment hash n.store }) n) (
        Refines-by e walk start keep (view-save_commitment hash n.store)
          (unfold save_commitment in λ p. p))

  put-Refines :
      (now : ℕ) (r : KadRecord) (skip : Bool) (n : RecordStore M C D)
      → Run e walk start n
      → Refines e walk start n.store (store_of n (put_record_internal e now r skip n)).store
  unfolding put_record_internal put_parsed
  put-Refines now r skip n reached =
      let at : (o : PutResult M C D)
          → put_record_internal e now r skip n ≡ o
          → Refines e walk start n.store (store_of n o).store
          → Refines e walk start n.store (store_of n (put_record_internal e now r skip n)).store =
        λ o q. Refines-to (ap (λ x. (store_of n x).store) q) in
      let same = Quiet-Refines e walk start (Quiet-refl n.store) in
      elim (Bool-cases (ltb e.k.storage_max_value_bytes (length r.value))) [
        | inl x ↦ at (rejected payload_too_large n) (ground arith) same
        | inr small ↦ elim (Option-cases (e.json.from_slice r.value)) [
          | inl x ↦ at (rejected malformed_json n) (ground arith) same
          | inr (parsed, x) ↦ elim (Bool-cases (is_commitment e parsed)) [
            | inl c ↦
                at (put_commitment e r (e.json.commitment_hash parsed) n) (ground arith)
                  (put_commitment-Refines r (e.json.commitment_hash parsed) n)
            | inr c ↦
                let o = check_record e now skip r parsed n in
                at (finish e r n o) (ground arith) (
                  finish-Refines now skip r n parsed reached (ground arith) x o
                    (check_record_sound e now skip r parsed n)
                    (check_record-Refines e walk start now skip r parsed n reached))
          ]
        ]
      ]

  All-split :
      (before after : List (Bytes × Bytes)) (x : Bytes × Bytes)
      → All IsReserved (before ++ x ∷ after)
      → IsReserved x × All IsReserved (before ++ after)
  All-split [] after x h = h
  All-split (y ∷ before) after x h =
      let (at, rest) = All-split before after x h.1 in (at, (h.0, rest))

  forget_names-Quiet :
      (names : List Bytes) (n : RecordStore M C D)
      → Quiet n.store (forget_names e walk names n).store
  unfolding forget_names forget_name
  forget_names-Quiet [] n = Quiet-refl n.store
  forget_names-Quiet (name ∷ names) n =
      let q = forget_names-Quiet names (forget_name e walk name n) in
      record { storage = q.storage; pending = q.pending }

  prune-Quiet : (n : RecordStore M C D) → Quiet n.store (prune e walk n).store
  unfolding prune
  prune-Quiet n =
      let found = scan_prefix krs_commit_prefix n.store.storage in
      subst (λ s. Quiet s (prune e walk n).store) (forget_commitments_keeps e walk found n)
        (forget_names-Quiet (due_names e walk n.store) (forget_commitments e walk found n))

  Step-IsNoted :
      {n m : RecordStore M C D}
      → Step e walk n m
      → Run e walk start n
      → IsNoted e walk start n.deletions
      → IsNoted e walk start m.deletions
  Step-IsNoted (putting now r skip n) reached f =
      subst (IsNoted e walk start) (sym (put_deletions e now r skip n)) f
  Step-IsNoted (removing key n) reached f = unfold remove_record in f
  Step-IsNoted (advancing kyn n) reached f = f
  Step-IsNoted (pruning n) reached f = prune-IsNoted e walk start n reached f
  Step-IsNoted (deleting n) reached f = unfold run_deletions in none-IsNoted e walk start
  Step-IsNoted (writing before after key value n q) reached f = f

  Step-Refines :
      {n m : RecordStore M C D}
      → Step e walk n m
      → Run e walk start n
      → All IsReserved n.store.pending
      → IsNoted e walk start n.deletions
      → Refines e walk start n.store m.store
  unfolding IsNoted
  Step-Refines (putting now r skip n) reached h f = put-Refines now r skip n reached
  Step-Refines (removing key n) reached h f =
      unfold remove_record in Quiet-Refines e walk start (Quiet-refl n.store)
  Step-Refines (advancing kyn n) reached h f = Refines-by e walk start keep refl (λ p. p)
  Step-Refines (pruning n) reached h f = Quiet-Refines e walk start (prune-Quiet n)
  Step-Refines (deleting n) reached h f =
      unfold run_deletions in
      Refines-by e walk start (expire (λ q. among (db_key q) n.deletions) f)
        (view-remove_all n.deletions n.store.storage) (λ p. p)
  Step-Refines (writing before after key value n q) reached h f =
      let (reserved, rest) = All-split before after (key, value) (subst (All IsReserved) q h) in
      Refines-by e walk start keep
        (view-reserved key value n.store.storage (IsReserved-apart key value reserved)) (λ p. rest)

  Run-Step : {n m l : RecordStore M C D} → Run e walk n m → Step e walk m l → Run e walk n l
  Run-Step (stop n) x = step x (stop _)
  Run-Step (step y r) x = step y (Run-Step r x)

  Run-on :
      {n m : RecordStore M C D}
      → Run e walk start n
      → Run e walk n m
      → All IsReserved n.store.pending
      → IsNoted e walk start n.deletions
      → ViewRun e walk start (view_of n.store.storage) (view_of m.store.storage)
        × All IsReserved m.store.pending
  Run-on reached (stop n) h f = (done_at, h)
  Run-on reached (step x rest) h f =
      let one = Step-Refines x reached h f in
      let (views, pending) =
        Run-on (Run-Step reached x) rest (one.pending h) (Step-IsNoted x reached f) in
      (ViewRun-trans e walk start one.views views, pending)

  pub Run-refines :
      {m : RecordStore M C D}
      → Run e walk start m
      → All IsReserved start.store.pending
      → ViewRun e walk start (view_of start.store.storage) (view_of m.store.storage)
        × All IsReserved m.store.pending
  Run-refines run h = Run-on (stop start) run h (start-IsNoted e walk start)
