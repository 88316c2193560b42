-- ===== src/Store/Run/Checks.antt =====
-- What the checks of a record do to the records (kinetic-network/src/store/kademlia.rs).
use kinetic.Prelude.{
  ℕ, ◌≡◌, sym, ap, subst, ◌∙◌, inl, inr, Bool, Option, none, some, ◌||◌, All, arith, Bool-cases,
  Option-cases,
}
use kinetic.Prelude.Bytes.{codes}
use kinetic.Identity.{AuthorizedKid, AuthorizedManifest}
use kinetic.NameRecord.{NameEnvelope, reveal_of}
use kinetic.HostRoute.{verify_host_routing_record}
use kinetic.Store.{KineticStoreError, schema_validation_error, unknown_record_type}
use kinetic.Store.State.{StoreState, failed, get_fallback}
use kinetic.Store.Handlers.{handle_put_record, handle_process_heartbeat}
use kinetic.Store.Kademlia.{
  KadRecord, RecordStore, StoreEnv, checked, put_kid, put_manifest, check_record,
}
use kinetic.Store.Kademlia.Quiet.{
  IsReserved, Quiet, Quiet-refl, Ends, Ends-at, Ends-imp, get_fallback-Quiet,
  handle_process_heartbeat-Quiet,
}
use kinetic.Store.Kademlia.Moves.{Moves, Evicts, handle_put_record-Moves}
use kinetic.Store.Kademlia.View.{View, view_of, view-cleaned}
use kinetic.Store.Prune.{LruWalk}
use kinetic.Store.Run.{Run}
use kinetic.Store.Run.Abstract.{ViewStep, keep, evict}

module _ {M C D J : Type 0} (e : StoreEnv M C D J) (walk : LruWalk NameEnvelope C)
    (start : RecordStore M C D) where
  -- a sequence of abstract steps
  pub data ViewRun (f : View) : View → Type 0 where
    done_at : ViewRun f f
    then_by : {g h : View} → ViewRun f g → ViewStep e walk start g h → ViewRun f h

  pub ViewRun-trans : {f g h : View} → ViewRun f g → ViewRun g h → ViewRun f h
  ViewRun-trans r done_at = r
  ViewRun-trans r (then_by q x) = then_by (ViewRun-trans r q) x

  -- from one state to another the records move by abstract steps, and only reserved writes pend
  pub record Refines (s t : StoreState C D) : Type 0 where
    pub views : ViewRun (view_of s.storage) (view_of t.storage)
    pub pending : All IsReserved s.pending → All IsReserved t.pending

  pub Refines-trans : {s t u : StoreState C D} → Refines s t → Refines t u → Refines s u
  Refines-trans f g = record {
    views = ViewRun-trans f.views g.views;
    pending = λ h. g.pending (f.pending h);
  }

  -- the records move by one abstract step
  pub Refines-by :
      {s t : StoreState C D} {g : View}
      → ViewStep e walk start (view_of s.storage) g
      → view_of t.storage ≡ g
      → (All IsReserved s.pending → All IsReserved t.pending)
      → Refines s t
  Refines-by {s} {t} x q h = record {
    views = subst (ViewRun (view_of s.storage)) (sym q) (then_by done_at x);
    pending = h;
  }

  pub Quiet-Refines : {s t : StoreState C D} → Quiet s t → Refines s t
  Quiet-Refines f = Refines-by keep (ap view_of f.storage) f.pending

  Evicts-Refines :
      (n : RecordStore M C D) (new : NameEnvelope) (t : StoreState C D)
      → Run e walk start n
      → Evicts e (get_fallback e.lru e.serde (reveal_of new).name n.store).0 new n.store t
      → Refines n.store t
  Evicts-Refines n new t reached f =
      Refines-by (evict n f.existing new reached f.was f.other_owner f.takes_over)
        (ap view_of f.storage ∙ view-cleaned e new n.store) f.pending

  checked-Refines :
      (o : Option KineticStoreError) (s t : StoreState C D)
      → Refines s t
      → Ends (Refines s) (checked o t)
  unfolding checked Ends
  checked-Refines none s t h = h
  checked-Refines (some x) s t h = h

  put_kid-Refines :
      (r : KadRecord) (o : Option AuthorizedKid) (n : RecordStore M C D)
      → Ends (Refines n.store) (put_kid e r o n)
  unfolding put_kid Ends
  put_kid-Refines r none n = Quiet-Refines (Quiet-refl n.store)
  put_kid-Refines r (some auth) n =
      checked-Refines _ n.store _ (Quiet-Refines (get_fallback-Quiet e auth.name n.store))

  put_manifest-Refines :
      (r : KadRecord) (o : Option AuthorizedManifest) (n : RecordStore M C D)
      → Ends (Refines n.store) (put_manifest e r o n)
  unfolding put_manifest Ends
  put_manifest-Refines r none n = Quiet-Refines (Quiet-refl n.store)
  put_manifest-Refines r (some auth) n =
      checked-Refines _ n.store _ (Quiet-Refines (get_fallback-Quiet e auth.name n.store))

  Moves-Refines :
      (n : RecordStore M C D) (new : NameEnvelope) (t : StoreState C D)
      → Run e walk start n
      → Moves e (get_fallback e.lru e.serde (reveal_of new).name n.store).0 new n.store t
      → Refines n.store t
  unfolding Moves
  Moves-Refines n new t reached (inl f) = Quiet-Refines f
  Moves-Refines n new t reached (inr f) = Evicts-Refines n new t reached f

  -- the states in which `check_record` ends
  pub check_record-Refines :
      (now : ℕ) (skip : Bool) (r : KadRecord) (parsed : J) (n : RecordStore M C D)
      → Run e walk start n
      → Ends (Refines n.store) (check_record e now skip r parsed n)
  unfolding check_record
  check_record-Refines now skip r parsed n reached =
      let s = n.store in
      let P = Refines s in
      let refuse : (x : KineticStoreError) → Ends P (failed x s) =
        λ x. unfold Ends in Quiet-Refines (Quiet-refl s) in
      elim (Bool-cases (e.json.has (codes "vdf_proof") parsed || e.json.has (codes "kyn") parsed)) [
        | inl x ↦ elim (Option-cases (e.json.envelope parsed)) [
          | inl y ↦ Ends-at P (ground arith) (refuse schema_validation_error)
          | inr (new, y) ↦
              let o =
                handle_put_record e.k e.p e.j e.action_state e.lru e.times e.serde now new skip s in
              Ends-at P {x = o} (ground arith) (
                Ends-imp (λ t. Moves-Refines n new t reached) o
                  (handle_put_record-Moves e now new skip s))
        ]
        | inr x1 ↦ elim (Bool-cases (e.json.has (codes "latest_kyn") parsed)) [
          | inl x ↦ elim (Option-cases (e.json.heartbeat parsed)) [
            | inl y ↦ Ends-at P (ground arith) (refuse schema_validation_error)
            | inr (hb, y) ↦
                let o =
                  handle_process_heartbeat e.k e.p e.j e.action_state e.lru e.times e.serde hb s in
                Ends-at P {x = o} (ground arith)
                  (Ends-imp (λ t. Quiet-Refines) o (handle_process_heartbeat-Quiet e hb s))
          ]
          | inr x2 ↦ elim (Bool-cases (e.json.has (codes "delegation_signature") parsed)) [
            | inl x ↦
                Ends-at P {x = put_kid e r (e.json.authorized_kid parsed) n} (ground arith)
                  (put_kid-Refines r (e.json.authorized_kid parsed) n)
            | inr x3 ↦ elim (Bool-cases (e.json.has (codes "manifest") parsed)) [
              | inl x ↦
                  Ends-at P {x = put_manifest e r (e.json.authorized_manifest parsed) n}
                    (ground arith) (put_manifest-Refines r (e.json.authorized_manifest parsed) n)
              | inr x4 ↦ elim (Bool-cases (e.json.has (codes "host_id") parsed)) [
                | inr x ↦ Ends-at P (ground arith) (refuse unknown_record_type)
                | inl x ↦ elim (Option-cases (e.json.host_route parsed)) [
                  | inl y ↦ Ends-at P (ground arith) (refuse schema_validation_error)
                  | inr (route, y) ↦
                      let o = verify_host_routing_record e.k e.keys route s.current_kyn in
                      Ends-at P {x = checked o s} (ground arith)
                        (checked-Refines o s s (Quiet-Refines (Quiet-refl s)))
                ]
              ]
            ]
          ]
        ]
      ]
