-- ===== src/Store/Kademlia/Quiet.antt =====
-- What the handlers do to the storage (kinetic-network/src/store/handlers.rs).
use kinetic.Prelude.{
  ℕ, max, ◌≡◌, refl, sym, subst, ◌∙◌, ◌⊎◌, inl, inr, Option, none, some, List, [], ◌∷◌, ◌++◌, All,
  arith, ltb, leb, length, ◌==◌, Option-cases, Bool-cases,
}
use kinetic.Prelude.Bytes.{Bytes}
use kinetic.Prelude.Words.{u64_be, add64}
use kinetic.Prelude.Assoc.{lookup}
use kinetic.NameRecord.{Heartbeat, NameEnvelope, reveal_of}
use kinetic.Store.{
  future_heartbeat, stale_heartbeat, krs_reveal_prefix, krs_hb_prefix, rate_limited,
}
use kinetic.Store.State.{
  StoreState, Outcome, done, failed, panicked, kyn_or, cache_read, serve, get_fallback,
}
use kinetic.Store.Handlers.{
  drop_old, open_queue, reveal_write, store_record, limit_and_store, heartbeat_error,
  record_heartbeat, beat, handle_process_heartbeat,
}
use kinetic.Store.Kademlia.{StoreEnv}

-- a write of the background tasks
unfoldable pub IsReserved : Bytes × Bytes → Type 0
IsReserved (key, value) =
    (name : Bytes) × ((key ≡ krs_reveal_prefix ++ name) ⊎ (key ≡ krs_hb_prefix ++ name))

All-append {ℓ κ} :
    {A : Type ℓ} (P : A → Type κ) (xs ys : List A) → All P xs → All P ys → All P (xs ++ ys)
All-append P [] ys h g = g
All-append P (x ∷ xs) ys h g = (h.0, All-append P xs ys h.1 g)

-- the same storage, and only reserved writes are added
pub record Quiet {C D : Type 0} (s t : StoreState C D) : Type 0 where
  pub storage : t.storage ≡ s.storage
  pub pending : All IsReserved s.pending → All IsReserved t.pending

pub Quiet-refl : {C D : Type 0} (s : StoreState C D) → Quiet s s
Quiet-refl s = record { storage = refl; pending = λ h. h }

pub Quiet-trans : {C D : Type 0} {s t u : StoreState C D} → Quiet s t → Quiet t u → Quiet s u
Quiet-trans f g = record { storage = g.storage ∙ f.storage; pending = λ h. g.pending (f.pending h) }

reveal_write-Reserved : (name : Bytes) (o : Option Bytes) → All IsReserved (reveal_write name o)
unfolding reveal_write IsReserved
reveal_write-Reserved name none = tt
reveal_write-Reserved name (some bytes) = ((name, inl refl), tt)

-- an outcome other than a panic ends in a state with the property
unfoldable pub Ends : {C D : Type 0} → (StoreState C D → Type 0) → Outcome C D → Type 0
Ends P (done t) = P t
Ends P (failed x t) = P t
Ends P panicked = Unit

pub Ends-at :
    {C D : Type 0} (P : StoreState C D → Type 0) {o x : Outcome C D} → o ≡ x → Ends P x → Ends P o
Ends-at P q h = subst (Ends P) (sym q) h

pub Ends-imp :
    {C D : Type 0} {P Q : StoreState C D → Type 0}
    → ((t : StoreState C D) → P t → Q t)
    → (o : Outcome C D) → Ends P o
    → Ends Q o
unfolding Ends
Ends-imp f (done t) h = f t h
Ends-imp f (failed x t) h = f t h
Ends-imp f panicked h = tt

module _ {M C D J : Type 0} (e : StoreEnv M C D J) where
  cache_read-Quiet :
      (name : Bytes) (o : Option NameEnvelope) (s : StoreState C D)
      → Quiet s (cache_read e.lru e.serde name o s).1
  unfolding cache_read
  cache_read-Quiet name none s = Quiet-refl s
  cache_read-Quiet name (some r) s = record { storage = refl; pending = λ h. h }

  serve-Quiet :
      (name : Bytes) (o : Option NameEnvelope) (s : StoreState C D)
      → Quiet s (serve e.lru e.serde name o s).1
  unfolding serve
  serve-Quiet name none s = cache_read-Quiet name _ s
  serve-Quiet name (some r) s = Quiet-refl s

  pub get_fallback-Quiet :
      (name : Bytes) (s : StoreState C D) → Quiet s (get_fallback e.lru e.serde name s).1
  unfolding get_fallback
  get_fallback-Quiet name s =
      let (hit, cache) = e.lru.get name s.reveals_by_name in
      let q = serve-Quiet name hit (record s { reveals_by_name = cache }) in
      record { storage = q.storage; pending = q.pending }

  store_record-Quiet :
      (new : NameEnvelope) (deque : List ℕ) (s : StoreState C D)
      → Quiet s (store_record e.k e.p e.j e.action_state e.lru e.times e.serde new deque s)
  unfolding store_record
  store_record-Quiet new deque s = record {
    storage = refl;
    pending = λ h.
        let pulse : All IsReserved (
            (krs_hb_prefix ++ (reveal_of new).name, u64_be (max s.current_kyn (reveal_of new).kyn))
            ∷ []) =
          unfold IsReserved in (((reveal_of new).name, inr refl), tt) in
        All-append IsReserved s.pending _ h (
          All-append IsReserved (reveal_write (reveal_of new).name (e.serde.print_envelope new)) _
            (reveal_write-Reserved (reveal_of new).name (e.serde.print_envelope new)) pulse);
  }

  pub limit-Quiet :
      (now : ℕ) (new : NameEnvelope) (s : StoreState C D)
      → Ends (Quiet s) (limit_and_store e.k e.p e.j e.action_state e.lru e.times e.serde now new s)
  unfolding limit_and_store Ends
  limit-Quiet now new s =
      let name = (reveal_of new).name in
      let opened =
        open_queue e.k e.p e.j e.action_state e.lru e.times e.serde name
          s.accepted_reveals_timestamps in
      let d = (e.times.get name opened).1 in
      elim (Option-cases (e.times.get name opened).0) [
        | inl x ↦ Ends-at (Quiet s) {x = panicked} (ground arith) tt
        | inr (queue, x) ↦
            let deque = drop_old now queue in
            elim (Bool-cases (leb s.max_reveals_per_hour (length deque))) [
              | inl full ↦
                  let t = record s { accepted_reveals_timestamps = e.times.write name deque d } in
                  Ends-at (Quiet s) {x = failed rate_limited t} (ground arith)
                    (record { storage = refl; pending = λ h. h })
              | inr free ↦
                  let u = record s { accepted_reveals_timestamps = d } in
                  let t =
                    store_record e.k e.p e.j e.action_state e.lru e.times e.serde new
                      (deque ++ now ∷ []) u in
                  let q = store_record-Quiet new (deque ++ now ∷ []) u in
                  Ends-at (Quiet s) {x = done t} (ground arith)
                    (record { storage = q.storage; pending = q.pending })
            ]
      ]

  beat-Quiet :
      (hb : Heartbeat) (o : Option NameEnvelope) (s : StoreState C D)
      → Ends (Quiet s) (beat e.k e.p e.j e.action_state e.lru e.times e.serde hb (o, s))
  unfolding beat Ends
  beat-Quiet hb none s = Quiet-refl s
  beat-Quiet hb (some existing) s =
      elim (Option-cases (heartbeat_error e.k e.p e.j hb (reveal_of existing) hb.authorization)) [
        | inr (x, q) ↦ Ends-at (Quiet s) {x = failed x s} (ground arith) (Quiet-refl s)
        | inl q ↦ elim (Bool-cases (ltb (add64 s.current_kyn 2) hb.latest_kyn)) [
          | inl late ↦
              Ends-at (Quiet s) {x = failed future_heartbeat s} (ground arith) (Quiet-refl s)
          | inr fine ↦
              let t = record_heartbeat e.k e.p e.j e.action_state e.lru e.times e.serde hb s in
              let pulse : All IsReserved ((krs_hb_prefix ++ hb.name, u64_be hb.latest_kyn) ∷ []) =
                unfold IsReserved in ((hb.name, inr refl), tt) in
              Ends-at (Quiet s) {x = done t} (ground arith) (
                unfold record_heartbeat in
                record { storage = refl; pending = λ h. All-append IsReserved s.pending _ h pulse })
        ]
      ]

  -- A heartbeat leaves the storage as it is.
  pub handle_process_heartbeat-Quiet :
      (hb : Heartbeat) (s : StoreState C D)
      → Ends
          (Quiet s)
          (handle_process_heartbeat e.k e.p e.j e.action_state e.lru e.times e.serde hb s)
  unfolding handle_process_heartbeat Ends
  handle_process_heartbeat-Quiet hb s =
      let existing_pulse = kyn_or 0 (lookup hb.name s.last_heartbeats_by_name) in
      elim (Bool-cases (hb.latest_kyn == existing_pulse)) [
        | inl q ↦ Ends-at (Quiet s) {x = done s} (ground arith) (Quiet-refl s)
        | inr q ↦ elim (Bool-cases (ltb hb.latest_kyn existing_pulse)) [
          | inl old ↦ Ends-at (Quiet s) {x = failed stale_heartbeat s} (ground arith) (Quiet-refl s)
          | inr new ↦
              let (o, u) = get_fallback e.lru e.serde hb.name s in
              let end = beat e.k e.p e.j e.action_state e.lru e.times e.serde hb (o, u) in
              Ends-at (Quiet s) {x = end} (ground arith) (
                Ends-imp (λ t f. Quiet-trans (get_fallback-Quiet hb.name s) f) end
                  (beat-Quiet hb o u))
        ]
      ]
