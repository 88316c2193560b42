-- ===== src/Store/RateLimit.antt =====
-- The rate limit of the records of a name (kinetic-network/src/store/handlers.rs).
use kinetic.Prelude.{
  ℕ, ◌+◌, ◌-◌, ◌≡◌, refl, true, if◌then◌else◌, ap, inl, inr, Option, some, List, [], ◌∷◌, ◌++◌,
  arith, leb, leb-false→lt, ◌≤◌, length-append, length, Bool-cases, subst,
}
use kinetic.Prelude.Bytes.{Bytes}
use kinetic.Config.{NetworkConstants, Platform}
use kinetic.Action.{ActionState}
use kinetic.Kid.{Jcs}
use kinetic.NameRecord.{NameEnvelope, reveal_of}
use kinetic.Store.State.{Lru, Serde, StoreState, done, state_of}
use kinetic.Store.Handlers.{an_hour, drop_old, store_record, open_queue, limit_and_store}

-- the instants of a queue that are at most an hour ago
abbrev pub recent : ℕ → List ℕ → ℕ
recent now [] = 0
recent now (t ∷ queue) = (if leb (now - t) an_hour then 1 else 0) + recent now queue

recent-drop_old : (now : ℕ) (queue : List ℕ) → recent now (drop_old now queue) ≡ recent now queue
unfolding drop_old
recent-drop_old now [] = refl
recent-drop_old now (t ∷ queue) = ground (arith, recent-drop_old now queue)

recent_le_length : (now : ℕ) (queue : List ℕ) → recent now queue ≤ length queue
recent_le_length now [] = omega arith
recent_le_length now (t ∷ queue) = ground (arith, recent_le_length now queue)

module _ (k : NetworkConstants) (p : Platform) (j : Jcs) (a : Option ActionState) where
  module _ {C D : Type 0} (lru : Lru NameEnvelope C) (times : Lru (List ℕ) D) (serde : Serde) where
    -- Where the cache of the timestamps reads back what was written to a name, and holds a queue for
    -- the name of a record: if the record passes the rate limit, the acceptances of the name in the
    -- last hour and this one are at most the allowed number, and the new queue ends with the current
    -- instant, behind a queue with as many acceptances in the last hour as before.
    pub rate_limit_holds :
        (now : ℕ) (new : NameEnvelope) (queue : List ℕ) (s t : StoreState C D)
        → ((name : Bytes) (q : List ℕ) (d : D) → (times.get name (times.write name q d)).0 ≡ some q)
        → times.contains (reveal_of new).name s.accepted_reveals_timestamps ≡ true
        → (times.get (reveal_of new).name s.accepted_reveals_timestamps).0 ≡ some queue
        → limit_and_store k p j a lru times serde now new s ≡ done t
        → (recent now queue + 1 ≤ s.max_reveals_per_hour)
          × (earlier : List ℕ) × ((times.get (reveal_of new).name t.accepted_reveals_timestamps).0
              ≡ some (earlier ++ now ∷ []))
          × (recent now earlier ≡ recent now queue)
          × (length (earlier ++ now ∷ []) ≤ s.max_reveals_per_hour)
    unfolding limit_and_store open_queue
    rate_limit_holds now new queue s t reads held at h =
        let name = (reveal_of new).name in
        let d = (times.get name s.accepted_reveals_timestamps).1 in
        let deque = drop_old now queue in
        let stored =
          store_record k p j a lru times serde new (deque ++ now ∷ [])
            (record s { accepted_reveals_timestamps = d }) in
        let same = recent-drop_old now queue in
        let fits = recent_le_length now deque in
        elim (Bool-cases (leb s.max_reveals_per_hour (length deque))) [
          | inl full ↦ absurd (ground (arith, held, at, h, full))
          | inr free ↦
              let end : done stored ≡ done t = ground (arith, held, at, h, free) in
              let room = leb-false→lt s.max_reveals_per_hour (length deque) free in
              (
                omega (arith, same, fits, room),
                deque,
                subst
                    (λ u.
                      (times.get name u.accepted_reveals_timestamps).0 ≡ some (deque ++ now ∷ []))
                    (ap (state_of s) end) (unfold store_record in reads name (deque ++ now ∷ []) d),
                same,
                omega (arith, room, length-append {0} deque (now ∷ [])),
              )
        ]
