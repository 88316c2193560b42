-- ===== src/Action/Timeline.antt =====
-- Sums over the pauses of the network (kinetic-action/src/types.rs).
use kinetic.Prelude.{ℕ, ◌+◌, ◌-◌, ◌^◌, ◌≤◌, ◌<◌, ◌≡◌, List, [], ◌∷◌, ◌++◌, arith, max}
use kinetic.Action.{add_pause, paused_from}

-- the pauses follow one another between two kyns
abbrev pub IsTimeline : ℕ → List (ℕ × ℕ) → ℕ → Type 0
IsTimeline low [] high = low ≤ high
IsTimeline low ((start, end) ∷ history) high =
    (low ≤ start) × (start ≤ end) × IsTimeline end history high

-- the kyns of the pauses that lie after a kyn
abbrev pub paused_after : ℕ → List (ℕ × ℕ) → ℕ
paused_after target [] = 0
paused_after target ((start, end) ∷ history) =
    (end - max start target) + paused_after target history

pub timeline_le :
    (low : ℕ) (history : List (ℕ × ℕ)) (high : ℕ) → IsTimeline low history high → low ≤ high
timeline_le low [] high h = h
timeline_le low ((start, end) ∷ history) high (a, b, r) =
    omega (arith, timeline_le end history high r)

pub paused_after_bound :
    (target low : ℕ) (history : List (ℕ × ℕ)) (high : ℕ)
    → IsTimeline low history high
    → paused_after target history ≤ high - max low target
paused_after_bound target low [] high h = omega arith
paused_after_bound target low ((start, end) ∷ history) high (a, b, r) =
    omega (arith, paused_after_bound target end history high r, timeline_le end history high r)

pub paused_from-eq :
    (target total low : ℕ) (history : List (ℕ × ℕ)) (high : ℕ)
    → IsTimeline low history high
    → total + paused_after target history < 2 ^ 64
    → paused_from target total history ≡ total + paused_after target history
unfolding paused_from
paused_from-eq target total low [] high h fits = omega arith
paused_from-eq target total low ((start, end) ∷ history) high (a, b, r) fits =
    let step : add_pause target total (start, end) ≡ total + (end - max start target) =
      unfold add_pause in ground arith in
    let rest =
      paused_from-eq target (add_pause target total (start, end)) end history high r
        (omega arith) in
    omega arith

pub IsTimeline-snoc :
    (low : ℕ) (history : List (ℕ × ℕ)) (start end : ℕ)
    → IsTimeline low history start
    → start ≤ end
    → IsTimeline low (history ++ (start, end) ∷ []) end
IsTimeline-snoc low [] start end h le = (h, le, omega arith)
IsTimeline-snoc low ((s, e) ∷ history) start end (a, b, r) le =
    (a, b, IsTimeline-snoc e history start end r le)

pub paused_after_snoc :
    (target : ℕ) (history : List (ℕ × ℕ)) (start end : ℕ)
    → paused_after target (history ++ (start, end) ∷ [])
      ≡ paused_after target history + (end - max start target)
paused_after_snoc target [] start end = omega arith
paused_after_snoc target ((s, e) ∷ history) start end =
    omega (arith, paused_after_snoc target history start end)

pub IsTimeline-later :
    (low : ℕ) (history : List (ℕ × ℕ)) (a b : ℕ)
    → IsTimeline low history a
    → a ≤ b
    → IsTimeline low history b
IsTimeline-later low [] a b h le = omega arith
IsTimeline-later low ((s, e) ∷ history) a b (x, y, r) le =
    (x, y, IsTimeline-later e history a b r le)
