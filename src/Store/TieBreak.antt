-- ===== src/Store/TieBreak.antt =====
-- The tie-break between two reveals (kinetic-network/src/store/handlers.rs).
use kinetic.Prelude.{ℕ, ◌<◌, ◌≡◌, refl, ap₂, true, false, none, some, [], ◌∷◌, arith}
use kinetic.Prelude.Bytes.{Bytes}
use kinetic.Config.{NetworkConstants, Platform}
use kinetic.Vdf.{Reveal}
use kinetic.Store.{tie_broken}
use kinetic.Store.Conflict.{distance, bytes_gt, takeover_error}

bytes_gt_asym : (a b : Bytes) → bytes_gt a b ≡ true → bytes_gt b a ≡ false
unfolding bytes_gt
bytes_gt_asym [] b h = absurd (ground arith)
bytes_gt_asym (x ∷ a) [] h = refl
bytes_gt_asym (x ∷ a) (y ∷ b) h = ground (arith, bytes_gt_asym a b)

bytes_gt_total : (a b : Bytes) → bytes_gt a b ≡ false → bytes_gt b a ≡ false → a ≡ b
unfolding bytes_gt
bytes_gt_total [] [] h g = refl
bytes_gt_total [] (y ∷ b) h g = absurd (ground arith)
bytes_gt_total (x ∷ a) [] h g = absurd (ground arith)
bytes_gt_total (x ∷ a) (y ∷ b) h g =
    let heads : x ≡ y = ground arith in
    let left : bytes_gt a b ≡ false = ground arith in
    let right : bytes_gt b a ≡ false = ground arith in
    ap₂ (λ c cs. c ∷ cs) heads (bytes_gt_total a b left right)

module _ (k : NetworkConstants) (p : Platform) where
  -- Of two tied reveals one at least may replace the other: with equal iterations and a heartbeat of
  -- less than 100 kyns ago, where one loses the tie against the other, the other wins against it.
  pub tie_break_one_wins :
      (a b : Reveal) (hb_age : ℕ)
      → a.iterations ≡ b.iterations
      → hb_age < 100
      → takeover_error k p a b hb_age ≡ some tie_broken
      → takeover_error k p b a hb_age ≡ none
  unfolding takeover_error
  tie_break_one_wins a b hb_age same young h =
      let won : bytes_gt (distance b) (distance a) ≡ true = ground arith in
      let lost = bytes_gt_asym (distance b) (distance a) won in ground arith

  -- The tie-break is strict: with equal iterations and a heartbeat of less than 100 kyns ago, two
  -- reveals that may replace each other have the same distance.
  pub tie_break_agrees :
      (a b : Reveal) (hb_age : ℕ)
      → a.iterations ≡ b.iterations
      → hb_age < 100
      → takeover_error k p a b hb_age ≡ none
      → takeover_error k p b a hb_age ≡ none
      → distance a ≡ distance b
  unfolding takeover_error
  tie_break_agrees a b hb_age same young h g =
      bytes_gt_total (distance a) (distance b) (ground arith) (ground arith)
