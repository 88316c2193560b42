-- ===== src/Challenge/Lifetime.antt =====
-- How long a mined identity lives (kinetic-network/src/challenge.rs).
use kinetic.Prelude.{
  ℕ, ◌+◌, ◌-◌, ◌≤◌, ◌<◌, ◌≡◌, ◌⊎◌, inl, inr, true, false, some, List, [], ◌∷◌, ◌++◌, arith, leb,
  Bool-cases, Option-cases,
}
use kinetic.Prelude.Bytes.{Bytes}
use kinetic.Prelude.Words.{u64_max}
use kinetic.Config.{NetworkConstants, Platform}
use kinetic.Challenge.{
  epoch_kyns, offset_of, staggered_epoch, compute_pow_hash, leading_zeros, epoch_passes,
  verify_p2p_challenge, mined, mine, solve_p2p_challenge,
}

-- In the kyns up to one epoch length ahead a peer moves on by one epoch at most.
epoch_window :
    (peer : Bytes) (a b : ℕ)
    → a ≤ b
    → b ≤ a + epoch_kyns
    → b + epoch_kyns ≤ u64_max
    → (staggered_epoch peer b ≡ staggered_epoch peer a)
      ⊎ (staggered_epoch peer b ≡ staggered_epoch peer a + 1)
unfolding staggered_epoch
epoch_window peer a b ab ba fits =
    let small : offset_of peer < epoch_kyns = unfold offset_of in omega arith in ground arith

module _ (k : NetworkConstants) (p : Platform) where
  mined_passes :
      (kyn difficulty : ℕ) (peers : List Bytes) (peer : Bytes)
      → mine p kyn difficulty peers ≡ mined peer
      → epoch_passes p peer (staggered_epoch peer kyn) difficulty ≡ true
  unfolding mine
  mined_passes kyn difficulty [] peer h = cc
  mined_passes kyn difficulty (q ∷ peers) peer h =
      elim (Option-cases (compute_pow_hash p q (staggered_epoch q kyn))) [
        | inl none_e ↦ absurd (ground arith)
        | inr (hash, e) ↦ elim (Bool-cases (leb difficulty (leading_zeros hash))) [
          | inl enough ↦
              let same : q ≡ peer = ground arith in
              rw (← same) (unfold epoch_passes in ground arith)
          | inr few ↦ mined_passes kyn difficulty peers peer (ground arith)
        ]
      ]

  -- An identity that was mined at a kyn passes the check at that kyn and at every kyn of the
  -- following 1440, as long as that kyn plus 1440 fits in 64 bits.
  pub verify-solve :
      (kyn later difficulty : ℕ) (peers : List Bytes) (peer : Bytes)
      → solve_p2p_challenge k p kyn difficulty peers ≡ mined peer
      → kyn ≤ later
      → later ≤ kyn + epoch_kyns
      → later + epoch_kyns ≤ u64_max
      → verify_p2p_challenge k p peer later difficulty ≡ true
  verify-solve kyn later difficulty peers peer h ab ba fits = elim (Bool-cases k.dev_mode) [
    | inl dev ↦ unfold verify_p2p_challenge in ground arith
    | inr prod ↦
        let m : mine p kyn difficulty peers ≡ mined peer =
          unfold solve_p2p_challenge in ground arith in
        let pos : 0 < kyn = unfold solve_p2p_challenge in ground arith in
        let passes = mined_passes kyn difficulty peers peer m in
        elim (epoch_window peer kyn later ab ba fits) [
          | inl same ↦ unfold verify_p2p_challenge in ground arith
          | inr next ↦
              let back : staggered_epoch peer later - 1 ≡ staggered_epoch peer kyn = omega arith in
              unfold verify_p2p_challenge in ground arith
        ]
  ]

  -- the peers whose hash exists and falls short
  abbrev pub AllTried : ℕ → ℕ → List Bytes → Type 0
  AllTried kyn difficulty [] = Unit
  AllTried kyn difficulty (q ∷ peers) =
      ((hash : Bytes) × (compute_pow_hash p q (staggered_epoch q kyn) ≡ some hash)
        × (leb difficulty (leading_zeros hash) ≡ false))
      × AllTried kyn difficulty peers

  mine_ends :
      (kyn difficulty : ℕ) (before : List Bytes) (peer hash : Bytes) (after : List Bytes)
      → AllTried kyn difficulty before
      → compute_pow_hash p peer (staggered_epoch peer kyn) ≡ some hash
      → difficulty ≤ leading_zeros hash
      → mine p kyn difficulty (before ++ peer ∷ after) ≡ mined peer
  unfolding mine
  mine_ends kyn difficulty [] peer hash after t h enough = ground (arith, h, enough)
  mine_ends kyn difficulty (q ∷ before) peer hash after ((found, e, few), ts) h enough =
      ground (arith, e, few, mine_ends kyn difficulty before peer hash after ts h enough)

  -- Outside of development mode and after kyn 0: where the generated peers are some whose hashes
  -- exist and have too few zeros, and then one whose hash has enough, mining returns that one, and it
  -- passes the check at the kyn it was mined at and at every kyn of the following 1440, as long as
  -- that kyn plus 1440 fits in 64 bits.
  pub solve_ends :
      (kyn later difficulty : ℕ) (before : List Bytes) (peer hash : Bytes) (after : List Bytes)
      → k.dev_mode ≡ false
      → 0 < kyn
      → AllTried kyn difficulty before
      → compute_pow_hash p peer (staggered_epoch peer kyn) ≡ some hash
      → difficulty ≤ leading_zeros hash
      → kyn ≤ later
      → later ≤ kyn + epoch_kyns
      → later + epoch_kyns ≤ u64_max
      → (solve_p2p_challenge k p kyn difficulty (before ++ peer ∷ after) ≡ mined peer)
        × (verify_p2p_challenge k p peer later difficulty ≡ true)
  solve_ends kyn later difficulty before peer hash after live pos tried h enough ab ba fits =
      let found = mine_ends kyn difficulty before peer hash after tried h enough in
      let solved : solve_p2p_challenge k p kyn difficulty (before ++ peer ∷ after) ≡ mined peer =
        unfold solve_p2p_challenge in ground (arith, live, pos, found) in
      (solved, verify-solve kyn later difficulty (before ++ peer ∷ after) peer solved ab ba fits)
