-- ===== src/Examples/Time.antt =====
-- Kyns, beacons and takeover costs.
use kinetic.Prelude.{
  ℕ, ◌<◌, ◌≤◌, ◌≡◌, ◌⊎◌, refl, Bool, true, false, none, some, [], ◌∷◌, ◌+◌, ◌*◌, ◌-◌, ◌^◌, arith,
  ◌++◌,
}
use kinetic.Prelude.Bytes.{Bytes, codes}
use kinetic.Config.{Platform, kin_network, toy_platform}
use kinetic.Kyn.Beacon.{RawKyn, can_register, verify_beacon}
use kinetic.Physics.Curve.{IsCalibrated}
use kinetic.Challenge.{
  leading_zeros, compute_pow_hash, staggered_epoch, epoch_passes, verify_p2p_challenge, mined, mine,
  solve_p2p_challenge,
}
use kinetic.Challenge.Lifetime.{AllTried, solve_ends}

abbrev live_beacon : RawKyn
live_beacon = record {
  beacon_idx = 5000;
  randomness = codes "ab";
  signature = codes "ab";
  is_from_cache = false;
  is_unavailable = false;
}

live_beacon-verifies : verify_beacon toy_platform live_beacon false ≡ true
unfolding verify_beacon kinetic.Prelude.Bytes.bytes_eq
live_beacon-verifies = refl

live_beacon-registers : can_register live_beacon ≡ true
unfolding can_register
live_beacon-registers = refl

small_target : kin_network.takeover_target_kyns < 2 ^ 32
small_target = omega arith

kin_network-IsCalibrated : IsCalibrated kin_network
kin_network-IsCalibrated = record {
  production = refl;
  timed = omega arith;
  fits = omega arith;
  at_2 = omega arith;
  at_3 = omega arith;
  at_4 = omega arith;
  at_5 = omega arith;
  at_6 = omega arith;
  at_7 = omega arith;
  at_8 = omega arith;
  at_11 = omega arith;
  at_18 = omega arith;
  at_21 = omega arith;
}

-- the hash of a peer is the peer
abbrev echo_platform : Platform
echo_platform = record toy_platform { argon2 = λ peer salt. some peer }

weak-tried : AllTried kin_network echo_platform 2000 16 ((200 ∷ 7 ∷ []) ∷ (0 ∷ 9 ∷ []) ∷ [])
unfolding compute_pow_hash leading_zeros kinetic.Challenge.byte_zeros
weak-tried = ((200 ∷ 7 ∷ [], refl, refl), ((0 ∷ 9 ∷ [], refl, refl), tt))

strong-hashed :
    compute_pow_hash echo_platform (0 ∷ 0 ∷ 8 ∷ []) (staggered_epoch (0 ∷ 0 ∷ 8 ∷ []) 2000)
    ≡ some (0 ∷ 0 ∷ 8 ∷ [])
unfolding compute_pow_hash
strong-hashed = refl

strong-enough : 16 ≤ leading_zeros (0 ∷ 0 ∷ 8 ∷ [])
unfolding leading_zeros kinetic.Challenge.byte_zeros
strong-enough = omega arith

solve_ends_example :
    (solve_p2p_challenge kin_network echo_platform 2000 16
        (((200 ∷ 7 ∷ []) ∷ (0 ∷ 9 ∷ []) ∷ []) ++ (0 ∷ 0 ∷ 8 ∷ []) ∷ (9 ∷ []) ∷ [])
      ≡ mined (0 ∷ 0 ∷ 8 ∷ []))
    × (verify_p2p_challenge kin_network echo_platform (0 ∷ 0 ∷ 8 ∷ []) 3440 16 ≡ true)
solve_ends_example =
    solve_ends kin_network echo_platform 2000 3440 16 ((200 ∷ 7 ∷ []) ∷ (0 ∷ 9 ∷ []) ∷ [])
      (0 ∷ 0 ∷ 8 ∷ []) (0 ∷ 0 ∷ 8 ∷ []) ((9 ∷ []) ∷ []) refl (omega arith) weak-tried strong-hashed
      strong-enough (omega arith) (omega arith) (omega arith)
