-- ===== src/Physics/Takeover.antt =====
-- The takeover cost of an idle name (kinetic-core/src/physics.rs).
use native.Mathlib.Nat.{le-div_iff_mul-le, div-mul-le_self, div-le_self, mod-eq_of_lt, le_trans}
use kinetic.Prelude.{ℕ, ◌+◌, ◌*◌, ◌-◌, ◌/◌, ◌^◌, ◌≤◌, ◌<◌, ◌≡◌, ◌⊎◌, min, max, arith}
use kinetic.Prelude.Words.{u64_max, saturating_add}
use kinetic.Config.{NetworkConstants}
use kinetic.Physics.{multiplier, takeover_iterations}

mul_mono : (a b c d : ℕ) → a ≤ c → b ≤ d → a * b ≤ c * d
mul_mono a b c d h g = grind arith

div_anti : (n a b : ℕ) → 0 < a → a ≤ b → n / b ≤ n / a
div_anti n a b p h =
    (le-div_iff_mul-le {x = n / b} {y = n} p).1
      (le_trans (mul_mono (n / b) a (n / b) b (omega arith) h) (div-mul-le_self n b))

square_pos : (a : ℕ) → 0 < a → 0 < a * a
square_pos a h = mul_mono 1 1 a a h h

-- the capped product, when nothing wraps
capped : ℕ → ℕ → ℕ
capped base factor = min (base * factor) u64_max

module _ (k : NetworkConstants) (small : k.takeover_target_kyns < 2 ^ 32) where
  multiplier_bound : (idle_plus : ℕ) → multiplier k.takeover_target_kyns idle_plus ≤ 2 ^ 64 - 1
  unfolding multiplier
  multiplier_bound i =
      let t = k.takeover_target_kyns in
      let square : t * t ≤ (2 ^ 32 - 1) * (2 ^ 32 - 1) =
        mul_mono t t (2 ^ 32 - 1) (2 ^ 32 - 1) (omega arith) (omega arith) in
      let quotient : t * t / (i * i) ≤ t * t = div-le_self (t * t) (i * i) in
      let bound : t * t / (i * i) ≤ 2 ^ 64 - 1 =
        le_trans quotient (le_trans square (omega arith)) in
      ground arith

  takeover-eq-capped :
      (base idle : ℕ)
      → base ≤ u64_max
      → takeover_iterations k base idle
        ≡ capped base (max 1 (multiplier k.takeover_target_kyns (saturating_add idle 1)))
  unfolding takeover_iterations capped
  takeover-eq-capped base idle h =
      let m = max 1 (multiplier k.takeover_target_kyns (saturating_add idle 1)) in
      let small_m : m ≤ 2 ^ 64 - 1 = omega (arith, multiplier_bound (saturating_add idle 1)) in
      let product : base * m ≤ (2 ^ 64 - 1) * (2 ^ 64 - 1) =
        mul_mono base m (2 ^ 64 - 1) (2 ^ 64 - 1) h small_m in
      let fits : base * m < 2 ^ 128 = omega arith in rw (mod-eq_of_lt fits) (ground arith)

  -- For a 64-bit base cost and a target below 2 ^ 32 kyns, the takeover cost is at least the base
  -- cost, fits in 64 bits, and is the base cost itself once the name was idle for the target time.
  pub takeover_bounds :
      (base idle : ℕ)
      → base ≤ u64_max
      → (base ≤ takeover_iterations k base idle)
        × (takeover_iterations k base idle ≤ u64_max)
        × ((idle + 1 < k.takeover_target_kyns) ⊎ (takeover_iterations k base idle ≡ base))
  takeover_bounds base idle h =
      let m = max 1 (multiplier k.takeover_target_kyns (saturating_add idle 1)) in
      let grows : base * 1 ≤ base * m = mul_mono base 1 base m (omega arith) (omega arith) in
      let eq = takeover-eq-capped base idle h in
      (
        unfold capped in omega arith,
        unfold capped in omega arith,
        unfold capped multiplier in ground (arith, eq),
      )

  multiplier_anti :
      (a b : ℕ)
      → 0 < a
      → a ≤ b
      → max 1 (multiplier k.takeover_target_kyns b) ≤ max 1 (multiplier k.takeover_target_kyns a)
  unfolding multiplier
  multiplier_anti a b p h =
      let t = k.takeover_target_kyns in
      let squares : a * a ≤ b * b = mul_mono a a b b h h in
      let quotients : t * t / (b * b) ≤ t * t / (a * a) =
        div_anti (t * t) (a * a) (b * b) (square_pos a p) squares in
      ground arith

  -- For a 64-bit base cost and a target below 2 ^ 32 kyns, the longer a name is idle the less its
  -- takeover costs.
  pub takeover_anti :
      (base a b : ℕ)
      → base ≤ u64_max
      → a ≤ b
      → takeover_iterations k base b ≤ takeover_iterations k base a
  takeover_anti base a b h le =
      let ma = max 1 (multiplier k.takeover_target_kyns (saturating_add a 1)) in
      let mb = max 1 (multiplier k.takeover_target_kyns (saturating_add b 1)) in
      let falls : mb ≤ ma =
        multiplier_anti (saturating_add a 1) (saturating_add b 1) (omega arith) (omega arith) in
      let products : base * mb ≤ base * ma = mul_mono base mb base ma (omega arith) falls in
      rw (takeover-eq-capped base a h, takeover-eq-capped base b h) (unfold capped in omega arith)
