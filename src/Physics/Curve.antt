-- ===== src/Physics/Curve.antt =====
-- The Name Difficulty Curve (kinetic-core/src/physics.rs).
use Prim.Native.Nat.add
use native.Mathlib.Nat.{
  le_refl, le-div_iff_mul-le, div-mul-le_self, le_trans, mod-eq_of_lt, mul-div_cancel,
}
use kinetic.Prelude.{ℕ, zero, suc, ◌+◌, ◌*◌, ◌-◌, ◌/◌, ◌^◌, ◌≤◌, ◌<◌, ◌≡◌, ap, false, arith, length}
use kinetic.Prelude.Bytes.{Bytes}
use kinetic.Config.{NetworkConstants}
use kinetic.Physics.{scaled, curve, label_iters}

-- The target times of the network fall with the length of the label, down to the time of the base
-- cost, and the cost of the shortest label fits in 64 bits.
pub record IsCalibrated (k : NetworkConstants) : Type 0 where
  pub production : k.dev_mode ≡ false
  pub timed : 0 < k.target_minutes
  pub fits : k.base_iterations * k.ndc_len_0_to_1 / k.target_minutes < 2 ^ 64
  pub at_2 : k.ndc_len_2 ≤ k.ndc_len_0_to_1
  pub at_3 : k.ndc_len_3 ≤ k.ndc_len_2
  pub at_4 : k.ndc_len_4 ≤ k.ndc_len_3
  pub at_5 : k.ndc_len_5 ≤ k.ndc_len_4
  pub at_6 : k.ndc_len_6 ≤ k.ndc_len_5
  pub at_7 : k.ndc_len_7 ≤ k.ndc_len_6
  pub at_8 : k.ndc_len_8_to_10 ≤ k.ndc_len_7
  pub at_11 : k.ndc_len_11_to_17 ≤ k.ndc_len_8_to_10
  pub at_18 : k.ndc_len_18_to_20 ≤ k.ndc_len_11_to_17
  pub at_21 : k.target_minutes ≤ k.ndc_len_18_to_20

div_mono : (n m d : ℕ) → 0 < d → n ≤ m → n / d ≤ m / d
div_mono n m d p h = (le-div_iff_mul-le {x = n / d} {y = m} p).1 (le_trans (div-mul-le_self n d) h)

mul_mono : (a b c : ℕ) → b ≤ c → a * b ≤ a * c
mul_mono a b c h = grind arith

-- the costs along the curve
record IsFalling (k : NetworkConstants) : Type 0 where
  two : scaled k k.ndc_len_2 ≤ scaled k k.ndc_len_0_to_1
  three : scaled k k.ndc_len_3 ≤ scaled k k.ndc_len_2
  four : scaled k k.ndc_len_4 ≤ scaled k k.ndc_len_3
  five : scaled k k.ndc_len_5 ≤ scaled k k.ndc_len_4
  six : scaled k k.ndc_len_6 ≤ scaled k k.ndc_len_5
  seven : scaled k k.ndc_len_7 ≤ scaled k k.ndc_len_6
  eight : scaled k k.ndc_len_8_to_10 ≤ scaled k k.ndc_len_7
  eleven : scaled k k.ndc_len_11_to_17 ≤ scaled k k.ndc_len_8_to_10
  eighteen : scaled k k.ndc_len_18_to_20 ≤ scaled k k.ndc_len_11_to_17
  rest : k.base_iterations ≤ scaled k k.ndc_len_18_to_20

module _ (k : NetworkConstants) (c : IsCalibrated k) where
  -- the quotient for a time of the curve, which does not wrap
  scaled_exact :
      (t : ℕ) → t ≤ k.ndc_len_0_to_1 → scaled k t ≡ k.base_iterations * t / k.target_minutes
  unfolding scaled
  scaled_exact t h =
      let products = mul_mono k.base_iterations t k.ndc_len_0_to_1 h in
      let quotients =
        div_mono (k.base_iterations * t) (k.base_iterations * k.ndc_len_0_to_1) k.target_minutes
          c.timed products in
      mod-eq_of_lt (omega (arith, c.fits))

  scaled_mono : (s t : ℕ) → s ≤ t → t ≤ k.ndc_len_0_to_1 → scaled k s ≤ scaled k t
  scaled_mono s t h top =
      rw (scaled_exact s (omega arith), scaled_exact t top)
        (div_mono (k.base_iterations * s) (k.base_iterations * t) k.target_minutes c.timed
          (mul_mono k.base_iterations s t h))

  base-le-scaled :
      (t : ℕ) → k.target_minutes ≤ t → t ≤ k.ndc_len_0_to_1 → k.base_iterations ≤ scaled k t
  base-le-scaled t h top =
      let whole : k.base_iterations * k.target_minutes / k.target_minutes ≡ k.base_iterations =
        mul-div_cancel k.base_iterations c.timed in
      let grows =
        div_mono (k.base_iterations * k.target_minutes) (k.base_iterations * t) k.target_minutes
          c.timed (mul_mono k.base_iterations k.target_minutes t h) in
      omega (arith, scaled_exact t top)

  stairs : IsFalling k
  stairs = record {
    two = scaled_mono k.ndc_len_2 k.ndc_len_0_to_1 c.at_2 (omega arith);
    three = scaled_mono k.ndc_len_3 k.ndc_len_2 c.at_3 (omega arith);
    four = scaled_mono k.ndc_len_4 k.ndc_len_3 c.at_4 (omega arith);
    five = scaled_mono k.ndc_len_5 k.ndc_len_4 c.at_5 (omega arith);
    six = scaled_mono k.ndc_len_6 k.ndc_len_5 c.at_6 (omega arith);
    seven = scaled_mono k.ndc_len_7 k.ndc_len_6 c.at_7 (omega arith);
    eight = scaled_mono k.ndc_len_8_to_10 k.ndc_len_7 c.at_8 (omega arith);
    eleven = scaled_mono k.ndc_len_11_to_17 k.ndc_len_8_to_10 c.at_11 (omega arith);
    eighteen = scaled_mono k.ndc_len_18_to_20 k.ndc_len_11_to_17 c.at_18 (omega arith);
    rest = base-le-scaled k.ndc_len_18_to_20 c.at_21 (omega arith);
  }

  -- One more character never raises the cost.
  curve-suc : (len : ℕ) → curve k (suc len) ≤ curve k len
  unfolding curve
  curve-suc zero = omega (arith, stairs)
  curve-suc (suc zero) = omega (arith, stairs)
  curve-suc (suc (suc zero)) = omega (arith, stairs)
  curve-suc (suc (suc (suc zero))) = omega (arith, stairs)
  curve-suc (suc (suc (suc (suc zero)))) = omega (arith, stairs)
  curve-suc (suc (suc (suc (suc (suc zero))))) = omega (arith, stairs)
  curve-suc (suc (suc (suc (suc (suc (suc zero)))))) = omega (arith, stairs)
  curve-suc (suc (suc (suc (suc (suc (suc (suc zero))))))) = omega (arith, stairs)
  curve-suc (suc (suc (suc (suc (suc (suc (suc (suc zero)))))))) = omega (arith, stairs)
  curve-suc (suc (suc (suc (suc (suc (suc (suc (suc (suc zero))))))))) = omega (arith, stairs)
  curve-suc (suc (suc (suc (suc (suc (suc (suc (suc (suc (suc zero)))))))))) = omega (arith, stairs)
  curve-suc (suc (suc (suc (suc (suc (suc (suc (suc (suc (suc (suc zero))))))))))) =
      omega (arith, stairs)
  curve-suc (suc (suc (suc (suc (suc (suc (suc (suc (suc (suc (suc (suc zero)))))))))))) =
      omega (arith, stairs)
  curve-suc (suc (suc (suc (suc (suc (suc (suc (suc (suc (suc (suc (suc (suc zero))))))))))))) =
      omega (arith, stairs)
  curve-suc
        (suc (suc (suc (suc (suc (suc (suc (suc (suc (suc (suc (suc (suc (suc zero)))))))))))))) =
      omega (arith, stairs)
  curve-suc
        (suc (
          suc (suc (suc (suc (suc (suc (suc (suc (suc (suc (suc (suc (suc (suc zero))))))))))))))) =
      omega (arith, stairs)
  curve-suc
        (suc (
          suc (
            suc (
              suc (suc (suc (suc (suc (suc (suc (suc (suc (suc (suc (suc (suc zero)))))))))))))))) =
      omega (arith, stairs)
  curve-suc
        (suc (
          suc (
            suc (
              suc (
                suc (
                  suc (suc (suc (suc (suc (suc (suc (suc (suc (suc (suc (suc zero))))))))))))))))) =
      omega (arith, stairs)
  curve-suc
        (suc (
          suc (
            suc (
              suc (
                suc (
                  suc (
                    suc (
                      suc (suc (suc (suc (suc (suc (suc (suc (suc (suc (suc zero)))))))))))))))))) =
      omega (arith, stairs)
  curve-suc
        (suc (
          suc (
            suc (
              suc (
                suc (
                  suc (
                    suc (
                      suc (
                        suc (
                          suc (suc (suc (suc (suc (suc (suc (suc (suc (suc zero))))))))))))))))))) =
      omega (arith, stairs)
  curve-suc
        (suc (
          suc (
            suc (
              suc (
                suc (
                  suc (
                    suc (
                      suc (
                        suc (
                          suc (
                            suc (
                              suc (suc (suc (suc (suc (suc (suc (suc (suc zero)))))))))))))))))))) =
      omega (arith, stairs)
  curve-suc
        (suc (
          suc (
            suc (
              suc (
                suc (
                  suc (
                    suc (
                      suc (
                        suc (
                          suc (
                            suc (
                              suc (
                                suc
                                  (suc (suc (suc (suc (suc (suc (suc (suc len))))))))))))))))))))) =
      ground arith

  curve-add : (len more : ℕ) → curve k (more + len) ≤ curve k len
  curve-add len zero = rw (add.zero len) (le_refl (curve k len))
  curve-add len (suc more) =
      rw (add.suc more len) (le_trans (curve-suc (more + len)) (curve-add len more))

  curve-base : (len : ℕ) → k.base_iterations ≤ curve k len
  curve-base len =
      let far : curve k (21 + len) ≡ k.base_iterations = unfold curve in ground arith in
      omega (arith, curve-add len 21)

  -- On a network outside of dev mode whose target times fall with the length, end above the base
  -- time and stay within 64 bits, a longer label never costs more than a shorter one, and no label
  -- costs less than the base cost.
  pub label_iters_anti :
      (short long : Bytes)
      → length short ≤ length long
      → (label_iters k long ≤ label_iters k short) × (k.base_iterations ≤ label_iters k long)
  unfolding label_iters
  label_iters_anti short long h =
      let n = length long - length short in
      let e : n + length short ≡ length long = omega arith in
      let falls = curve-add (length short) n in
      let base = curve-base (length long) in ground (arith, c.production, ap (curve k) e)
