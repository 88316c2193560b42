-- ===== src/Physics.antt =====
-- The cost of a name: kinetic-core/src/physics.rs. `u128` values are plain numbers where they fit,
-- and the products that may not fit are taken modulo 2 ^ 128.
pub mod Takeover
pub mod Curve
use kinetic.Prelude.{
  ℕ, ◌+◌, ◌*◌, ◌/◌, ◌%◌, ◌^◌, max, Option, none, some, ltb, leb, ◌==◌, if◌then◌else◌, length,
}
use kinetic.Prelude.Bytes.{Bytes, strip_suffix}
use kinetic.Prelude.Words.{u64_max, saturating_add}
use kinetic.Config.{NetworkConstants, Platform}
use kinetic.Names.{normalize_name, extract_apex_name}

-- `unwrap_or(&apex)` after `strip_suffix`
unfoldable pub label_of : NetworkConstants → Bytes → Bytes
label_of k apex = elim (strip_suffix apex k.nsp_suffix) [ none ↦ apex | some label ↦ label ]

-- the closure `calc`, whose last cast keeps the low 64 bits
unfoldable pub scaled : NetworkConstants → ℕ → ℕ
scaled k target_minutes = (k.base_iterations * target_minutes / k.target_minutes) % 2 ^ 64

-- the `match` on the length
unfoldable pub curve : NetworkConstants → ℕ → ℕ
curve k len =
    if leb len 1
    then scaled k k.ndc_len_0_to_1
    else if len == 2
    then scaled k k.ndc_len_2
    else if len == 3
    then scaled k k.ndc_len_3
    else if len == 4
    then scaled k k.ndc_len_4
    else if len == 5
    then scaled k k.ndc_len_5
    else if len == 6
    then scaled k k.ndc_len_6
    else if len == 7
    then scaled k k.ndc_len_7
    else if leb len 10
    then scaled k k.ndc_len_8_to_10
    else if leb len 17
    then scaled k k.ndc_len_11_to_17
    else if leb len 20
    then scaled k k.ndc_len_18_to_20
    else k.base_iterations

-- `NetworkPhysics::label_iters`
unfoldable pub label_iters : NetworkConstants → Bytes → ℕ
label_iters k label = if k.dev_mode then k.dev_mode_iterations else curve k (length label)

-- `NetworkPhysics::iterations`
unfoldable pub iterations : NetworkConstants → Platform → Bytes → ℕ
iterations k p name = label_iters k (label_of k (extract_apex_name k p (normalize_name k p name)))

-- the inverse-square factor, before `max(1, multiplier)`
unfoldable pub multiplier : ℕ → ℕ → ℕ
multiplier target_kyns idle_plus =
    if ltb idle_plus target_kyns then target_kyns * target_kyns / (idle_plus * idle_plus) else 1

-- `NetworkPhysics::takeover_iterations`
unfoldable pub takeover_iterations : NetworkConstants → ℕ → ℕ → ℕ
takeover_iterations k base_iterations kyns_idle =
    let idle_plus = saturating_add kyns_idle 1 in
    let difficulty =
      (base_iterations * max 1 (multiplier k.takeover_target_kyns idle_plus)) % 2 ^ 128 in
    if ltb u64_max difficulty then u64_max else difficulty
