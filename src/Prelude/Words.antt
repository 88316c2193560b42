-- ===== src/Prelude/Words.antt =====
-- Machine words over the native numbers: `u64` arithmetic as the source writes it, and big-endian
-- bytes.
use Prim.Native.Nat.{ℕ, zero, suc, ◌+◌, ◌-◌, ◌*◌, ◌/◌, ◌%◌, ◌^◌, ◌<◌, min}
use mathlib.Core.Path.{◌≡◌, refl, sym, ap, ◌∙◌}
use Prim.Native.Nat.pow
use mathlib.Core.List.{[], ◌∷◌, ◌++◌}
use native.Mathlib.Omega.{arith}
use kinetic.Prelude.Lists.{length, length-append}
use kinetic.Prelude.Bytes.{Bytes}

abbrev pub u64_max : ℕ
u64_max = 2 ^ 64 - 1

-- `a.saturating_add(b)` on `u64`; `saturating_sub` is `◌-◌`
abbrev pub saturating_add : ℕ → ℕ → ℕ
saturating_add a b = min (a + b) u64_max

-- `a + b` on `u64` in a release build
abbrev pub add64 : ℕ → ℕ → ℕ
add64 a b = (a + b) % 2 ^ 64

-- `a.abs_diff(b)`
abbrev pub abs_diff : ℕ → ℕ → ℕ
abs_diff a b = (a - b) + (b - a)

-- the low `w` bytes of `n`, most significant first
unfoldable pub be_bytes : ℕ → ℕ → Bytes
be_bytes zero n = []
be_bytes (suc w) n = be_bytes w (n / 256) ++ (n % 256) ∷ []

-- the number whose digits to base 256 follow `acc`
unfoldable pub from_be : ℕ → Bytes → ℕ
from_be acc [] = acc
from_be acc (b ∷ bs) = from_be (acc * 256 + b) bs

abbrev pub u64_be : ℕ → Bytes
u64_be n = be_bytes 8 n

abbrev pub u32_be : ℕ → Bytes
u32_be n = be_bytes 4 n

pub length-be_bytes : (w n : ℕ) → length (be_bytes w n) ≡ w
unfolding be_bytes
length-be_bytes zero n = refl
length-be_bytes (suc w) n =
    omega (
      arith,
      length-append {0} (be_bytes w (n / 256)) ((n % 256) ∷ []),
      length-be_bytes w (n / 256),
    )

from_be-append : (acc : ℕ) (a b : Bytes) → from_be acc (a ++ b) ≡ from_be (from_be acc a) b
unfolding from_be
from_be-append acc [] b = refl
from_be-append acc (x ∷ a) b = from_be-append (acc * 256 + x) a b

-- The big-endian bytes of a word that fits give the word back.
pub from_be-be_bytes : (w n : ℕ) → n < 256 ^ w → from_be 0 (be_bytes w n) ≡ n
unfolding be_bytes
from_be-be_bytes zero n h = unfold from_be in omega (arith, pow.zero 256)
from_be-be_bytes (suc w) n h =
    let k : n / 256 < 256 ^ w = omega (arith, pow.suc 256 w) in
    rw (from_be-append 0 (be_bytes w (n / 256)) ((n % 256) ∷ []))
      (rw (from_be-be_bytes w (n / 256) k) (unfold from_be in omega arith))

pub be_bytes_inj : (w a b : ℕ) → a < 256 ^ w → b < 256 ^ w → be_bytes w a ≡ be_bytes w b → a ≡ b
be_bytes_inj w a b ha hb e =
    sym (from_be-be_bytes w a ha) ∙ ap (from_be 0) e ∙ from_be-be_bytes w b hb
