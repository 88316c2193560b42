-- ===== src/Prelude/Bytes.antt =====
-- Byte strings, as `&[u8]` and as the UTF-8 bytes of `&str`.
use Prim.Native.Nat.{ℕ, zero, suc}
use Prim.Native.Char.{code}
use Prim.Native.String.{String}
use mathlib.Core.Path.{◌≡◌, refl, ap}
use mathlib.Core.Logic.{◌↔◌, inl, inr}
use mathlib.Core.Bool.{Bool, true, false, ◌&&◌, ◌||◌}
use mathlib.Core.Option
use mathlib.Core.Option.{Option, none, some}
use mathlib.Core.List.{List, [], ◌∷◌, ◌++◌}
use native.Mathlib.Omega.{arith}
use kinetic.Prelude.Tests.{◌==◌, if◌then◌else◌, Bool-cases}

abbrev pub Bytes : Type 0
Bytes = List ℕ

-- the code points of an ASCII literal, which are its bytes
abbrev pub codes : String → Bytes
codes String.[] = []
codes (String.◌∷◌ c s) = code c ∷ codes s

unfoldable pub bytes_eq : Bytes → Bytes → Bool
bytes_eq [] [] = true
bytes_eq [] (y ∷ ys) = false
bytes_eq (x ∷ xs) [] = false
bytes_eq (x ∷ xs) (y ∷ ys) = x == y && bytes_eq xs ys

pub bytes_eq→≡ : (a b : Bytes) → bytes_eq a b ≡ true → a ≡ b
unfolding bytes_eq
bytes_eq→≡ [] [] h = refl
bytes_eq→≡ [] (y ∷ ys) h = cc
bytes_eq→≡ (x ∷ xs) [] h = cc
bytes_eq→≡ (x ∷ xs) (y ∷ ys) h = ground (arith, bytes_eq→≡ xs ys)

pub bytes_eq_refl : (a : Bytes) → bytes_eq a a ≡ true
unfolding bytes_eq
bytes_eq_refl [] = refl
bytes_eq_refl (x ∷ xs) = ground (arith, bytes_eq_refl xs)

pub bytes_eq_iff : (a b : Bytes) → (bytes_eq a b ≡ true) ↔ (a ≡ b)
bytes_eq_iff a b = (bytes_eq→≡ a b, λ e. rw e (bytes_eq_refl b))

-- `s.ends_with(suffix)`
unfoldable pub ends_with : Bytes → Bytes → Bool
unfolding bytes_eq
ends_with [] suffix = bytes_eq [] suffix
ends_with (c ∷ s) suffix = bytes_eq (c ∷ s) suffix || ends_with s suffix

-- `s.strip_suffix(suffix)`
unfoldable pub strip_suffix : Bytes → Bytes → Option Bytes
unfolding bytes_eq
strip_suffix [] suffix = if bytes_eq [] suffix then some [] else none
strip_suffix (c ∷ s) suffix =
    if bytes_eq (c ∷ s) suffix then some [] else Option.map (λ t. c ∷ t) (strip_suffix s suffix)

pub ends_with-append : (s suffix : Bytes) → ends_with (s ++ suffix) suffix ≡ true
unfolding ends_with
ends_with-append [] [] = refl
ends_with-append [] (c ∷ suffix) = ground (arith, bytes_eq_refl suffix)
ends_with-append (c ∷ s) suffix = ground (arith, ends_with-append s suffix)

pub ends_with→append :
    (s suffix : Bytes) → ends_with s suffix ≡ true → (t : Bytes) × (s ≡ t ++ suffix)
unfolding ends_with
ends_with→append [] suffix h = ([], bytes_eq→≡ [] suffix h)
ends_with→append (c ∷ s) suffix h = elim (Bool-cases (bytes_eq (c ∷ s) suffix)) [
  | inl e ↦ ([], bytes_eq→≡ (c ∷ s) suffix e)
  | inr n ↦ let (t, e) = ends_with→append s suffix (ground arith) in (c ∷ t, ap (λ l. c ∷ l) e)
]

-- the byte at an index, 0 past the end
abbrev pub nth : ℕ → Bytes → ℕ
nth _ [] = 0
nth zero (x ∷ _) = x
nth (suc i) (_ ∷ xs) = nth i xs
