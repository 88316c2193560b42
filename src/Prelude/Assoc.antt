-- ===== src/Prelude/Assoc.antt =====
-- Maps keyed by byte strings, as association lists: what the source uses of `HashMap`.
use mathlib.Core.Path.{◌≡◌, refl}
use mathlib.Core.Bool.{Bool, true, false}
use mathlib.Core.Option.{Option, none, some}
use mathlib.Core.List.{List, [], ◌∷◌}
use native.Mathlib.Omega.{arith}
use kinetic.Prelude.Tests.{if◌then◌else◌}
use kinetic.Prelude.Lists.{any}
use kinetic.Prelude.Bytes.{Bytes, bytes_eq, bytes_eq_iff}

abbrev pub Assoc {ℓ} : Type ℓ → Type ℓ
Assoc V = List (Bytes × V)

module _ {ℓ} {V : Type ℓ} where
  unfoldable pub lookup : Bytes → Assoc V → Option V
  lookup k [] = none
  lookup k ((j, v) ∷ m) = if bytes_eq j k then some v else lookup k m

  unfoldable pub insert : Bytes → V → Assoc V → Assoc V
  insert k v [] = (k, v) ∷ []
  insert k v ((j, w) ∷ m) = if bytes_eq j k then (k, v) ∷ m else (j, w) ∷ insert k v m

  unfoldable pub remove : Bytes → Assoc V → Assoc V
  remove k [] = []
  remove k ((j, w) ∷ m) = let rest = remove k m in if bytes_eq j k then rest else (j, w) ∷ rest

  -- `m.retain(|_, v| keep(v))`
  unfoldable pub retain : (V → Bool) → Assoc V → Assoc V
  retain keep [] = []
  retain keep ((j, w) ∷ m) = let rest = retain keep m in if keep w then (j, w) ∷ rest else rest

  unfoldable pub contains_key : Bytes → Assoc V → Bool
  contains_key k m = elim (lookup k m) [ none ↦ false | some _ ↦ true ]

  pub lookup-insert :
      (k j : Bytes) (v : V) (m : Assoc V)
      → lookup j (insert k v m) ≡ (if bytes_eq k j then some v else lookup j m)
  unfolding lookup insert
  lookup-insert k j v [] = refl
  lookup-insert k j v ((i, w) ∷ m) =
      ground (arith, bytes_eq_iff k j, bytes_eq_iff i k, bytes_eq_iff i j, lookup-insert k j v m)

  pub lookup-remove :
      (k j : Bytes) (m : Assoc V)
      → lookup j (remove k m) ≡ (if bytes_eq k j then none else lookup j m)
  unfolding lookup remove
  lookup-remove k j [] = ground arith
  lookup-remove k j ((i, w) ∷ m) =
      ground (arith, bytes_eq_iff k j, bytes_eq_iff i k, bytes_eq_iff i j, lookup-remove k j m)

  -- An entry that is found and passes the test is kept.
  pub lookup-retain :
      (keep : V → Bool) (j : Bytes) (v : V) (m : Assoc V)
      → lookup j m ≡ some v
      → keep v ≡ true
      → lookup j (retain keep m) ≡ some v
  unfolding lookup retain
  lookup-retain keep j v [] h k = cc
  lookup-retain keep j v ((i, w) ∷ m) h k = ground (arith, lookup-retain keep j v m)

  -- a map without some keys
  unfoldable pub remove_all : List Bytes → Assoc V → Assoc V
  remove_all [] m = m
  remove_all (k ∷ ks) m = remove_all ks (remove k m)

-- one of the keys
abbrev pub among : Bytes → List Bytes → Bool
among k ks = any (λ j. bytes_eq j k) ks

module _ {ℓ} {V : Type ℓ} where
  pub lookup-remove_all :
      (ks : List Bytes) (j : Bytes) (m : Assoc V)
      → lookup j (remove_all ks m) ≡ (if among j ks then none else lookup j m)
  unfolding remove_all
  lookup-remove_all [] j m = refl
  lookup-remove_all (k ∷ ks) j m =
      ground (arith, lookup-remove_all ks j (remove k m), lookup-remove k j m)
