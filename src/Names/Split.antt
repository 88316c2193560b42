-- ===== src/Names/Split.antt =====
-- Splitting at dots, joining again, and the last two labels (kinetic-core/src/types/names.rs).
use kinetic.Prelude.{
  ℕ, ◌≤◌, ◌<◌, ◌≡◌, ◌≢◌, refl, ap, ◌⊎◌, inl, inr, some, List, [], ◌∷◌, ◌++◌, arith, length,
  length-append, All,
}
use kinetic.Prelude.Bytes.{Bytes}
use kinetic.Names.{split_dots, last_two}

abbrev pub NoDot : Bytes → Type 0
NoDot = All (λ c. c ≢ b'.')

abbrev pub join_dots : List Bytes → Bytes
join_dots [] = []
join_dots (part ∷ []) = part
join_dots (part ∷ next ∷ parts) = part ++ b'.' ∷ join_dots (next ∷ parts)

pub split_dots-ne_nil : (s : Bytes) → split_dots s ≢ []
unfolding split_dots
split_dots-ne_nil [] h = cc
split_dots-ne_nil (c ∷ s) h = ground (arith, split_dots-ne_nil s)

-- what `split_dots` does with one more character that is no dot
add_char : ℕ → List Bytes → List Bytes
add_char c [] = (c ∷ []) ∷ []
add_char c (part ∷ parts) = (c ∷ part) ∷ parts

split_dots-cons : (c : ℕ) (s : Bytes) → c ≢ b'.' → split_dots (c ∷ s) ≡ add_char c (split_dots s)
unfolding split_dots add_char
split_dots-cons c s h = ground arith

split_dots_dot : (c : ℕ) (s : Bytes) → c ≡ b'.' → split_dots (c ∷ s) ≡ [] ∷ split_dots s
unfolding split_dots
split_dots_dot c s h = ground arith

add_char-append :
    (c : ℕ) (xs ys : List Bytes) → xs ≢ [] → add_char c (xs ++ ys) ≡ add_char c xs ++ ys
unfolding add_char
add_char-append c [] ys h = absurd (h refl)
add_char-append c (x ∷ xs) ys h = refl

dot-cases : (c : ℕ) → (c ≡ b'.') ⊎ (c ≢ b'.')
dot-cases c = ground arith

-- A dot cuts the labels in two.
pub split_dots-append : (s t : Bytes) → split_dots (s ++ b'.' ∷ t) ≡ split_dots s ++ split_dots t
split_dots-append [] t = rw (split_dots_dot b'.' t refl) (unfold split_dots in refl)
split_dots-append (c ∷ s) t = elim (dot-cases c) [
  | inl e ↦
      rw (split_dots_dot c (s ++ b'.' ∷ t) e, split_dots_dot c s e)
        (ap (λ l. [] ∷ l) (split_dots-append s t))
  | inr n ↦
      rw (split_dots-cons c (s ++ b'.' ∷ t) n, split_dots-cons c s n, split_dots-append s t)
        (add_char-append c (split_dots s) (split_dots t) (split_dots-ne_nil s))
]

pub split_dots_of_NoDot : (s : Bytes) → NoDot s → split_dots s ≡ s ∷ []
split_dots_of_NoDot [] h = unfold split_dots in refl
split_dots_of_NoDot (c ∷ s) h =
    rw (split_dots-cons c s h.0, split_dots_of_NoDot s h.1) (unfold add_char in refl)

join_dots-add_char :
    (c : ℕ) (xs : List Bytes) → xs ≢ [] → join_dots (add_char c xs) ≡ c ∷ join_dots xs
unfolding add_char
join_dots-add_char c [] h = absurd (h refl)
join_dots-add_char c (x ∷ []) h = refl
join_dots-add_char c (x ∷ y ∷ xs) h = refl

join_dots-nil_cons : (xs : List Bytes) → xs ≢ [] → join_dots ([] ∷ xs) ≡ b'.' ∷ join_dots xs
join_dots-nil_cons [] h = absurd (h refl)
join_dots-nil_cons (x ∷ xs) h = refl

-- Joining the labels gives the text back.
pub join_dots-split_dots : (s : Bytes) → join_dots (split_dots s) ≡ s
join_dots-split_dots [] = unfold split_dots in refl
join_dots-split_dots (c ∷ s) = elim (dot-cases c) [
  | inl e ↦
      rw (split_dots_dot c s e, join_dots-nil_cons (split_dots s) (split_dots-ne_nil s))
        (cc (join_dots-split_dots s))
  | inr n ↦
      rw (split_dots-cons c s n, join_dots-add_char c (split_dots s) (split_dots-ne_nil s))
        (ap (λ l. c ∷ l) (join_dots-split_dots s))
]

-- The last two labels are no longer than the whole text, and shorter when there are three.
pub length-last_two :
    (parts : List Bytes) (apex : Bytes)
    → last_two parts ≡ some apex
    → length apex ≤ length (join_dots parts)
unfolding last_two
length-last_two [] apex h = cc
length-last_two (a ∷ []) apex h = cc
length-last_two (a ∷ b ∷ []) apex h = ground arith
length-last_two (a ∷ b ∷ d ∷ rest) apex h = omega (
  arith,
  length-append {0} a (b'.' ∷ join_dots (b ∷ d ∷ rest)),
  length-last_two (b ∷ d ∷ rest) apex h,
)

pub length-last_two_of_three :
    (a b d : Bytes) (rest : List Bytes) (apex : Bytes)
    → last_two (a ∷ b ∷ d ∷ rest) ≡ some apex
    → length apex < length (join_dots (a ∷ b ∷ d ∷ rest))
unfolding last_two
length-last_two_of_three a b d rest apex h = omega (
  arith,
  length-append {0} a (b'.' ∷ join_dots (b ∷ d ∷ rest)),
  length-last_two (b ∷ d ∷ rest) apex h,
)

pub last_two-IsSome :
    (a b : Bytes) (rest : List Bytes) → (apex : Bytes) × (last_two (a ∷ b ∷ rest) ≡ some apex)
unfolding last_two
last_two-IsSome a b [] = (a ++ b'.' ∷ b, refl)
last_two-IsSome a b (d ∷ rest) = last_two-IsSome b d rest
