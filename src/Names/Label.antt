-- ===== src/Names/Label.antt =====
-- The labels that `is_valid_apex_name` lets pass (kinetic-core/src/types/names.rs), described apart
-- from its tests.
use kinetic.Prelude.{
  ℕ, ◌≤◌, ◌<◌, ◌≡◌, ◌≢◌, refl, ◌⊎◌, inl, inr, true, false, none, List, [], ◌∷◌, ◌++◌, arith,
  Bool-cases, length, All,
}
use kinetic.Prelude.Bytes.{Bytes, ends_with, ends_with-append, ends_with→append}
use kinetic.Names.{has_bad_character, starts_with_hyphen, check_label, check_labels}

-- a lower-case ASCII letter, a digit or a hyphen
abbrev pub IsLdh : ℕ → Type 0
IsLdh c = ((97 ≤ c) × (c ≤ 122)) ⊎ (((48 ≤ c) × (c ≤ 57)) ⊎ (c ≡ 45))

-- an LDH label of RFC 1123
pub record IsLabel (part : Bytes) : Type 0 where
  pub filled : 0 < length part
  pub short : length part ≤ 63
  pub characters : All IsLdh part
  pub no_first_hyphen : (t : Bytes) → part ≢ b'-' ∷ t
  pub no_last_hyphen : (t : Bytes) → part ≢ t ++ b'-' ∷ []

bad_character-IsLdh : (part : Bytes) → has_bad_character part ≡ false → All IsLdh part
unfolding has_bad_character
bad_character-IsLdh [] h = tt
bad_character-IsLdh (c ∷ part) h = (ground arith, bad_character-IsLdh part (ground arith))

IsLdh-bad_character : (part : Bytes) → All IsLdh part → has_bad_character part ≡ false
unfolding has_bad_character
IsLdh-bad_character [] h = refl
IsLdh-bad_character (c ∷ part) (h, hs) = ground (arith, IsLdh-bad_character part hs)

first_hyphen : (part : Bytes) → starts_with_hyphen part ≡ true → (t : Bytes) × (part ≡ b'-' ∷ t)
first_hyphen [] h = cc
first_hyphen (c ∷ t) h = (t, ground arith)

pub check_label→IsLabel : (part : Bytes) → check_label part ≡ none → IsLabel part
unfolding check_label
check_label→IsLabel part h = record {
  filled = ground arith;
  short = ground arith;
  characters = bad_character-IsLdh part (ground arith);
  no_first_hyphen = λ t e. ground arith;
  no_last_hyphen = λ t e. ground (arith, ends_with-append t (b'-' ∷ []));
}

no_hyphens :
    (part : Bytes)
    → IsLabel part
    → (starts_with_hyphen part ≡ false) × (ends_with part (b'-' ∷ []) ≡ false)
no_hyphens part h =
    (first (Bool-cases (starts_with_hyphen part)), last (Bool-cases (ends_with part (b'-' ∷ []))))
  where
    first :
        (starts_with_hyphen part ≡ true) ⊎ (starts_with_hyphen part ≡ false)
        → starts_with_hyphen part ≡ false
    first (inl e) = let (t, f) = first_hyphen part e in absurd (h.no_first_hyphen t f)
    first (inr e) = e

    last :
        (ends_with part (b'-' ∷ []) ≡ true) ⊎ (ends_with part (b'-' ∷ []) ≡ false)
        → ends_with part (b'-' ∷ []) ≡ false
    last (inl e) = let (t, f) = ends_with→append part (b'-' ∷ []) e in absurd (h.no_last_hyphen t f)
    last (inr e) = e

pub IsLabel→check_label : (part : Bytes) → IsLabel part → check_label part ≡ none
unfolding check_label
IsLabel→check_label part h =
    ground (arith, no_hyphens part h, IsLdh-bad_character part h.characters)

pub check_labels→IsLabel : (parts : List Bytes) → check_labels parts ≡ none → All IsLabel parts
unfolding check_labels
check_labels→IsLabel [] h = tt
check_labels→IsLabel (part ∷ parts) h =
    (check_label→IsLabel part (ground arith), check_labels→IsLabel parts (ground arith))

pub IsLabel→check_labels : (parts : List Bytes) → All IsLabel parts → check_labels parts ≡ none
unfolding check_labels
IsLabel→check_labels [] h = refl
IsLabel→check_labels (part ∷ parts) (h, hs) =
    ground (arith, IsLabel→check_label part h, IsLabel→check_labels parts hs)
