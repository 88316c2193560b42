-- ===== src/Names.antt =====
-- Domain names: kinetic-core/src/types/names.rs. A text is the list of its UTF-8 bytes; a character
-- outside ASCII has bytes of 128 and more only, so the tests on characters are tests on bytes.
pub mod Split
pub mod Label
pub mod Normal
pub mod Apex
use kinetic.Prelude.{
  ℕ, ◌-◌, Bool, true, false, not, ◌&&◌, ◌||◌, Option, none, some, List, [], ◌∷◌, ◌++◌, ltb, leb,
  ◌==◌, if◌then◌else◌, length, any,
}
use kinetic.Prelude.Bytes.{Bytes, codes, bytes_eq, ends_with}
use kinetic.Config.{NetworkConstants, Platform}

-- one more character in front of a text whose trailing dots are gone
unfoldable pub trim_step : ℕ → Bytes → Bytes
trim_step c [] = if c == b'.' then [] else c ∷ []
trim_step c (d ∷ t) = c ∷ d ∷ t

-- `while norm.ends_with('.') { norm.pop(); }`: the trailing dots are gone
unfoldable pub trim_dots : Bytes → Bytes
trim_dots [] = []
trim_dots (c ∷ s) = trim_step c (trim_dots s)

-- `s.split('.')`
unfoldable pub split_dots : Bytes → List Bytes
split_dots [] = [] ∷ []
split_dots (c ∷ s) =
    let parts = split_dots s in
    if c == b'.'
    then [] ∷ parts
    else elim parts [ [] ↦ (c ∷ []) ∷ [] | part ∷ rest ↦ (c ∷ part) ∷ rest ]

pub data NamesError : Type 0 where
  name_too_long : NamesError
  empty_label : NamesError
  label_too_long : NamesError
  invalid_character : NamesError
  invalid_hyphen_placement : NamesError
  not_an_apex_name : NamesError
  reserved_name : NamesError

abbrev pub reserved_names : List Bytes
reserved_names =
    codes "test"
    ∷ codes "example"
    ∷ codes "invalid"
    ∷ codes "localhost"
    ∷ codes "local"
    ∷ codes "onion"
    ∷ codes "arpa"
    ∷ codes "null"
    ∷ codes "none"
    ∷ codes "zero"
    ∷ codes "corp"
    ∷ codes "lan"
    ∷ codes "internal"
    ∷ codes "home"
    ∷ []

-- a character that is neither a lower-case letter, a digit nor a hyphen
abbrev pub is_ldh : ℕ → Bool
is_ldh c = (leb b'a' c && leb c b'z') || (leb b'0' c && leb c b'9') || (c == b'-')

unfoldable pub has_bad_character : Bytes → Bool
has_bad_character part = any (λ c. not (is_ldh c)) part

abbrev pub starts_with_hyphen : Bytes → Bool
starts_with_hyphen [] = false
starts_with_hyphen (c ∷ s) = c == b'-'

-- the body of the loop over the labels; `none` goes on with the next label
unfoldable pub check_label : Bytes → Option NamesError
check_label part =
    if length part == 0
    then some empty_label
    else if ltb 63 (length part)
    then some label_too_long
    else if has_bad_character part
    then some invalid_character
    else if starts_with_hyphen part || ends_with part (b'-' ∷ [])
    then some invalid_hyphen_placement
    else none

unfoldable pub check_labels : List Bytes → Option NamesError
check_labels [] = none
check_labels (part ∷ parts) =
    let rest = check_labels parts in elim (check_label part) [ some e ↦ some e | none ↦ rest ]

-- `&parts[parts.len() - 2..]` of at least two parts, joined by a dot
unfoldable pub last_two : List Bytes → Option Bytes
last_two [] = none
last_two (a ∷ []) = none
last_two (a ∷ b ∷ []) = some (a ++ b'.' ∷ b)
last_two (a ∷ b ∷ c ∷ rest) = last_two (b ∷ c ∷ rest)

module _ (k : NetworkConstants) (p : Platform) where
  unfoldable pub normalize_name : Bytes → Bytes
  normalize_name name =
      let norm = trim_dots (p.to_lowercase name) in
      if ends_with norm k.nsp_suffix then norm else norm ++ k.nsp_suffix

  unfoldable pub is_reserved_name : Bytes → Bool
  is_reserved_name name =
      let name_lower = p.to_lowercase name in
      any (λ r. bytes_eq (r ++ k.nsp_suffix) name_lower) reserved_names

  unfoldable pub extract_apex_name : Bytes → Bytes
  extract_apex_name name =
      let norm = normalize_name name in
      elim (last_two (split_dots norm)) [ none ↦ norm | some apex ↦ apex ]

  -- `none` is `Ok(())`
  unfoldable pub is_valid_apex_name : Bytes → Option NamesError
  is_valid_apex_name name =
      let norm = normalize_name name in
      if ltb 253 (length norm) then some name_too_long else elim (check_labels (split_dots norm)) [
        | some e ↦ some e
        | none ↦
            if not (bytes_eq norm (extract_apex_name norm))
            then some not_an_apex_name
            else if is_reserved_name norm
            then some reserved_name
            else none
      ]
