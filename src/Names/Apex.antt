-- ===== src/Names/Apex.antt =====
-- `is_valid_apex_name` of kinetic-core/src/types/names.rs against a description of apex names.
use kinetic.Prelude.{
  ◌≤◌, ◌≡◌, ◌≢◌, refl, sym, ap, subst, ◌∙◌, ◌↔◌, true, false, none, some, List, [], ◌∷◌, ◌++◌,
  arith, length, All,
}
use kinetic.Prelude.Bytes.{
  Bytes, bytes_eq, bytes_eq_iff, bytes_eq_refl, ends_with-append, ends_with→append,
}
use kinetic.Config.{NetworkConstants, Platform, LowersAscii}
use kinetic.Names.{
  split_dots, last_two, check_labels, normalize_name, is_reserved_name, extract_apex_name,
  is_valid_apex_name,
}
use kinetic.Names.Split.{
  NoDot, join_dots, split_dots-append, split_dots_of_NoDot, join_dots-split_dots,
  length-last_two_of_three, last_two-IsSome, split_dots-ne_nil,
}
use kinetic.Names.Label.{IsLdh, IsLabel, check_labels→IsLabel, IsLabel→check_labels}
use kinetic.Names.Normal.{IsLowerAscii, IsNamespace, normalize_name_fixed, normalize_name-ends_with}

-- The normalized name is one LDH label before the suffix, short enough, and not reserved.
pub record IsApexName (k : NetworkConstants) (p : Platform) (name : Bytes) : Type 0 where
  pub label : Bytes
  pub shape : normalize_name k p name ≡ label ++ k.nsp_suffix
  pub well_formed : IsLabel label
  pub total : length (normalize_name k p name) ≤ 253
  pub free : is_reserved_name k p (normalize_name k p name) ≡ false

IsLdh-IsLowerAscii : (s : Bytes) → All IsLdh s → All IsLowerAscii s
IsLdh-IsLowerAscii [] h = tt
IsLdh-IsLowerAscii (c ∷ s) (h, hs) = (ground arith, IsLdh-IsLowerAscii s hs)

IsLdh-NoDot : (s : Bytes) → All IsLdh s → NoDot s
IsLdh-NoDot [] h = tt
IsLdh-NoDot (c ∷ s) (h, hs) = (ground arith, IsLdh-NoDot s hs)

IsLowerAscii-append :
    (s t : Bytes) → All IsLowerAscii s → All IsLowerAscii t → All IsLowerAscii (s ++ t)
IsLowerAscii-append [] t h k = k
IsLowerAscii-append (c ∷ s) t (h, hs) k = (h, IsLowerAscii-append s t hs k)

join_dots-IsLowerAscii :
    (parts : List Bytes) → All IsLabel parts → All IsLowerAscii (join_dots parts)
join_dots-IsLowerAscii [] h = tt
join_dots-IsLowerAscii (a ∷ []) (h, hs) = IsLdh-IsLowerAscii a h.characters
join_dots-IsLowerAscii (a ∷ b ∷ parts) (h, hs) =
    IsLowerAscii-append a (b'.' ∷ join_dots (b ∷ parts)) (IsLdh-IsLowerAscii a h.characters)
      (omega arith, join_dots-IsLowerAscii (b ∷ parts) hs)

module _ (k : NetworkConstants) (p : Platform) (ns : IsNamespace k) (la : LowersAscii p) where
  extract_of_normal :
      (norm apex : Bytes)
      → normalize_name k p norm ≡ norm
      → last_two (split_dots norm) ≡ some apex
      → extract_apex_name k p norm ≡ apex
  unfolding extract_apex_name
  extract_of_normal norm apex e l = ground arith

  -- the labels of a text before the suffix
  split_suffix : (t : Bytes) → split_dots (t ++ k.nsp_suffix) ≡ split_dots t ++ k.nsp ∷ []
  split_suffix t = rw (ns.suffix, split_dots-append t k.nsp, split_dots_of_NoDot k.nsp ns.no_dot)

  apex_of_label :
      (l : Bytes) → NoDot l → last_two (split_dots (l ++ k.nsp_suffix)) ≡ some (l ++ k.nsp_suffix)
  unfolding last_two
  apex_of_label l h = rw (split_suffix l, split_dots_of_NoDot l h, ns.suffix)

  -- with two dots before the suffix, the apex is shorter than the name
  one_label :
      (t apex : Bytes) (parts : List Bytes)
      → split_dots t ≡ parts
      → last_two (parts ++ k.nsp ∷ []) ≡ some apex
      → length apex ≡ length (t ++ k.nsp_suffix)
      → parts ≡ t ∷ []
  one_label t apex [] s l e = absurd (split_dots-ne_nil t s)
  one_label t apex (a ∷ []) s l e =
      let j : join_dots (a ∷ []) ≡ t = ap join_dots (sym s) ∙ join_dots-split_dots t in
      ap (λ x. x ∷ []) j
  one_label t apex (a ∷ b ∷ []) s l e =
      let j : join_dots (a ∷ b ∷ k.nsp ∷ []) ≡ t ++ k.nsp_suffix =
        rw (← join_dots-split_dots (t ++ k.nsp_suffix), split_suffix t, s) in
      absurd (omega (arith, length-last_two_of_three a b k.nsp [] apex l, ap length j))
  one_label t apex (a ∷ b ∷ d ∷ rest) s l e =
      let j : join_dots (a ∷ b ∷ d ∷ (rest ++ k.nsp ∷ [])) ≡ t ++ k.nsp_suffix =
        rw (← join_dots-split_dots (t ++ k.nsp_suffix), split_suffix t, s) in
      absurd
        (omega (arith, length-last_two_of_three a b d (rest ++ k.nsp ∷ []) apex l, ap length j))

  last_two_before_nsp :
      (parts : List Bytes)
      → parts ≢ []
      → (apex : Bytes) × (last_two (parts ++ k.nsp ∷ []) ≡ some apex)
  last_two_before_nsp [] h = absurd (h refl)
  last_two_before_nsp (a ∷ []) h = last_two-IsSome a k.nsp []
  last_two_before_nsp (a ∷ b ∷ parts) h = last_two-IsSome a b (parts ++ k.nsp ∷ [])

  -- the steps of a check that passes
  passed :
      (name : Bytes)
      → is_valid_apex_name k p name ≡ none
      → let norm = normalize_name k p name in
        (length norm ≤ 253)
        × (check_labels (split_dots norm) ≡ none)
        × (bytes_eq norm (extract_apex_name k p norm) ≡ true)
        × (is_reserved_name k p norm ≡ false)
  unfolding is_valid_apex_name
  passed name h = ground arith

  passed_back :
      (name : Bytes)
      → let norm = normalize_name k p name in
        length norm ≤ 253
        → check_labels (split_dots norm) ≡ none
        → bytes_eq norm (extract_apex_name k p norm) ≡ true
        → is_reserved_name k p norm ≡ false
        → is_valid_apex_name k p name ≡ none
  unfolding is_valid_apex_name
  passed_back name a b d e = ground arith

  -- all labels of a text before the suffix are labels, and the text is its own apex
  IsLabel-of_normal :
      (t : Bytes)
      → All IsLabel (split_dots (t ++ k.nsp_suffix))
      → t ++ k.nsp_suffix ≡ extract_apex_name k p (t ++ k.nsp_suffix)
      → IsLabel t
  IsLabel-of_normal t labels own =
      let s = t ++ k.nsp_suffix in
      let low : All IsLowerAscii s =
        rw (← join_dots-split_dots s) (join_dots-IsLowerAscii (split_dots s) labels) in
      let fixed = normalize_name_fixed k p ns la s low (ends_with-append t k.nsp_suffix) in
      let (apex, l) = last_two_before_nsp (split_dots t) (split_dots-ne_nil t) in
      let l' : last_two (split_dots s) ≡ some apex = rw (split_suffix t) l in
      let e : length apex ≡ length s =
        ap length (sym (extract_of_normal s apex fixed l') ∙ sym own) in
      let one : split_dots t ≡ t ∷ [] = one_label t apex (split_dots t) refl l e in
      let all : All IsLabel (t ∷ k.nsp ∷ []) =
        subst (All IsLabel) (split_suffix t ∙ ap (λ x. x ++ k.nsp ∷ []) one) labels in
      all.0

  pub apex_sound : (name : Bytes) → is_valid_apex_name k p name ≡ none → IsApexName k p name
  apex_sound name h =
      let (short, labels, own, free) = passed name h in
      let norm = normalize_name k p name in
      let (t, e) = ends_with→append norm k.nsp_suffix (normalize_name-ends_with k p ns la name) in
      let own' : norm ≡ extract_apex_name k p norm =
        (bytes_eq_iff norm (extract_apex_name k p norm)).0 own in
      record {
        label = t;
        shape = e;
        well_formed =
            IsLabel-of_normal t
              (subst (λ x. All IsLabel (split_dots x)) e
                (check_labels→IsLabel (split_dots norm) labels))
              (subst (λ x. x ≡ extract_apex_name k p x) e own');
        total = short;
        free = free;
      }

  pub apex_complete :
      (name : Bytes) → IsLabel k.nsp → IsApexName k p name → is_valid_apex_name k p name ≡ none
  apex_complete name lbl a =
      let s = a.label ++ k.nsp_suffix in
      let characters = a.well_formed.characters in
      let low : All IsLowerAscii s =
        IsLowerAscii-append a.label k.nsp_suffix (IsLdh-IsLowerAscii a.label characters)
          (rw ns.suffix (omega arith, ns.lower)) in
      let fixed = normalize_name_fixed k p ns la s low (ends_with-append a.label k.nsp_suffix) in
      let no_dot = IsLdh-NoDot a.label characters in
      let own = extract_of_normal s s fixed (apex_of_label a.label no_dot) in
      let parts : split_dots s ≡ a.label ∷ k.nsp ∷ [] =
        split_suffix a.label ∙ ap (λ x. x ++ k.nsp ∷ []) (split_dots_of_NoDot a.label no_dot) in
      passed_back name a.total
        (rw (a.shape, parts)
          (IsLabel→check_labels (a.label ∷ k.nsp ∷ []) (a.well_formed, (lbl, tt))))
        (rw (a.shape, own) (bytes_eq_refl s)) a.free

  -- With a suffix that is a dot and a namespace in lower-case ASCII, where the namespace is itself a
  -- label and lower-casing acts as documented on ASCII, exactly the names that normalize to one LDH
  -- label before the suffix, of 253 bytes at most and not reserved, are valid.
  pub is_valid_apex_name_iff :
      (name : Bytes) → IsLabel k.nsp → (is_valid_apex_name k p name ≡ none) ↔ IsApexName k p name
  is_valid_apex_name_iff name lbl = (apex_sound name, apex_complete name lbl)
