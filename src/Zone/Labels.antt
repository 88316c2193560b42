-- ===== src/Zone/Labels.antt =====
-- Labels and CNAMEs of a valid zone (kinetic-core/src/types/nrs.rs).
use mathlib.Core.List.{Memᴰ}
use mathlib.Core.List.Memᴰ
use kinetic.Prelude.{
  ℕ, ◌≤◌, ◌<◌, ◌≡◌, sym, subst, ◌∙◌, ◌⊎◌, inl, inr, Bool, true, false, not, none, List, [], ◌∷◌,
  arith, length, any, mem→any, Bool-cases,
}
use kinetic.Prelude.Bytes.{Bytes, codes, bytes_eq, bytes_eq→≡, ends_with}
use kinetic.Action.{starts_with}
use kinetic.Zone.{
  NrsEntry, is_label_character, label_error, is_cname, is_cname_or_kid, cname_count, cname_error,
}

-- every byte passes a test
pub Every : (ℕ → Bool) → Bytes → Type 0
Every p s = (c : ℕ) → Memᴰ c s → p c ≡ true

pub Every-of_any : (p : ℕ → Bool) (s : Bytes) → any (λ c. not (p c)) s ≡ false → Every p s
unfolding Every
Every-of_any p s h c m = elim (Bool-cases (p c)) [
  | inl q ↦ q
  | inr q ↦ let bad = mem→any (λ x. not (p x)) m (ground arith) in absurd (ground (arith, bad))
]

-- @ and * stand for themselves; other labels have letters, digits, hyphens and underscores, with no
-- hyphen at either end
pub record IsLabel (label : Bytes) : Type 0 where
  pub not_empty : 0 < length label
  pub short : length label ≤ 63
  pub characters :
      ((label ≡ codes "@") ⊎ (label ≡ codes "*"))
      ⊎ ((starts_with label (codes "-") ≡ false)
          × (ends_with label (codes "-") ≡ false)
          × Every is_label_character label)

pub label_error_sound : (label : Bytes) → label_error label ≡ none → IsLabel label
unfolding label_error
label_error_sound label h = record {
  not_empty = ground arith;
  short = ground arith;
  characters = elim (Bool-cases (bytes_eq label (codes "@"))) [
    | inl q ↦ inl (inl (bytes_eq→≡ label (codes "@") q))
    | inr n ↦ elim (Bool-cases (bytes_eq label (codes "*"))) [
      | inl q ↦ inl (inr (bytes_eq→≡ label (codes "*") q))
      | inr m ↦
          inr (ground arith, ground arith, Every-of_any is_label_character label (ground arith))
    ]
  ];
}

-- a CNAME leaves its label to itself and identity records
pub CnameAlone : List NrsEntry → Type 0
CnameAlone records =
    (x y : NrsEntry)
    → Memᴰ x records
    → is_cname x ≡ true
    → Memᴰ y records
    → (is_cname_or_kid y ≡ true) × (is_cname y ≡ true → y ≡ x)

cname_counted :
    (x : NrsEntry) (records : List NrsEntry)
    → Memᴰ x records
    → is_cname x ≡ true
    → 0 < cname_count records
unfolding cname_count
cname_counted x [] m h = absurd (Memᴰ.not-nil m)
cname_counted x (y ∷ records) (Memᴰ.head q) h =
    let here : is_cname y ≡ true = subst (λ r. is_cname r ≡ true) q h in ground (arith, here)
cname_counted x (y ∷ records) (Memᴰ.tail m) h =
    let more = cname_counted x records m h in ground (arith, more)

cname_unique :
    (x y : NrsEntry) (records : List NrsEntry)
    → cname_count records ≤ 1
    → Memᴰ x records
    → is_cname x ≡ true
    → Memᴰ y records
    → is_cname y ≡ true
    → y ≡ x
unfolding cname_count
cname_unique x y [] l mx hx my hy = absurd (Memᴰ.not-nil mx)
cname_unique x y (z ∷ records) l (Memᴰ.head q) hx (Memᴰ.head r) hy = r ∙ sym q
cname_unique x y (z ∷ records) l (Memᴰ.head q) hx (Memᴰ.tail my) hy =
    let here : is_cname z ≡ true = subst (λ r. is_cname r ≡ true) q hx in
    let more = cname_counted y records my hy in absurd (ground (arith, here, more))
cname_unique x y (z ∷ records) l (Memᴰ.tail mx) hx (Memᴰ.head r) hy =
    let here : is_cname z ≡ true = subst (λ r. is_cname r ≡ true) r hy in
    let more = cname_counted x records mx hx in absurd (ground (arith, here, more))
cname_unique x y (z ∷ records) l (Memᴰ.tail mx) hx (Memᴰ.tail my) hy =
    cname_unique x y records (ground (arith, l)) mx hx my hy

pub cname_error_sound :
    (label : Bytes) (records : List NrsEntry)
    → cname_error label records ≡ none
    → CnameAlone records
unfolding cname_error CnameAlone
cname_error_sound label records h x y mx hx my =
    let some_cname = cname_counted x records mx hx in
    let few : cname_count records ≤ 1 = ground (arith, h) in
    let none_other : any (λ r. not (is_cname_or_kid r)) records ≡ false =
      ground (arith, h, some_cname) in
    (
      elim (Bool-cases (is_cname_or_kid y)) [
        | inl q ↦ q
        | inr q ↦
            let bad = mem→any (λ r. not (is_cname_or_kid r)) my (ground (arith, q)) in
            absurd (ground (arith, bad, none_other))
      ],
      λ hy. cname_unique x y records few mx hx my hy,
    )
