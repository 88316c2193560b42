-- ===== src/Names/Normal.antt =====
-- `normalize_name` of kinetic-core/src/types/names.rs.
use kinetic.Prelude.{
  ℕ, ◌<◌, ◌≡◌, ◌≢◌, refl, ap₂, ◌∙◌, inl, inr, true, [], ◌∷◌, ◌++◌, arith, ◌==◌, Bool-cases, All,
  map,
}
use kinetic.Prelude.Bytes.{Bytes, ends_with, ends_with-append, ends_with→append}
use kinetic.Config.{NetworkConstants, Platform, LowersAscii, ascii_lower}
use kinetic.Names.{trim_step, trim_dots, normalize_name}
use kinetic.Names.Split.{NoDot}

abbrev pub IsLowerAscii : ℕ → Type 0
IsLowerAscii c = (c < 128) × (ascii_lower c ≡ c)

-- The suffix of the network is a dot and a text in lower-case ASCII with no dot.
pub record IsNamespace (k : NetworkConstants) : Type 0 where
  pub suffix : k.nsp_suffix ≡ b'.' ∷ k.nsp
  pub filled : k.nsp ≢ []
  pub no_dot : NoDot k.nsp
  pub lower : All IsLowerAscii k.nsp

trim_step-append : (c : ℕ) (s t : Bytes) → t ≢ [] → trim_step c (s ++ t) ≡ c ∷ (s ++ t)
unfolding trim_step
trim_step-append c [] [] n = absurd (n refl)
trim_step-append c [] (d ∷ t) n = refl
trim_step-append c (d ∷ s) t n = refl

trim_step_of_ne_dot : (c : ℕ) (s : Bytes) → c ≢ b'.' → trim_step c s ≡ c ∷ s
unfolding trim_step
trim_step_of_ne_dot c [] n = ground arith
trim_step_of_ne_dot c (d ∷ s) n = refl

trim_dots_of_NoDot : (s : Bytes) → NoDot s → trim_dots s ≡ s
unfolding trim_dots
trim_dots_of_NoDot [] h = refl
trim_dots_of_NoDot (c ∷ s) (h, hs) = rw (trim_dots_of_NoDot s hs) (trim_step_of_ne_dot c s h)

trim_dots-append : (s t : Bytes) → t ≢ [] → trim_dots t ≡ t → trim_dots (s ++ t) ≡ s ++ t
unfolding trim_dots
trim_dots-append [] t n h = h
trim_dots-append (c ∷ s) t n h = rw (trim_dots-append s t n h) (trim_step-append c s t n)

module _ (k : NetworkConstants) (ns : IsNamespace k) where
  suffix-ne_nil : k.nsp_suffix ≢ []
  suffix-ne_nil e = cc (ns.suffix, e)

  trim_dots-suffix : trim_dots k.nsp_suffix ≡ k.nsp_suffix
  unfolding trim_dots
  trim_dots-suffix =
      rw (ns.suffix, trim_dots_of_NoDot k.nsp ns.no_dot) (trim_step-append b'.' [] k.nsp ns.filled)

  -- a text that ends with the suffix has no trailing dot
  trim_dots_of_ends_with : (s : Bytes) → ends_with s k.nsp_suffix ≡ true → trim_dots s ≡ s
  trim_dots_of_ends_with s h =
      let (t, e) = ends_with→append s k.nsp_suffix h in
      rw e (trim_dots-append t k.nsp_suffix suffix-ne_nil trim_dots-suffix)

lower-IsAscii : (s : Bytes) → All IsLowerAscii s → All (λ c. c < 128) s
lower-IsAscii [] h = tt
lower-IsAscii (c ∷ s) (h, hs) = (h.0, lower-IsAscii s hs)

map-ascii_lower : (s : Bytes) → All IsLowerAscii s → map ascii_lower s ≡ s
map-ascii_lower [] h = refl
map-ascii_lower (c ∷ s) (h, hs) = ap₂ (λ a b. a ∷ b) h.1 (map-ascii_lower s hs)

ascii_lower-IsLowerAscii : (c : ℕ) → c < 128 → IsLowerAscii (ascii_lower c)
ascii_lower-IsLowerAscii c h = ground arith

map-IsLowerAscii : (s : Bytes) → All (λ c. c < 128) s → All IsLowerAscii (map ascii_lower s)
map-IsLowerAscii [] h = tt
map-IsLowerAscii (c ∷ s) (h, hs) = (ascii_lower-IsLowerAscii c h, map-IsLowerAscii s hs)

trim_step-IsLowerAscii :
    (c : ℕ) (s : Bytes) → IsLowerAscii c → All IsLowerAscii s → All IsLowerAscii (trim_step c s)
unfolding trim_step
trim_step-IsLowerAscii c [] h hs = elim (Bool-cases (c == b'.')) [
  | inl e ↦ rw e tt
  | inr e ↦ rw e (h, tt)
]
trim_step-IsLowerAscii c (d ∷ s) h hs = (h, hs)

trim_dots-IsLowerAscii : (s : Bytes) → All IsLowerAscii s → All IsLowerAscii (trim_dots s)
unfolding trim_dots
trim_dots-IsLowerAscii [] h = tt
trim_dots-IsLowerAscii (c ∷ s) (h, hs) =
    trim_step-IsLowerAscii c (trim_dots s) h (trim_dots-IsLowerAscii s hs)

IsLowerAscii-append :
    (s t : Bytes) → All IsLowerAscii s → All IsLowerAscii t → All IsLowerAscii (s ++ t)
IsLowerAscii-append [] t h k = k
IsLowerAscii-append (c ∷ s) t (h, hs) k = (h, IsLowerAscii-append s t hs k)

module _ (k : NetworkConstants) (p : Platform) (ns : IsNamespace k) (la : LowersAscii p) where
  pub to_lowercase_of_lower : (s : Bytes) → All IsLowerAscii s → p.to_lowercase s ≡ s
  to_lowercase_of_lower s h = la.on_ascii s (lower-IsAscii s h) ∙ map-ascii_lower s h

  -- a lower-case text that ends with the suffix is normal
  pub normalize_name_fixed :
      (s : Bytes) → All IsLowerAscii s → ends_with s k.nsp_suffix ≡ true → normalize_name k p s ≡ s
  unfolding normalize_name
  normalize_name_fixed s h e = rw (to_lowercase_of_lower s h, trim_dots_of_ends_with k ns s e, e)

  -- A normalized name ends with the suffix of the network, whatever the name.
  pub normalize_name-ends_with :
      (name : Bytes) → ends_with (normalize_name k p name) k.nsp_suffix ≡ true
  unfolding normalize_name
  normalize_name-ends_with name =
      let norm = trim_dots (p.to_lowercase name) in
      elim (Bool-cases (ends_with norm k.nsp_suffix)) [
        | inl e ↦ rw e e
        | inr e ↦ rw e (ends_with-append norm k.nsp_suffix)
      ]

  normalize_name-IsLowerAscii :
      (name : Bytes) → All (λ c. c < 128) name → All IsLowerAscii (normalize_name k p name)
  unfolding normalize_name
  normalize_name-IsLowerAscii name h =
      let low : All IsLowerAscii (trim_dots (p.to_lowercase name)) =
        rw (la.on_ascii name h)
          (trim_dots-IsLowerAscii (map ascii_lower name) (map-IsLowerAscii name h)) in
      elim (Bool-cases (ends_with (trim_dots (p.to_lowercase name)) k.nsp_suffix)) [
        | inl e ↦ rw e low
        | inr e ↦
            rw (e, ns.suffix)
              (IsLowerAscii-append (trim_dots (p.to_lowercase name)) (b'.' ∷ k.nsp) low
                (omega arith, ns.lower))
      ]

  -- With a namespace in lower-case ASCII, and lower-casing that acts as documented on ASCII, on ASCII
  -- names normalizing twice is normalizing once.
  pub normalize_name_idem :
      (name : Bytes)
      → All (λ c. c < 128) name
      → normalize_name k p (normalize_name k p name) ≡ normalize_name k p name
  normalize_name_idem name h =
      normalize_name_fixed (normalize_name k p name) (normalize_name-IsLowerAscii name h)
        (normalize_name-ends_with name)
