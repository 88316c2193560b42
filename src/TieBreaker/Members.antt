-- ===== src/TieBreaker/Members.antt =====
-- Sorting, removing duplicates and choosing add no payload (kinetic-network/src/event_loop/utils.rs).
use mathlib.Core.List.{Memᴰ}
use kinetic.Prelude.{
  ℕ, ◌≡◌, refl, sym, ap, ◌∙◌, ◌⊎◌, inl, inr, true, Option, some, List, [], ◌∷◌, arith, leb,
  Bool-cases, Option-cases,
}
use kinetic.Prelude.Bytes.{Bytes, bytes_eq}
use kinetic.Vdf.{Reveal}
use kinetic.TieBreaker.{
  bytes_le, insert_sorted, sort, dedup_from, dedup, ParsedPayload, a_kid, a_reveal, a_host_routing,
  TieEnv, least, insert_nearest, sort_nearest, parse_document, parse_payloads, keyed, candidates,
  wins, first_winner,
}

module _ {ℓ} {A : Type ℓ} where
  -- an element of a list behind one that may be put before another
  behind :
      (w x y : A) (ys zs : List A)
      → (Memᴰ w zs → (w ≡ x) ⊎ Memᴰ w ys)
      → Memᴰ w (y ∷ zs)
      → (w ≡ x) ⊎ Memᴰ w (y ∷ ys)
  behind w x y ys zs f (Memᴰ.head q) = inr (Memᴰ.head q)
  behind w x y ys zs f (Memᴰ.tail m) = elim (f m) [ inl q ↦ inl q | inr n ↦ inr (Memᴰ.tail n) ]

  first_or : (w x : A) (ys : List A) → Memᴰ w (x ∷ ys) → (w ≡ x) ⊎ Memᴰ w ys
  first_or w x ys (Memᴰ.head q) = inl q
  first_or w x ys (Memᴰ.tail m) = inr m

  from_either : (w x : A) (ys : List A) → (w ≡ x) ⊎ Memᴰ w ys → Memᴰ w (x ∷ ys)
  from_either w x ys (inl q) = Memᴰ.head q
  from_either w x ys (inr m) = Memᴰ.tail m

mem-insert_sorted :
    (w x : Bytes) (ys : List Bytes) → Memᴰ w (insert_sorted x ys) → (w ≡ x) ⊎ Memᴰ w ys
unfolding insert_sorted
mem-insert_sorted w x [] m = first_or w x [] m
mem-insert_sorted w x (y ∷ ys) m = elim (Bool-cases (bytes_le x y)) [
  | inl q ↦ first_or w x (y ∷ ys) (rw q at m)
  | inr q ↦ behind w x y ys (insert_sorted x ys) (mem-insert_sorted w x ys) (rw q at m)
]

pub mem-sort : (w : Bytes) (xs : List Bytes) → Memᴰ w (sort xs) → Memᴰ w xs
unfolding sort
mem-sort w [] m = m
mem-sort w (x ∷ xs) m = elim (mem-insert_sorted w x (sort xs) m) [
  | inl q ↦ Memᴰ.head q
  | inr n ↦ Memᴰ.tail (mem-sort w xs n)
]

mem-dedup_from : (w x : Bytes) (ys : List Bytes) → Memᴰ w (dedup_from x ys) → (w ≡ x) ⊎ Memᴰ w ys
unfolding dedup_from
mem-dedup_from w x [] m = first_or w x [] m
mem-dedup_from w x (y ∷ ys) m = elim (Bool-cases (bytes_eq x y)) [
  | inl q ↦ inr (from_either w y ys (mem-dedup_from w y ys (rw q at m)))
  | inr q ↦ elim (first_or w x (dedup_from y ys) (rw q at m)) [
    | inl here ↦ inl here
    | inr n ↦ inr (from_either w y ys (mem-dedup_from w y ys n))
  ]
]

pub mem-dedup : (w : Bytes) (xs : List Bytes) → Memᴰ w (dedup xs) → Memᴰ w xs
unfolding dedup
mem-dedup w [] m = m
mem-dedup w (x ∷ xs) m = from_either w x xs (mem-dedup_from w x xs m)

mem-insert_nearest :
    (w x : Bytes × Reveal × Bytes) (ys : List (Bytes × Reveal × Bytes))
    → Memᴰ w (insert_nearest x ys)
    → (w ≡ x) ⊎ Memᴰ w ys
unfolding insert_nearest
mem-insert_nearest w x [] m = first_or w x [] m
mem-insert_nearest w x (y ∷ ys) m = elim (Bool-cases (bytes_le x.2 y.2)) [
  | inl q ↦ first_or w x (y ∷ ys) (rw q at m)
  | inr q ↦ behind w x y ys (insert_nearest x ys) (mem-insert_nearest w x ys) (rw q at m)
]

pub mem-sort_nearest :
    (w : Bytes × Reveal × Bytes) (xs : List (Bytes × Reveal × Bytes))
    → Memᴰ w (sort_nearest xs)
    → Memᴰ w xs
unfolding sort_nearest
mem-sort_nearest w [] m = m
mem-sort_nearest w (x ∷ xs) m = elim (mem-insert_nearest w x (sort_nearest xs) m) [
  | inl q ↦ Memᴰ.head q
  | inr n ↦ Memᴰ.tail (mem-sort_nearest w xs n)
]

pub mem-least : (y : Bytes × ℕ) (xs : List (Bytes × ℕ)) → least xs ≡ some y → Memᴰ y xs
unfolding least
mem-least y [] h = absurd (ground arith)
mem-least y (x ∷ xs) h = elim (Option-cases (least xs)) [
  | inl q ↦
      let end : some x ≡ some y = ground arith in let same : x ≡ y = cc end in Memᴰ.head (sym same)
  | inr (z, q) ↦ elim (Bool-cases (leb x.1 z.1)) [
    | inl l ↦
        let end : some x ≡ some y = ground arith in
        let same : x ≡ y = cc end in Memᴰ.head (sym same)
    | inr l ↦ let end : some z ≡ some y = ground arith in Memᴰ.tail (mem-least y xs (q ∙ end))
  ]
]

pub mem-parse :
    (e : TieEnv) (query_name w : Bytes) (x : ParsedPayload) (payloads : List Bytes)
    → Memᴰ (w, x) (parse_payloads e query_name payloads)
    → Memᴰ w payloads × (parse_document e query_name w (e.parsers.document w) ≡ some x)
unfolding parse_payloads
mem-parse e query_name w x [] m = elim m [ ]
mem-parse e query_name w x (payload ∷ payloads) m =
    elim (Option-cases (parse_document e query_name payload (e.parsers.document payload))) [
      | inl q ↦
          let (n, parsed) = mem-parse e query_name w x payloads (rw (parse_payloads, q) at m) in
          (Memᴰ.tail n, parsed)
      | inr (y, q) ↦
          elim (first_or (w, x) (payload, y) (parse_payloads e query_name payloads)
            (rw (parse_payloads, q) at m)) [
              | inl same ↦
                  let here : w ≡ payload = ap (λ z. z.0) same in
                  let what : x ≡ y = ap (λ z. z.1) same in (Memᴰ.head here, rw here (rw what q))
              | inr n ↦
                  let (n', parsed) = mem-parse e query_name w x payloads n in (Memᴰ.tail n', parsed)
            ]
    ]

pub mem-keyed :
    (e : TieEnv) (key : ParsedPayload → Option ℕ) (w : Bytes) (n : ℕ)
    (parsed : List (Bytes × ParsedPayload))
    → Memᴰ (w, n) (keyed e key parsed)
    → (x : ParsedPayload) × Memᴰ (w, x) parsed × (key x ≡ some n)
unfolding keyed
mem-keyed e key w n [] m = elim m [ ]
mem-keyed e key w n ((payload, y) ∷ parsed) m = elim (Option-cases (key y)) [
  | inl q ↦ let (x, k, h) = mem-keyed e key w n parsed (rw (keyed, q) at m) in (x, Memᴰ.tail k, h)
  | inr (d, q) ↦ elim (first_or (w, n) (payload, d) (keyed e key parsed) (rw (keyed, q) at m)) [
    | inl same ↦
        let here : w ≡ payload = ap (λ z. z.0) same in
        let what : n ≡ d = ap (λ z. z.1) same in (y, Memᴰ.head (rw here refl), rw what q)
    | inr k ↦ let (x, k', h) = mem-keyed e key w n parsed k in (x, Memᴰ.tail k', h)
  ]
]

pub mem-candidates :
    (e : TieEnv) (kyn : ℕ) (w : Bytes) (reveal : Reveal) (dist : Bytes)
    (parsed : List (Bytes × ParsedPayload))
    → Memᴰ (w, reveal, dist) (candidates e kyn parsed)
    → Memᴰ (w, a_reveal reveal) parsed
unfolding candidates
mem-candidates e kyn w reveal dist [] m = elim m [ ]
mem-candidates e kyn w reveal dist ((payload, a_kid doc) ∷ parsed) m =
    Memᴰ.tail (mem-candidates e kyn w reveal dist parsed m)
mem-candidates e kyn w reveal dist ((payload, a_host_routing route) ∷ parsed) m =
    Memᴰ.tail (mem-candidates e kyn w reveal dist parsed m)
mem-candidates e kyn w reveal dist ((payload, a_reveal r) ∷ parsed) (Memᴰ.head q) =
    Memᴰ.head (ap (λ z. (z.0, a_reveal z.1)) q)
mem-candidates e kyn w reveal dist ((payload, a_reveal r) ∷ parsed) (Memᴰ.tail m) =
    Memᴰ.tail (mem-candidates e kyn w reveal dist parsed m)

pub mem-first_winner :
    (e : TieEnv) (kyn : ℕ) (w : Bytes) (found : List (Bytes × Reveal × Bytes))
    → first_winner e kyn found ≡ some w
    → (reveal : Reveal) × (dist : Bytes) × Memᴰ (w, reveal, dist) found × (wins e kyn reveal ≡ true)
unfolding first_winner
mem-first_winner e kyn w [] h = absurd (ground arith)
mem-first_winner e kyn w ((payload, reveal, dist) ∷ found) h =
    elim (Bool-cases (wins e kyn reveal)) [
      | inl q ↦
          let end : some payload ≡ some w = rw (first_winner, q) at h in
          let same : payload ≡ w = cc end in (reveal, dist, Memᴰ.head (rw same refl), q)
      | inr q ↦
          let (r, d, m, won) = mem-first_winner e kyn w found (rw (first_winner, q) at h) in
          (r, d, Memᴰ.tail m, won)
    ]
