-- ===== src/TieBreaker/Winner.antt =====
-- What a chosen payload has passed (kinetic-network/src/event_loop/utils.rs).
use mathlib.Core.List.{Memᴰ}
use kinetic.Prelude.{
  ℕ, ◌-◌, ◌≤◌, ◌≡◌, refl, sym, subst, ◌∙◌, ◌⊎◌, inl, inr, true, Option, none, some, List, ◌++◌,
  arith, Bool-cases, Option-cases,
}
use kinetic.Prelude.Bytes.{Bytes, codes, bytes_eq, bytes_eq→≡}
use kinetic.Prelude.Words.{add64}
use kinetic.Kyn.{to_ukyn}
use kinetic.Kid.{Document}
use kinetic.Kid.DocumentCheck.{verify}
use kinetic.Vdf.{Reveal}
use kinetic.Vdf.Validate.{validate}
use kinetic.HostRoute.{HostRoute, verify_host_routing_record}
use kinetic.Store.RevealCheck.{is_none}
use kinetic.TieBreaker.{
  sort, dedup, ParsedPayload, a_kid, a_reveal, a_host_routing, TieEnv, least, payload_of,
  sort_nearest, parse_reveal, parse_route, parse_document, parse_payloads, document_key, route_key,
  keyed, candidates, wins, has_kid, has_route, choose, xor_tie_breaker,
}
use kinetic.Vdf.Validate.{validate}
use kinetic.Kyn.Beacon.{verify_beacon_signature}
use kinetic.Signature.{verify_signature}
use kinetic.Store.{resquaring_epoch_kyns}
use kinetic.TieBreaker.Members.{
  mem-sort, mem-dedup, mem-sort_nearest, mem-least, mem-parse, mem-keyed, mem-candidates,
  mem-first_winner,
}
use kinetic.TieBreaker.Agreement.{by_sorted}
use kinetic.Store.RevealCheck.{compute_required_iterations}
use kinetic.TieBreaker.{tie_surroundings}
use kinetic.TieBreaker.Work.{IsWorked, tie_proves_sound}

module _ (e : TieEnv) (query_name : Bytes) (current_kyn : ℕ) where
  -- A document that is for the name, that verifies and is not dated more than 300 s ahead; a route
  -- for the name that verifies; a valid reveal for the name with a valid signature unless in
  -- development mode, a valid beacon, its work, and at most an epoch old.
  pub IsAnswer : ParsedPayload → Type 0
  IsAnswer (a_kid doc) =
      (doc.kid ≡ query_name)
      × (verify e.k e.p e.j doc ≡ none)
      × (doc.created_at ≤ add64 (to_ukyn current_kyn e.k.beacon_genesis) 300)
  IsAnswer (a_host_routing route) =
      (query_name ≡ codes "routing:" ++ route.host_id)
      × (verify_host_routing_record e.k e.keys route current_kyn ≡ none)
  IsAnswer (a_reveal reveal) =
      (reveal.name ≡ query_name)
      × ((e.k.dev_mode ≡ true) ⊎ (verify_signature e.k e.p e.j reveal ≡ none))
      × (verify_beacon_signature e.p reveal.kyn reveal.beacon_signature e.k.dev_mode ≡ true)
      × (current_kyn - reveal.kyn ≤ resquaring_epoch_kyns)
      × IsWorked e current_kyn reveal
      × (validate e.k e.p reveal ≡ none)

  -- the name of what was parsed
  IsFor : ParsedPayload → Type 0
  IsFor (a_kid doc) = doc.kid ≡ query_name
  IsFor (a_host_routing route) = query_name ≡ codes "routing:" ++ route.host_id
  IsFor (a_reveal reveal) = (reveal.name ≡ query_name) × (validate e.k e.p reveal ≡ none)

  is_none-none : {A : Type 0} (o : Option A) → is_none o ≡ true → o ≡ none
  unfolding is_none
  is_none-none none h = refl
  is_none-none (some a) h = absurd (ground arith)

  reveal-IsFor :
      (w : Bytes) (o : Option Reveal) (x : ParsedPayload)
      → parse_reveal e query_name w o ≡ some x
      → IsFor x
  unfolding parse_reveal IsFor
  reveal-IsFor w none x h = absurd (ground arith)
  reveal-IsFor w (some reveal) x h = elim (Bool-cases (bytes_eq reveal.name query_name)) [
    | inr q ↦ absurd (ground (arith, h, q))
    | inl q ↦ elim (Bool-cases (is_none (validate e.k e.p reveal))) [
      | inr v ↦ absurd (ground (arith, h, q, v))
      | inl v ↦
          let end : some (a_reveal reveal) ≡ some x = ground (arith, h, q, v) in
          let same : a_reveal reveal ≡ x = cc end in
          subst IsFor same
            (bytes_eq→≡ reveal.name query_name q, is_none-none (validate e.k e.p reveal) v)
    ]
  ]

  route-IsFor :
      (w : Bytes) (o : Option HostRoute) (x : ParsedPayload)
      → parse_route e query_name w o ≡ some x
      → IsFor x
  unfolding parse_route IsFor
  route-IsFor w none x h = reveal-IsFor w (e.parsers.reveal w) x h
  route-IsFor w (some route) x h =
      elim (Bool-cases (bytes_eq query_name (codes "routing:" ++ route.host_id))) [
        | inr q ↦ absurd (ground (arith, h, q))
        | inl q ↦
            let end : some (a_host_routing route) ≡ some x = ground (arith, h, q) in
            let same : a_host_routing route ≡ x = cc end in
            subst IsFor same (bytes_eq→≡ query_name (codes "routing:" ++ route.host_id) q)
      ]

  document-IsFor :
      (w : Bytes) (o : Option Document) (x : ParsedPayload)
      → parse_document e query_name w o ≡ some x
      → IsFor x
  unfolding parse_document IsFor
  document-IsFor w none x h = route-IsFor w (e.parsers.host_route w) x h
  document-IsFor w (some doc) x h = elim (Bool-cases (bytes_eq doc.kid query_name)) [
    | inr q ↦ absurd (ground (arith, h, q))
    | inl q ↦
        let end : some (a_kid doc) ≡ some x = ground (arith, h, q) in
        let same : a_kid doc ≡ x = cc end in subst IsFor same (bytes_eq→≡ doc.kid query_name q)
  ]

  -- each kind's last checks turn a payload that is for the name into an answer
  document_key-IsAnswer :
      (x : ParsedPayload) (n : ℕ) → IsFor x → document_key e current_kyn x ≡ some n → IsAnswer x
  unfolding document_key IsFor IsAnswer
  document_key-IsAnswer (a_kid doc) n f h = elim (Bool-cases (is_none (verify e.k e.p e.j doc))) [
    | inr v ↦ absurd (ground (arith, h, v))
    | inl v ↦ (f, is_none-none (verify e.k e.p e.j doc) v, ground (arith, h, v))
  ]
  document_key-IsAnswer (a_reveal reveal) n f h = absurd (ground arith)
  document_key-IsAnswer (a_host_routing route) n f h = absurd (ground arith)

  route_key-IsAnswer :
      (x : ParsedPayload) (n : ℕ) → IsFor x → route_key e current_kyn x ≡ some n → IsAnswer x
  unfolding route_key IsFor IsAnswer
  route_key-IsAnswer (a_host_routing route) n f h =
      elim (Bool-cases (is_none (verify_host_routing_record e.k e.keys route current_kyn))) [
        | inr v ↦ absurd (ground (arith, h, v))
        | inl v ↦ (f, is_none-none (verify_host_routing_record e.k e.keys route current_kyn) v)
      ]
  route_key-IsAnswer (a_kid doc) n f h = absurd (ground arith)
  route_key-IsAnswer (a_reveal reveal) n f h = absurd (ground arith)

  wins-IsAnswer :
      (reveal : Reveal)
      → IsFor (a_reveal reveal)
      → wins e current_kyn reveal ≡ true
      → IsAnswer (a_reveal reveal)
  unfolding wins IsFor IsAnswer
  wins-IsAnswer reveal (named, valid) h =
      elim (Option-cases (e.p.hex_decode reveal.beacon_signature)) [
        | inl q ↦ absurd (ground (arith, h, q))
        | inr (sig, q) ↦ (
          named,
          signed,
          ground (arith, h, q),
          ground (arith, h, q),
          tie_proves_sound e current_kyn reveal sig
              (compute_required_iterations e.k e.p (tie_surroundings e) reveal current_kyn) q refl
              (ground (arith, h, q)),
          valid,
        )
      ]
    where
      signed : (e.k.dev_mode ≡ true) ⊎ (verify_signature e.k e.p e.j reveal ≡ none)
      signed = elim (Bool-cases e.k.dev_mode) [
        | inl d ↦ inl d
        | inr d ↦ inr (is_none-none (verify_signature e.k e.p e.j reveal) (ground (arith, h, d)))
      ]

  -- the payload with the least key is one of those that were parsed, and has a key
  keyed_choice :
      (key : ParsedPayload → Option ℕ) (w : Bytes) (parsed : List (Bytes × ParsedPayload))
      → payload_of (least (keyed e key parsed)) ≡ some w
      → (x : ParsedPayload) × (n : ℕ) × Memᴰ (w, x) parsed × (key x ≡ some n)
  unfolding payload_of
  keyed_choice key w parsed h = elim (Option-cases (least (keyed e key parsed))) [
    | inl q ↦ absurd (ground (arith, h, q))
    | inr ((v, n), q) ↦
        let end : some v ≡ some w = rw q at h in
        let same : v ≡ w = cc end in
        let (x, m, k) = mem-keyed e key w n parsed (
          subst (λ z. Memᴰ (z, n) (keyed e key parsed)) same
            (mem-least (v, n) (keyed e key parsed) q)) in
        (x, n, m, k)
  ]

  choose-IsAnswer :
      (w : Bytes) (parsed : List (Bytes × ParsedPayload))
      → ((x : ParsedPayload) → Memᴰ (w, x) parsed → IsFor x)
      → choose e current_kyn parsed ≡ some w
      → (x : ParsedPayload) × Memᴰ (w, x) parsed × IsAnswer x
  unfolding choose
  choose-IsAnswer w parsed f h = elim (Bool-cases (has_kid e parsed)) [
    | inl kid ↦
        let (x, n, m, q) = keyed_choice (document_key e current_kyn) w parsed (rw kid at h) in
        (x, m, document_key-IsAnswer x n (f x m) q)
    | inr no_kid ↦ elim (Bool-cases (has_route e parsed)) [
      | inl route ↦
          let (x, n, m, q) =
            keyed_choice (route_key e current_kyn) w parsed (rw (no_kid, route) at h) in
          (x, m, route_key-IsAnswer x n (f x m) q)
      | inr no_route ↦
          let (reveal, dist, m, won) =
            mem-first_winner e current_kyn w (sort_nearest (candidates e current_kyn parsed))
              (rw (no_kid, no_route) at h) in
          let here : Memᴰ (w, a_reveal reveal) parsed =
            mem-candidates e current_kyn w reveal dist parsed
              (mem-sort_nearest (w, reveal, dist) (candidates e current_kyn parsed) m) in
          (a_reveal reveal, here, wins-IsAnswer reveal (f (a_reveal reveal) here) won)
    ]
  ]

  -- A chosen payload is one of those received, and it parses to a document for the name that
  -- verifies and is dated at most 300 s ahead, to a route for the name that verifies, or to a
  -- well-formed reveal for the name, at most an epoch old and with a valid beacon signature, for
  -- which a number of iterations is required; unless in development mode its signatures are valid,
  -- it has these iterations, and the VDF engine accepts its proof for the text of the tie-breaker.
  pub xor_tie_breaker_sound :
      (payloads : List Bytes) (w : Bytes)
      → xor_tie_breaker e query_name payloads current_kyn ≡ some w
      → Memᴰ w payloads
        × (x : ParsedPayload) × (parse_document e query_name w (e.parsers.document w) ≡ some x)
        × IsAnswer x
  xor_tie_breaker_sound payloads w h =
      let sorted = dedup (sort payloads) in
      let parsed_as = mem-parse e query_name w in
      let (x, m, answer) =
        choose-IsAnswer w (parse_payloads e query_name sorted)
          (λ x m. document-IsFor w (e.parsers.document w) x (parsed_as x sorted m).1)
          (sym (by_sorted e query_name payloads current_kyn) ∙ h) in
      let (n, parsed) = parsed_as x sorted m in
      (mem-sort w payloads (mem-dedup w (sort payloads) n), x, parsed, answer)
