-- ===== src/TieBreaker/Agreement.antt =====
-- Nodes that received the same payloads agree (kinetic-network/src/event_loop/utils.rs).
use mathlib.Core.List.{Permᴰ}
use kinetic.Prelude.{
  ℕ, ◌≡◌, ◌≢◌, refl, sym, ap, ◌∙◌, List, [], ◌∷◌, ◌++◌, arith, length, length-append, ◌<◌,
}
use kinetic.Prelude.Bytes.{Bytes}
use kinetic.Vdf.{Reveal, commitment_data}
use kinetic.TieBreaker.{
  TieEnv, sort, dedup, parse_payloads, choose, xor_tie_breaker, tie_data, has_kid, has_route,
  candidates, sort_nearest, first_winner,
}
use kinetic.TieBreaker.Sorted.{sort-Perm}

module _ (e : TieEnv) where
  pub by_sorted :
      (query_name : Bytes) (payloads : List Bytes) (kyn : ℕ)
      → xor_tie_breaker e query_name payloads kyn
        ≡ choose e kyn (parse_payloads e query_name (dedup (sort payloads)))
  unfolding xor_tie_breaker sort dedup parse_payloads choose has_kid has_route candidates
      sort_nearest first_winner
  by_sorted query_name [] kyn = refl
  by_sorted query_name (x ∷ xs) kyn = refl

  -- The choice does not depend on the order in which the payloads were received.
  pub xor_tie_breaker-Perm :
      (query_name : Bytes) (kyn : ℕ) {xs ys : List Bytes}
      → Permᴰ xs ys
      → xor_tie_breaker e query_name xs kyn ≡ xor_tie_breaker e query_name ys kyn
  xor_tie_breaker-Perm query_name kyn {xs} {ys} d =
      by_sorted query_name xs kyn
      ∙ ap (λ l. choose e kyn (parse_payloads e query_name (dedup l))) (sort-Perm d)
      ∙ sym (by_sorted query_name ys kyn)

  -- The text whose hash the VDF of a candidate is checked against is not the one that the record
  -- store checks the same reveal against, if the network has a salt.
  pub tie_data-ne-commitment_data :
      (reveal : Reveal) (drand_sig_bytes : Bytes)
      → 0 < length e.k.network_salt
      → tie_data e reveal drand_sig_bytes
        ≢ commitment_data e.p e.k.network_salt reveal.name reveal.salt drand_sig_bytes reveal.pubkey
  unfolding tie_data commitment_data
  tie_data-ne-commitment_data reveal drand_sig_bytes h q = absurd (
      omega (
        arith,
        h,
        ap length q,
        length-append e.k.network_salt
            (reveal.name ++ (reveal.salt ++ (e.p.sha256 drand_sig_bytes ++ reveal.pubkey))),
      ))
