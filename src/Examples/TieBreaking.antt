-- ===== src/Examples/TieBreaking.antt =====
-- Peers that return the same route.
use mathlib.Core.List.{Memᴰ, Permᴰ}
use kinetic.Prelude.{
  ℕ, ◌≡◌, ◌≢◌, refl, ◌∙◌, sym, Option, none, some, List, [], ◌∷◌, ◌++◌, ◌≤◌, arith,
}
use kinetic.Prelude.Bytes.{Bytes, codes}
use kinetic.Config.{kin_network, toy_platform}
use kinetic.Vdf.{commitment_data}
use kinetic.Store.RevealCheck.{is_none}
use kinetic.TieBreaker.{
  PayloadParsers, TieEnv, ParsedPayload, a_host_routing, parse_document, xor_tie_breaker, tie_data,
}
use kinetic.TieBreaker.Agreement.{xor_tie_breaker-Perm, tie_data-ne-commitment_data}
use kinetic.TieBreaker.Winner.{IsAnswer, xor_tie_breaker_sound}
use kinetic.Examples.{toy_jcs, toy_reveal}
use kinetic.Examples.Node.{toy_keys, toy_route}

abbrev routes_only : PayloadParsers
routes_only = record { document = λ b. none; host_route = λ b. some toy_route; reveal = λ b. none }

abbrev tie_env : TieEnv
tie_env = record {
  k = kin_network;
  p = toy_platform;
  j = toy_jcs;
  action_state = none;
  parsers = routes_only;
  keys = toy_keys;
}

abbrev route_name : Bytes
route_name = codes "routing:" ++ toy_route.host_id

abbrev two_payloads : List Bytes
two_payloads = (2 ∷ []) ∷ (1 ∷ []) ∷ []

abbrev two_swapped : List Bytes
two_swapped = (1 ∷ []) ∷ (2 ∷ []) ∷ []

xor_tie_breaker-Perm_example :
    xor_tie_breaker tie_env route_name two_payloads 5000
    ≡ xor_tie_breaker tie_env route_name two_swapped 5000
xor_tie_breaker-Perm_example = xor_tie_breaker-Perm tie_env route_name 5000 (Permᴰ.swap refl refl)

two_payloads-chosen : xor_tie_breaker tie_env route_name two_payloads 5000 ≡ some (1 ∷ [])
unfolding xor_tie_breaker kinetic.TieBreaker.choose kinetic.TieBreaker.has_kid
    kinetic.TieBreaker.parse_payloads kinetic.TieBreaker.dedup kinetic.TieBreaker.sort
    kinetic.TieBreaker.insert_sorted kinetic.TieBreaker.bytes_le kinetic.TieBreaker.dedup_from
    kinetic.Prelude.Bytes.bytes_eq parse_document kinetic.TieBreaker.parse_route
    kinetic.TieBreaker.has_route kinetic.TieBreaker.payload_of kinetic.TieBreaker.least
    kinetic.TieBreaker.keyed kinetic.TieBreaker.route_key is_none
    kinetic.HostRoute.verify_host_routing_record kinetic.HostRoute.host_key
    kinetic.HostRoute.digest_key kinetic.HostRoute.signed_by
two_payloads-chosen = refl

xor_tie_breaker_sound_example :
    Memᴰ (1 ∷ []) two_payloads
    × (x : ParsedPayload) × (parse_document tie_env route_name (1 ∷ []) none ≡ some x)
    × IsAnswer tie_env route_name 5000 x
xor_tie_breaker_sound_example =
    xor_tie_breaker_sound tie_env route_name 5000 two_payloads (1 ∷ []) two_payloads-chosen

tie_data-ne-commitment_data_example :
    tie_data tie_env toy_reveal (7 ∷ [])
    ≢ commitment_data toy_platform kin_network.network_salt toy_reveal.name toy_reveal.salt
        (7 ∷ [])
        toy_reveal.pubkey
tie_data-ne-commitment_data_example =
    tie_data-ne-commitment_data tie_env toy_reveal (7 ∷ []) (omega arith)
