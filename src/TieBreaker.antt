-- ===== src/TieBreaker.antt =====
-- The choice between the payloads that peers return for one key: `xor_tie_breaker` of
-- kinetic-network/src/event_loop/utils.rs, as it is built outside of tests. The JSON parsers are
-- parameters.
pub mod Sorted
pub mod Agreement
pub mod Members
pub mod Work
pub mod Winner
use kinetic.Prelude.{
  ℕ, ◌+◌, ◌-◌, Bool, true, false, not, ◌&&◌, ◌||◌, Option, none, some, List, [], ◌∷◌, ◌++◌, ltb,
  leb, if◌then◌else◌, length, take, replicate, bit_xor,
}
use kinetic.Prelude.Bytes.{Bytes, codes, bytes_eq}
use kinetic.Prelude.Words.{u64_max, u64_be, add64}
use kinetic.Config.{NetworkConstants, Platform}
use kinetic.Kyn.{to_ukyn}
use kinetic.Kyn.Beacon.{verify_beacon_signature}
use kinetic.Action.{ActionState}
use kinetic.Kid.{Document, Jcs}
use kinetic.Kid.DocumentCheck.{verify}
use kinetic.Vdf.{Reveal}
use kinetic.Vdf.Validate.{validate}
use kinetic.Signature.{verify_signature}
use kinetic.HostRoute.{HostRoute, PeerKeys, verify_host_routing_record}
use kinetic.Store.{resquaring_epoch_kyns, Surroundings}
use kinetic.Store.RevealCheck.{
  Required, required, rejected, is_none, is_accepted, compute_required_iterations,
}

-- `<=` on `Vec<u8>` and on arrays of bytes
unfoldable pub bytes_le : Bytes → Bytes → Bool
bytes_le [] b = true
bytes_le (x ∷ a) [] = false
bytes_le (x ∷ a) (y ∷ b) =
    let rest = bytes_le a b in if ltb x y then true else if ltb y x then false else rest

-- `sort_unstable` of byte strings, whose equal elements cannot be told apart
unfoldable pub insert_sorted : Bytes → List Bytes → List Bytes
insert_sorted x [] = x ∷ []
insert_sorted x (y ∷ ys) =
    let rest = insert_sorted x ys in if bytes_le x y then x ∷ y ∷ ys else y ∷ rest

unfoldable pub sort : List Bytes → List Bytes
sort [] = []
sort (x ∷ xs) = insert_sorted x (sort xs)

-- `dedup`
unfoldable pub dedup_from : Bytes → List Bytes → List Bytes
dedup_from x [] = x ∷ []
dedup_from x (y ∷ ys) = let rest = dedup_from y ys in if bytes_eq x y then rest else x ∷ rest

unfoldable pub dedup : List Bytes → List Bytes
dedup [] = []
dedup (x ∷ xs) = dedup_from x xs

-- `serde_json::from_slice` at the three types
pub record PayloadParsers : Type 0 where
  pub document : Bytes → Option Document
  pub host_route : Bytes → Option HostRoute
  pub reveal : Bytes → Option Reveal

pub data ParsedPayload : Type 0 where
  a_kid : Document → ParsedPayload
  a_reveal : Reveal → ParsedPayload
  a_host_routing : HostRoute → ParsedPayload

-- what the tie-breaker has at hand besides its arguments
pub record TieEnv : Type 0 where
  pub k : NetworkConstants
  pub p : Platform
  pub j : Jcs
  pub action_state : Option ActionState
  pub parsers : PayloadParsers
  pub keys : PeerKeys

-- `min_by_key`: the first entry with the least key
unfoldable pub least : List (Bytes × ℕ) → Option (Bytes × ℕ)
least [] = none
least (x ∷ xs) = elim (least xs) [ none ↦ some x | some y ↦ if leb x.1 y.1 then some x else some y ]

unfoldable pub payload_of : Option (Bytes × ℕ) → Option Bytes
payload_of none = none
payload_of (some x) = some x.0

-- `sort_by_key` on the distances, which is stable
unfoldable pub insert_nearest :
    Bytes × Reveal × Bytes → List (Bytes × Reveal × Bytes) → List (Bytes × Reveal × Bytes)
insert_nearest x [] = x ∷ []
insert_nearest x (y ∷ ys) =
    let rest = insert_nearest x ys in if bytes_le x.2 y.2 then x ∷ y ∷ ys else y ∷ rest

unfoldable pub sort_nearest : List (Bytes × Reveal × Bytes) → List (Bytes × Reveal × Bytes)
sort_nearest [] = []
sort_nearest (x ∷ xs) = insert_nearest x (sort_nearest xs)

unfoldable pub xor_bytes : Bytes → Bytes → Bytes
xor_bytes [] b = []
xor_bytes (x ∷ a) [] = []
xor_bytes (x ∷ a) (y ∷ b) = bit_xor x y ∷ xor_bytes a b

-- the distance of a proof from the kyn
unfoldable pub proof_distance : ℕ → Bytes → Bytes
proof_distance current_kyn proof_bytes =
    let y_bytes = if leb 32 (length proof_bytes) then take 32 proof_bytes else replicate 32 0 in
    xor_bytes y_bytes (u64_be current_kyn ++ replicate 24 0)

module _ (e : TieEnv) where
  -- the loop body that parses a payload
  unfoldable pub parse_reveal : Bytes → Bytes → Option Reveal → Option ParsedPayload
  parse_reveal query_name payload none = none
  parse_reveal query_name payload (some reveal) =
      if bytes_eq reveal.name query_name && is_none (validate e.k e.p reveal)
      then some (a_reveal reveal)
      else none

  unfoldable pub parse_route : Bytes → Bytes → Option HostRoute → Option ParsedPayload
  parse_route query_name payload none = parse_reveal query_name payload (e.parsers.reveal payload)
  parse_route query_name payload (some route) =
      if bytes_eq query_name (codes "routing:" ++ route.host_id)
      then some (a_host_routing route)
      else none

  unfoldable pub parse_document : Bytes → Bytes → Option Document → Option ParsedPayload
  parse_document query_name payload none =
      parse_route query_name payload (e.parsers.host_route payload)
  parse_document query_name payload (some doc) =
      if bytes_eq doc.kid query_name then some (a_kid doc) else none

  unfoldable pub parse_payloads : Bytes → List Bytes → List (Bytes × ParsedPayload)
  parse_payloads query_name [] = []
  parse_payloads query_name (payload ∷ payloads) =
      let rest = parse_payloads query_name payloads in
      elim (parse_document query_name payload (e.parsers.document payload)) [
        | none ↦ rest
        | some x ↦ (payload, x) ∷ rest
      ]

  -- the documents that verify and are not dated ahead, with their keys
  unfoldable pub document_key : ℕ → ParsedPayload → Option ℕ
  document_key current_kyn (a_kid doc) =
      if not (is_none (verify e.k e.p e.j doc))
      then none
      else if ltb (add64 (to_ukyn current_kyn e.k.beacon_genesis) 300) doc.created_at
      then none
      else some (u64_max - doc.created_at)
  document_key current_kyn (a_reveal reveal) = none
  document_key current_kyn (a_host_routing route) = none

  unfoldable pub route_key : ℕ → ParsedPayload → Option ℕ
  route_key current_kyn (a_host_routing route) =
      if is_none (verify_host_routing_record e.k e.keys route current_kyn)
      then some (u64_max - route.kyn)
      else none
  route_key current_kyn (a_kid doc) = none
  route_key current_kyn (a_reveal reveal) = none

  unfoldable pub keyed :
      (ParsedPayload → Option ℕ) → List (Bytes × ParsedPayload) → List (Bytes × ℕ)
  keyed key [] = []
  keyed key ((payload, x) ∷ parsed) =
      let rest = keyed key parsed in elim (key x) [ none ↦ rest | some n ↦ (payload, n) ∷ rest ]

  unfoldable pub candidates : ℕ → List (Bytes × ParsedPayload) → List (Bytes × Reveal × Bytes)
  candidates current_kyn [] = []
  candidates current_kyn ((payload, a_reveal reveal) ∷ parsed) =
      (payload, reveal, proof_distance current_kyn reveal.vdf_proof) ∷ candidates current_kyn parsed
  candidates current_kyn ((payload, x) ∷ parsed) = candidates current_kyn parsed

  -- the text whose hash the VDF is checked against here
  unfoldable pub tie_data : Reveal → Bytes → Bytes
  tie_data reveal drand_sig_bytes =
      reveal.name ++ (reveal.salt ++ (e.p.sha256 drand_sig_bytes ++ reveal.pubkey))

  -- the required iterations are met and the VDF verifies, neither in development mode
  unfoldable pub tie_proves : Reveal → Bytes → Required → Bool
  tie_proves reveal drand_sig_bytes (rejected x) = false
  tie_proves reveal drand_sig_bytes (required n) =
      if not e.k.dev_mode && ltb reveal.iterations n
      then false
      else if e.k.dev_mode
      then true
      else is_accepted (
          e.p.vdf_verify (e.p.sha256 (tie_data reveal drand_sig_bytes)) reveal.vdf_proof
            reveal.iterations)

  -- the global action state alone; the storage is not read
  unfoldable pub tie_surroundings : Surroundings
  tie_surroundings = record { action_state = e.action_state; stored = λ key. none }

  -- the checks of a candidate
  unfoldable pub wins : ℕ → Reveal → Bool
  wins current_kyn reveal =
      (e.k.dev_mode || is_none (verify_signature e.k e.p e.j reveal))
      && elim (e.p.hex_decode reveal.beacon_signature) [
        | none ↦ false
        | some drand_sig_bytes ↦
            verify_beacon_signature e.p reveal.kyn reveal.beacon_signature e.k.dev_mode
            && (leb (current_kyn - reveal.kyn) resquaring_epoch_kyns
                && tie_proves reveal drand_sig_bytes
                    (compute_required_iterations e.k e.p tie_surroundings reveal current_kyn))
      ]

  -- the loop over the candidates
  unfoldable pub first_winner : ℕ → List (Bytes × Reveal × Bytes) → Option Bytes
  first_winner current_kyn [] = none
  first_winner current_kyn ((payload, reveal, dist) ∷ found) =
      let rest = first_winner current_kyn found in
      if wins current_kyn reveal then some payload else rest

  unfoldable pub has_kid : List (Bytes × ParsedPayload) → Bool
  has_kid [] = false
  has_kid ((payload, a_kid doc) ∷ parsed) = true
  has_kid ((payload, x) ∷ parsed) = has_kid parsed

  unfoldable pub has_route : List (Bytes × ParsedPayload) → Bool
  has_route [] = false
  has_route ((payload, a_host_routing route) ∷ parsed) = true
  has_route ((payload, x) ∷ parsed) = has_route parsed

  -- the choice among the parsed payloads
  unfoldable pub choose : ℕ → List (Bytes × ParsedPayload) → Option Bytes
  choose current_kyn parsed =
      if has_kid parsed
      then payload_of (least (keyed (document_key current_kyn) parsed))
      else if has_route parsed
      then payload_of (least (keyed (route_key current_kyn) parsed))
      else first_winner current_kyn (sort_nearest (candidates current_kyn parsed))

  unfoldable pub xor_tie_breaker : Bytes → List Bytes → ℕ → Option Bytes
  xor_tie_breaker query_name [] current_kyn = none
  xor_tie_breaker query_name (payload ∷ payloads) current_kyn =
      choose current_kyn (parse_payloads query_name (dedup (sort (payload ∷ payloads))))
