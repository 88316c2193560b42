-- ===== src/Resolver/Signed.antt =====
-- Where a reply of the DNS server comes from (kinetic-nrs/src/records.rs).
use mathlib.Core.List.{Memᴰ}
use kinetic.Prelude.{
  ◌⊎◌, any→mem, ◌≡◌, refl, sym, ap, subst, inl, inr, true, false, Option, none, some, List, [], ◌∷◌,
  any, arith, Bool-cases, Option-cases,
}
use kinetic.Prelude.Bytes.{Bytes, codes, bytes_eq, bytes_eq→≡}
use kinetic.Prelude.Assoc.{lookup}
use kinetic.Config.{NetworkConstants, Platform}
use kinetic.Kid.{Jcs}
use kinetic.NameRecord.{NameEnvelope, reveal_of}
use kinetic.Zone.{
  NrsEntry, a, aaaa, cname, txt, peer_id, kid, ipfs, other, is_cname, ParsedZone, ok_zone, bad_zone,
  parse_zone,
}
use kinetic.Resolver.{
  KidReply, keys, not_json, failure, kid_matches, RecordType, Answer, Reply, no_error, NameReply,
  Looked, payload, lookup_error, Outside, answers_of, send, answer_query, kids_match, apex_records,
  answer_zone, answer_envelope, answer_payload, is_reserved_label, first_label, looked_up,
  resolve_kinetic, or_wildcard, subname_of,
}
use kinetic.Signature.{verify_envelope_signature}
use kinetic.Zone.{NrsZone}
use kinetic.Resolver.{
  success, not_found, bad_status, unreachable, download, check_payload, check_download, fetch,
}
use kinetic.Resolver.Safe.{Points, answers-Points}

answers_in : Reply → List Answer
answers_in (no_error answers) = answers
answers_in r = []

payload_in : Looked → Option Bytes
payload_in (payload o) = o
payload_in lookup_error = none

module _ (k : NetworkConstants) (p : Platform) (j : Jcs) (w : Outside) where
  -- the daemon's identity document lists the key of the record, or its answer was not JSON
  pub IsListed : NameEnvelope → Bytes → Type 0
  IsListed r did =
      (w.resolve_kid did ≡ not_json)
      ⊎ ((found : List Bytes) × (w.resolve_kid did ≡ keys found)
          × Memᴰ (w.b64_encode (reveal_of r).pubkey) found)

  kid_matches-IsListed :
      (r : NameEnvelope) (did : Bytes) (reply : KidReply)
      → w.resolve_kid did ≡ reply
      → kid_matches k p j w r reply ≡ true
      → IsListed r did
  unfolding kid_matches IsListed
  kid_matches-IsListed r did (keys found) q h =
      let key = w.b64_encode (reveal_of r).pubkey in
      let (x, m, same) = any→mem (λ x. bytes_eq x key) found h in
      inr (found, q, subst (λ y. Memᴰ y found) (bytes_eq→≡ x key same) m)
  kid_matches-IsListed r did not_json q h = inl q
  kid_matches-IsListed r did failure q h = absurd (ground (arith, h))

  kids_match-IsListed :
      (r : NameEnvelope) (records : List NrsEntry) (did : Bytes)
      → kids_match k p j w r records ≡ true
      → Memᴰ (kid did) records
      → IsListed r did
  unfolding kids_match
  kids_match-IsListed r [] did h m = elim m [ ]
  kids_match-IsListed r (a ip ∷ records) did h (Memᴰ.head q) = absurd (ground (arith, q))
  kids_match-IsListed r (a ip ∷ records) did h (Memᴰ.tail m) = kids_match-IsListed r records did h m
  kids_match-IsListed r (aaaa ip ∷ records) did h (Memᴰ.head q) = absurd (ground (arith, q))
  kids_match-IsListed r (aaaa ip ∷ records) did h (Memᴰ.tail m) =
      kids_match-IsListed r records did h m
  kids_match-IsListed r (cname t ∷ records) did h (Memᴰ.head q) = absurd (ground (arith, q))
  kids_match-IsListed r (cname t ∷ records) did h (Memᴰ.tail m) =
      kids_match-IsListed r records did h m
  kids_match-IsListed r (txt t ∷ records) did h (Memᴰ.head q) = absurd (ground (arith, q))
  kids_match-IsListed r (txt t ∷ records) did h (Memᴰ.tail m) =
      kids_match-IsListed r records did h m
  kids_match-IsListed r (peer_id t ∷ records) did h (Memᴰ.head q) = absurd (ground (arith, q))
  kids_match-IsListed r (peer_id t ∷ records) did h (Memᴰ.tail m) =
      kids_match-IsListed r records did h m
  kids_match-IsListed r (ipfs t ∷ records) did h (Memᴰ.head q) = absurd (ground (arith, q))
  kids_match-IsListed r (ipfs t ∷ records) did h (Memᴰ.tail m) =
      kids_match-IsListed r records did h m
  kids_match-IsListed r (other ∷ records) did h (Memᴰ.head q) = absurd (ground (arith, q))
  kids_match-IsListed r (other ∷ records) did h (Memᴰ.tail m) =
      kids_match-IsListed r records did h m
  kids_match-IsListed r (kid d ∷ records) did h (Memᴰ.head q) =
      let same : did ≡ d = cc q in
      subst (IsListed r) (sym same)
        (kid_matches-IsListed r d (w.resolve_kid d) refl (ground (arith, h)))
  kids_match-IsListed r (kid d ∷ records) did h (Memᴰ.tail m) =
      kids_match-IsListed r records did (ground (arith, h)) m

  -- the records behind the answers to a query: those of the subname or of the wildcard, in the zone
  -- of a record whose identity documents list its key, as far as they were answered in JSON
  pub record Origin (q : RecordType) (full_name apex_name bytes : Bytes) (answers : List Answer)
      : Type 0 where
    pub r : NameEnvelope
    pub zone : NrsZone
    pub records : List NrsEntry
    pub parsed : w.envelope_from_slice bytes ≡ some r
    pub valid : parse_zone k w.zone_parsers p (reveal_of r).embedded_nrs ≡ ok_zone zone
    pub matched :
        (did : Bytes)
        → Memᴰ (kid did) (apex_records k p j w (lookup (codes "@") zone))
        → IsListed r did
    pub found : or_wildcard zone (lookup (subname_of full_name apex_name) zone) ≡ some records
    pub given : answers ≡ answers_of k p j w q (any is_cname records) records

  send_sound : (xs answers : List Answer) → send k p j w xs ≡ no_error answers → answers ≡ xs
  unfolding send
  send_sound [] answers h = absurd (ground arith)
  send_sound (x ∷ xs) answers h = unfold answers_in in sym (ap answers_in h)

  answer_query_sound :
      (query_name : Bytes) (q : RecordType) (o : Option (List NrsEntry)) (answers : List Answer)
      → answer_query k p j w query_name q o ≡ no_error answers
      → (records : List NrsEntry) × (o ≡ some records)
        × (answers ≡ answers_of k p j w q (any is_cname records) records)
  unfolding answer_query
  answer_query_sound query_name q none answers h = absurd (ground arith)
  answer_query_sound query_name q (some records) answers h =
      elim (Bool-cases (w.is_name query_name)) [
        | inr n ↦ absurd (ground arith)
        | inl n ↦
            let xs = answers_of k p j w q (any is_cname records) records in
            let end : send k p j w xs ≡ no_error answers = ground arith in
            (records, refl, send_sound xs answers end)
      ]

  answer_zone_sound :
      (query_name : Bytes) (q : RecordType) (full_name apex_name bytes : Bytes) (r : NameEnvelope)
      (answers : List Answer) (z : ParsedZone)
      → w.envelope_from_slice bytes ≡ some r
      → parse_zone k w.zone_parsers p (reveal_of r).embedded_nrs ≡ z
      → answer_zone k p j w query_name q full_name apex_name r z ≡ no_error answers
      → Origin q full_name apex_name bytes answers
  unfolding answer_zone
  answer_zone_sound query_name q full_name apex_name bytes r answers (bad_zone e) x y h =
      absurd (ground arith)
  answer_zone_sound query_name q full_name apex_name bytes r answers (ok_zone zone) x y h =
      elim (Bool-cases (kids_match k p j w r (apex_records k p j w (lookup (codes "@") zone)))) [
        | inr n ↦ absurd (ground arith)
        | inl n ↦
            let o = or_wildcard zone (lookup (subname_of full_name apex_name) zone) in
            let end : answer_query k p j w query_name q o ≡ no_error answers = ground arith in
            let (records, found, given) = answer_query_sound query_name q o answers end in
            record {
              r = r;
              zone = zone;
              records = records;
              parsed = x;
              valid = y;
              matched = λ did m.
                  kids_match-IsListed r (apex_records k p j w (lookup (codes "@") zone)) did n m;
              found = found;
              given = given;
            }
      ]

  answer_envelope_sound :
      (query_name : Bytes) (q : RecordType) (full_name apex_name bytes : Bytes)
      (answers : List Answer) (o : Option NameEnvelope)
      → w.envelope_from_slice bytes ≡ o
      → answer_envelope k p j w query_name q full_name apex_name o ≡ no_error answers
      → Origin q full_name apex_name bytes answers
  unfolding answer_envelope
  answer_envelope_sound query_name q full_name apex_name bytes answers none x h =
      absurd (ground arith)
  answer_envelope_sound query_name q full_name apex_name bytes answers (some r) x h =
      answer_zone_sound query_name q full_name apex_name bytes r answers _ x refl h

  answer_payload_sound :
      (query_name : Bytes) (q : RecordType) (full_name apex_name : Bytes) (answers : List Answer)
      (found : Looked)
      → answer_payload k p j w query_name q full_name apex_name found ≡ no_error answers
      → (bytes : Bytes) × (found ≡ payload (some bytes))
        × Origin q full_name apex_name bytes answers
  unfolding answer_payload
  answer_payload_sound query_name q full_name apex_name answers lookup_error h =
      absurd (ground arith)
  answer_payload_sound query_name q full_name apex_name answers (payload none) h =
      absurd (ground arith)
  answer_payload_sound query_name q full_name apex_name answers (payload (some bytes)) h =
      (bytes, refl, answer_envelope_sound query_name q full_name apex_name bytes answers _ refl h)

  -- For a name that is not reserved, every address of an answer is one that the check for server-side
  -- request forgery accepts, and every CNAME is no address that it rejects and, in lower
  -- case and byte for byte, neither a reserved name nor anything that ends with a dot and a reserved
  -- name.
  pub resolve_kinetic-Points :
      (cached : Option (Option Bytes)) (reply : NameReply) (query_name : Bytes) (q : RecordType)
      (full_name apex_name : Bytes) (answers : List Answer) (x : Answer)
      → is_reserved_label (first_label apex_name) ≡ false
      → resolve_kinetic k p j w cached reply query_name q full_name apex_name ≡ no_error answers
      → Memᴰ x answers
      → Points k p j w x
  unfolding resolve_kinetic
  resolve_kinetic-Points cached reply query_name q full_name apex_name answers x free h m =
      let found = looked_up k p j w false cached reply in
      let end : answer_payload k p j w query_name q full_name apex_name found ≡ no_error answers =
        ground arith in
      let (bytes, e, o) = answer_payload_sound query_name q full_name apex_name answers found end in
      answers-Points k p j w q (any is_cname o.records) o.records x
        (subst (λ xs. Memᴰ x xs) o.given m)

  check_payload_sound :
      (body bytes : Bytes)
      → check_payload k p j w false body ≡ payload (some bytes)
      → (r : NameEnvelope) × (w.envelope_from_slice bytes ≡ some r)
        × (verify_envelope_signature k p j r ≡ none)
  unfolding check_payload
  check_payload_sound body bytes h = elim (Option-cases (w.envelope_from_slice body)) [
    | inl x ↦ absurd (ground arith)
    | inr (r, x) ↦ elim (Option-cases (verify_envelope_signature k p j r)) [
      | inr (e, y) ↦ absurd (ground arith)
      | inl y ↦
          let end : payload (some body) ≡ payload (some bytes) = ground arith in
          let same : some body ≡ some bytes = unfold payload_in in ap payload_in end in
          let is : body ≡ bytes = cc same in
          (r, subst (λ b. w.envelope_from_slice b ≡ some r) is x, y)
    ]
  ]

  fetch_sound :
      (reply : NameReply) (bytes : Bytes)
      → fetch k p j w false reply ≡ payload (some bytes)
      → (r : NameEnvelope) × (w.envelope_from_slice bytes ≡ some r)
        × (verify_envelope_signature k p j r ≡ none)
  unfolding fetch
  fetch_sound (success chunks) bytes h = elim (Option-cases (download [] chunks)) [
    | inl x ↦ absurd (unfold check_download in ground arith)
    | inr (body, x) ↦ check_payload_sound body bytes (unfold check_download in ground arith)
  ]
  fetch_sound not_found bytes h = absurd (ground arith)
  fetch_sound bad_status bytes h = absurd (ground arith)
  fetch_sound unreachable bytes h = absurd (ground arith)

  -- For a name that is not reserved and not in the cache, the answers come from the zone of a record
  -- that is validly signed: from the records of the subname, or else of the wildcard, of a valid
  -- zone; and each identity document that the apex of the zone names lists the key of the record,
  -- unless the daemon's answer to the request for it was a success that is not JSON.
  pub resolve_kinetic_signed :
      (reply : NameReply) (query_name : Bytes) (q : RecordType) (full_name apex_name : Bytes)
      (answers : List Answer)
      → is_reserved_label (first_label apex_name) ≡ false
      → resolve_kinetic k p j w none reply query_name q full_name apex_name ≡ no_error answers
      → (bytes : Bytes) × (r : NameEnvelope) × (w.envelope_from_slice bytes ≡ some r)
        × (verify_envelope_signature k p j r ≡ none)
        × Origin q full_name apex_name bytes answers
  unfolding resolve_kinetic looked_up
  resolve_kinetic_signed reply query_name q full_name apex_name answers free h =
      let found = fetch k p j w false reply in
      let end : answer_payload k p j w query_name q full_name apex_name found ≡ no_error answers =
        ground arith in
      let (bytes, e, o) = answer_payload_sound query_name q full_name apex_name answers found end in
      let (r, x, y) = fetch_sound reply bytes e in (bytes, r, x, y, o)
