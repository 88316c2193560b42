-- ===== src/Resolver.antt =====
-- The DNS server of the network: `resolve_kinetic` of kinetic-nrs/src/records.rs. What the daemon
-- answers over HTTP, the cache and the parsers of other crates are parameters; a reply is what is
-- sent to the client.
pub mod Safe
pub mod Signed
pub mod Dotted
use kinetic.Prelude.{
  ℕ, ◌+◌, ◌*◌, Bool, true, false, not, ◌&&◌, ◌||◌, Option, none, some, List, [], ◌∷◌, ◌++◌, ltb,
  if◌then◌else◌, length, any,
}
use kinetic.Prelude.Bytes.{Bytes, codes, bytes_eq, ends_with, strip_suffix}
use kinetic.Prelude.Assoc.{lookup}
use kinetic.Config.{NetworkConstants, Platform}
use kinetic.Names.{reserved_names, split_dots}
use kinetic.Kid.{Jcs}
use kinetic.NameRecord.{NameEnvelope, reveal_of}
use kinetic.Signature.{verify_envelope_signature}
use kinetic.Net.{Ipv4Addr, Ipv6Addr, IpAddr, v4, v6, validate_ssrf_safe}
use kinetic.Zone.{
  NrsEntry, a, aaaa, cname, txt, peer_id, kid, ipfs, other, NrsZone, ZoneParsers, is_cname,
  ParsedZone, ok_zone, bad_zone, parse_zone,
}

-- the type of a query, as far as the server distinguishes them
pub data RecordType : Type 0 where
  a_type : RecordType
  aaaa_type : RecordType
  txt_type : RecordType
  any_type : RecordType
  other_type : RecordType

pub data Answer : Type 0 where
  a_answer : Ipv4Addr → Answer
  aaaa_answer : Ipv6Addr → Answer
  cname_answer : Bytes → Answer
  txt_answer : Bytes → Answer

-- the response code, with the records of a `NoError`
pub data Reply : Type 0 where
  no_error : List Answer → Reply
  serv_fail : Reply
  form_err : Reply
  nx_domain : Reply

-- the answer of the daemon to the request for a name, with the chunks of the body
pub data NameReply : Type 0 where
  success : List Bytes → NameReply
  not_found : NameReply
  bad_status : NameReply
  unreachable : NameReply

-- the answer of the daemon to the request for an identity document, with the public keys of its
-- controllers
pub data KidReply : Type 0 where
  keys : List Bytes → KidReply
  not_json : KidReply
  failure : KidReply

pub record Outside : Type 0 where
  pub zone_parsers : ZoneParsers
  pub envelope_from_slice : Bytes → Option NameEnvelope
  pub b64_encode : Bytes → Bytes
  pub parse_ip : Bytes → Option IpAddr
  pub is_name : Bytes → Bool
  pub resolve_kid : Bytes → KidReply

-- the payload of a name, `none` for `Ok(None)`
pub data Looked : Type 0 where
  payload : Option Bytes → Looked
  lookup_error : Looked

-- the loop over the chunks, up to 100 KB
unfoldable pub download : Bytes → List Bytes → Option Bytes
download body [] = some body
download body (chunk ∷ chunks) =
    let rest = download (body ++ chunk) chunks in
    if ltb (100 * 1024) (length body + length chunk) then none else rest

-- the first label of a name, and whether it is reserved
unfoldable pub first_label : Bytes → Bytes
first_label apex_name = elim (split_dots apex_name) [ [] ↦ [] | part ∷ parts ↦ part ]

unfoldable pub is_reserved_label : Bytes → Bool
is_reserved_label part = any (λ name. bytes_eq name part) reserved_names

-- the part of a name below its apex
unfoldable pub without_dot : Bytes → Bytes
without_dot [] = []
without_dot (c ∷ s) = if bytes_eq (c ∷ s) (codes ".") then [] else c ∷ without_dot s

unfoldable pub at_if_empty : Bytes → Bytes
at_if_empty [] = codes "@"
at_if_empty (c ∷ s) = c ∷ s

unfoldable pub or_whole : Bytes → Option Bytes → Bytes
or_whole full_name none = full_name
or_whole full_name (some sub) = sub

unfoldable pub subname_of : Bytes → Bytes → Bytes
subname_of full_name apex_name =
    if bytes_eq full_name apex_name
    then codes "@"
    else at_if_empty
        (without_dot (or_whole full_name (strip_suffix full_name (codes "." ++ apex_name))))

-- the records of a subname, or else those of the wildcard
unfoldable pub or_wildcard : NrsZone → Option (List NrsEntry) → Option (List NrsEntry)
or_wildcard zone none = lookup (codes "*") zone
or_wildcard zone (some records) = some records

-- the queries that texts answer
unfoldable pub wants_text : RecordType → Bool
wants_text txt_type = true
wants_text any_type = true
wants_text q = false

-- a test that rejects addresses
unfoldable pub is_safe : IpAddr → Bool
is_safe ip = elim (validate_ssrf_safe ip) [ none ↦ true | some e ↦ false ]

unfoldable pub text_answer : RecordType → Bytes → Option Answer
text_answer q text = if wants_text q then some (txt_answer text) else none

module _ (k : NetworkConstants) (p : Platform) (j : Jcs) (w : Outside) where
  -- whether a CNAME names a reserved name
  unfoldable pub is_blocked_cname : Bytes → Bool
  is_blocked_cname target =
      let target_lower = p.to_lowercase target in
      any (λ name. bytes_eq target_lower name || ends_with target_lower (codes "." ++ name))
        reserved_names

  -- whether a target is an address that is rejected
  unfoldable pub is_unsafe_target : Option IpAddr → Bool
  is_unsafe_target none = false
  is_unsafe_target (some ip) = not (is_safe ip)

  unfoldable pub a_record : RecordType → Ipv4Addr → Option Answer
  a_record a_type ip = if is_safe (v4 ip) then some (a_answer ip) else none
  a_record q ip = none

  unfoldable pub aaaa_record : RecordType → Ipv6Addr → Option Answer
  aaaa_record aaaa_type ip = if is_safe (v6 ip) then some (aaaa_answer ip) else none
  aaaa_record q ip = none

  -- the arm of the `match` for a record
  unfoldable pub answer_of : RecordType → NrsEntry → Option Answer
  answer_of q (a ip) = a_record q ip
  answer_of q (aaaa ip) = aaaa_record q ip
  answer_of q (cname target) =
      if is_blocked_cname target
      then none
      else if is_unsafe_target (w.parse_ip target)
      then none
      else if w.is_name target
      then some (cname_answer target)
      else none
  answer_of q (txt text) = text_answer q text
  answer_of q (peer_id text) = text_answer q (codes "peerid=" ++ text)
  answer_of q (kid text) = text_answer q (codes "kid=" ++ text)
  answer_of q (ipfs text) = text_answer q (codes "ipfs=" ++ text)
  answer_of q other = none

  -- the loop over the records; with a CNAME, only CNAMEs are returned
  unfoldable pub answers_of : RecordType → Bool → List NrsEntry → List Answer
  answers_of q has_cname [] = []
  answers_of q has_cname (entry ∷ records) =
      let rest = answers_of q has_cname records in
      if has_cname && not (is_cname entry)
      then rest
      else elim (answer_of q entry) [ none ↦ rest | some answer ↦ answer ∷ rest ]

  unfoldable pub send : List Answer → Reply
  send [] = nx_domain
  send (answer ∷ answers) = no_error (answer ∷ answers)

  unfoldable pub answer_query : Bytes → RecordType → Option (List NrsEntry) → Reply
  answer_query query_name q none = nx_domain
  answer_query query_name q (some records) =
      if not (w.is_name query_name)
      then form_err
      else send (answers_of q (any is_cname records) records)

  -- whether the identity documents that the apex names list the key of the record
  unfoldable pub kid_matches : NameEnvelope → KidReply → Bool
  kid_matches r (keys found) = any (λ key. bytes_eq key (w.b64_encode (reveal_of r).pubkey)) found
  kid_matches r not_json = true
  kid_matches r failure = false

  unfoldable pub kids_match : NameEnvelope → List NrsEntry → Bool
  kids_match r [] = true
  kids_match r (kid did ∷ records) = kid_matches r (w.resolve_kid did) && kids_match r records
  kids_match r (entry ∷ records) = kids_match r records

  unfoldable pub apex_records : Option (List NrsEntry) → List NrsEntry
  apex_records none = []
  apex_records (some records) = records

  unfoldable pub answer_zone :
      Bytes → RecordType → Bytes → Bytes → NameEnvelope → ParsedZone → Reply
  answer_zone query_name q full_name apex_name r (bad_zone e) = nx_domain
  answer_zone query_name q full_name apex_name r (ok_zone zone) =
      if not (kids_match r (apex_records (lookup (codes "@") zone)))
      then serv_fail
      else answer_query query_name q
          (or_wildcard zone (lookup (subname_of full_name apex_name) zone))

  unfoldable pub answer_envelope : Bytes → RecordType → Bytes → Bytes → Option NameEnvelope → Reply
  answer_envelope query_name q full_name apex_name none = nx_domain
  answer_envelope query_name q full_name apex_name (some r) =
      answer_zone query_name q full_name apex_name r
        (parse_zone k w.zone_parsers p (reveal_of r).embedded_nrs)

  unfoldable pub answer_payload : Bytes → RecordType → Bytes → Bytes → Looked → Reply
  answer_payload query_name q full_name apex_name lookup_error = serv_fail
  answer_payload query_name q full_name apex_name (payload none) = nx_domain
  answer_payload query_name q full_name apex_name (payload (some bytes)) =
      answer_envelope query_name q full_name apex_name (w.envelope_from_slice bytes)

  -- the signature of a record that is not a local override
  unfoldable pub check_payload : Bool → Bytes → Looked
  check_payload is_reserved bytes =
      if is_reserved then payload (some bytes) else elim (w.envelope_from_slice bytes) [
        | none ↦ lookup_error
        | some r ↦ elim (verify_envelope_signature k p j r) [
          | none ↦ payload (some bytes)
          | some e ↦ lookup_error
        ]
      ]

  unfoldable pub check_download : Bool → Option Bytes → Looked
  check_download is_reserved none = payload none
  check_download is_reserved (some bytes) = check_payload is_reserved bytes

  -- the request to the daemon on a cache miss
  unfoldable pub fetch : Bool → NameReply → Looked
  fetch is_reserved (success chunks) = check_download is_reserved (download [] chunks)
  fetch is_reserved not_found = payload none
  fetch is_reserved bad_status = lookup_error
  fetch is_reserved unreachable = lookup_error

  -- `try_get_with`: what the cache holds, or else the request
  unfoldable pub looked_up : Bool → Option (Option Bytes) → NameReply → Looked
  looked_up is_reserved (some held) reply = payload held
  looked_up is_reserved none reply = fetch is_reserved reply

  unfoldable pub answer_localhost : RecordType → Reply
  answer_localhost a_type = no_error (a_answer (record { o0 = 127; o1 = 0; o2 = 0; o3 = 1 }) ∷ [])
  answer_localhost aaaa_type =
      no_error (
        aaaa_answer (record { s0 = 0; s1 = 0; s2 = 0; s3 = 0; s4 = 0; s5 = 0; s6 = 0; s7 = 1 })
        ∷ [])
  answer_localhost q = no_error []

  unfoldable pub resolve_kinetic :
      Option (Option Bytes) → NameReply → Bytes → RecordType → Bytes → Bytes → Reply
  resolve_kinetic cached reply query_name q full_name apex_name =
      let first = first_label apex_name in
      let is_reserved = is_reserved_label first in
      if is_reserved && bytes_eq first (codes "localhost")
      then answer_localhost q
      else answer_payload query_name q full_name apex_name (looked_up is_reserved cached reply)
