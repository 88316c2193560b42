-- ===== src/Examples/Resolving.antt =====
-- Zones, addresses and the DNS server.
use mathlib.Core.List.{Memᴰ}
use kinetic.Prelude.{
  ℕ, ◌<◌, ◌≡◌, ◌↔◌, refl, Bool, true, false, Option, none, some, List, [], ◌∷◌, ◌++◌, any, arith,
}
use kinetic.Prelude.Bytes.{Bytes, codes}
use kinetic.Config.{kin_network, toy_platform}
use kinetic.NameRecord.{NameEnvelope, standard}
use kinetic.Signature.{verify_envelope_signature}
use kinetic.Net.{Ipv4Addr, validate_v4, validate_ssrf_safe}
use kinetic.Net.Blocks.{IsIpv4, address, within, special_blocks, validate_v4_iff}
use kinetic.Zone.{a, cname, kid, txt, NrsZone, ZoneParsers, ok_zone, parse_zone}
use kinetic.Zone.Valid.{IsZone, parse_zone_sound}
use kinetic.Resolver.{
  a_type, Answer, a_answer, cname_answer, no_error, NameReply, success, Outside, keys, first_label,
  is_reserved_label, answer_of, resolve_kinetic,
}
use kinetic.Resolver.Safe.{Points}
use kinetic.Resolver.Signed.{Origin, resolve_kinetic-Points, resolve_kinetic_signed}
use kinetic.Resolver.Dotted.{dotted_target_passes}
use kinetic.Examples.{toy_jcs, toy_reveal}

abbrev one_one : Ipv4Addr
one_one = record { o0 = 1; o1 = 1; o2 = 1; o3 = 1 }

one_one-IsIpv4 : IsIpv4 one_one
one_one-IsIpv4 = record { b0 = omega arith; b1 = omega arith; b2 = omega arith; b3 = omega arith }

validate_v4_iff_example :
    (validate_v4 one_one ≡ none) ↔ (any (within (address one_one)) special_blocks ≡ false)
validate_v4_iff_example = validate_v4_iff one_one one_one-IsIpv4

-- a zone with an address and an identity at the apex, and a CNAME
abbrev toy_zone : NrsZone
toy_zone =
    (codes "@", a one_one ∷ kid (codes "did:kin:05") ∷ [])
    ∷ (codes "www", cname (codes "a.kin") ∷ [])
    ∷ []

abbrev toy_parsers : ZoneParsers
toy_parsers = record { from_slice = λ b. some toy_zone; is_peer_id = λ b. true }

toy_zone-parsed :
    parse_zone kin_network toy_parsers toy_platform toy_reveal.embedded_nrs ≡ ok_zone toy_zone
unfolding parse_zone kinetic.Zone.checked_zone kinetic.Zone.validate_zone kinetic.Zone.total_records
    kinetic.Zone.lower_labels kinetic.Zone.extend kinetic.Prelude.Assoc.lookup
    kinetic.Prelude.Assoc.insert kinetic.Prelude.Bytes.bytes_eq kinetic.Zone.groups_error
    kinetic.Zone.group_error kinetic.Zone.label_error kinetic.Zone.cname_error
    kinetic.Zone.cname_count kinetic.Zone.entries_error kinetic.Zone.entry_error
    kinetic.Action.starts_with kinetic.Prelude.Bytes.ends_with
toy_zone-parsed = refl

parse_zone_sound_example : IsZone kin_network toy_parsers toy_zone
parse_zone_sound_example =
    parse_zone_sound kin_network toy_parsers toy_platform toy_reveal.embedded_nrs toy_zone
      toy_zone-parsed

abbrev toy_outside : Outside
toy_outside = record {
  zone_parsers = toy_parsers;
  envelope_from_slice = λ b. some (standard toy_reveal);
  b64_encode = λ b. b;
  parse_ip = λ b. none;
  is_name = λ b. true;
  resolve_kid = λ did. keys (toy_reveal.pubkey ∷ []);
}

free-name : is_reserved_label (first_label (codes "kinetic.kin")) ≡ false
unfolding is_reserved_label kinetic.Prelude.Bytes.bytes_eq first_label kinetic.Names.split_dots
free-name = refl

apex-answered :
    resolve_kinetic kin_network toy_platform toy_jcs toy_outside none
      (success ((1 ∷ []) ∷ []))
      (codes "kinetic.kin")
      a_type
      (codes "kinetic.kin")
      (codes "kinetic.kin")
    ≡ no_error (a_answer one_one ∷ [])
unfolding resolve_kinetic kinetic.Resolver.answer_payload kinetic.Resolver.answer_envelope
    kinetic.Resolver.answer_zone kinetic.Resolver.answer_query kinetic.Resolver.send
    kinetic.Resolver.answers_of answer_of kinetic.Resolver.a_record kinetic.Resolver.is_safe
    kinetic.Resolver.kids_match kinetic.Resolver.kid_matches kinetic.Resolver.apex_records
    kinetic.Resolver.or_wildcard kinetic.Resolver.subname_of kinetic.Resolver.looked_up
    kinetic.Resolver.fetch kinetic.Resolver.check_download kinetic.Resolver.check_payload
    kinetic.Resolver.download first_label is_reserved_label kinetic.Names.split_dots
    kinetic.Prelude.Bytes.bytes_eq kinetic.Prelude.Assoc.lookup verify_envelope_signature
    kinetic.Signature.verify_signature kinetic.Signature.verify_identity
    kinetic.Signature.verify_previous validate_ssrf_safe validate_v4 kinetic.Resolver.text_answer
    kinetic.Resolver.wants_text
apex-answered = rw toy_zone-parsed refl

resolve_kinetic-Points_example :
    Points kin_network toy_platform toy_jcs toy_outside (a_answer one_one)
resolve_kinetic-Points_example =
    resolve_kinetic-Points kin_network toy_platform toy_jcs toy_outside none
      (success ((1 ∷ []) ∷ [])) (codes "kinetic.kin") a_type (codes "kinetic.kin")
      (codes "kinetic.kin") (a_answer one_one ∷ []) (a_answer one_one) free-name apex-answered
      (Memᴰ.head refl)

resolve_kinetic_signed_example :
    (bytes : Bytes) × (r : NameEnvelope) × (toy_outside.envelope_from_slice bytes ≡ some r)
    × (verify_envelope_signature kin_network toy_platform toy_jcs r ≡ none)
    × Origin kin_network toy_platform toy_jcs toy_outside a_type
        (codes "kinetic.kin")
        (codes "kinetic.kin")
        bytes
        (a_answer one_one ∷ [])
resolve_kinetic_signed_example =
    resolve_kinetic_signed kin_network toy_platform toy_jcs toy_outside (success ((1 ∷ []) ∷ []))
      (codes "kinetic.kin") a_type (codes "kinetic.kin") (codes "kinetic.kin")
      (a_answer one_one ∷ []) free-name apex-answered

localhost-lowered :
    toy_platform.to_lowercase (codes "localhost" ++ codes ".") ≡ codes "localhost" ++ codes "."
localhost-lowered = refl

dotted_target_passes_example :
    answer_of kin_network toy_platform toy_jcs toy_outside a_type
      (cname (codes "localhost" ++ codes "."))
    ≡ some (cname_answer (codes "localhost" ++ codes "."))
dotted_target_passes_example =
    dotted_target_passes kin_network toy_platform toy_jcs toy_outside a_type (codes "localhost")
      (codes "localhost") localhost-lowered refl refl
