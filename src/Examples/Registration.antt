-- ===== src/Examples/Registration.antt =====
-- Signed texts, reveals and DHT keys.
use mathlib.Core.List.{Memᴰ}
use kinetic.Prelude.{
  ℕ, ◌^◌, ◌<◌, ◌≤◌, ◌≡◌, ◌≢◌, refl, Bool, true, false, none, some, [], ◌∷◌, arith, length,
  replicate, min, max,
}
use kinetic.Prelude.Bytes.{Bytes, codes}
use kinetic.Prelude.Words.{u64_be}
use kinetic.Config.{Platform, kin_network, toy_platform}
use kinetic.Names.{is_valid_apex_name}
use kinetic.Physics.{iterations}
use kinetic.Kyn.Beacon.{verify_beacon_signature}
use kinetic.Identity.{AuthorizedKid}
use kinetic.Vdf.{PreviousProof, Reveal, commitment_data, derive, reveal_signable, previous_signable}
use kinetic.Vdf.Signable.{IsEncodable, SameSigned, reveal_signable_inj}
use kinetic.Vdf.Validate.{validate, validate_sound}
use kinetic.NameRecord.{Heartbeat, heartbeat_signable, derive_storage_keys, derive_heartbeat_keys}
use kinetic.Signature.{verify_signature}
use kinetic.Store.{Surroundings}
use kinetic.Store.RevealCheck.{loyalty_iterations, is_halted_now, verify_reveal, commit_key}
use kinetic.Store.Reveals.{IsWorked, verify_reveal_sound}
use kinetic.Examples.{toy_jcs, toy_document, toy_reveal, toy_authorization}

toy_reveal-IsEncodable : IsEncodable kin_network toy_reveal
toy_reveal-IsEncodable = record {
  name = omega arith;
  embedded_nrs = omega arith;
  salt = refl;
  kyn = omega arith;
  beacon_signature = omega arith;
  iterations = omega arith;
  vdf_proof = omega arith;
  pubkey = omega arith;
  previous = λ prev h. absurd (ground arith);
  previous_size = λ prev h. absurd (ground arith);
}

abbrev renamed : Reveal
renamed = record toy_reveal { identity_signature = 4 ∷ []; authorization = some toy_authorization }

renamed-IsEncodable : IsEncodable kin_network renamed
renamed-IsEncodable = record {
  name = omega arith;
  embedded_nrs = omega arith;
  salt = refl;
  kyn = omega arith;
  beacon_signature = omega arith;
  iterations = omega arith;
  vdf_proof = omega arith;
  pubkey = omega arith;
  previous = λ prev h. absurd (ground arith);
  previous_size = λ prev h. absurd (ground arith);
}

same_text : reveal_signable kin_network toy_reveal ≡ reveal_signable kin_network renamed
unfolding reveal_signable
same_text = refl

reveal_signable_inj_example : SameSigned toy_reveal renamed
reveal_signable_inj_example =
    reveal_signable_inj kin_network toy_reveal renamed toy_reveal-IsEncodable renamed-IsEncodable
      same_text

abbrev salt_bytes : Bytes
salt_bytes = replicate 32 3

abbrev key_bytes : Bytes
key_bytes = replicate 8 7

toy_reveal-validates : validate kin_network toy_platform toy_reveal ≡ none
unfolding validate is_valid_apex_name kinetic.Names.normalize_name kinetic.Prelude.Bytes.ends_with
    kinetic.Names.trim_dots kinetic.Names.trim_step kinetic.Names.check_labels
    kinetic.Names.split_dots kinetic.Names.check_label kinetic.Names.has_bad_character
    kinetic.Names.extract_apex_name kinetic.Names.last_two kinetic.Names.is_reserved_name
    kinetic.Vdf.Validate.validate_sizes
toy_reveal-validates = refl

abbrev toy_previous : PreviousProof
toy_previous = record {
  salt = replicate 32 4;
  kyn = 900;
  beacon_signature = 1 ∷ [];
  iterations = 3600000000;
  vdf_proof = 1 ∷ [];
  identity_signature = 1 ∷ [];
}

abbrev toy_heartbeat : Heartbeat
toy_heartbeat = record {
  name = codes "kinetic.kin";
  latest_kyn = 5001;
  owner_signature = 1 ∷ [];
  authorization = none;
}

abbrev toy_authorized : AuthorizedKid
toy_authorized = record {
  name = codes "kinetic.kin";
  kid_doc = toy_document;
  owner_signature = 1 ∷ [];
}

-- a platform whose hash has one value
abbrev one_hash : Platform
one_hash = record toy_platform { sha256 = λ s. 5 ∷ [] }

storage_key : Memᴰ (5 ∷ []) (derive_storage_keys kin_network one_hash (codes "a"))
unfolding derive_storage_keys kinetic.NameRecord.indices
storage_key = Memᴰ.head refl

heartbeat_key : Memᴰ (5 ∷ []) (derive_heartbeat_keys kin_network one_hash (codes "a"))
unfolding derive_heartbeat_keys kinetic.NameRecord.indices
heartbeat_key = Memᴰ.head refl

-- a storage in which the commitment to the reveal was made at kyn 1000
abbrev committed : Surroundings
committed = record { action_state = none; stored = λ key. some (u64_be 1000) }

toy_reveal-accepted :
    verify_reveal kin_network toy_platform toy_jcs committed toy_reveal 5000 ≡ none
unfolding validate is_valid_apex_name kinetic.Names.normalize_name kinetic.Prelude.Bytes.ends_with
    kinetic.Names.trim_dots kinetic.Names.trim_step kinetic.Names.check_labels
    kinetic.Names.split_dots kinetic.Names.check_label kinetic.Names.has_bad_character
    kinetic.Names.extract_apex_name kinetic.Names.last_two kinetic.Names.is_reserved_name
    kinetic.Vdf.Validate.validate_sizes iterations kinetic.Physics.label_of
    kinetic.Physics.label_iters kinetic.Physics.curve kinetic.Physics.scaled
    kinetic.Prelude.Bytes.strip_suffix verify_reveal is_halted_now kinetic.Store.RevealCheck.is_none
    kinetic.Store.RevealCheck.check_challenge kinetic.Store.RevealCheck.check_commitment
    kinetic.Store.RevealCheck.check_work kinetic.Store.RevealCheck.compute_required_iterations
    kinetic.Store.RevealCheck.get_u64_from_db kinetic.Store.RevealCheck.vdf_error loyalty_iterations
    verify_signature kinetic.Signature.verify_identity kinetic.Signature.verify_previous
    verify_beacon_signature kinetic.Prelude.Words.from_be kinetic.Prelude.Words.be_bytes
toy_reveal-accepted = refl

verify_reveal_sound_example :
    (is_halted_now committed.action_state ≡ false)
    × (validate kin_network toy_platform toy_reveal ≡ none)
    × (verify_signature kin_network toy_platform toy_jcs toy_reveal ≡ none)
    × (verify_beacon_signature toy_platform toy_reveal.kyn toy_reveal.beacon_signature false ≡ true)
    × ((sig_bytes : Bytes) × (toy_platform.hex_decode toy_reveal.beacon_signature ≡ some sig_bytes)
        × IsWorked kin_network toy_platform committed toy_reveal 5000 sig_bytes)
verify_reveal_sound_example =
    verify_reveal_sound kin_network toy_platform committed toy_jcs toy_reveal 5000 refl
      toy_reveal-accepted

full_cost : iterations kin_network toy_platform toy_reveal.name ≡ 3582297450
unfolding iterations kinetic.Physics.label_iters kinetic.Physics.curve kinetic.Physics.label_of
    kinetic.Prelude.Bytes.strip_suffix kinetic.Names.extract_apex_name kinetic.Names.last_two
    kinetic.Names.split_dots kinetic.Names.normalize_name kinetic.Prelude.Bytes.ends_with
    kinetic.Names.trim_dots kinetic.Names.trim_step kinetic.Physics.scaled
full_cost = refl

loyal_cost :
    loyalty_iterations kin_network toy_platform committed toy_reveal 5000 (some toy_previous)
    ≡ 716459490
unfolding loyalty_iterations verify_beacon_signature iterations kinetic.Physics.label_of
    kinetic.Physics.label_iters kinetic.Physics.curve kinetic.Physics.scaled
    kinetic.Prelude.Bytes.strip_suffix kinetic.Prelude.Bytes.bytes_eq
    kinetic.Names.extract_apex_name kinetic.Names.normalize_name kinetic.Names.split_dots
    kinetic.Names.last_two kinetic.Names.trim_dots kinetic.Names.trim_step
    kinetic.Prelude.Bytes.ends_with kinetic.Store.RevealCheck.earns_discount
    kinetic.Store.RevealCheck.is_accepted kinetic.Store.RevealCheck.discount_iterations
    kinetic.Store.RevealCheck.discounted kinetic.Store.RevealCheck.effective_age
    kinetic.Store.RevealCheck.paused_since
loyal_cost = refl

discounted_cost :
    loyalty_iterations kin_network toy_platform committed toy_reveal 5000 (some toy_previous)
    < iterations kin_network toy_platform toy_reveal.name
discounted_cost = omega (arith, full_cost, loyal_cost)
