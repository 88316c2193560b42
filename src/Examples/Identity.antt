-- ===== src/Examples/Identity.antt =====
-- Documents and signatures.
use mathlib.Core.List.{Memᴰ}
use kinetic.Prelude.{◌≡◌, ◌⊎◌, refl, true, false, none, some, [], ◌∷◌, ◌++◌, any}
use kinetic.Prelude.Bytes.{Bytes, codes, bytes_eq}
use kinetic.Config.{Platform, kin_network, toy_platform}
use kinetic.Kid.{Document, key_verifies, controller_verifies}
use kinetic.Kid.DocumentCheck.{verify, verify_genesis, is_authorized, envelope, open_envelope}
use kinetic.Kid.Authority.{
  SignedByController, SignedByRevocation, any-controller, verify_sound, is_authorized_sound,
}
use kinetic.Kid.Genesis.{deactivation_undone}
use kinetic.Signature.{verify_signature, has_capability}
use kinetic.Signature.Delegation.{
  IsSigned, IsPreviousSigned, verify_signature_sound, attached_document_unsigned,
}
use kinetic.Vdf.{Reveal, reveal_signable}
use kinetic.Examples.{toy_jcs, toy_document, toy_reveal, toy_authorization, delegate}

abbrev message : Bytes
message = codes "kin-kid-v1" ++ 0 ∷ codes "did:kin:05"

toy_document-verifies : verify kin_network toy_platform toy_jcs toy_document ≡ none
unfolding verify kinetic.Kid.DocumentCheck.check_limits kinetic.Kid.DocumentCheck.key_too_long
    kinetic.Kid.DocumentCheck.check_pointer kinetic.Kid.DocumentCheck.verify_envelope open_envelope
    kinetic.Kid.canonicalize_document kinetic.Kid.DocumentCheck.own_key_verifies controller_verifies
    kinetic.Kid.eq_ignore_ascii_case bytes_eq key_verifies
toy_document-verifies = refl

verify_sound_example :
    (msg : Bytes) × (sig : Bytes) × (open_envelope kin_network toy_platform toy_jcs toy_document
      ≡ envelope msg sig)
    × (((toy_document.deactivated ≡ true)
          × SignedByRevocation toy_platform msg sig toy_document.revocation_keys)
        ⊎ ((toy_document.deactivated ≡ false)
            × SignedByController toy_platform msg sig toy_document.controller_keys))
verify_sound_example =
    verify_sound kin_network toy_platform toy_jcs toy_document toy_document-verifies

abbrev updated : Document
updated = record toy_document { created_at = 2 }

updated-authorized : is_authorized kin_network toy_platform toy_jcs updated toy_document ≡ true
unfolding is_authorized kinetic.Kid.DocumentCheck.prior_key_verifies open_envelope
    kinetic.Kid.canonicalize_document controller_verifies kinetic.Kid.eq_ignore_ascii_case bytes_eq
    key_verifies
updated-authorized = refl

is_authorized_sound_example :
    (msg : Bytes) × (sig : Bytes) × (open_envelope kin_network toy_platform toy_jcs updated
      ≡ envelope msg sig)
    × (SignedByController toy_platform msg sig toy_document.controller_keys
        ⊎ ((updated.deactivated ≡ true)
            × SignedByRevocation toy_platform msg sig toy_document.revocation_keys))
is_authorized_sound_example =
    is_authorized_sound kin_network toy_platform toy_jcs updated toy_document updated-authorized

-- a platform whose hash yields one byte
abbrev byte_platform : Platform
byte_platform = record toy_platform { sha256 = λ s. 5 ∷ [] }

toy_document-genesis : verify_genesis kin_network byte_platform toy_document ≡ none
unfolding verify_genesis kinetic.Kid.DocumentCheck.verify_primary bytes_eq
    kinetic.Kid.DocumentCheck.expected_kid kinetic.Kid.DocumentCheck.hex_encode
toy_document-genesis = refl

updated-genesis : verify_genesis kin_network byte_platform updated ≡ none
unfolding verify_genesis kinetic.Kid.DocumentCheck.verify_primary bytes_eq
    kinetic.Kid.DocumentCheck.expected_kid kinetic.Kid.DocumentCheck.hex_encode
updated-genesis = refl

abbrev retired : Document
retired = record toy_document { deactivated = true }

toy_document-opens :
    open_envelope kin_network toy_platform toy_jcs toy_document ≡ envelope message (1 ∷ [])
unfolding open_envelope kinetic.Kid.canonicalize_document kinetic.Kid.kid_message
toy_document-opens = refl

retired-controllers : SignedByController toy_platform message (1 ∷ []) retired.controller_keys
unfolding controller_verifies kinetic.Kid.eq_ignore_ascii_case bytes_eq key_verifies
retired-controllers =
    any-controller toy_platform message (1 ∷ []) retired.controller_keys controllers-verify
  where
    controllers-verify :
        any (controller_verifies toy_platform message (1 ∷ [])) retired.controller_keys ≡ true
    controllers-verify = refl

deactivation_undone_example :
    is_authorized kin_network toy_platform toy_jcs toy_document retired ≡ true
deactivation_undone_example =
    deactivation_undone kin_network toy_platform toy_jcs toy_document retired message (1 ∷ []) refl
      refl toy_document-opens retired-controllers

abbrev delegated_reveal : Reveal
delegated_reveal = record toy_reveal { authorization = some toy_authorization }

delegated_reveal-verifies :
    verify_signature kin_network toy_platform toy_jcs delegated_reveal ≡ none
unfolding verify_signature kinetic.Signature.verify_identity bytes_eq has_capability
    kinetic.Signature.verify_delegate kinetic.Signature.delegated_key_verifies key_verifies
    kinetic.Signature.verify_previous
delegated_reveal-verifies = refl

verify_signature_sound_example :
    IsSigned kin_network toy_platform toy_jcs delegated_reveal delegated_reveal.authorization
    × IsPreviousSigned kin_network toy_platform toy_jcs delegated_reveal
        delegated_reveal.previous_proof
verify_signature_sound_example =
    verify_signature_sound kin_network toy_platform toy_jcs delegated_reveal
      delegated_reveal-verifies

abbrev forged_document : Document
forged_document = record toy_document { controller_keys = delegate ∷ []; kid = codes "did:kin:66" }

abbrev forged_reveal : Reveal
forged_reveal = record toy_reveal {
  authorization = some (record toy_authorization { kid_doc = some forged_document });
}

scope-holds : bytes_eq toy_authorization.name forged_reveal.name ≡ true
unfolding bytes_eq
scope-holds = refl

capability-holds :
    has_capability toy_authorization.manifest (codes "kinetic.capability.dns_update") ≡ true
unfolding has_capability bytes_eq
capability-holds = refl

delegate-typed : bytes_eq delegate.key_type (codes "Delegated") ≡ true
unfolding bytes_eq
delegate-typed = refl

delegate-verifies :
    key_verifies toy_platform delegate.public_key
      (reveal_signable kin_network forged_reveal)
      forged_reveal.identity_signature
    ≡ true
unfolding key_verifies
delegate-verifies = refl

attached_document_unsigned_example :
    verify_signature kin_network toy_platform toy_jcs forged_reveal ≡ none
attached_document_unsigned_example =
    attached_document_unsigned kin_network toy_platform toy_jcs forged_reveal toy_authorization
      forged_document delegate refl refl scope-holds refl capability-holds (Memᴰ.head refl)
      delegate-typed delegate-verifies
