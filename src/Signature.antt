-- ===== src/Signature.antt =====
-- The signatures of reveals: `VerifySignature` of kinetic-verify/src/signatures.rs.
pub mod Delegation
use kinetic.Prelude.{Bool, true, false, ◌&&◌, not, Option, none, some, List, if◌then◌else◌, any}
use kinetic.Prelude.Bytes.{Bytes, codes, bytes_eq}
use kinetic.Config.{NetworkConstants, Platform}
use kinetic.Kid.{ControllerKey, Document, Service, Manifest, Jcs, key_verifies}
use kinetic.Identity.{AuthorizedManifest, manifest_signable}
use kinetic.Vdf.{PreviousProof, Reveal, previous_signable, reveal_signable}
use kinetic.NameRecord.{NameEnvelope, standard}

pub data SignatureVerifyError : Type 0 where
  invalid_signature : SignatureVerifyError
  delegated_scope_violation : SignatureVerifyError
  delegated_capability_missing : SignatureVerifyError
  delegated_kid_document_missing : SignatureVerifyError
  delegated_authorization_invalid : SignatureVerifyError

-- `services.iter().any(|s| s.service_type == capability)`
unfoldable pub has_capability : Manifest → Bytes → Bool
has_capability m capability = any (λ s. bytes_eq s.service_type capability) m.services

-- one round of the loop over the controller keys
unfoldable pub delegated_key_verifies : Platform → Bytes → Bytes → ControllerKey → Bool
delegated_key_verifies p signable sig ck =
    bytes_eq ck.key_type (codes "Delegated") && key_verifies p ck.public_key signable sig

unfoldable pub verify_delegate :
    Platform → Reveal → Bytes → Option Document → Option SignatureVerifyError
verify_delegate p r signable none = some delegated_kid_document_missing
verify_delegate p r signable (some kid_doc) =
    if any (delegated_key_verifies p signable r.identity_signature) kid_doc.controller_keys
    then none
    else some invalid_signature

-- the signature over the reveal itself; `none` goes on
unfoldable pub verify_identity :
    NetworkConstants
    → Platform
    → Jcs
    → Reveal
    → Option AuthorizedManifest
    → Option SignatureVerifyError
verify_identity k p j r none =
    if p.verify_signature r.pubkey (reveal_signable k r) r.identity_signature
    then none
    else some invalid_signature
verify_identity k p j r (some auth) =
    if not (bytes_eq auth.name r.name)
    then some delegated_scope_violation
    else if not (p.verify_signature r.pubkey (manifest_signable k j auth) auth.owner_signature)
    then some delegated_authorization_invalid
    else if not (has_capability auth.manifest (codes "kinetic.capability.dns_update"))
    then some delegated_capability_missing
    else verify_delegate p r (reveal_signable k r) auth.kid_doc

-- the signature over the previous proof
unfoldable pub verify_previous :
    NetworkConstants → Platform → Reveal → Option PreviousProof → Option SignatureVerifyError
verify_previous k p r none = none
verify_previous k p r (some prev) =
    if p.verify_signature r.pubkey (previous_signable k prev) prev.identity_signature
    then none
    else some invalid_signature

-- `Reveal::verify_signature`; `none` is `Ok(())`
unfoldable pub verify_signature :
    NetworkConstants → Platform → Jcs → Reveal → Option SignatureVerifyError
verify_signature k p j r = elim (verify_identity k p j r r.authorization) [
  | some e ↦ some e
  | none ↦ verify_previous k p r r.previous_proof
]

-- `NameEnvelope::verify_signature`
unfoldable pub verify_envelope_signature :
    NetworkConstants → Platform → Jcs → NameEnvelope → Option SignatureVerifyError
verify_envelope_signature k p j (standard r) = verify_signature k p j r
