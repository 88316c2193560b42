-- ===== src/Store/IdentityCheck.antt =====
-- `verify_authorized_kid` and `verify_authorized_manifest` of
-- kinetic-network/src/store/verification.rs; `none` is `Ok(())`. An existing record comes as what
-- its value parses to, if it parses.
use kinetic.Prelude.{ℕ, not, Option, none, some, leb, if◌then◌else◌}
use kinetic.Config.{NetworkConstants, Platform}
use kinetic.Kyn.{to_ukyn}
use kinetic.Kid.{Document, Jcs}
use kinetic.Kid.DocumentCheck.{verify, verify_genesis, is_authorized}
use kinetic.Kid.ManifestCheck.{verify_at_time}
use kinetic.Identity.{AuthorizedKid, AuthorizedManifest, kid_signable, manifest_signable}
use kinetic.NameRecord.{NameEnvelope, reveal_of}
use kinetic.Store.{
  KineticStoreError, invalid_kid_signature, invalid_manifest_signature, invalid_kid_document,
  genesis_binding_failed, unauthorized_update, manifest_version_rollback,
  manifest_verification_failed, name_not_found, missing_kid_document,
}
use kinetic.Store.RevealCheck.{is_none}

-- a record under the key: none, one that does not parse, or one that does
pub data Existing {ℓ} (A : Type ℓ) : Type ℓ where
  absent : Existing A
  unreadable : Existing A
  present : A → Existing A

-- the `match existing_record`
unfoldable pub check_chain :
    NetworkConstants → Platform → Jcs → Document → Existing AuthorizedKid → Option KineticStoreError
check_chain k p j doc absent =
    if is_none (verify_genesis k p doc) then none else some genesis_binding_failed
check_chain k p j doc unreadable = none
check_chain k p j doc (present old) =
    if not (is_authorized k p j doc old.kid_doc) then some unauthorized_update else none

unfoldable pub verify_authorized_kid :
    NetworkConstants
    → Platform
    → Jcs
    → AuthorizedKid
    → Option NameEnvelope
    → Existing AuthorizedKid
    → Option KineticStoreError
verify_authorized_kid k p j auth none existing = some name_not_found
verify_authorized_kid k p j auth (some active) existing =
    if not
      (p.verify_signature (reveal_of active).pubkey (kid_signable k j auth) auth.owner_signature)
    then some invalid_kid_signature
    else if not (is_none (verify k p j auth.kid_doc))
    then some invalid_kid_document
    else check_chain k p j auth.kid_doc existing

-- the `if let Some(existing)`
unfoldable pub check_version : ℕ → Existing AuthorizedManifest → Option KineticStoreError
check_version version absent = none
check_version version unreadable = none
check_version version (present old) =
    if leb version old.manifest.version then some manifest_version_rollback else none

-- the checks against the attached document
unfoldable pub check_attached :
    NetworkConstants
    → Platform
    → Jcs
    → AuthorizedManifest
    → ℕ
    → Existing AuthorizedManifest
    → Option Document
    → Option KineticStoreError
check_attached k p j auth current_kyn existing none = some missing_kid_document
check_attached k p j auth current_kyn existing (some doc) =
    if not (is_none (verify k p j doc))
    then some invalid_kid_document
    else if not
        (is_none (verify_at_time k p j auth.manifest doc (to_ukyn current_kyn k.beacon_genesis)))
    then some manifest_verification_failed
    else check_version auth.manifest.version existing

unfoldable pub verify_authorized_manifest :
    NetworkConstants
    → Platform
    → Jcs
    → AuthorizedManifest
    → Option NameEnvelope
    → Existing AuthorizedManifest
    → ℕ
    → Option KineticStoreError
verify_authorized_manifest k p j auth none existing current_kyn = some name_not_found
verify_authorized_manifest k p j auth (some active) existing current_kyn =
    if not (
      p.verify_signature (reveal_of active).pubkey (manifest_signable k j auth)
        auth.owner_signature)
    then some invalid_manifest_signature
    else check_attached k p j auth current_kyn existing auth.kid_doc
