-- ===== src/Store/Identities.antt =====
-- What an accepted document or manifest of a name has shown
-- (kinetic-network/src/store/verification.rs).
use kinetic.Prelude.{ℕ, ◌<◌, ◌≡◌, refl, true, Option, none, some, arith}
use kinetic.Config.{NetworkConstants, Platform}
use kinetic.Kyn.{to_ukyn}
use kinetic.Kid.{Document, Jcs}
use kinetic.Kid.DocumentCheck.{verify, verify_genesis, is_authorized}
use kinetic.Kid.ManifestCheck.{verify_at_time}
use kinetic.Kid.Genesis.{BoundTo, verify_genesis-BoundTo}
use kinetic.Identity.{AuthorizedKid, AuthorizedManifest, kid_signable, manifest_signable}
use kinetic.NameRecord.{NameEnvelope, reveal_of}
use kinetic.Store.RevealCheck.{is_none}
use kinetic.Store.Reveals.{is_none→≡}
use kinetic.Store.IdentityCheck.{
  Existing, absent, unreadable, present, check_chain, verify_authorized_kid, check_version,
  check_attached, verify_authorized_manifest,
}

module _ (k : NetworkConstants) (p : Platform) (j : Jcs) where
  -- the first document is bound to its identifier, a later one is authorized by the one before
  pub IsChained : Document → Existing AuthorizedKid → Type 0
  IsChained doc absent = BoundTo k p doc
  IsChained doc unreadable = Unit {0}
  IsChained doc (present old) = is_authorized k p j doc old.kid_doc ≡ true

  chain_sound :
      (doc : Document) (existing : Existing AuthorizedKid)
      → check_chain k p j doc existing ≡ none
      → IsChained doc existing
  unfolding check_chain IsChained
  chain_sound doc absent h =
      let ok : is_none (verify_genesis k p doc) ≡ true = ground arith in
      verify_genesis-BoundTo k p doc (is_none→≡ (verify_genesis k p doc) ok)
  chain_sound doc unreadable h = tt
  chain_sound doc (present old) h = ground arith

  -- An accepted identity document of a name is signed by the owner of the active record, verifies
  -- itself, and either has an identifier that is the hash of its first key, when it is the first, or
  -- is authorized by the document it replaces, when that one can be read.
  pub verify_authorized_kid_sound :
      (auth : AuthorizedKid) (active : Option NameEnvelope) (existing : Existing AuthorizedKid)
      → verify_authorized_kid k p j auth active existing ≡ none
      → (record_of : NameEnvelope) × (active ≡ some record_of)
        × (p.verify_signature
              (reveal_of record_of).pubkey
              (kid_signable k j auth)
              auth.owner_signature
            ≡ true)
        × (verify k p j auth.kid_doc ≡ none)
        × IsChained auth.kid_doc existing
  unfolding verify_authorized_kid
  verify_authorized_kid_sound auth none existing h = absurd (ground arith)
  verify_authorized_kid_sound auth (some active) existing h =
      let ok : is_none (verify k p j auth.kid_doc) ≡ true = ground arith in
      (
        active,
        refl,
        ground arith,
        is_none→≡ (verify k p j auth.kid_doc) ok,
        chain_sound auth.kid_doc existing (ground arith),
      )

  -- the version is above that of a readable record it replaces
  pub IsNewer : ℕ → Existing AuthorizedManifest → Type 0
  IsNewer version absent = Unit {0}
  IsNewer version unreadable = Unit {0}
  IsNewer version (present old) = old.manifest.version < version

  version_sound :
      (version : ℕ) (existing : Existing AuthorizedManifest)
      → check_version version existing ≡ none
      → IsNewer version existing
  unfolding check_version IsNewer
  version_sound version absent h = tt
  version_sound version unreadable h = tt
  version_sound version (present old) h = ground arith

  attached_sound :
      (auth : AuthorizedManifest) (now : ℕ) (existing : Existing AuthorizedManifest)
      (attached : Option Document)
      → check_attached k p j auth now existing attached ≡ none
      → (doc : Document) × (attached ≡ some doc)
        × (verify k p j doc ≡ none)
        × (verify_at_time k p j auth.manifest doc (to_ukyn now k.beacon_genesis) ≡ none)
        × IsNewer auth.manifest.version existing
  unfolding check_attached
  attached_sound auth now existing none h = absurd (ground arith)
  attached_sound auth now existing (some doc) h =
      let at_time = verify_at_time k p j auth.manifest doc (to_ukyn now k.beacon_genesis) in
      let ok : is_none (verify k p j doc) ≡ true = ground arith in
      let timely : is_none at_time ≡ true = ground arith in
      (
        doc,
        refl,
        is_none→≡ (verify k p j doc) ok,
        is_none→≡ at_time timely,
        version_sound auth.manifest.version existing (ground arith),
      )

  -- An accepted manifest of a name is signed by the owner of the active record, carries an identity
  -- document that verifies itself and under which the manifest verifies at the time of the current
  -- kyn, and has a higher version than a readable manifest that it replaces.
  pub verify_authorized_manifest_sound :
      (auth : AuthorizedManifest) (active : Option NameEnvelope)
      (existing : Existing AuthorizedManifest) (current_kyn : ℕ)
      → verify_authorized_manifest k p j auth active existing current_kyn ≡ none
      → (record_of : NameEnvelope) × (active ≡ some record_of)
        × (p.verify_signature
              (reveal_of record_of).pubkey
              (manifest_signable k j auth)
              auth.owner_signature
            ≡ true)
        × ((doc : Document) × (auth.kid_doc ≡ some doc)
            × (verify k p j doc ≡ none)
            × (verify_at_time k p j auth.manifest doc (to_ukyn current_kyn k.beacon_genesis) ≡ none)
            × IsNewer auth.manifest.version existing)
  unfolding verify_authorized_manifest
  verify_authorized_manifest_sound auth none existing now h = absurd (ground arith)
  verify_authorized_manifest_sound auth (some active) existing now h =
      (active, refl, ground arith, attached_sound auth now existing auth.kid_doc (ground arith))
