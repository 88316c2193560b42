-- ===== src/Kid/DocumentCheck.antt =====
-- The checks of kinetic-kid/src/document.rs; `none` is `Ok(())`.
use kinetic.Prelude.{
  ℕ, ◌+◌, ◌/◌, ◌%◌, Bool, false, ◌||◌, ◌&&◌, Option, none, some, List, [], ◌∷◌, ◌++◌, ltb,
  if◌then◌else◌, length, any,
}
use kinetic.Prelude.Bytes.{Bytes, bytes_eq}
use kinetic.Config.{NetworkConstants, Platform}
use kinetic.Kid.{
  ControllerKey, ManifestPointer, Document, KidError, key_limit_exceeded, string_length_exceeded,
  location_limit_exceeded, missing_signature, base64_error, canonicalization_error,
  invalid_signature, did_key_mismatch, Jcs, canonicalize_document, kid_message, key_verifies,
  controller_verifies,
}

-- the lengths of a controller key
unfoldable pub key_too_long : NetworkConstants → ControllerKey → Bool
key_too_long k key =
    ltb 256 (length key.id)
    || ltb k.kid_max_public_key_bytes (length key.public_key)
    || ltb 32 (length key.key_type)

unfoldable pub hash_too_long : Option Bytes → Bool
hash_too_long none = false
hash_too_long (some hash) = ltb 256 (length hash)

-- the block under `if let Some(manifest)`
unfoldable pub check_pointer : NetworkConstants → Option ManifestPointer → Option KidError
check_pointer k none = none
check_pointer k (some m) =
    if ltb 20 (length m.locations)
    then some location_limit_exceeded
    else if any (λ loc. ltb k.kid_max_location_bytes (length loc)) m.locations
    then some string_length_exceeded
    else if hash_too_long m.hash
    then some string_length_exceeded
    else none

-- the bounds that `verify` checks first
unfoldable pub check_limits : NetworkConstants → Document → Option KidError
check_limits k doc =
    if ltb 20 (length doc.controller_keys) || ltb 20 (length doc.revocation_keys)
    then some key_limit_exceeded
    else if any (key_too_long k) doc.controller_keys
    then some string_length_exceeded
    else if any (λ rk. ltb k.kid_max_public_key_bytes (length rk)) doc.revocation_keys
    then some string_length_exceeded
    else check_pointer k doc.manifest

-- the loops over the keys: revocation keys of a deactivated document, controller keys of others
unfoldable pub own_key_verifies : Platform → Document → Bytes → Bytes → Bool
own_key_verifies p doc msg sig =
    if doc.deactivated
    then any (λ rk. key_verifies p rk msg sig) doc.revocation_keys
    else any (controller_verifies p msg sig) doc.controller_keys

-- the decoded signature and the message of a document
pub data Envelope : Type 0 where
  envelope : Bytes → Bytes → Envelope
  broken : KidError → Envelope

unfoldable pub open_envelope : NetworkConstants → Platform → Jcs → Document → Envelope
open_envelope k p j doc = elim doc.signature [
  | none ↦ broken missing_signature
  | some sig_b64 ↦ elim (p.b64_decode sig_b64) [
    | none ↦ broken base64_error
    | some sig ↦ elim (canonicalize_document j doc) [
      | none ↦ broken canonicalization_error
      | some msg ↦ envelope (kid_message k msg) sig
    ]
  ]
]

unfoldable pub verify_envelope : Platform → Document → Envelope → Option KidError
verify_envelope p doc (envelope msg sig) =
    if own_key_verifies p doc msg sig then none else some invalid_signature
verify_envelope p doc (broken e) = some e

-- `Document::verify`
unfoldable pub verify : NetworkConstants → Platform → Jcs → Document → Option KidError
verify k p j doc = elim (check_limits k doc) [
  | some e ↦ some e
  | none ↦ verify_envelope p doc (open_envelope k p j doc)
]

-- `{:x}` of a digit
abbrev pub hex_digit : ℕ → ℕ
hex_digit d = if ltb d 10 then b'0' + d else 87 + d

-- `{:02x}` of each byte
unfoldable pub hex_encode : Bytes → Bytes
hex_encode [] = []
hex_encode (b ∷ bs) = hex_digit (b / 16) ∷ hex_digit (b % 16) ∷ hex_encode bs

unfoldable pub expected_kid : NetworkConstants → Platform → Bytes → Bytes
expected_kid k p pubkey = k.did_prefix ++ hex_encode (p.sha256 pubkey)

unfoldable pub verify_primary :
    NetworkConstants → Platform → Bytes → List ControllerKey → Option KidError
verify_primary k p kid [] = some invalid_signature
verify_primary k p kid (primary_key ∷ keys) = elim (p.b64_decode primary_key.public_key) [
  | none ↦ some base64_error
  | some pubkey ↦ if bytes_eq kid (expected_kid k p pubkey) then none else some did_key_mismatch
]

-- `Document::verify_genesis`
unfoldable pub verify_genesis : NetworkConstants → Platform → Document → Option KidError
verify_genesis k p doc = verify_primary k p doc.kid doc.controller_keys

unfoldable pub prior_key_verifies : Platform → Document → Document → Envelope → Bool
prior_key_verifies p doc previous_doc (envelope msg sig) =
    any (controller_verifies p msg sig) previous_doc.controller_keys
    || (doc.deactivated && any (λ rk. key_verifies p rk msg sig) previous_doc.revocation_keys)
prior_key_verifies p doc previous_doc (broken e) = false

-- `Document::is_authorized`
unfoldable pub is_authorized : NetworkConstants → Platform → Jcs → Document → Document → Bool
is_authorized k p j doc previous_doc =
    prior_key_verifies p doc previous_doc (open_envelope k p j doc)
