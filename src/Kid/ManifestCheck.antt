-- ===== src/Kid/ManifestCheck.antt =====
-- `Manifest::verify_at_time` of kinetic-kid/src/manifest.rs; `none` is `Ok(())`.
use kinetic.Prelude.{
  ℕ, Bool, false, ◌||◌, not, Option, none, some, ltb, leb, if◌then◌else◌, length, any,
}
use kinetic.Prelude.Bytes.{bytes_eq}
use kinetic.Prelude.Words.{add64}
use kinetic.Config.{NetworkConstants, Platform}
use kinetic.Kid.{
  Document, Service, Manifest, KidError, key_limit_exceeded, string_length_exceeded,
  service_limit_exceeded, missing_signature, base64_error, canonicalization_error,
  unauthorized_manifest_signature, invalid_valid_from, manifest_expired, Jcs, canonicalize_manifest,
  manifest_message, controller_verifies,
}

unfoldable pub service_too_long : NetworkConstants → Service → Bool
service_too_long k svc =
    ltb 256 (length svc.id)
    || ltb 256 (length svc.service_type)
    || ltb 64 (length svc.protocol)
    || ltb k.kid_max_endpoint_bytes (length svc.endpoint)

unfoldable pub is_expired : Option ℕ → ℕ → Bool
is_expired none unix_time = false
is_expired (some expires) unix_time = leb expires unix_time

-- the signature, once the bounds and times are right
unfoldable pub verify_signed :
    NetworkConstants → Platform → Jcs → Manifest → Document → Option KidError
verify_signed k p j m doc = elim m.signature [
  | none ↦ some missing_signature
  | some sig_b64 ↦ elim (p.b64_decode sig_b64) [
    | none ↦ some base64_error
    | some sig ↦ elim (canonicalize_manifest j m) [
      | none ↦ some canonicalization_error
      | some msg ↦
          if any (controller_verifies p (manifest_message k msg) sig) doc.controller_keys
          then none
          else some unauthorized_manifest_signature
    ]
  ]
]

-- `Manifest::verify_at_time`
unfoldable pub verify_at_time :
    NetworkConstants → Platform → Jcs → Manifest → Document → ℕ → Option KidError
verify_at_time k p j m doc unix_time =
    if ltb 20 (length doc.controller_keys)
    then some key_limit_exceeded
    else if not (bytes_eq m.kid doc.kid)
    then some unauthorized_manifest_signature
    else if ltb (add64 unix_time 300) m.valid_from
    then some invalid_valid_from
    else if is_expired m.expires_at unix_time
    then some manifest_expired
    else if ltb 50 (length m.services)
    then some service_limit_exceeded
    else if any (service_too_long k) m.services
    then some string_length_exceeded
    else verify_signed k p j m doc
