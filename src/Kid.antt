-- ===== src/Kid.antt =====
-- Identity documents and capability manifests: kinetic-kid/src/document.rs and
-- kinetic-kid/src/manifest.rs. The JCS serializer is the parameter `Jcs`; base64url, SHA-256 and
-- ML-DSA-65 are the platform's.
pub mod DocumentCheck
pub mod ManifestCheck
pub mod Authority
pub mod Genesis
use kinetic.Prelude.{ℕ, Bool, true, false, ◌&&◌, Option, none, some, List, [], ◌∷◌, ◌++◌, map, any}
use kinetic.Prelude.Bytes.{Bytes, codes, bytes_eq}
use kinetic.Config.{NetworkConstants, Platform, ascii_lower}

pub record ControllerKey : Type 0 where
  pub id : Bytes
  pub key_type : Bytes
  pub public_key : Bytes

pub record ManifestPointer : Type 0 where
  pub hash : Option Bytes
  pub locations : List Bytes

pub record Document : Type 0 where
  pub doc_type : Bytes
  pub kid : Bytes
  pub created_at : ℕ
  pub controller_keys : List ControllerKey
  pub manifest : Option ManifestPointer
  pub revocation_keys : List Bytes
  pub deactivated : Bool
  pub signature : Option Bytes

pub record Service : Type 0 where
  pub id : Bytes
  pub service_type : Bytes
  pub protocol : Bytes
  pub endpoint : Bytes

pub record Manifest : Type 0 where
  pub doc_type : Bytes
  pub kid : Bytes
  pub version : ℕ
  pub valid_from : ℕ
  pub expires_at : Option ℕ
  pub services : List Service
  pub signature : Option Bytes

pub data KidError : Type 0 where
  key_limit_exceeded : KidError
  string_length_exceeded : KidError
  location_limit_exceeded : KidError
  service_limit_exceeded : KidError
  missing_signature : KidError
  base64_error : KidError
  canonicalization_error : KidError
  invalid_signature : KidError
  did_key_mismatch : KidError
  unauthorized_manifest_signature : KidError
  invalid_valid_from : KidError
  manifest_expired : KidError

-- `serde_jcs::to_string`
pub record Jcs : Type 0 where
  pub document : Document → Option Bytes
  pub manifest : Manifest → Option Bytes

-- `Document::canonicalize`
unfoldable pub canonicalize_document : Jcs → Document → Option Bytes
canonicalize_document j doc = j.document (record doc { signature = none })

-- `Manifest::canonicalize`
unfoldable pub canonicalize_manifest : Jcs → Manifest → Option Bytes
canonicalize_manifest j m = j.manifest (record m { signature = none })

-- `format!("{}-kid-v1\0", nsp)` before the canonical text
unfoldable pub kid_message : NetworkConstants → Bytes → Bytes
kid_message k msg = (k.nsp ++ codes "-kid-v1" ++ 0 ∷ []) ++ msg

-- `format!("{}-manifest-v1\0", nsp)` before the canonical text
unfoldable pub manifest_message : NetworkConstants → Bytes → Bytes
manifest_message k msg = (k.nsp ++ codes "-manifest-v1" ++ 0 ∷ []) ++ msg

-- `a.eq_ignore_ascii_case(b)`
unfoldable pub eq_ignore_ascii_case : Bytes → Bytes → Bool
eq_ignore_ascii_case a b = bytes_eq (map ascii_lower a) (map ascii_lower b)

-- a base64url key that decodes and verifies
unfoldable pub key_verifies : Platform → Bytes → Bytes → Bytes → Bool
key_verifies p key_b64 msg sig = elim (p.b64_decode key_b64) [
  | none ↦ false
  | some pubkey ↦ p.verify_signature pubkey msg sig
]

-- a controller key of type "Controller" that verifies
unfoldable pub controller_verifies : Platform → Bytes → Bytes → ControllerKey → Bool
controller_verifies p msg sig key =
    eq_ignore_ascii_case key.key_type (codes "Controller") && key_verifies p key.public_key msg sig
