-- ===== src/Identity.antt =====
-- The authorizations that bind documents and manifests to names: kinetic-types/src/identity.rs.
use kinetic.Prelude.{Option, none, some, [], ◌++◌, length}
use kinetic.Prelude.Bytes.{Bytes, codes}
use kinetic.Prelude.Words.{u32_be}
use kinetic.Config.{NetworkConstants}
use kinetic.Kid.{Document, Manifest, Jcs, canonicalize_document, canonicalize_manifest}

pub record AuthorizedKid : Type 0 where
  pub name : Bytes
  pub kid_doc : Document
  pub owner_signature : Bytes

pub record AuthorizedManifest : Type 0 where
  pub name : Bytes
  pub manifest : Manifest
  pub kid_doc : Option Document
  pub owner_signature : Bytes

-- a byte string behind its length as a big-endian `u32`
unfoldable pub field : Bytes → Bytes
field x = u32_be (length x) ++ x

-- `unwrap_or_default()`
abbrev pub or_empty : Option Bytes → Bytes
or_empty none = []
or_empty (some x) = x

-- `AuthorizedKid::signable_bytes`
unfoldable pub kid_signable : NetworkConstants → Jcs → AuthorizedKid → Bytes
kid_signable k j auth =
    k.network_salt
    ++ (codes "-auth-kid-v1"
        ++ (field auth.name ++ field (or_empty (canonicalize_document j auth.kid_doc))))

-- `AuthorizedManifest::signable_bytes`
unfoldable pub manifest_signable : NetworkConstants → Jcs → AuthorizedManifest → Bytes
manifest_signable k j auth =
    k.network_salt
    ++ (codes "-auth-manifest-v1"
        ++ (field auth.name ++ field (or_empty (canonicalize_manifest j auth.manifest))))
