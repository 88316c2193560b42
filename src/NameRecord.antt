-- ===== src/NameRecord.antt =====
-- Name records, heartbeats and DHT keys: kinetic-types/src/name_record.rs.
pub mod Domains
pub mod Keys
use kinetic.Prelude.{ℕ, zero, suc, ◌+◌, Option, none, some, List, [], ◌∷◌, ◌++◌, map}
use kinetic.Prelude.Bytes.{Bytes, codes}
use kinetic.Prelude.Words.{u64_be}
use kinetic.Config.{NetworkConstants, Platform}
use kinetic.Names.{trim_dots}
use kinetic.Identity.{AuthorizedManifest, field}
use kinetic.Vdf.{Reveal}

pub record Heartbeat : Type 0 where
  pub name : Bytes
  pub latest_kyn : ℕ
  pub owner_signature : Bytes
  pub authorization : Option AuthorizedManifest

unfoldable pub authorization_field : Option AuthorizedManifest → Bytes
authorization_field none = 0 ∷ []
authorization_field (some auth) = 1 ∷ field auth.owner_signature

-- `Heartbeat::signable_bytes`
unfoldable pub heartbeat_signable : NetworkConstants → Heartbeat → Bytes
heartbeat_signable k hb =
    k.network_salt
    ++ (codes "-heartbeat-v1"
        ++ (field hb.name ++ (u64_be hb.latest_kyn ++ authorization_field hb.authorization)))

pub data NameEnvelope : Type 0 where
  standard : Reveal → NameEnvelope

-- the reveal of a record, from which `name`, `pubkey`, `embedded_nrs`, `signature` and
-- `authorization` are read
abbrev pub reveal_of : NameEnvelope → Reveal
reveal_of (standard r) = r

-- `M_REDUNDANCY`
abbrev pub m_redundancy : ℕ
m_redundancy = 32

-- `count` numbers from `i` on
unfoldable pub indices : ℕ → ℕ → List ℕ
indices i zero = []
indices i (suc count) = i ∷ indices (i + 1) count

module _ (k : NetworkConstants) (p : Platform) where
  -- `normalize_name` of this file, which adds no suffix
  unfoldable pub normalize_key_name : Bytes → Bytes
  normalize_key_name name = trim_dots (p.to_lowercase name)

  -- what is hashed for the key of index `i` in a domain
  unfoldable pub key_data : Bytes → Bytes → ℕ → Bytes
  key_data domain normalized i = k.network_salt ++ (domain ++ (normalized ++ i ∷ []))

  unfoldable pub derive_storage_keys : Bytes → List Bytes
  derive_storage_keys name =
      map (λ i. p.sha256 (key_data (codes "storage") (normalize_key_name name) i))
        (indices 0 m_redundancy)

  unfoldable pub derive_heartbeat_keys : Bytes → List Bytes
  derive_heartbeat_keys name =
      map (λ i. p.sha256 (key_data (codes "heartbeat") (normalize_key_name name) i))
        (indices 0 m_redundancy)
