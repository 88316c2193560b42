-- ===== src/HostRoute.antt =====
-- Host routes: `HostRoute` of kinetic-types/src/nrs.rs and `verify_host_routing_record` of
-- kinetic-network/src/store/verification.rs.
pub mod Digest
use kinetic.Prelude.{
  ℕ, ◌-◌, Bool, ◌&&◌, not, Option, none, some, [], ◌∷◌, ◌++◌, ltb, ◌==◌, if◌then◌else◌, length,
  take, drop,
}
use kinetic.Prelude.Bytes.{Bytes, codes, bytes_eq}
use kinetic.Prelude.Words.{u64_be, add64}
use kinetic.Config.{NetworkConstants}
use kinetic.Identity.{field}
use kinetic.Store.{
  KineticStoreError, invalid_host_route_signature, invalid_public_key, malformed_signature,
}

pub record HostRoute : Type 0 where
  pub host_id : Bytes
  pub current_peer_id : Bytes
  pub kyn : ℕ
  pub host_signature : Bytes

-- libp2p and ed25519-dalek: the digest of the multihash of a peer id that parses, whether 32 bytes
-- are a key and bytes a signature, and the check of a key, a message and a signature
pub record PeerKeys : Type 0 where
  pub digest : Bytes → Option Bytes
  pub is_key : Bytes → Bool
  pub is_signature : Bytes → Bool
  pub verify : Bytes → Bytes → Bytes → Bool

-- `HostRoute::signable_bytes`
unfoldable pub route_signable : NetworkConstants → HostRoute → Bytes
route_signable k record_of =
    k.network_salt
    ++ (codes "-nrs-routing-v1"
        ++ (field record_of.host_id ++ (field record_of.current_peer_id ++ u64_be record_of.kyn)))

-- the start that the digest of a host's peer id must have
abbrev pub key_prefix : Bytes
key_prefix = 0 ∷ 36 ∷ 8 ∷ 1 ∷ 18 ∷ 32 ∷ []

-- the key of a digest
unfoldable pub digest_key : Bytes → Option Bytes
digest_key bytes =
    if length bytes == 38 && bytes_eq (take 6 bytes) key_prefix
    then some (take 32 (drop 6 bytes))
    else none

unfoldable pub host_key : PeerKeys → Bytes → Option Bytes
host_key keys host_id = elim (keys.digest host_id) [ none ↦ none | some bytes ↦ digest_key bytes ]

-- the checks of the signature
unfoldable pub signed_by :
    NetworkConstants → PeerKeys → HostRoute → Bytes → Option KineticStoreError
signed_by k keys record_of pubkey_bytes =
    if not (keys.is_key pubkey_bytes)
    then some invalid_public_key
    else if not (keys.is_signature record_of.host_signature)
    then some malformed_signature
    else if keys.verify pubkey_bytes (route_signable k record_of) record_of.host_signature
    then none
    else some invalid_host_route_signature

-- `none` is `Ok(())`
unfoldable pub verify_host_routing_record :
    NetworkConstants → PeerKeys → HostRoute → ℕ → Option KineticStoreError
verify_host_routing_record k keys record_of current_kyn =
    if ltb 100 (current_kyn - record_of.kyn)
    then some invalid_host_route_signature
    else if ltb (add64 current_kyn 2) record_of.kyn
    then some invalid_host_route_signature
    else elim (host_key keys record_of.host_id) [
      | none ↦ some invalid_public_key
      | some pubkey_bytes ↦ signed_by k keys record_of pubkey_bytes
    ]
