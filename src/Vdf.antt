-- ===== src/Vdf.antt =====
-- Commitments, proofs and reveals: kinetic-types/src/vdf.rs, and the validation of reveals of
-- kinetic-core/src/types/vdf.rs. Salts and hashes are byte strings; a reveal that was parsed has
-- salts of 32 bytes, which `IsEncodable` states where it matters.
pub mod Signable
pub mod Validate
use kinetic.Prelude.{ℕ, Option, none, some, [], ◌∷◌, ◌++◌}
use kinetic.Prelude.Bytes.{Bytes, codes}
use kinetic.Prelude.Words.{u64_be}
use kinetic.Config.{NetworkConstants, Platform}
use kinetic.Identity.{AuthorizedManifest, field}

-- the fixed-size data that `Commitment::derive` hashes
unfoldable pub commitment_data : Platform → Bytes → Bytes → Bytes → Bytes → Bytes → Bytes
commitment_data p network_salt name user_salt beacon_signature_bytes pubkey =
    network_salt ++ (name ++ (user_salt ++ (p.sha256 beacon_signature_bytes ++ pubkey)))

-- `Commitment::derive`, whose only field is the hash
unfoldable pub derive : Platform → Bytes → Bytes → Bytes → Bytes → Bytes → Bytes
derive p network_salt name user_salt beacon_signature_bytes pubkey =
    p.sha256 (commitment_data p network_salt name user_salt beacon_signature_bytes pubkey)

pub record PreviousProof : Type 0 where
  pub salt : Bytes
  pub kyn : ℕ
  pub beacon_signature : Bytes
  pub iterations : ℕ
  pub vdf_proof : Bytes
  pub identity_signature : Bytes

-- the part that `bytes` and `signable_bytes` share
unfoldable pub previous_body : PreviousProof → Bytes → Bytes
previous_body prev rest =
    prev.salt
    ++ (u64_be prev.kyn
        ++ (field prev.beacon_signature
            ++ (u64_be prev.iterations ++ (field prev.vdf_proof ++ rest))))

-- `PreviousProof::bytes`
unfoldable pub previous_bytes : NetworkConstants → PreviousProof → Bytes
previous_bytes k prev =
    k.network_salt
    ++ (codes "vdf-prev-proof-v1" ++ previous_body prev (field prev.identity_signature))

-- `PreviousProof::signable_bytes`
unfoldable pub previous_signable : NetworkConstants → PreviousProof → Bytes
previous_signable k prev = k.network_salt ++ (codes "vdf-prev-v1" ++ previous_body prev [])

pub record Reveal : Type 0 where
  pub protocol_version : ℕ
  pub name : Bytes
  pub embedded_nrs : Bytes
  pub salt : Bytes
  pub kyn : ℕ
  pub beacon_signature : Bytes
  pub iterations : ℕ
  pub vdf_proof : Bytes
  pub pubkey : Bytes
  pub identity_signature : Bytes
  pub authorization : Option AuthorizedManifest
  pub previous_proof : Option PreviousProof

-- the option flag and the bytes of the previous proof
unfoldable pub previous_field : NetworkConstants → Option PreviousProof → Bytes
previous_field k none = 0 ∷ []
previous_field k (some prev) = 1 ∷ field (previous_bytes k prev)

-- `Reveal::signable_bytes`
unfoldable pub reveal_signable : NetworkConstants → Reveal → Bytes
reveal_signable k r =
    k.network_salt
    ++ (codes "vdf-reveal-v1"
        ++ (r.protocol_version
            ∷ (field r.name
                ++ (field r.embedded_nrs
                    ++ (r.salt
                        ++ (u64_be r.kyn
                            ++ (field r.beacon_signature
                                ++ (u64_be r.iterations
                                    ++ (field r.vdf_proof
                                        ++ (field r.pubkey
                                            ++ previous_field k r.previous_proof))))))))))
