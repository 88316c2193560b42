-- ===== src/HostRoute/Digest.antt =====
-- Which host routes are accepted (kinetic-network/src/store/verification.rs).
use kinetic.Prelude.{
  ℕ, ◌+◌, ◌≤◌, ◌≡◌, true, ◌&&◌, none, some, ◌∷◌, arith, ◌==◌, length, take, drop, Option-cases,
  Bool-cases, inl, inr,
}
use kinetic.Prelude.Bytes.{Bytes, bytes_eq, bytes_eq→≡}
use kinetic.Prelude.Words.{add64}
use kinetic.Config.{NetworkConstants}
use kinetic.Store.{invalid_public_key}
use kinetic.HostRoute.{
  HostRoute, PeerKeys, route_signable, key_prefix, digest_key, host_key, signed_by,
  verify_host_routing_record,
}

digest_key_sound :
    (bytes key : Bytes)
    → digest_key bytes ≡ some key
    → (length bytes ≡ 38) × (take 6 bytes ≡ key_prefix) × (key ≡ take 32 (drop 6 bytes))
unfolding digest_key
digest_key_sound bytes key h =
    elim (Bool-cases (length bytes == 38 && bytes_eq (take 6 bytes) key_prefix)) [
      | inl e ↦ (ground arith, bytes_eq→≡ (take 6 bytes) key_prefix (ground arith), ground arith)
      | inr e ↦ absurd (ground arith)
    ]

module _ (k : NetworkConstants) (keys : PeerKeys) where
  -- A host route that is accepted is at most 100 kyns old and at most two ahead, and carries a
  -- signature of its own layout by the key that stands in its host id, behind the six fixed bytes of
  -- a digest of 38.
  pub verify_host_routing_record_sound :
      (record_of : HostRoute) (current_kyn : ℕ)
      → verify_host_routing_record k keys record_of current_kyn ≡ none
      → (current_kyn ≤ record_of.kyn + 100)
        × (record_of.kyn ≤ add64 current_kyn 2)
        × ((bytes : Bytes) × (keys.digest record_of.host_id ≡ some bytes)
            × (length bytes ≡ 38)
            × (take 6 bytes ≡ key_prefix)
            × (keys.verify
                  (take 32 (drop 6 bytes))
                  (route_signable k record_of)
                  record_of.host_signature
                ≡ true))
  unfolding verify_host_routing_record host_key
  verify_host_routing_record_sound record_of current_kyn h =
      elim (Option-cases (keys.digest record_of.host_id)) [
        | inl e ↦ absurd (ground arith)
        | inr (bytes, e) ↦ elim (Option-cases (digest_key bytes)) [
          | inl f ↦ absurd (ground arith)
          | inr (key, f) ↦
              let (long, start, is) = digest_key_sound bytes key f in
              let signed : signed_by k keys record_of key ≡ none = ground arith in
              let verified : keys.verify key (route_signable k record_of) record_of.host_signature
                  ≡ true =
                unfold signed_by in ground arith in
              (ground arith, ground arith, (bytes, e, long, start, ground (arith, is, verified)))
        ]
      ]

  -- The multihash digest of an Ed25519 peer id is four bytes and the key, without the two bytes of
  -- the multihash header; every recent host route whose host id has such a digest is rejected as
  -- having no valid key.
  pub ed25519_route_refused :
      (record_of : HostRoute) (current_kyn : ℕ) (key : Bytes)
      → keys.digest record_of.host_id ≡ some (8 ∷ 1 ∷ 18 ∷ 32 ∷ key)
      → length key ≡ 32
      → current_kyn ≤ record_of.kyn + 100
      → record_of.kyn ≤ add64 current_kyn 2
      → verify_host_routing_record k keys record_of current_kyn ≡ some invalid_public_key
  unfolding verify_host_routing_record host_key digest_key
  ed25519_route_refused record_of current_kyn key e l old new = ground arith
