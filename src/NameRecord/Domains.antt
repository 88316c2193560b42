-- ===== src/NameRecord/Domains.antt =====
-- Signed texts of different kinds differ (kinetic-types/src/vdf.rs, name_record.rs, identity.rs).
use kinetic.Prelude.{ℕ, ◌≡◌, ◌≢◌, refl, ap, false, ◌==◌, arith}
use kinetic.Prelude.Bytes.{Bytes, nth}
use kinetic.Config.{NetworkConstants}
use kinetic.Kid.{Jcs}
use kinetic.Identity.{AuthorizedKid, AuthorizedManifest, kid_signable, manifest_signable}
use kinetic.Vdf.{PreviousProof, Reveal, previous_signable, reveal_signable}
use kinetic.Vdf.Signable.{prefix_inj}
use kinetic.NameRecord.{Heartbeat, heartbeat_signable}

-- two texts that differ at an index
nth_ne : {x y : Bytes} (i : ℕ) → x ≡ y → (nth i x == nth i y) ≡ false → ⊥
nth_ne {x} {y} i e h = let same : nth i x ≡ nth i y = ap (nth i) e in absurd (ground arith)

-- On one network no text that is signed for a reveal, a previous proof, a heartbeat, an authorized
-- document or an authorized manifest is a text that is signed for another of these.
pub signed_texts_differ :
    (k : NetworkConstants) (j : Jcs) (r : Reveal) (q : PreviousProof) (hb : Heartbeat)
    (ak : AuthorizedKid) (am : AuthorizedManifest)
    → (reveal_signable k r ≢ previous_signable k q)
      × (reveal_signable k r ≢ heartbeat_signable k hb)
      × (reveal_signable k r ≢ kid_signable k j ak)
      × (reveal_signable k r ≢ manifest_signable k j am)
      × (previous_signable k q ≢ heartbeat_signable k hb)
      × (previous_signable k q ≢ kid_signable k j ak)
      × (previous_signable k q ≢ manifest_signable k j am)
      × (heartbeat_signable k hb ≢ kid_signable k j ak)
      × (heartbeat_signable k hb ≢ manifest_signable k j am)
      × (kid_signable k j ak ≢ manifest_signable k j am)
unfolding reveal_signable previous_signable heartbeat_signable kid_signable manifest_signable
signed_texts_differ k j r q hb ak am =
    let cut = prefix_inj k.network_salt in
    (
      λ e. nth_ne 4 (cut _ _ e) refl,
      λ e. nth_ne 0 (cut _ _ e) refl,
      λ e. nth_ne 0 (cut _ _ e) refl,
      λ e. nth_ne 0 (cut _ _ e) refl,
      λ e. nth_ne 0 (cut _ _ e) refl,
      λ e. nth_ne 0 (cut _ _ e) refl,
      λ e. nth_ne 0 (cut _ _ e) refl,
      λ e. nth_ne 1 (cut _ _ e) refl,
      λ e. nth_ne 1 (cut _ _ e) refl,
      λ e. nth_ne 6 (cut _ _ e) refl,
    )
