-- ===== src/Kid/Authority.antt =====
-- Which keys stand behind an accepted document or manifest (kinetic-kid/src/document.rs and
-- kinetic-kid/src/manifest.rs).
use mathlib.Core.List.{Memᴰ}
use kinetic.Prelude.{
  ◌≡◌, refl, ◌⊎◌, inl, inr, true, false, ◌&&◌, none, List, arith, any, any→mem, Bool-cases,
}
use kinetic.Prelude.Bytes.{Bytes, codes}
use kinetic.Config.{NetworkConstants, Platform}
use kinetic.Kid.{
  ControllerKey, Document, Jcs, eq_ignore_ascii_case, key_verifies, controller_verifies,
}
use kinetic.Kid.DocumentCheck.{
  own_key_verifies, Envelope, envelope, broken, open_envelope, verify_envelope, verify,
  prior_key_verifies, is_authorized,
}

module _ (p : Platform) (msg sig : Bytes) where
  -- a key of the list is of type Controller and verifies
  pub record SignedByController (keys : List ControllerKey) : Type 0 where
    pub key : ControllerKey
    pub listed : Memᴰ key keys
    pub is_controller : eq_ignore_ascii_case key.key_type (codes "Controller") ≡ true
    pub verifies : key_verifies p key.public_key msg sig ≡ true

  -- a revocation key of the list verifies
  pub record SignedByRevocation (keys : List Bytes) : Type 0 where
    pub key : Bytes
    pub listed : Memᴰ key keys
    pub verifies : key_verifies p key msg sig ≡ true

  pub any-controller :
      (keys : List ControllerKey)
      → any (controller_verifies p msg sig) keys ≡ true
      → SignedByController keys
  any-controller keys h =
      let (key, m, v) = any→mem (controller_verifies p msg sig) keys h in
      record {
        key = key;
        listed = m;
        is_controller = unfold controller_verifies in ground arith;
        verifies = unfold controller_verifies in ground arith;
      }

  pub any-revocation :
      (keys : List Bytes)
      → any (λ rk. key_verifies p rk msg sig) keys ≡ true
      → SignedByRevocation keys
  any-revocation keys h =
      let (key, m, v) = any→mem (λ rk. key_verifies p rk msg sig) keys h in
      record { key = key; listed = m; verifies = v }

module _ (k : NetworkConstants) (p : Platform) (j : Jcs) where
  -- A document that verifies opens to a message and a signature; if it is deactivated one of its own
  -- revocation keys signed it, otherwise one of its own controller keys did.
  pub verify_sound :
      (doc : Document)
      → verify k p j doc ≡ none
      → (msg : Bytes) × (sig : Bytes) × (open_envelope k p j doc ≡ envelope msg sig)
        × (((doc.deactivated ≡ true) × SignedByRevocation p msg sig doc.revocation_keys)
            ⊎ ((doc.deactivated ≡ false) × SignedByController p msg sig doc.controller_keys))
  verify_sound doc h = opened (open_envelope k p j doc) refl
    where
      opened :
          (e : Envelope)
          → open_envelope k p j doc ≡ e
          → (msg : Bytes) × (sig : Bytes) × (open_envelope k p j doc ≡ envelope msg sig)
            × (((doc.deactivated ≡ true) × SignedByRevocation p msg sig doc.revocation_keys)
                ⊎ ((doc.deactivated ≡ false) × SignedByController p msg sig doc.controller_keys))
      opened (envelope msg sig) e =
          let own : own_key_verifies p doc msg sig ≡ true =
            unfold verify verify_envelope in ground (arith, e) in
          (
            msg,
            sig,
            e,
            elim (Bool-cases doc.deactivated) [
              | inl d ↦ inl (
                d,
                any-revocation p msg sig doc.revocation_keys
                    (unfold own_key_verifies in ground arith),
              )
              | inr d ↦ inr (
                d,
                any-controller p msg sig doc.controller_keys
                    (unfold own_key_verifies in ground arith),
              )
            ],
          )
      opened (broken x) e = absurd (unfold verify verify_envelope in ground (arith, e))

  -- An update that is authorized by a previous document is signed by a controller key of that
  -- document, or is a deactivation signed by one of its revocation keys.
  pub is_authorized_sound :
      (doc previous : Document)
      → is_authorized k p j doc previous ≡ true
      → (msg : Bytes) × (sig : Bytes) × (open_envelope k p j doc ≡ envelope msg sig)
        × (SignedByController p msg sig previous.controller_keys
            ⊎ ((doc.deactivated ≡ true) × SignedByRevocation p msg sig previous.revocation_keys))
  is_authorized_sound doc previous h = opened (open_envelope k p j doc) refl
    where
      opened :
          (e : Envelope)
          → open_envelope k p j doc ≡ e
          → (msg : Bytes) × (sig : Bytes) × (open_envelope k p j doc ≡ envelope msg sig)
            × (SignedByController p msg sig previous.controller_keys
                ⊎ ((doc.deactivated ≡ true)
                    × SignedByRevocation p msg sig previous.revocation_keys))
      opened (envelope msg sig) e =
          elim (Bool-cases (any (controller_verifies p msg sig) previous.controller_keys)) [
            | inl hot ↦ (msg, sig, e, inl (any-controller p msg sig previous.controller_keys hot))
            | inr cold ↦
                let both : (doc.deactivated
                      && any (λ rk. key_verifies p rk msg sig) previous.revocation_keys)
                    ≡ true =
                  unfold is_authorized prior_key_verifies in ground (arith, e) in
                (
                  msg,
                  sig,
                  e,
                  inr (
                    ground arith,
                    any-revocation p msg sig previous.revocation_keys (ground arith),
                  ),
                )
          ]
      opened (broken x) e = absurd (unfold is_authorized prior_key_verifies in ground (arith, e))
