-- ===== src/Kid/Genesis.antt =====
-- The binding of an identifier to its first key, and deactivation (kinetic-kid/src/document.rs).
use kinetic.Prelude.{
  ℕ, ◌/◌, ◌%◌, ◌<◌, ◌≡◌, refl, sym, ◌∙◌, inl, inr, true, false, none, some, List, [], ◌∷◌, ◌++◌,
  arith, mem→any, All, Option-cases,
}
use kinetic.Prelude.Bytes.{Bytes, bytes_eq, bytes_eq→≡}
use kinetic.Config.{NetworkConstants, Platform}
use kinetic.Kid.{ControllerKey, Document, Jcs, controller_verifies}
use kinetic.Kid.DocumentCheck.{
  envelope, open_envelope, hex_digit, hex_encode, expected_kid, verify_primary, verify_genesis,
  prior_key_verifies, is_authorized,
}
use kinetic.Kid.Authority.{SignedByController}

hex_digit_inj : (a b : ℕ) → a < 16 → b < 16 → hex_digit a ≡ hex_digit b → a ≡ b
hex_digit_inj a b ha hb e = ground arith

byte_of_digits : (a b : ℕ) → a / 16 ≡ b / 16 → a % 16 ≡ b % 16 → a ≡ b
byte_of_digits a b h l = omega arith

hex_encode_inj :
    (a b : Bytes)
    → All (λ x. x < 256) a
    → All (λ x. x < 256) b
    → hex_encode a ≡ hex_encode b
    → a ≡ b
unfolding hex_encode
hex_encode_inj [] [] ha hb e = refl
hex_encode_inj [] (y ∷ b) ha hb e = cc
hex_encode_inj (x ∷ a) [] ha hb e = cc
hex_encode_inj (x ∷ a) (y ∷ b) (hx, ha) (hy, hb) e =
    let high : hex_digit (x / 16) ≡ hex_digit (y / 16) = cc e in
    let low : hex_digit (x % 16) ≡ hex_digit (y % 16) = cc e in
    let rest : hex_encode a ≡ hex_encode b = cc e in
    let same =
      byte_of_digits x y (hex_digit_inj (x / 16) (y / 16) (omega arith) (omega arith) high)
        (hex_digit_inj (x % 16) (y % 16) (omega arith) (omega arith) low) in
    cc (same, hex_encode_inj a b ha hb rest)

prefix_inj : (p a b : Bytes) → p ++ a ≡ p ++ b → a ≡ b
prefix_inj [] a b h = h
prefix_inj (c ∷ p) a b h = prefix_inj p a b (cc h)

module _ (k : NetworkConstants) (p : Platform) where
  -- the primary key of a document, decoded, hashes to its identifier
  pub record BoundTo (doc : Document) : Type 0 where
    pub pubkey : Bytes
    pub primary : ControllerKey
    pub others : List ControllerKey
    pub first : doc.controller_keys ≡ primary ∷ others
    pub decoded : p.b64_decode primary.public_key ≡ some pubkey
    pub bound : doc.kid ≡ expected_kid k p pubkey

  primary_bound :
      (kid : Bytes) (keys : List ControllerKey)
      → verify_primary k p kid keys ≡ none
      → (pubkey : Bytes) × (primary : ControllerKey) × (others : List ControllerKey) × (keys
          ≡ primary ∷ others)
        × (p.b64_decode primary.public_key ≡ some pubkey)
        × (kid ≡ expected_kid k p pubkey)
  unfolding verify_primary
  primary_bound kid [] h = cc
  primary_bound kid (key ∷ keys) h = elim (Option-cases (p.b64_decode key.public_key)) [
    | inl e ↦ absurd (ground arith)
    | inr (pubkey, e) ↦
        let same : bytes_eq kid (expected_kid k p pubkey) ≡ true = ground arith in
        (pubkey, key, keys, refl, e, bytes_eq→≡ kid (expected_kid k p pubkey) same)
  ]

  pub verify_genesis-BoundTo : (doc : Document) → verify_genesis k p doc ≡ none → BoundTo doc
  unfolding verify_genesis
  verify_genesis-BoundTo doc h =
      let (pubkey, key, keys, f, d, e) = primary_bound doc.kid doc.controller_keys h in
      record { pubkey = pubkey; primary = key; others = keys; first = f; decoded = d; bound = e }

  -- One identifier, one key: two documents with the same identifier that both pass the genesis check
  -- have primary keys with the same SHA-256 hash, for a hash that yields bytes.
  pub verify_genesis_unique :
      (a b : Document)
      → ((s : Bytes) → All (λ x. x < 256) (p.sha256 s))
      → (ga : verify_genesis k p a ≡ none) → (gb : verify_genesis k p b ≡ none) → a.kid ≡ b.kid
      → p.sha256 (verify_genesis-BoundTo a ga).pubkey
        ≡ p.sha256 (verify_genesis-BoundTo b gb).pubkey
  verify_genesis_unique a b is_bytes ga gb e =
      let ba = verify_genesis-BoundTo a ga in
      let bb = verify_genesis-BoundTo b gb in
      let ids : expected_kid k p ba.pubkey ≡ expected_kid k p bb.pubkey =
        sym ba.bound ∙ e ∙ bb.bound in
      hex_encode_inj (p.sha256 ba.pubkey) (p.sha256 bb.pubkey) (is_bytes ba.pubkey)
        (is_bytes bb.pubkey)
        (prefix_inj k.did_prefix (hex_encode (p.sha256 ba.pubkey)) (hex_encode (p.sha256 bb.pubkey))
          (unfold expected_kid in ids))

  -- A deactivation does not last: an active document that is signed by a controller key of a
  -- deactivated one is an authorized update of it.
  pub deactivation_undone :
      (j : Jcs) (doc previous : Document) (msg sig : Bytes)
      → previous.deactivated ≡ true
      → doc.deactivated ≡ false
      → open_envelope k p j doc ≡ envelope msg sig
      → SignedByController p msg sig previous.controller_keys
      → is_authorized k p j doc previous ≡ true
  unfolding is_authorized
  deactivation_undone j doc previous msg sig off on e s =
      let v : controller_verifies p msg sig s.key ≡ true =
        unfold controller_verifies in ground (arith, s.is_controller, s.verifies) in
      rw e (
        unfold prior_key_verifies in
        ground (arith, mem→any (controller_verifies p msg sig) s.listed v))
