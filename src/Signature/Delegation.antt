-- ===== src/Signature/Delegation.antt =====
-- Who signed a reveal that verifies, and what a delegation leaves unsigned
-- (kinetic-verify/src/signatures.rs).
use mathlib.Core.List.{Memᴰ}
use kinetic.Prelude.{
  ◌≡◌, refl, sym, subst, inl, inr, true, Option, none, some, arith, any, any→mem, mem→any,
  Option-cases,
}
use kinetic.Prelude.Bytes.{Bytes, codes, bytes_eq, bytes_eq→≡}
use kinetic.Config.{NetworkConstants, Platform}
use kinetic.Kid.{ControllerKey, Document, Jcs, key_verifies}
use kinetic.Identity.{AuthorizedManifest, manifest_signable}
use kinetic.Vdf.{PreviousProof, Reveal, previous_signable, reveal_signable}
use kinetic.Signature.{
  has_capability, delegated_key_verifies, verify_delegate, verify_identity, verify_previous,
  verify_signature,
}

module _ (k : NetworkConstants) (p : Platform) (j : Jcs) where
  -- the owner authorized a manifest with the capability, and a delegated key of the attached
  -- document signed the reveal
  pub record IsDelegated (r : Reveal) (auth : AuthorizedManifest) : Type 0 where
    pub in_scope : auth.name ≡ r.name
    pub by_owner :
        p.verify_signature r.pubkey (manifest_signable k j auth) auth.owner_signature ≡ true
    pub capable : has_capability auth.manifest (codes "kinetic.capability.dns_update") ≡ true
    pub kid_doc : Document
    pub attached : auth.kid_doc ≡ some kid_doc
    pub key : ControllerKey
    pub listed : Memᴰ key kid_doc.controller_keys
    pub key_type : key.key_type ≡ codes "Delegated"
    pub by_delegate :
        key_verifies p key.public_key (reveal_signable k r) r.identity_signature ≡ true

  -- the owner's own signature, or a delegate's
  pub IsSigned : Reveal → Option AuthorizedManifest → Type 0
  IsSigned r none = p.verify_signature r.pubkey (reveal_signable k r) r.identity_signature ≡ true
  IsSigned r (some auth) = IsDelegated r auth

  -- the owner's signature over the previous proof
  pub IsPreviousSigned : Reveal → Option PreviousProof → Type 0
  IsPreviousSigned r none = Unit {0}
  IsPreviousSigned r (some prev) =
      p.verify_signature r.pubkey (previous_signable k prev) prev.identity_signature ≡ true

  delegate_sound :
      (r : Reveal) (signable : Bytes) (doc : Option Document)
      → verify_delegate p r signable doc ≡ none
      → (kid_doc : Document) × (doc ≡ some kid_doc)
        × (any (delegated_key_verifies p signable r.identity_signature) kid_doc.controller_keys
            ≡ true)
  unfolding verify_delegate
  delegate_sound r signable none h = absurd (ground arith)
  delegate_sound r signable (some kid_doc) h = (kid_doc, refl, ground arith)

  identity_sound :
      (r : Reveal) (a : Option AuthorizedManifest) → verify_identity k p j r a ≡ none → IsSigned r a
  unfolding verify_identity IsSigned
  identity_sound r none h = ground arith
  identity_sound r (some auth) h =
      let scope : bytes_eq auth.name r.name ≡ true = ground arith in
      let rest : verify_delegate p r (reveal_signable k r) auth.kid_doc ≡ none = ground arith in
      let (kid_doc, at, some_key) = delegate_sound r (reveal_signable k r) auth.kid_doc rest in
      let (key, m, v) =
        any→mem (delegated_key_verifies p (reveal_signable k r) r.identity_signature)
          kid_doc.controller_keys some_key in
      let v : delegated_key_verifies p (reveal_signable k r) r.identity_signature key ≡ true = v in
      let typed : bytes_eq key.key_type (codes "Delegated") ≡ true =
        unfold delegated_key_verifies in ground (arith, v) in
      record {
        in_scope = bytes_eq→≡ auth.name r.name scope;
        by_owner = ground arith;
        capable = ground arith;
        kid_doc = kid_doc;
        attached = at;
        key = key;
        listed = m;
        key_type = bytes_eq→≡ key.key_type (codes "Delegated") typed;
        by_delegate = unfold delegated_key_verifies in ground (arith, v);
      }

  previous_sound :
      (r : Reveal) (q : Option PreviousProof)
      → verify_previous k p r q ≡ none
      → IsPreviousSigned r q
  unfolding verify_previous IsPreviousSigned
  previous_sound r none h = tt
  previous_sound r (some prev) h = ground arith

  -- A reveal whose signatures verify is signed by its owner, or, where it carries an authorization,
  -- by a "Delegated" key of the attached document, under a manifest for the same name that the owner
  -- signed and that grants "kinetic.capability.dns_update"; a previous proof is signed by the owner.
  pub verify_signature_sound :
      (r : Reveal)
      → verify_signature k p j r ≡ none
      → IsSigned r r.authorization × IsPreviousSigned r r.previous_proof
  unfolding verify_signature
  verify_signature_sound r h = elim (Option-cases (verify_identity k p j r r.authorization)) [
    | inr (e, he) ↦ absurd (ground arith)
    | inl he ↦
        (identity_sound r r.authorization he, previous_sound r r.previous_proof (ground arith))
  ]

  identity_forged :
      (r : Reveal) (auth : AuthorizedManifest) (forged : Document) (key : ControllerKey)
      → bytes_eq auth.name r.name ≡ true
      → p.verify_signature r.pubkey (manifest_signable k j auth) auth.owner_signature ≡ true
      → has_capability auth.manifest (codes "kinetic.capability.dns_update") ≡ true
      → Memᴰ key forged.controller_keys
      → bytes_eq key.key_type (codes "Delegated") ≡ true
      → key_verifies p key.public_key (reveal_signable k r) r.identity_signature ≡ true
      → verify_identity k p j r (some (record auth { kid_doc = some forged })) ≡ none
  unfolding verify_identity
  identity_forged r auth forged key scope owner able listed typed v =
      let signed : p.verify_signature r.pubkey
            (manifest_signable k j (record auth { kid_doc = some forged })) auth.owner_signature
          ≡ true =
        unfold manifest_signable in owner in
      let holds : any (delegated_key_verifies p (reveal_signable k r) r.identity_signature)
            forged.controller_keys
          ≡ true =
        mem→any (delegated_key_verifies p (reveal_signable k r) r.identity_signature) listed
          (unfold delegated_key_verifies in ground (arith, typed, v)) in
      unfold verify_delegate in ground (arith, signed, holds, scope, able)

  -- A reveal with an authorization that the owner signed, in scope and with the capability, and with
  -- no previous proof, verifies after its attached document is replaced by any document that lists a
  -- "Delegated" key that verifies the signature over the reveal: the owner's signature does not
  -- cover the attached document.
  pub attached_document_unsigned :
      (r : Reveal) (auth : AuthorizedManifest) (forged : Document) (key : ControllerKey)
      → r.authorization ≡ some (record auth { kid_doc = some forged })
      → r.previous_proof ≡ none
      → bytes_eq auth.name r.name ≡ true
      → p.verify_signature r.pubkey (manifest_signable k j auth) auth.owner_signature ≡ true
      → has_capability auth.manifest (codes "kinetic.capability.dns_update") ≡ true
      → Memᴰ key forged.controller_keys
      → bytes_eq key.key_type (codes "Delegated") ≡ true
      → key_verifies p key.public_key (reveal_signable k r) r.identity_signature ≡ true
      → verify_signature k p j r ≡ none
  unfolding verify_signature
  attached_document_unsigned r auth forged key a q scope owner able listed typed v =
      let identity : verify_identity k p j r r.authorization ≡ none =
        subst (λ o. verify_identity k p j r o ≡ none) (sym a)
          (identity_forged r auth forged key scope owner able listed typed v) in
      let previous : verify_previous k p r r.previous_proof ≡ none =
        subst (λ o. verify_previous k p r o ≡ none) (sym q) (unfold verify_previous in refl) in
      ground (arith, identity, previous)
