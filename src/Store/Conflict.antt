-- ===== src/Store/Conflict.antt =====
-- How `handle_put_record` of kinetic-network/src/store/handlers.rs decides between a stored record
-- and a new one.
use kinetic.Prelude.{
  ℕ, bit_xor, Bool, true, false, ◌&&◌, not, Option, none, some, [], ◌∷◌, ◌++◌, ltb, ◌==◌,
  if◌then◌else◌,
}
use kinetic.Prelude.Bytes.{Bytes, bytes_eq}
use kinetic.Config.{NetworkConstants, Platform}
use kinetic.Physics.{iterations, takeover_iterations}
use kinetic.Kid.{Jcs}
use kinetic.Identity.{AuthorizedManifest}
use kinetic.Vdf.{Reveal}
use kinetic.Signature.{
  SignatureVerifyError, verify_signature, delegated_scope_violation, delegated_capability_missing,
  delegated_kid_document_missing, delegated_authorization_invalid,
}
use kinetic.Signature
use kinetic.Store.{
  KineticStoreError, tie_broken, insufficient_iterations, stale_reveal, invalid_signature,
}
use kinetic.Store

-- `zip(...cycle())` and `a ^ b`: the bytes left of this round, and all bytes of a round
unfoldable pub distance_from : Bytes → Bytes → Bytes → Bytes
distance_from round left [] = []
distance_from round [] (a ∷ pubkey) = elim round [
  | [] ↦ []
  | b ∷ bs ↦ bit_xor a b ∷ distance_from round bs pubkey
]
distance_from round (b ∷ left) (a ∷ pubkey) = bit_xor a b ∷ distance_from round left pubkey

-- `dist_new` and `dist_existing`
unfoldable pub distance : Reveal → Bytes
distance r = let round = r.vdf_proof ++ 0 ∷ [] in distance_from round round r.pubkey

-- `>` on `Vec<u8>`
unfoldable pub bytes_gt : Bytes → Bytes → Bool
bytes_gt [] b = false
bytes_gt (x ∷ a) [] = true
bytes_gt (x ∷ a) (y ∷ b) =
    let rest = bytes_gt a b in if ltb y x then true else if ltb x y then false else rest

-- a record of another owner; `none` lets the new one take over
unfoldable pub takeover_error :
    NetworkConstants → Platform → Reveal → Reveal → ℕ → Option KineticStoreError
takeover_error k p existing new hb_age =
    if new.iterations == existing.iterations && ltb hb_age 100
    then if bytes_gt (distance new) (distance existing) then some tie_broken else none
    else if ltb new.iterations (takeover_iterations k (iterations k p new.name) hb_age)
    then some insufficient_iterations
    else none

pub data Renewal : Type 0 where
  unchanged : Renewal
  replaced : Renewal
  refused : KineticStoreError → Renewal

-- the conversion of a signature error
unfoldable pub store_error : SignatureVerifyError → KineticStoreError
store_error Signature.invalid_signature = invalid_signature
store_error delegated_scope_violation = invalid_signature
store_error delegated_capability_missing = Store.delegated_capability_missing
store_error delegated_kid_document_missing = invalid_signature
store_error delegated_authorization_invalid = Store.delegated_authorization_invalid

-- the signature check of the last two branches
unfoldable pub signature_error :
    NetworkConstants → Platform → Jcs → Bool → Reveal → Option KineticStoreError
signature_error k p j skip_verify r =
    if not skip_verify && not k.dev_mode
    then elim (verify_signature k p j r) [ none ↦ none | some e ↦ some (store_error e) ]
    else none

-- the owner's own record goes before a delegate's, and a later delegation before an earlier one
unfoldable pub hierarchy : Option AuthorizedManifest → Option AuthorizedManifest → Renewal
hierarchy (some existing) none = replaced
hierarchy none (some new) = refused stale_reveal
hierarchy (some existing) (some new) =
    if ltb new.manifest.valid_from existing.manifest.valid_from
    then refused stale_reveal
    else replaced
hierarchy none none = replaced

-- a record of the same owner
unfoldable pub renewal : NetworkConstants → Platform → Jcs → Bool → Reveal → Reveal → Renewal
renewal k p j skip_verify existing new =
    if ltb new.kyn existing.kyn
    then refused stale_reveal
    else if bytes_eq new.embedded_nrs existing.embedded_nrs
        && bytes_eq new.identity_signature existing.identity_signature
    then unchanged
    else elim (signature_error k p j skip_verify new) [
      | some e ↦ refused e
      | none ↦ hierarchy existing.authorization new.authorization
    ]
