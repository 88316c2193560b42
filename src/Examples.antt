-- ===== src/Examples.antt =====
-- Concrete inputs for the theorems: the checks that the hypotheses of each can hold.
pub mod Time
pub mod Naming
pub mod Actions
pub mod Identity
pub mod Registration
pub mod Storing
pub mod Node
pub mod Restoring
pub mod Resolving
pub mod TieBreaking
pub mod Peers
use kinetic.Prelude.{ℕ, Bool, false, Option, none, some, List, [], ◌∷◌, replicate}
use kinetic.Prelude.Bytes.{Bytes, codes}
use kinetic.Action.{
  NetworkAction, emergency_halt, emergency_resume, SignedNetworkAction, ActionConfig, ActionState,
  new,
}
use kinetic.Kid.{ControllerKey, Document, Manifest, Service, Jcs}
use kinetic.Identity.{AuthorizedManifest}
use kinetic.Vdf.{Reveal}

abbrev pub toy_jcs : Jcs
toy_jcs = record { document = λ d. some d.kid; manifest = λ m. some m.kid }

abbrev pub halt_message : SignedNetworkAction
halt_message = record {
  action = emergency_halt;
  timestamp_kyn = 1000;
  sovereign_signatures = (1 ∷ []) ∷ [];
}

abbrev pub resume_message : SignedNetworkAction
resume_message = record {
  action = emergency_resume;
  timestamp_kyn = 1010;
  sovereign_signatures = (1 ∷ []) ∷ [];
}

abbrev pub toy_config : ActionConfig
toy_config = record {
  sovereign_key_hex = [];
  max_age_kyns = 100;
  is_dev_mode = false;
  action_model = codes "sovereign";
}

abbrev pub toy_actions : ActionState
toy_actions = record (new 0) { active_sovereign_key = some (7 ∷ []) }

abbrev pub controller : ControllerKey
controller = record { id = codes "#1"; key_type = codes "Controller"; public_key = 5 ∷ [] }

abbrev pub delegate : ControllerKey
delegate = record { id = codes "#2"; key_type = codes "Delegated"; public_key = 6 ∷ [] }

abbrev pub toy_document : Document
toy_document = record {
  doc_type = codes "kinetic.kid.v1";
  kid = codes "did:kin:05";
  created_at = 1;
  controller_keys = controller ∷ [];
  manifest = none;
  revocation_keys = (9 ∷ []) ∷ [];
  deactivated = false;
  signature = some (1 ∷ []);
}

abbrev pub dns_update : Service
dns_update = record {
  id = codes "#dns";
  service_type = codes "kinetic.capability.dns_update";
  protocol = [];
  endpoint = [];
}

abbrev pub toy_manifest : Manifest
toy_manifest = record {
  doc_type = codes "kinetic.manifest.v1";
  kid = codes "did:kin:05";
  version = 1;
  valid_from = 1;
  expires_at = none;
  services = dns_update ∷ [];
  signature = some (1 ∷ []);
}

abbrev pub toy_authorization : AuthorizedManifest
toy_authorization = record {
  name = codes "kinetic.kin";
  manifest = toy_manifest;
  kid_doc = some (record toy_document { controller_keys = delegate ∷ [] });
  owner_signature = 1 ∷ [];
}

-- a reveal of the sizes that the protocol asks for
abbrev pub toy_reveal : Reveal
toy_reveal = record {
  protocol_version = 1;
  name = codes "kinetic.kin";
  embedded_nrs = 1 ∷ 2 ∷ [];
  salt = replicate 32 3;
  kyn = 5000;
  beacon_signature = replicate 192 b'a';
  iterations = 3600000000;
  vdf_proof = 1 ∷ 2 ∷ [];
  pubkey = replicate 1952 7;
  identity_signature = replicate 3309 9;
  authorization = none;
  previous_proof = none;
}
