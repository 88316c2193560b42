-- ===== src/Config.antt =====
-- What the program takes from outside its sources. `NetworkConstants` holds the constants that
-- kinetic-core/build.rs generates from network.json, and the `simulation` feature flag behind
-- `is_dev_mode` (kinetic-core/src/config.rs). `Platform` holds the third-party functions that the
-- program calls: SHA-256, ML-DSA-65, hex, base64url, JCS canonicalisation, Unicode lower case, the
-- drand BLS check, the VDF engine and Argon2id.
use kinetic.Prelude.{
  ℕ, ◌+◌, ◌<◌, ◌≡◌, refl, Bool, true, false, ◌&&◌, Option, some, [], ◌∷◌, map, leb, if◌then◌else◌,
  All,
}
use kinetic.Prelude.Bytes.{Bytes, codes}

pub record NetworkConstants : Type 0 where
  pub nsp_suffix : Bytes
  pub network_salt : Bytes
  pub did_prefix : Bytes
  pub nsp : Bytes
  pub dev_mode : Bool
  pub kyn_period : ℕ
  pub beacon_genesis : ℕ
  pub base_iterations : ℕ
  pub target_minutes : ℕ  -- the `f64` constant, after its cast to `u64`
  pub dev_mode_iterations : ℕ
  pub takeover_target_kyns : ℕ
  pub ndc_len_0_to_1 : ℕ
  pub ndc_len_2 : ℕ
  pub ndc_len_3 : ℕ
  pub ndc_len_4 : ℕ
  pub ndc_len_5 : ℕ
  pub ndc_len_6 : ℕ
  pub ndc_len_7 : ℕ
  pub ndc_len_8_to_10 : ℕ
  pub ndc_len_11_to_17 : ℕ
  pub ndc_len_18_to_20 : ℕ
  pub vdf_discount_min_iterations : ℕ
  pub vdf_discount_percentage : ℕ
  pub minimum_commit_age_kyns : ℕ
  pub storage_max_value_bytes : ℕ
  pub kid_max_public_key_bytes : ℕ
  pub kid_max_location_bytes : ℕ
  pub kid_max_endpoint_bytes : ℕ

-- the answer of `VdfEngine::verify`
pub data VdfAnswer : Type 0 where
  accepted : VdfAnswer
  refused : VdfAnswer
  engine_failure : VdfAnswer

pub record Platform : Type 0 where
  pub to_lowercase : Bytes → Bytes
  pub sha256 : Bytes → Bytes
  -- public key, message, signature
  pub verify_signature : Bytes → Bytes → Bytes → Bool
  pub hex_decode : Bytes → Option Bytes
  pub b64_decode : Bytes → Option Bytes
  -- the drand check of a beacon index against raw signature bytes
  pub verify_drand : ℕ → Bytes → Bool
  -- challenge hash, proof bytes, iterations
  pub vdf_verify : Bytes → Bytes → ℕ → VdfAnswer
  -- peer bytes and salt; `none` when the allocation fails
  pub argon2 : Bytes → Bytes → Option Bytes

-- `u8::to_ascii_lowercase`
abbrev pub ascii_lower : ℕ → ℕ
ascii_lower c = if leb b'A' c && leb c b'Z' then c + 32 else c

-- What the Unicode lower-casing of the standard library does on ASCII text.
pub record LowersAscii (p : Platform) : Type 0 where
  pub on_ascii : (s : Bytes) → All (λ c. c < 128) s → p.to_lowercase s ≡ map ascii_lower s

-- The values of network.json at the root of the repository.
abbrev pub kin_network : NetworkConstants
kin_network = record {
  nsp_suffix = codes ".kin";
  network_salt = codes "kin-network-salt";
  did_prefix = codes "did:kin:";
  nsp = codes "kin";
  dev_mode = false;
  kyn_period = 1;
  beacon_genesis = 1692803367;
  base_iterations = 238819830;
  target_minutes = 30;
  dev_mode_iterations = 1000;
  takeover_target_kyns = 23652000;
  ndc_len_0_to_1 = 157788000;
  ndc_len_2 = 129600;
  ndc_len_3 = 103680;
  ndc_len_4 = 64800;
  ndc_len_5 = 4320;
  ndc_len_6 = 2160;
  ndc_len_7 = 450;
  ndc_len_8_to_10 = 360;
  ndc_len_11_to_17 = 270;
  ndc_len_18_to_20 = 180;
  vdf_discount_min_iterations = 1000;
  vdf_discount_percentage = 15;
  minimum_commit_age_kyns = 30;
  storage_max_value_bytes = 81920;
  kid_max_public_key_bytes = 8192;
  kid_max_location_bytes = 2048;
  kid_max_endpoint_bytes = 256;
}

-- A platform whose answers can be followed by hand: every check passes, a hash is the identity.
abbrev pub toy_platform : Platform
toy_platform = record {
  to_lowercase = map ascii_lower;
  sha256 = λ s. s;
  verify_signature = λ key msg sig. true;
  hex_decode = some;
  b64_decode = some;
  verify_drand = λ kyn sig. true;
  vdf_verify = λ challenge proof iterations. accepted;
  argon2 = λ peer salt. some (0 ∷ 0 ∷ 255 ∷ []);
}

pub toy_platform-LowersAscii : LowersAscii toy_platform
toy_platform-LowersAscii = record { on_ascii = λ s h. refl }
