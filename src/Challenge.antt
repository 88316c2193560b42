-- ===== src/Challenge.antt =====
-- Proof of work of peer identities: kinetic-network/src/challenge.rs. A peer is given by the bytes of
-- its `PeerId`; Argon2id is a function of the platform.
pub mod Lifetime
use kinetic.Prelude.{
  ℕ, ◌+◌, ◌-◌, ◌/◌, ◌%◌, Bool, true, false, not, ◌&&◌, ◌||◌, Option, none, some, List, [], ◌∷◌, leb,
  ltb, ◌==◌, if◌then◌else◌, length, drop,
}
use kinetic.Prelude.Bytes.{Bytes}
use kinetic.Prelude.Words.{u64_be, from_be, saturating_add}
use kinetic.Config.{NetworkConstants, Platform}

abbrev pub epoch_kyns : ℕ
epoch_kyns = 1440

-- `u8::leading_zeros`
unfoldable pub byte_zeros : ℕ → ℕ
byte_zeros b =
    if ltb b 1
    then 8
    else if ltb b 2
    then 7
    else if ltb b 4
    then 6
    else if ltb b 8
    then 5
    else if ltb b 16
    then 4
    else if ltb b 32
    then 3
    else if ltb b 64
    then 2
    else if ltb b 128
    then 1
    else 0

unfoldable pub leading_zeros : Bytes → ℕ
leading_zeros [] = 0
leading_zeros (byte ∷ hash) =
    let rest = leading_zeros hash in if byte == 0 then 8 + rest else byte_zeros byte

unfoldable pub compute_pow_hash : Platform → Bytes → ℕ → Option Bytes
compute_pow_hash p peer_bytes epoch = p.argon2 peer_bytes (u64_be epoch)

-- A short peer is aligned to the right of eight zero bytes, which leaves its number unchanged.
unfoldable pub offset_of : Bytes → ℕ
offset_of peer_bytes =
    (if leb 8 (length peer_bytes)
      then from_be 0 (drop (length peer_bytes - 8) peer_bytes)
      else from_be 0 peer_bytes)
    % epoch_kyns

unfoldable pub staggered_epoch : Bytes → ℕ → ℕ
staggered_epoch peer_bytes kyn = saturating_add kyn (offset_of peer_bytes) / epoch_kyns

-- the hash of an epoch exists and has enough zeros
unfoldable pub epoch_passes : Platform → Bytes → ℕ → ℕ → Bool
epoch_passes p peer_bytes epoch difficulty = elim (compute_pow_hash p peer_bytes epoch) [
  | none ↦ false
  | some hash ↦ leb difficulty (leading_zeros hash)
]

unfoldable pub verify_p2p_challenge : NetworkConstants → Platform → Bytes → ℕ → ℕ → Bool
verify_p2p_challenge k p peer_bytes current_kyn difficulty =
    if k.dev_mode
    then true
    else if current_kyn == 0
    then false
    else let current_epoch = staggered_epoch peer_bytes current_kyn in
      if epoch_passes p peer_bytes current_epoch difficulty
      then true
      else (ltb 0 current_epoch && epoch_passes p peer_bytes (current_epoch - 1) difficulty)

pub data Mined : Type 0 where
  mined : Bytes → Mined
  panicked : Mined
  exhausted : Mined

-- The loop of `solve_p2p_challenge` over the peers of the keys that the generator yields, in order;
-- `exhausted` when none of a finite run of them passes.
unfoldable pub mine : Platform → ℕ → ℕ → List Bytes → Mined
mine p current_kyn difficulty [] = exhausted
mine p current_kyn difficulty (peer ∷ peers) =
    let rest = mine p current_kyn difficulty peers in
    elim (compute_pow_hash p peer (staggered_epoch peer current_kyn)) [
      | none ↦ panicked
      | some hash ↦ if leb difficulty (leading_zeros hash) then mined peer else rest
    ]

abbrev pub first_key : List Bytes → Mined
first_key [] = exhausted
first_key (peer ∷ peers) = mined peer

unfoldable pub solve_p2p_challenge : NetworkConstants → Platform → ℕ → ℕ → List Bytes → Mined
solve_p2p_challenge k p current_kyn difficulty peers =
    if current_kyn == 0 && not k.dev_mode
    then panicked
    else if k.dev_mode
    then first_key peers
    else mine p current_kyn difficulty peers
