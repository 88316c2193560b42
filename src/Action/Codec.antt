-- ===== src/Action/Codec.antt =====
-- Reading an action from its bytes: `NetworkAction::parse_payload` of kinetic-types/src/action.rs.
use kinetic.Prelude.{
  ℕ, false, ◌+◌, ◌-◌, ◌^◌, ◌<◌, ◌≡◌, false, refl, sym, ap, ◌∙◌, [], ◌∷◌, ◌++◌, arith, ltb, ◌==◌,
  if◌then◌else◌, length, length-append, take, drop, take-length-append, drop-length-append,
}
use kinetic.Prelude.Bytes.{Bytes}
use kinetic.Prelude.Words.{u64_be, from_be, length-be_bytes, from_be-be_bytes}
use kinetic.Action.{
  NetworkAction, rotate_sovereign_key, emergency_halt, emergency_resume, SignedNetworkAction,
  opcode_bytes, to_bytes, pubkey_length,
}

pub data ActionParseError : Type 0 where
  buffer_too_small : ActionParseError
  unknown_opcode : ℕ → ActionParseError
  invalid_pubkey_length : ActionParseError

pub data Parsed : Type 0 where
  parsed : NetworkAction → ℕ → Parsed
  failed : ActionParseError → Parsed

-- the `match opcode`
unfoldable pub parse_action : ℕ → Bytes → ℕ → Parsed
parse_action opcode action_data timestamp_kyn =
    if opcode == 0x0b
    then (if length action_data == pubkey_length
        then parsed (rotate_sovereign_key action_data) timestamp_kyn
        else failed invalid_pubkey_length)
    else if opcode == 0x0c
    then parsed emergency_halt timestamp_kyn
    else if opcode == 0x0d
    then parsed emergency_resume timestamp_kyn
    else failed (unknown_opcode opcode)

unfoldable pub parse_split : Bytes → ℕ → Parsed
parse_split [] timestamp_kyn = failed buffer_too_small
parse_split (opcode ∷ action_data) timestamp_kyn = parse_action opcode action_data timestamp_kyn

-- `NetworkAction::parse_payload`
unfoldable pub parse_payload : Bytes → Parsed
parse_payload bytes =
    if ltb (length bytes) 9
    then failed buffer_too_small
    else let at = length bytes - 8 in parse_split (take at bytes) (from_be 0 (drop at bytes))

-- the keys that the codec takes
abbrev pub HasKeyLength : NetworkAction → Type 0
HasKeyLength (rotate_sovereign_key new_key) = length new_key ≡ pubkey_length
HasKeyLength emergency_halt = Unit
HasKeyLength emergency_resume = Unit

parse_split-opcode_bytes :
    (a : NetworkAction) (t : ℕ) → HasKeyLength a → parse_split (opcode_bytes a) t ≡ parsed a t
unfolding parse_split parse_action opcode_bytes
parse_split-opcode_bytes (rotate_sovereign_key key) t h = ground arith
parse_split-opcode_bytes emergency_halt t h = refl
parse_split-opcode_bytes emergency_resume t h = refl

length-opcode_bytes : (a : NetworkAction) → 0 < length (opcode_bytes a)
unfolding opcode_bytes
length-opcode_bytes (rotate_sovereign_key key) = omega arith
length-opcode_bytes emergency_halt = omega arith
length-opcode_bytes emergency_resume = omega arith

-- the bytes of a message are cut where they were joined
parse_payload-append :
    (payload stamp : Bytes)
    → 0 < length payload
    → length stamp ≡ 8
    → parse_payload (payload ++ stamp) ≡ parse_split payload (from_be 0 stamp)
unfolding parse_payload
parse_payload-append payload stamp h e =
    let n : length (payload ++ stamp) ≡ length payload + 8 =
      omega (arith, length-append {0} payload stamp) in
    let at : length (payload ++ stamp) - 8 ≡ length payload = omega arith in
    let big : ltb (length (payload ++ stamp)) 9 ≡ false = ground arith in
    rw big (rw (at, take-length-append payload stamp, drop-length-append payload stamp))

-- Whatever was signed is read back: a message whose key, if it carries one, has the length of an
-- ML-DSA-65 key, and whose timestamp fits in 64 bits, parses to its action and timestamp.
pub parse_payload-to_bytes :
    (msg : SignedNetworkAction)
    → HasKeyLength msg.action
    → msg.timestamp_kyn < 2 ^ 64
    → parse_payload (to_bytes msg) ≡ parsed msg.action msg.timestamp_kyn
unfolding to_bytes
parse_payload-to_bytes msg h t =
    parse_payload-append (opcode_bytes msg.action) (u64_be msg.timestamp_kyn)
      (length-opcode_bytes msg.action) (length-be_bytes 8 msg.timestamp_kyn)
    ∙ rw (from_be-be_bytes 8 msg.timestamp_kyn t)
        (parse_split-opcode_bytes msg.action msg.timestamp_kyn h)

-- Two such messages with the same signed bytes have the same action and timestamp.
pub to_bytes_inj :
    (a b : SignedNetworkAction)
    → HasKeyLength a.action
    → HasKeyLength b.action
    → a.timestamp_kyn < 2 ^ 64
    → b.timestamp_kyn < 2 ^ 64
    → to_bytes a ≡ to_bytes b
    → (a.action ≡ b.action) × (a.timestamp_kyn ≡ b.timestamp_kyn)
to_bytes_inj a b ha hb ta tb e =
    let p : parsed a.action a.timestamp_kyn ≡ parsed b.action b.timestamp_kyn =
      sym (parse_payload-to_bytes a ha ta) ∙ ap parse_payload e ∙ parse_payload-to_bytes b hb tb in
    (cc p, cc p)
