-- ===== src/Zone.antt =====
-- The zone of a name: `NrsEntry` and `NrsZone` of kinetic-types/src/nrs.rs, and `parse_payload` and
-- `validate` of kinetic-core/src/types/nrs.rs. A `HashMap` is an association list; where the source
-- iterates over it, the error that is returned first depends on the order of the list.
pub mod Labels
pub mod Valid
use kinetic.Prelude.{
  ℕ, ◌+◌, Bool, true, false, not, ◌&&◌, ◌||◌, Option, none, some, List, [], ◌∷◌, ◌++◌, ltb, leb,
  ◌==◌, if◌then◌else◌, length, any,
}
use kinetic.Prelude.Bytes.{Bytes, codes, bytes_eq, ends_with}
use kinetic.Prelude.Assoc.{Assoc, lookup, insert}
use kinetic.Config.{NetworkConstants, Platform}
use kinetic.Action.{starts_with}
use kinetic.Net.{Ipv4Addr, Ipv6Addr}

pub data NrsEntry : Type 0 where
  a : Ipv4Addr → NrsEntry
  aaaa : Ipv6Addr → NrsEntry
  cname : Bytes → NrsEntry
  txt : Bytes → NrsEntry
  peer_id : Bytes → NrsEntry
  kid : Bytes → NrsEntry
  ipfs : Bytes → NrsEntry
  other : NrsEntry

-- `NrsZone`, whose only field is `records`
abbrev pub NrsZone : Type 0
NrsZone = Assoc (List NrsEntry)

pub data NrsError : Type 0 where
  parse_error : NrsError
  too_many_records : NrsError
  invalid_label_length : Bytes → NrsError
  invalid_label_characters : Bytes → NrsError
  invalid_cname_configuration : Bytes → NrsError
  txt_record_too_long : Bytes → NrsError
  invalid_cname_target : Bytes → NrsError
  invalid_peer_id : Bytes → NrsError
  invalid_kid : Bytes → NrsError
  invalid_ipfs_cid : Bytes → NrsError
  multiple_cnames : Bytes → NrsError

-- the parsers of other crates: `serde_json` at zones, and `PeerId::from_str`
pub record ZoneParsers : Type 0 where
  pub from_slice : Bytes → Option NrsZone
  pub is_peer_id : Bytes → Bool

unfoldable pub total_records : NrsZone → ℕ
total_records [] = 0
total_records ((label, records) ∷ zone) = length records + total_records zone

abbrev pub is_ascii_alphanumeric : ℕ → Bool
is_ascii_alphanumeric c =
    (leb b'0' c && leb c b'9') || ((leb b'A' c && leb c b'Z') || (leb b'a' c && leb c b'z'))

abbrev pub is_label_character : ℕ → Bool
is_label_character c = is_ascii_alphanumeric c || (c == b'-' || c == b'_')

abbrev pub is_target_character : ℕ → Bool
is_target_character c = is_ascii_alphanumeric c || (c == b'-' || c == b'.')

-- the checks of a label
unfoldable pub label_error : Bytes → Option NrsError
label_error label =
    if length label == 0 || ltb 63 (length label)
    then some (invalid_label_length label)
    else if bytes_eq label (codes "@") || bytes_eq label (codes "*")
    then none
    else if starts_with label (codes "-") || ends_with label (codes "-")
    then some (invalid_label_characters label)
    else if any (λ c. not (is_label_character c)) label
    then some (invalid_label_characters label)
    else none

abbrev pub is_cname : NrsEntry → Bool
is_cname (cname target) = true
is_cname entry = false

abbrev pub is_cname_or_kid : NrsEntry → Bool
is_cname_or_kid (cname target) = true
is_cname_or_kid (kid text) = true
is_cname_or_kid entry = false

-- `iter().filter(..).count()`
unfoldable pub cname_count : List NrsEntry → ℕ
cname_count [] = 0
cname_count (entry ∷ records) =
    let rest = cname_count records in if is_cname entry then 1 + rest else rest

-- the checks of the CNAMEs of a label
unfoldable pub cname_error : Bytes → List NrsEntry → Option NrsError
cname_error label records =
    if ltb 1 (cname_count records)
    then some (multiple_cnames label)
    else if ltb 0 (cname_count records) && any (λ r. not (is_cname_or_kid r)) records
    then some (invalid_cname_configuration label)
    else none

-- what `parse_payload` returns
pub data ParsedZone : Type 0 where
  ok_zone : NrsZone → ParsedZone
  bad_zone : NrsError → ParsedZone

module _ (k : NetworkConstants) (z : ZoneParsers) where
  -- the check of one record
  unfoldable pub entry_error : Bytes → NrsEntry → Option NrsError
  entry_error label (a ip) = none
  entry_error label (aaaa ip) = none
  entry_error label (txt text) =
      if ltb 255 (length text) then some (txt_record_too_long label) else none
  entry_error label (cname target) =
      if length target == 0 || ltb 253 (length target)
      then some (invalid_cname_target label)
      else if any (λ c. not (is_target_character c)) target
      then some (invalid_cname_target label)
      else none
  entry_error label (peer_id text) = if z.is_peer_id text then none else some (invalid_peer_id text)
  entry_error label (kid text) =
      if starts_with text k.did_prefix then none else some (invalid_kid text)
  entry_error label (ipfs cid) =
      if length cid == 0 || ltb 100 (length cid)
      then some (invalid_ipfs_cid cid)
      else if not (starts_with cid (codes "Qm")) && not (starts_with cid (codes "b"))
      then some (invalid_ipfs_cid cid)
      else none
  entry_error label other = none

  -- the loop over the records of a label
  unfoldable pub entries_error : Bytes → List NrsEntry → Option NrsError
  entries_error label [] = none
  entries_error label (entry ∷ records) =
      let rest = entries_error label records in
      elim (entry_error label entry) [ some e ↦ some e | none ↦ rest ]

  -- the body of the loop over the labels
  unfoldable pub group_error : Bytes → List NrsEntry → Option NrsError
  group_error label records = elim (label_error label) [
    | some e ↦ some e
    | none ↦ elim (cname_error label records) [
      | some e ↦ some e
      | none ↦ entries_error label records
    ]
  ]

  unfoldable pub groups_error : NrsZone → Option NrsError
  groups_error [] = none
  groups_error ((label, records) ∷ zone) =
      let rest = groups_error zone in
      elim (group_error label records) [ some e ↦ some e | none ↦ rest ]

  -- `NrsZoneExt::validate`; `none` is `Ok(())`
  unfoldable pub validate_zone : NrsZone → Option NrsError
  validate_zone zone =
      if ltb 50 (total_records zone) then some too_many_records else groups_error zone

  -- `entry(label).or_default().extend(records)`
  unfoldable pub extend : Bytes → List NrsEntry → NrsZone → NrsZone
  extend label records zone = elim (lookup label zone) [
    | none ↦ insert label records zone
    | some before ↦ insert label (before ++ records) zone
  ]

  -- the loop that puts the labels in lower case; `done` is the map that it builds
  unfoldable pub lower_labels : Platform → NrsZone → NrsZone → NrsZone
  lower_labels p [] done = done
  lower_labels p ((label, records) ∷ zone) done =
      lower_labels p zone (extend (p.to_lowercase label) records done)

  unfoldable pub checked_zone : NrsZone → ParsedZone
  checked_zone zone = elim (validate_zone zone) [ none ↦ ok_zone zone | some e ↦ bad_zone e ]

  unfoldable pub parse_zone : Platform → Bytes → ParsedZone
  parse_zone p payload = elim (z.from_slice payload) [
    | none ↦ bad_zone parse_error
    | some zone ↦ checked_zone (lower_labels p zone [])
  ]
