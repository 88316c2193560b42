-- ===== src/Zone/Valid.antt =====
-- What a valid zone looks like (kinetic-core/src/types/nrs.rs).
use mathlib.Core.List.{Memᴰ}
use mathlib.Core.List.Memᴰ
use kinetic.Prelude.{
  ◌≤◌, ◌<◌, ◌≡◌, sym, subst, ◌⊎◌, inl, inr, true, none, List, [], ◌∷◌, arith, length, Bool-cases,
  Option-cases,
}
use kinetic.Prelude.Bytes.{Bytes, codes}
use kinetic.Config.{NetworkConstants, Platform}
use kinetic.Action.{starts_with}
use kinetic.Zone.{
  NrsEntry, a, aaaa, cname, txt, peer_id, kid, ipfs, other, NrsZone, ZoneParsers, total_records,
  is_target_character, label_error, cname_error, entry_error, entries_error, group_error,
  groups_error, validate_zone, ok_zone, checked_zone, lower_labels, parse_zone,
}
use kinetic.Zone.Labels.{
  Every, Every-of_any, IsLabel, label_error_sound, CnameAlone, cname_error_sound,
}

module _ (k : NetworkConstants) (z : ZoneParsers) where
  -- what each type of record holds
  pub IsEntry : NrsEntry → Type 0
  IsEntry (a ip) = Unit {0}
  IsEntry (aaaa ip) = Unit {0}
  IsEntry (cname target) =
      (0 < length target) × (length target ≤ 253) × Every is_target_character target
  IsEntry (txt text) = length text ≤ 255
  IsEntry (peer_id text) = z.is_peer_id text ≡ true
  IsEntry (kid text) = starts_with text k.did_prefix ≡ true
  IsEntry (ipfs cid) =
      (0 < length cid)
      × (length cid ≤ 100)
      × ((starts_with cid (codes "Qm") ≡ true) ⊎ (starts_with cid (codes "b") ≡ true))
  IsEntry other = Unit {0}

  entry_error_sound :
      (label : Bytes) (entry : NrsEntry) → entry_error k z label entry ≡ none → IsEntry entry
  unfolding entry_error IsEntry
  entry_error_sound label (a ip) h = tt
  entry_error_sound label (aaaa ip) h = tt
  entry_error_sound label (cname target) h =
      (ground arith, ground arith, Every-of_any is_target_character target (ground arith))
  entry_error_sound label (txt text) h = ground arith
  entry_error_sound label (peer_id text) h = ground arith
  entry_error_sound label (kid text) h = ground arith
  entry_error_sound label (ipfs cid) h = (
    ground arith,
    ground arith,
    elim (Bool-cases (starts_with cid (codes "Qm"))) [ inl q ↦ inl q | inr q ↦ inr (ground arith) ],
  )
  entry_error_sound label other h = tt

  entries_error_sound :
      (label : Bytes) (records : List NrsEntry)
      → entries_error k z label records ≡ none
      → (entry : NrsEntry) → Memᴰ entry records
      → IsEntry entry
  unfolding entries_error
  entries_error_sound label [] h entry m = absurd (Memᴰ.not-nil m)
  entries_error_sound label (x ∷ records) h entry (Memᴰ.head q) =
      elim (Option-cases (entry_error k z label x)) [
        | inl fine ↦ subst IsEntry (sym q) (entry_error_sound label x fine)
        | inr (e, bad) ↦ absurd (ground arith)
      ]
  entries_error_sound label (x ∷ records) h entry (Memᴰ.tail m) =
      elim (Option-cases (entry_error k z label x)) [
        | inl fine ↦ entries_error_sound label records (ground arith) entry m
        | inr (e, bad) ↦ absurd (ground arith)
      ]

  pub record IsGroup (label : Bytes) (records : List NrsEntry) : Type 0 where
    pub is_label : IsLabel label
    pub cname_alone : CnameAlone records
    pub entries : (entry : NrsEntry) → Memᴰ entry records → IsEntry entry

  group_error_sound :
      (label : Bytes) (records : List NrsEntry)
      → group_error k z label records ≡ none
      → IsGroup label records
  unfolding group_error
  group_error_sound label records h = elim (Option-cases (label_error label)) [
    | inr (e, x) ↦ absurd (ground arith)
    | inl x ↦ elim (Option-cases (cname_error label records)) [
      | inr (e, y) ↦ absurd (ground arith)
      | inl y ↦ record {
        is_label = label_error_sound label x;
        cname_alone = cname_error_sound label records y;
        entries = entries_error_sound label records (ground arith);
      }
    ]
  ]

  groups_error_sound :
      (zone : NrsZone)
      → groups_error k z zone ≡ none
      → (label : Bytes) (records : List NrsEntry) → Memᴰ (label, records) zone
      → IsGroup label records
  unfolding groups_error
  groups_error_sound [] h label records m = absurd (Memᴰ.not-nil m)
  groups_error_sound ((l, rs) ∷ zone) h label records m =
      elim (Option-cases (group_error k z l rs)) [
        | inr (e, x) ↦ absurd (ground arith)
        | inl x ↦
            at_or_after m (group_error_sound l rs x)
              (groups_error_sound zone (ground arith) label records)
      ]
    where
      at_or_after :
          Memᴰ (label, records) ((l, rs) ∷ zone)
          → IsGroup l rs
          → (Memᴰ (label, records) zone → IsGroup label records)
          → IsGroup label records
      at_or_after (Memᴰ.head q) here after = subst (λ x. IsGroup x.0 x.1) (sym q) here
      at_or_after (Memᴰ.tail n) here after = after n

  -- what `validate` promises
  pub record IsZone (zone : NrsZone) : Type 0 where
    pub few : total_records zone ≤ 50
    pub groups :
        (label : Bytes) (records : List NrsEntry)
        → Memᴰ (label, records) zone
        → IsGroup label records

  validate_zone_sound : (zone : NrsZone) → validate_zone k z zone ≡ none → IsZone zone
  unfolding validate_zone
  validate_zone_sound zone h = record {
    few = ground arith;
    groups = groups_error_sound zone (ground arith);
  }

  checked_zone_sound : (raw zone : NrsZone) → checked_zone k z raw ≡ ok_zone zone → IsZone zone
  unfolding checked_zone
  checked_zone_sound raw zone h = elim (Option-cases (validate_zone k z raw)) [
    | inr (e, x) ↦ absurd (ground arith)
    | inl x ↦
        let end : ok_zone raw ≡ ok_zone zone = ground arith in
        let same : raw ≡ zone = cc end in subst IsZone same (validate_zone_sound raw x)
  ]

  -- A zone that is parsed has at most 50 records; every label is well-formed; a CNAME shares its
  -- label with identity records only; and every record has the form of its type.
  pub parse_zone_sound :
      (p : Platform) (payload : Bytes) (zone : NrsZone)
      → parse_zone k z p payload ≡ ok_zone zone
      → IsZone zone
  unfolding parse_zone
  parse_zone_sound p payload zone h = elim (Option-cases (z.from_slice payload)) [
    | inl x ↦ absurd (ground arith)
    | inr (raw, x) ↦ checked_zone_sound (lower_labels k z p raw []) zone (ground arith)
  ]
