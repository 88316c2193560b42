-- ===== src/Examples/Storing.antt =====
-- The record store.
use kinetic.Prelude.{
  ◌+◌, ◌++◌, length, ℕ, ◌<◌, ◌≤◌, ◌≡◌, ◌⊎◌, refl, Bool, true, false, Option, none, some, List, [],
  ◌∷◌, arith,
}
use kinetic.Prelude.Bytes.{Bytes, codes, bytes_eq_refl}
use kinetic.Prelude.Words.{add64}
use kinetic.Prelude.Assoc.{Assoc, lookup, insert, contains_key, lookup-insert}
use kinetic.Config.{kin_network, toy_platform}
use kinetic.Kyn.{to_ukyn}
use kinetic.Kid.{Document}
use kinetic.Kid.DocumentCheck.{verify}
use kinetic.Kid.ManifestCheck.{verify_at_time}
use kinetic.Identity.{AuthorizedKid, AuthorizedManifest, kid_signable}
use kinetic.Vdf.{Reveal}
use kinetic.NameRecord.{Heartbeat, NameEnvelope, standard, reveal_of}
use kinetic.Store.{tie_broken, stale_reveal}
use kinetic.Store.RevealCheck.{effective_age, verify_reveal}
use kinetic.Store.IdentityCheck.{
  Existing, absent, present, verify_authorized_kid, verify_authorized_manifest,
}
use kinetic.Store.State.{
  failed, Lru, Serde, StoreState, Outcome, done, state_of, surroundings_of, get_fallback,
}
use kinetic.Store.Conflict.{distance, bytes_gt, takeover_error}
use kinetic.Store.Handlers.{
  heartbeat_error, limit_and_store, handle_put_record, handle_process_heartbeat,
}
use kinetic.Store.Identities.{IsChained, verify_authorized_kid_sound}
use kinetic.Store.Liveness.{IsSignedBeat, pulse, heartbeat_monotone, heartbeat_accepted}
use kinetic.Store.RateLimit.{recent, rate_limit_holds}
use kinetic.Store.Ownership.{Admitted, handle_put_record_sound}
use kinetic.Examples.{toy_jcs, toy_document, toy_manifest, toy_reveal}

-- a cache without a limit
abbrev pub map_cache : (V : Type 0) → Lru V (Assoc V)
map_cache V = record {
  contains = contains_key;
  get = λ name c. (lookup name c, c);
  push = λ name v c. (insert name v c, none);
  write = insert;
}

abbrev pub no_serde : Serde
no_serde = record { parse_envelope = λ b. none; print_envelope = λ r. none }

abbrev ToyState : Type 0
ToyState = StoreState (Assoc NameEnvelope) (Assoc (List ℕ))

-- the name is held, and was last heard of at kyn 4990
abbrev held_reveal : Reveal
held_reveal = record toy_reveal { pubkey = 7 ∷ []; embedded_nrs = [] }

abbrev held : ToyState
held = record {
  storage = [];
  reveals_by_name = (codes "kinetic.kin", standard held_reveal) ∷ [];
  last_heartbeats_by_name = (codes "kinetic.kin", 4990) ∷ [];
  accepted_reveals_timestamps = [];
  current_kyn = 5000;
  max_reveals_per_hour = 10;
  pending = [];
}

-- a later reveal of the same owner
abbrev renewed : NameEnvelope
renewed = standard (record toy_reveal { pubkey = 7 ∷ []; kyn = 5001 })

abbrev put : NameEnvelope → ToyState → Outcome (Assoc NameEnvelope) (Assoc (List ℕ))
put r s =
    handle_put_record kin_network toy_platform toy_jcs none (map_cache NameEnvelope)
      (map_cache (List ℕ)) no_serde 100 r true s

abbrev updated_store : ToyState
updated_store = state_of held (put renewed held)

renewed-accepted : put renewed held ≡ done updated_store
unfolding handle_put_record effective_age kinetic.Store.RevealCheck.paused_since
    kinetic.Store.Handlers.reveal_error kinetic.Store.Handlers.resolve get_fallback
    kinetic.Store.State.serve lookup kinetic.Prelude.Bytes.bytes_eq kinetic.Store.Handlers.put_over
    kinetic.Store.Conflict.renewal kinetic.Store.Conflict.signature_error
    kinetic.Store.Conflict.hierarchy kinetic.Store.Handlers.limit_and_store
    kinetic.Store.Handlers.open_queue contains_key insert kinetic.Store.Handlers.drop_old
renewed-accepted = refl

handle_put_record_sound_example :
    (effective_age none held.current_kyn (reveal_of renewed).kyn ≤ 5256000)
    × ((true ≡ true)
        ⊎ (verify_reveal kin_network toy_platform toy_jcs
              (surroundings_of none held)
              (reveal_of renewed)
              held.current_kyn
            ≡ none))
    × Admitted kin_network toy_platform toy_jcs none
        (map_cache NameEnvelope)
        (map_cache (List ℕ))
        no_serde
        true
        (reveal_of renewed)
        (get_fallback (map_cache NameEnvelope) no_serde (reveal_of renewed).name held).0
        (get_fallback (map_cache NameEnvelope) no_serde (reveal_of renewed).name held).1
handle_put_record_sound_example =
    handle_put_record_sound kin_network toy_platform toy_jcs none (map_cache NameEnvelope)
      (map_cache (List ℕ)) no_serde 100 renewed true held updated_store renewed-accepted

cache-reads :
    (name : Bytes) (q : List ℕ) (d : Assoc (List ℕ))
    → ((map_cache (List ℕ)).get name ((map_cache (List ℕ)).write name q d)).0 ≡ some q
cache-reads name q d = ground (arith, lookup-insert name name q d, bytes_eq_refl name)

abbrev limit : ToyState → Outcome (Assoc NameEnvelope) (Assoc (List ℕ))
limit s =
    limit_and_store kin_network toy_platform toy_jcs none (map_cache NameEnvelope)
      (map_cache (List ℕ)) no_serde 100 renewed s

-- the store, with two acceptances of the name
abbrev busy : ToyState
busy = record held { accepted_reveals_timestamps = (codes "kinetic.kin", 40 ∷ 70 ∷ []) ∷ [] }

abbrev busier : ToyState
busier = state_of busy (limit busy)

busy-accepts : limit busy ≡ done busier
unfolding limit_and_store kinetic.Store.Handlers.open_queue kinetic.Store.Handlers.drop_old
    contains_key lookup insert kinetic.Prelude.Bytes.bytes_eq
busy-accepts = refl

busy-held : lookup (codes "kinetic.kin") busy.accepted_reveals_timestamps ≡ some (40 ∷ 70 ∷ [])
unfolding lookup kinetic.Prelude.Bytes.bytes_eq
busy-held = refl

busy-contains : contains_key (codes "kinetic.kin") busy.accepted_reveals_timestamps ≡ true
unfolding contains_key lookup kinetic.Prelude.Bytes.bytes_eq
busy-contains = refl

rate_limit_holds_example :
    (recent 100 (40 ∷ 70 ∷ []) + 1 ≤ busy.max_reveals_per_hour)
    × (earlier : List ℕ) × (((map_cache (List ℕ)).get
          (reveal_of renewed).name
          busier.accepted_reveals_timestamps).0
        ≡ some (earlier ++ 100 ∷ []))
    × (recent 100 earlier ≡ recent 100 (40 ∷ 70 ∷ []))
    × (length (earlier ++ 100 ∷ []) ≤ busy.max_reveals_per_hour)
rate_limit_holds_example =
    rate_limit_holds kin_network toy_platform toy_jcs none (map_cache NameEnvelope)
      (map_cache (List ℕ)) no_serde 100 renewed (40 ∷ 70 ∷ []) busy busier cache-reads busy-contains
      busy-held busy-accepts

-- a reveal that is older than the stored one
abbrev replayed : NameEnvelope
replayed = standard (record toy_reveal { pubkey = 7 ∷ []; kyn = 4000 })

abbrev after_replay : ToyState
after_replay = state_of held (put replayed held)

replayed-refused : put replayed held ≡ failed stale_reveal after_replay
unfolding handle_put_record effective_age kinetic.Store.RevealCheck.paused_since
    kinetic.Store.Handlers.reveal_error kinetic.Store.Handlers.resolve get_fallback
    kinetic.Store.State.serve lookup kinetic.Prelude.Bytes.bytes_eq kinetic.Store.Handlers.put_over
    kinetic.Store.Conflict.renewal kinetic.Store.Conflict.signature_error
    kinetic.Store.Conflict.hierarchy kinetic.Store.Handlers.limit_and_store
    kinetic.Store.Handlers.open_queue contains_key insert kinetic.Store.Handlers.drop_old
replayed-refused = refl

abbrev next_heartbeat : Heartbeat
next_heartbeat = record {
  name = codes "kinetic.kin";
  latest_kyn = 5001;
  owner_signature = 1 ∷ [];
  authorization = none;
}

abbrev beat : ToyState → Outcome (Assoc NameEnvelope) (Assoc (List ℕ))
beat s =
    handle_process_heartbeat kin_network toy_platform toy_jcs none (map_cache NameEnvelope)
      (map_cache (List ℕ)) no_serde next_heartbeat s

heartbeat_monotone_example :
    pulse (codes "kinetic.kin") held ≤ pulse (codes "kinetic.kin") (state_of held (beat held))
heartbeat_monotone_example =
    heartbeat_monotone kin_network toy_platform toy_jcs none (map_cache NameEnvelope)
      (map_cache (List ℕ)) no_serde next_heartbeat held (codes "kinetic.kin")

abbrev beaten : ToyState
beaten = state_of held (beat held)

beat-accepted : beat held ≡ done beaten
unfolding handle_process_heartbeat kinetic.Store.State.kyn_or lookup kinetic.Prelude.Bytes.bytes_eq
    kinetic.Store.Handlers.beat get_fallback kinetic.Store.State.serve heartbeat_error
beat-accepted = refl

heartbeat_accepted_example :
    (pulse next_heartbeat.name beaten ≡ next_heartbeat.latest_kyn)
    × ((pulse next_heartbeat.name held ≡ next_heartbeat.latest_kyn)
        ⊎ ((existing : NameEnvelope) × ((get_fallback
                (map_cache NameEnvelope)
                no_serde
                next_heartbeat.name
                held).0
              ≡ some existing)
            × IsSignedBeat kin_network toy_platform toy_jcs none next_heartbeat
                (reveal_of existing)
                next_heartbeat.authorization
            × (pulse next_heartbeat.name held < next_heartbeat.latest_kyn)
            × (next_heartbeat.latest_kyn ≤ add64 held.current_kyn 2)))
heartbeat_accepted_example =
    heartbeat_accepted kin_network toy_platform toy_jcs none (map_cache NameEnvelope)
      (map_cache (List ℕ)) no_serde next_heartbeat held beaten beat-accepted

abbrev near : Reveal
near = record toy_reveal { pubkey = 1 ∷ []; vdf_proof = 0 ∷ [] }

abbrev far : Reveal
far = record toy_reveal { pubkey = 9 ∷ []; vdf_proof = 0 ∷ [] }

far-loses : takeover_error kin_network toy_platform near far 5 ≡ some tie_broken
unfolding takeover_error bytes_gt distance kinetic.Store.Conflict.distance_from
far-loses = refl

-- another reveal of the same distance
abbrev near_twin : Reveal
near_twin = record toy_reveal { pubkey = 3 ∷ []; vdf_proof = 2 ∷ [] }

near-yields : takeover_error kin_network toy_platform near near_twin 5 ≡ none
unfolding takeover_error bytes_gt distance kinetic.Store.Conflict.distance_from
near-yields = refl

near_twin-yields : takeover_error kin_network toy_platform near_twin near 5 ≡ none
unfolding takeover_error bytes_gt distance kinetic.Store.Conflict.distance_from
near_twin-yields = refl

abbrev published : AuthorizedKid
published = record { name = codes "kinetic.kin"; kid_doc = toy_document; owner_signature = 1 ∷ [] }

published-accepted :
    verify_authorized_kid kin_network toy_platform toy_jcs published
      (some (standard toy_reveal))
      (present published)
    ≡ none
unfolding verify_authorized_kid kinetic.Store.RevealCheck.is_none verify
    kinetic.Kid.DocumentCheck.check_limits kinetic.Kid.DocumentCheck.key_too_long
    kinetic.Kid.DocumentCheck.check_pointer kinetic.Kid.DocumentCheck.verify_envelope
    kinetic.Kid.DocumentCheck.open_envelope kinetic.Kid.DocumentCheck.own_key_verifies
    kinetic.Kid.canonicalize_document kinetic.Kid.controller_verifies
    kinetic.Kid.eq_ignore_ascii_case kinetic.Prelude.Bytes.bytes_eq kinetic.Kid.key_verifies
    kinetic.Store.IdentityCheck.check_chain kinetic.Kid.DocumentCheck.is_authorized
    kinetic.Kid.DocumentCheck.prior_key_verifies
published-accepted = refl

verify_authorized_kid_sound_example :
    (record_of : NameEnvelope) × (some (standard toy_reveal) ≡ some record_of)
    × (toy_platform.verify_signature
          (reveal_of record_of).pubkey
          (kid_signable kin_network toy_jcs published)
          published.owner_signature
        ≡ true)
    × (verify kin_network toy_platform toy_jcs published.kid_doc ≡ none)
    × IsChained kin_network toy_platform toy_jcs published.kid_doc (present published)
verify_authorized_kid_sound_example =
    verify_authorized_kid_sound kin_network toy_platform toy_jcs published
      (some (standard toy_reveal)) (present published) published-accepted

abbrev first_manifest : AuthorizedManifest
first_manifest = record {
  name = codes "kinetic.kin";
  manifest = toy_manifest;
  kid_doc = some toy_document;
  owner_signature = 1 ∷ [];
}

abbrev second_manifest : AuthorizedManifest
second_manifest = record first_manifest { manifest = record toy_manifest { version = 2 } }

second_manifest-accepted :
    verify_authorized_manifest kin_network toy_platform toy_jcs second_manifest
      (some (standard toy_reveal))
      (present first_manifest)
      5000
    ≡ none
unfolding verify_authorized_manifest kinetic.Store.IdentityCheck.check_attached
    kinetic.Store.IdentityCheck.check_version kinetic.Store.RevealCheck.is_none verify
    kinetic.Kid.DocumentCheck.check_limits kinetic.Kid.DocumentCheck.key_too_long
    kinetic.Kid.DocumentCheck.check_pointer kinetic.Kid.DocumentCheck.verify_envelope
    kinetic.Kid.DocumentCheck.open_envelope kinetic.Kid.DocumentCheck.own_key_verifies
    kinetic.Kid.canonicalize_document kinetic.Kid.controller_verifies
    kinetic.Kid.eq_ignore_ascii_case kinetic.Prelude.Bytes.bytes_eq kinetic.Kid.key_verifies
    verify_at_time kinetic.Kid.ManifestCheck.is_expired kinetic.Kid.ManifestCheck.service_too_long
    kinetic.Kid.ManifestCheck.verify_signed kinetic.Kid.canonicalize_manifest to_ukyn
second_manifest-accepted = refl
