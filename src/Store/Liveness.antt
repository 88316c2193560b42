-- ===== src/Store/Liveness.antt =====
-- Heartbeats and the rate limit (kinetic-network/src/store/handlers.rs).
use mathlib.Core.List.{Memᴰ}
use kinetic.Prelude.{
  any, any→mem, ℕ, ◌≤◌, ◌<◌, ◌≡◌, refl, sym, subst, ap, ◌⊎◌, inl, inr, true, Option, none, some,
  List, ◌++◌, arith, ltb, ◌==◌, if◌then◌else◌, Option-cases, Bool-cases,
}
use kinetic.Prelude.Bytes.{codes, Bytes, bytes_eq, bytes_eq_refl, bytes_eq→≡}
use kinetic.Prelude.Words.{add64}
use kinetic.Prelude.Assoc.{lookup, lookup-insert}
use kinetic.Config.{NetworkConstants, Platform}
use kinetic.Action.{ActionState}
use kinetic.Kid.{Jcs, Document, ControllerKey, key_verifies}
use kinetic.Identity.{AuthorizedManifest, manifest_signable}
use kinetic.Vdf.{Reveal}
use kinetic.Signature.{has_capability, delegated_key_verifies}
use kinetic.NameRecord.{Heartbeat, heartbeat_signable, NameEnvelope, reveal_of}
use kinetic.Store.State.{
  Lru, Serde, StoreState, Outcome, done, failed, state_of, kyn_or, parse_stored, cache_read, serve,
  get_fallback,
}
use kinetic.Store.Handlers.{
  heartbeat_error, delegated_heartbeat_error, record_heartbeat, beat, handle_process_heartbeat,
}
use kinetic.Store.{future_heartbeat, krs_reveal_prefix}

-- the kyn of the last heartbeat of a name, 0 when there was none
unfoldable pub pulse : {C D : Type 0} → Bytes → StoreState C D → ℕ
pulse name s = kyn_or 0 (lookup name s.last_heartbeats_by_name)

module _ (k : NetworkConstants) (p : Platform) (j : Jcs) (a : Option ActionState) where
  -- a valid signature of the owner of the record, or of a "Delegated" key of the document that is
  -- attached to an authorization, which the owner signed and which grants
  -- "kinetic.capability.heartbeat"
  pub record IsDelegatedBeat (hb : Heartbeat) (existing : Reveal) (auth : AuthorizedManifest)
      : Type 0 where
    pub by_owner :
        p.verify_signature existing.pubkey (manifest_signable k j auth) auth.owner_signature ≡ true
    pub capable : has_capability auth.manifest (codes "kinetic.capability.heartbeat") ≡ true
    pub kid_doc : Document
    pub attached : auth.kid_doc ≡ some kid_doc
    pub key : ControllerKey
    pub listed : Memᴰ key kid_doc.controller_keys
    pub key_type : key.key_type ≡ codes "Delegated"
    pub by_delegate :
        key_verifies p key.public_key (heartbeat_signable k hb) hb.owner_signature ≡ true

  pub IsSignedBeat : Heartbeat → Reveal → Option AuthorizedManifest → Type 0
  IsSignedBeat hb existing none =
      p.verify_signature existing.pubkey (heartbeat_signable k hb) hb.owner_signature ≡ true
  IsSignedBeat hb existing (some auth) = IsDelegatedBeat hb existing auth

  delegated-IsDelegatedBeat :
      (hb : Heartbeat) (existing : Reveal) (auth : AuthorizedManifest)
      → delegated_heartbeat_error k p j hb existing auth ≡ none
      → IsDelegatedBeat hb existing auth
  unfolding delegated_heartbeat_error
  delegated-IsDelegatedBeat hb existing auth h = elim (Option-cases auth.kid_doc) [
    | inl q ↦ absurd (ground (arith, h, q))
    | inr (kid_doc, q) ↦
        let test = delegated_key_verifies p (heartbeat_signable k hb) hb.owner_signature in
        let some_key : any test kid_doc.controller_keys ≡ true = ground (arith, h, q) in
        let (key, m, v) = any→mem test kid_doc.controller_keys some_key in
        let v : delegated_key_verifies p (heartbeat_signable k hb) hb.owner_signature key ≡ true =
          v in
        let typed : bytes_eq key.key_type (codes "Delegated") ≡ true =
          unfold delegated_key_verifies in ground (arith, v) in
        record {
          by_owner = ground (arith, h);
          capable = ground (arith, h);
          kid_doc = kid_doc;
          attached = q;
          key = key;
          listed = m;
          key_type = bytes_eq→≡ key.key_type (codes "Delegated") typed;
          by_delegate = unfold delegated_key_verifies in ground (arith, v);
        }
  ]

  heartbeat_error-IsSignedBeat :
      (hb : Heartbeat) (existing : Reveal) (o : Option AuthorizedManifest)
      → heartbeat_error k p j hb existing o ≡ none
      → IsSignedBeat hb existing o
  unfolding heartbeat_error IsSignedBeat
  heartbeat_error-IsSignedBeat hb existing none h = ground (arith, h)
  heartbeat_error-IsSignedBeat hb existing (some auth) h =
      delegated-IsDelegatedBeat hb existing auth h

  module _ {C D : Type 0} (lru : Lru NameEnvelope C) (times : Lru (List ℕ) D) (serde : Serde) where
    cache_read_keeps :
        (name : Bytes) (o : Option NameEnvelope) (s : StoreState C D)
        → ((cache_read lru serde name o s).1.last_heartbeats_by_name ≡ s.last_heartbeats_by_name)
          × ((cache_read lru serde name o s).1.current_kyn ≡ s.current_kyn)
    unfolding cache_read
    cache_read_keeps name none s = (refl, refl)
    cache_read_keeps name (some r) s = (refl, refl)

    serve_keeps :
        (name : Bytes) (o : Option NameEnvelope) (s : StoreState C D)
        → ((serve lru serde name o s).1.last_heartbeats_by_name ≡ s.last_heartbeats_by_name)
          × ((serve lru serde name o s).1.current_kyn ≡ s.current_kyn)
    unfolding serve
    serve_keeps name none s =
        cache_read_keeps name (parse_stored serde (lookup (krs_reveal_prefix ++ name) s.storage)) s
    serve_keeps name (some r) s = (refl, refl)

    pub get_fallback_keeps :
        (name : Bytes) (s : StoreState C D)
        → ((get_fallback lru serde name s).1.last_heartbeats_by_name ≡ s.last_heartbeats_by_name)
          × ((get_fallback lru serde name s).1.current_kyn ≡ s.current_kyn)
    unfolding get_fallback
    get_fallback_keeps name s =
        let (hit, cache) = lru.get name s.reveals_by_name in
        serve_keeps name hit (record s { reveals_by_name = cache })

    pulse-record_heartbeat :
        (hb : Heartbeat) (s : StoreState C D) (name : Bytes)
        → pulse name (record_heartbeat k p j a lru times serde hb s)
          ≡ (if bytes_eq hb.name name then hb.latest_kyn else pulse name s)
    unfolding pulse record_heartbeat
    pulse-record_heartbeat hb s name =
        let found = lookup-insert hb.name name hb.latest_kyn s.last_heartbeats_by_name in
        elim (Bool-cases (bytes_eq hb.name name)) [
          | inl e ↦ unfold kyn_or in ground (arith, found)
          | inr e ↦ unfold kyn_or in ground (arith, found)
        ]

    beat_sound :
        (hb : Heartbeat) (o : Option NameEnvelope) (u t : StoreState C D)
        → beat k p j a lru times serde hb (o, u) ≡ done t
        → (existing : NameEnvelope) × (o ≡ some existing)
          × (heartbeat_error k p j hb (reveal_of existing) hb.authorization ≡ none)
          × (hb.latest_kyn ≤ add64 u.current_kyn 2)
          × (t ≡ record_heartbeat k p j a lru times serde hb u)
    unfolding beat
    beat_sound hb none u t h = absurd (ground arith)
    beat_sound hb (some existing) u t h =
        elim (Option-cases (heartbeat_error k p j hb (reveal_of existing) hb.authorization)) [
          | inr (e, he) ↦ absurd (ground arith)
          | inl he ↦ elim (Bool-cases (ltb (add64 u.current_kyn 2) hb.latest_kyn)) [
            | inl late ↦ absurd (ground arith)
            | inr fine ↦
                let end : done (record_heartbeat k p j a lru times serde hb u) ≡ done t =
                  ground arith in
                (existing, refl, he, ground arith, sym (ap (state_of u) end))
          ]
        ]

    beat_monotone :
        (hb : Heartbeat) (o : Option NameEnvelope) (s u : StoreState C D) (name : Bytes)
        → u.last_heartbeats_by_name ≡ s.last_heartbeats_by_name
        → pulse hb.name s ≤ hb.latest_kyn
        → pulse name s ≤ pulse name (state_of s (beat k p j a lru times serde hb (o, u)))
    unfolding beat
    beat_monotone hb none s u name same h =
        let keep : pulse name u ≡ pulse name s =
          unfold pulse in ap (λ m. kyn_or 0 (lookup name m)) same in
        omega (arith, keep)
    beat_monotone hb (some existing) s u name same h =
        let pulse_of : (n : Bytes) → pulse n u ≡ pulse n s =
          λ n. unfold pulse in ap (λ m. kyn_or 0 (lookup n m)) same in
        let after = pulse-record_heartbeat hb u name in
        let here : bytes_eq hb.name name ≡ true → pulse name s ≤ hb.latest_kyn =
          λ e. subst (λ n. pulse n s ≤ hb.latest_kyn) (bytes_eq→≡ hb.name name e) h in
        let grows : pulse name s ≤ pulse name (record_heartbeat k p j a lru times serde hb u) =
          elim (Bool-cases (bytes_eq hb.name name)) [
            | inl e ↦ ground (arith, after, here e)
            | inr e ↦ ground (arith, after, pulse_of name)
          ] in
        let ends : (x : Outcome C D)
            → beat k p j a lru times serde hb (some existing, u) ≡ x
            → pulse name s ≤ pulse name (state_of s x)
            → pulse name s
              ≤ pulse name (state_of s (beat k p j a lru times serde hb (some existing, u))) =
          λ x e le. subst (λ y. pulse name s ≤ pulse name (state_of s y)) (sym e) le in
        let kept : pulse name s ≤ pulse name u = omega (arith, pulse_of name) in
        elim (Option-cases (heartbeat_error k p j hb (reveal_of existing) hb.authorization)) [
          | inr (e, he) ↦ ends (failed e u) (ground arith) kept
          | inl he ↦ elim (Bool-cases (ltb (add64 u.current_kyn 2) hb.latest_kyn)) [
            | inl late ↦ ends (failed future_heartbeat u) (ground arith) kept
            | inr fine ↦
                ends (done (record_heartbeat k p j a lru times serde hb u)) (ground arith) grows
          ]
        ]

    -- A heartbeat never sets a recorded kyn back: whatever the outcome, the last kyn of every name is
    -- at least what it was.
    pub heartbeat_monotone :
        (hb : Heartbeat) (s : StoreState C D) (name : Bytes)
        → pulse name s
          ≤ pulse name (state_of s (handle_process_heartbeat k p j a lru times serde hb s))
    unfolding handle_process_heartbeat
    heartbeat_monotone hb s name =
        elim (Bool-cases (hb.latest_kyn == kyn_or 0 (lookup hb.name s.last_heartbeats_by_name))) [
          | inl e ↦ rw e (omega arith)
          | inr e ↦
              rw e
                (elim (Bool-cases
                  (ltb hb.latest_kyn (kyn_or 0 (lookup hb.name s.last_heartbeats_by_name)))) [
                    | inl f ↦ rw f (omega arith)
                    | inr f ↦ rw f (
                        let (o, u) = get_fallback lru serde hb.name s in
                        beat_monotone hb o s u name (get_fallback_keeps hb.name s).0
                          (unfold pulse in ground arith))
                  ])
        ]

    -- An accepted heartbeat leaves its own kyn as the last one of its name; unless that was so
    -- before, the name has a record whose owner signed the heartbeat, or a "Delegated" key of the
    -- document attached to an authorization that the owner signed and that grants
    -- "kinetic.capability.heartbeat", and its kyn is at most two ahead of the current one.
    pub heartbeat_accepted :
        (hb : Heartbeat) (s t : StoreState C D)
        → handle_process_heartbeat k p j a lru times serde hb s ≡ done t
        → (pulse hb.name t ≡ hb.latest_kyn)
          × ((pulse hb.name s ≡ hb.latest_kyn)
              ⊎ ((existing : NameEnvelope) × ((get_fallback lru serde hb.name s).0 ≡ some existing)
                  × IsSignedBeat hb (reveal_of existing) hb.authorization
                  × (pulse hb.name s < hb.latest_kyn)
                  × (hb.latest_kyn ≤ add64 s.current_kyn 2)))
    unfolding handle_process_heartbeat
    heartbeat_accepted hb s t h =
        elim (Bool-cases (hb.latest_kyn == kyn_or 0 (lookup hb.name s.last_heartbeats_by_name))) [
          | inl e ↦
              let end : done s ≡ done t = ground arith in
              let same : pulse hb.name s ≡ hb.latest_kyn = unfold pulse in ground arith in
              (subst (λ u. pulse hb.name u ≡ hb.latest_kyn) (ap (state_of s) end) same, inl same)
          | inr e ↦
              let (o, u) = get_fallback lru serde hb.name s in
              let end : beat k p j a lru times serde hb (o, u) ≡ done t = ground arith in
              let (existing, found, signed, near, t_is) = beat_sound hb o u t end in
              let after = pulse-record_heartbeat hb u hb.name in
              let self = bytes_eq_refl hb.name in
              let now = (get_fallback_keeps hb.name s).1 in
              (
                subst (λ v. pulse hb.name v ≡ hb.latest_kyn) (sym t_is)
                    (ground (arith, after, self)),
                inr (
                  existing,
                  found,
                  heartbeat_error-IsSignedBeat hb (reveal_of existing) hb.authorization signed,
                  unfold pulse in ground arith,
                  subst (λ n. hb.latest_kyn ≤ add64 n 2) now near,
                ),
              )
        ]
