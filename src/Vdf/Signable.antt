-- ===== src/Vdf/Signable.antt =====
-- The signed bytes of a reveal determine what they sign (kinetic-types/src/vdf.rs).
use kinetic.Prelude.{
  ℕ, ◌^◌, ◌<◌, ◌≡◌, refl, sym, ap, ◌∙◌, Option, none, some, [], ◌∷◌, ◌++◌, arith, length,
  length-append, append_inj, append_assoc,
}
use kinetic.Prelude.Bytes.{Bytes, codes}
use kinetic.Prelude.Words.{u64_be, u32_be, length-be_bytes, be_bytes_inj}
use kinetic.Config.{NetworkConstants, Platform}
use kinetic.Identity.{field}
use kinetic.Vdf.{
  commitment_data, PreviousProof, previous_body, previous_bytes, Reveal, previous_field,
  reveal_signable,
}

pub prefix_inj : (p a b : Bytes) → p ++ a ≡ p ++ b → a ≡ b
prefix_inj [] a b h = h
prefix_inj (c ∷ p) a b h = prefix_inj p a b (cc h)

pub u64_be_inj :
    (a b : ℕ) {r s : Bytes}
    → a < 2 ^ 64
    → b < 2 ^ 64
    → u64_be a ++ r ≡ u64_be b ++ s
    → (a ≡ b) × (r ≡ s)
u64_be_inj a b ha hb e =
    let (x, y) =
      append_inj (u64_be a) (u64_be b) (length-be_bytes 8 a ∙ sym (length-be_bytes 8 b)) e in
    (be_bytes_inj 8 a b ha hb x, y)

pub field_inj :
    (a b : Bytes) {r s : Bytes}
    → length a < 2 ^ 32
    → length b < 2 ^ 32
    → field a ++ r ≡ field b ++ s
    → (a ≡ b) × (r ≡ s)
field_inj a b {r} {s} ha hb e =
    let e' : u32_be (length a) ++ (a ++ r) ≡ u32_be (length b) ++ (b ++ s) =
      sym (append_assoc (u32_be (length a)) a r)
      ∙ unfold field in e ∙ append_assoc (u32_be (length b)) b s in
    let (x, y) =
      append_inj (u32_be (length a)) (u32_be (length b))
        (length-be_bytes 4 (length a) ∙ sym (length-be_bytes 4 (length b))) e' in
    append_inj a b (be_bytes_inj 4 (length a) (length b) ha hb x) y

-- the sizes that the encoding of a previous proof relies on
pub record IsEncodablePrevious (prev : PreviousProof) : Type 0 where
  pub salt : length prev.salt ≡ 32
  pub kyn : prev.kyn < 2 ^ 64
  pub iterations : prev.iterations < 2 ^ 64
  pub beacon_signature : length prev.beacon_signature < 2 ^ 32
  pub vdf_proof : length prev.vdf_proof < 2 ^ 32
  pub identity_signature : length prev.identity_signature < 2 ^ 32

previous_body_inj :
    (a b : PreviousProof) {r s : Bytes}
    → IsEncodablePrevious a
    → IsEncodablePrevious b
    → previous_body a r ≡ previous_body b s
    → (a.salt ≡ b.salt)
      × (a.kyn ≡ b.kyn)
      × (a.beacon_signature ≡ b.beacon_signature)
      × (a.iterations ≡ b.iterations)
      × (a.vdf_proof ≡ b.vdf_proof)
      × (r ≡ s)
unfolding previous_body
previous_body_inj a b ha hb e =
    let (e1, r1) = append_inj a.salt b.salt (ha.salt ∙ sym hb.salt) e in
    let (e2, r2) = u64_be_inj a.kyn b.kyn ha.kyn hb.kyn r1 in
    let (e3, r3) =
      field_inj a.beacon_signature b.beacon_signature ha.beacon_signature hb.beacon_signature r2 in
    let (e4, r4) = u64_be_inj a.iterations b.iterations ha.iterations hb.iterations r3 in
    let (e5, r5) = field_inj a.vdf_proof b.vdf_proof ha.vdf_proof hb.vdf_proof r4 in
    (e1, e2, e3, e4, e5, r5)

previous_bytes_inj :
    (k : NetworkConstants) (a b : PreviousProof)
    → IsEncodablePrevious a
    → IsEncodablePrevious b
    → previous_bytes k a ≡ previous_bytes k b
    → a ≡ b
unfolding previous_bytes
previous_bytes_inj k a b ha hb e =
    let e' =
      prefix_inj (codes "vdf-prev-proof-v1") (previous_body a (field a.identity_signature))
        (previous_body b (field b.identity_signature)) (prefix_inj k.network_salt _ _ e) in
    let (e1, e2, e3, e4, e5, r) = previous_body_inj a b ha hb e' in
    let r' : field a.identity_signature ++ [] ≡ field b.identity_signature ++ [] =
      ap (λ x. x ++ []) r in
    let e6 =
      (field_inj a.identity_signature b.identity_signature ha.identity_signature
        hb.identity_signature r').0 in
    ground arith

-- the sizes that the encoding of a reveal relies on
pub record IsEncodable (k : NetworkConstants) (r : Reveal) : Type 0 where
  pub name : length r.name < 2 ^ 32
  pub embedded_nrs : length r.embedded_nrs < 2 ^ 32
  pub salt : length r.salt ≡ 32
  pub kyn : r.kyn < 2 ^ 64
  pub beacon_signature : length r.beacon_signature < 2 ^ 32
  pub iterations : r.iterations < 2 ^ 64
  pub vdf_proof : length r.vdf_proof < 2 ^ 32
  pub pubkey : length r.pubkey < 2 ^ 32
  pub previous : (prev : PreviousProof) → r.previous_proof ≡ some prev → IsEncodablePrevious prev
  pub previous_size :
      (prev : PreviousProof)
      → r.previous_proof ≡ some prev
      → length (previous_bytes k prev) < 2 ^ 32

previous_field_inj :
    (k : NetworkConstants) (a b : Option PreviousProof)
    → ((prev : PreviousProof)
        → a ≡ some prev
        → IsEncodablePrevious prev × (length (previous_bytes k prev) < 2 ^ 32))
    → ((prev : PreviousProof)
        → b ≡ some prev
        → IsEncodablePrevious prev × (length (previous_bytes k prev) < 2 ^ 32))
    → previous_field k a ≡ previous_field k b
    → a ≡ b
unfolding previous_field
previous_field_inj k none none ha hb e = refl
previous_field_inj k none (some y) ha hb e = cc
previous_field_inj k (some x) none ha hb e = cc
previous_field_inj k (some x) (some y) ha hb e =
    let (ex, lx) = ha x refl in
    let (ey, ly) = hb y refl in
    let f : field (previous_bytes k x) ≡ field (previous_bytes k y) = cc e in
    let f' : field (previous_bytes k x) ++ [] ≡ field (previous_bytes k y) ++ [] =
      ap (λ l. l ++ []) f in
    ap some (
      previous_bytes_inj k x y ex ey
        (field_inj (previous_bytes k x) (previous_bytes k y) lx ly f').0)

-- everything that a signature of a reveal covers
pub record SameSigned (a b : Reveal) : Type 0 where
  pub protocol_version : a.protocol_version ≡ b.protocol_version
  pub name : a.name ≡ b.name
  pub embedded_nrs : a.embedded_nrs ≡ b.embedded_nrs
  pub salt : a.salt ≡ b.salt
  pub kyn : a.kyn ≡ b.kyn
  pub beacon_signature : a.beacon_signature ≡ b.beacon_signature
  pub iterations : a.iterations ≡ b.iterations
  pub vdf_proof : a.vdf_proof ≡ b.vdf_proof
  pub pubkey : a.pubkey ≡ b.pubkey
  pub previous_proof : a.previous_proof ≡ b.previous_proof

-- Two reveals of the encodable sizes with the same signed bytes agree in every field but the
-- signature and the authorization: no two registrations share a signed text.
pub reveal_signable_inj :
    (k : NetworkConstants) (a b : Reveal)
    → IsEncodable k a
    → IsEncodable k b
    → reveal_signable k a ≡ reveal_signable k b
    → SameSigned a b
unfolding reveal_signable
reveal_signable_inj k a b ha hb e =
    let e0 = prefix_inj (codes "vdf-reveal-v1") _ _ (prefix_inj k.network_salt _ _ e) in
    let (v, r0) = append_inj (a.protocol_version ∷ []) (b.protocol_version ∷ []) refl e0 in
    let (e1, r1) = field_inj a.name b.name ha.name hb.name r0 in
    let (e2, r2) = field_inj a.embedded_nrs b.embedded_nrs ha.embedded_nrs hb.embedded_nrs r1 in
    let (e3, r3) = append_inj a.salt b.salt (ha.salt ∙ sym hb.salt) r2 in
    let (e4, r4) = u64_be_inj a.kyn b.kyn ha.kyn hb.kyn r3 in
    let (e5, r5) =
      field_inj a.beacon_signature b.beacon_signature ha.beacon_signature hb.beacon_signature r4 in
    let (e6, r6) = u64_be_inj a.iterations b.iterations ha.iterations hb.iterations r5 in
    let (e7, r7) = field_inj a.vdf_proof b.vdf_proof ha.vdf_proof hb.vdf_proof r6 in
    let (e8, r8) = field_inj a.pubkey b.pubkey ha.pubkey hb.pubkey r7 in
    record {
      protocol_version = cc v;
      name = e1;
      embedded_nrs = e2;
      salt = e3;
      kyn = e4;
      beacon_signature = e5;
      iterations = e6;
      vdf_proof = e7;
      pubkey = e8;
      previous_proof =
          previous_field_inj k a.previous_proof b.previous_proof
            (λ prev h. (ha.previous prev h, ha.previous_size prev h))
            (λ prev h. (hb.previous prev h, hb.previous_size prev h)) r8;
    }

-- The challenge binds its parts: for salts of 32 bytes, hashes of equal length and keys of equal
-- length, two commitments hash the same data only for the same name, salt, beacon hash and key.
pub commitment_data_inj :
    (p : Platform) (network_salt name name' salt salt' beacon beacon' key key' : Bytes)
    → length salt ≡ 32
    → length salt' ≡ 32
    → length (p.sha256 beacon) ≡ length (p.sha256 beacon')
    → length key ≡ length key'
    → commitment_data p network_salt name salt beacon key
      ≡ commitment_data p network_salt name' salt' beacon' key'
    → (name ≡ name') × (salt ≡ salt') × (p.sha256 beacon ≡ p.sha256 beacon') × (key ≡ key')
unfolding commitment_data
commitment_data_inj p n name name' salt salt' beacon beacon' key key' hs hs' hb hk e =
    let e0 = prefix_inj n _ _ e in
    let rest = salt ++ (p.sha256 beacon ++ key) in
    let rest' = salt' ++ (p.sha256 beacon' ++ key') in
    let tails : length rest ≡ length rest' = omega (
      arith,
      length-append {0} salt (p.sha256 beacon ++ key),
      length-append {0} salt' (p.sha256 beacon' ++ key'),
      length-append {0} (p.sha256 beacon) key,
      length-append {0} (p.sha256 beacon') key',
    ) in
    let heads : length name ≡ length name' =
      omega (arith, ap length e0, length-append {0} name rest, length-append {0} name' rest') in
    let (e1, r1) = append_inj name name' heads e0 in
    let (e2, r2) = append_inj salt salt' (hs ∙ sym hs') r1 in
    let (e3, r3) = append_inj (p.sha256 beacon) (p.sha256 beacon') hb r2 in (e1, e2, e3, r3)
