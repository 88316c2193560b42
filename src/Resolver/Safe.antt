-- ===== src/Resolver/Safe.antt =====
-- Where an answer of the DNS server may point (kinetic-nrs/src/records.rs).
use mathlib.Core.List.{Memᴰ}
use mathlib.Core.List.Memᴰ
use kinetic.Prelude.{
  ◌≢◌, ◌||◌, any, mem→any, ◌≡◌, sym, subst, inl, inr, Bool, true, false, not, ◌&&◌, none, some,
  List, [], ◌∷◌, ◌++◌, arith, Bool-cases, Option-cases,
}
use kinetic.Prelude.Bytes.{Bytes, codes, bytes_eq, bytes_eq_refl, ends_with}
use kinetic.Names.{reserved_names}
use kinetic.Config.{NetworkConstants, Platform}
use kinetic.Kid.{Jcs}
use kinetic.Net.{Ipv4Addr, Ipv6Addr, IpAddr, v4, v6, validate_ssrf_safe}
use kinetic.Zone.{NrsEntry, a, aaaa, cname, txt, peer_id, kid, ipfs, other, is_cname}
use kinetic.Resolver.{
  RecordType, a_type, aaaa_type, txt_type, any_type, other_type, Answer, a_answer, aaaa_answer,
  cname_answer, txt_answer, Outside, is_safe, text_answer, wants_text, is_blocked_cname,
  is_unsafe_target, a_record, aaaa_record, answer_of, answers_of,
}

is_safe_sound : (ip : IpAddr) → is_safe ip ≡ true → validate_ssrf_safe ip ≡ none
unfolding is_safe
is_safe_sound ip h = elim (Option-cases (validate_ssrf_safe ip)) [
  | inl q ↦ q
  | inr (e, q) ↦ absurd (ground arith)
]

module _ (k : NetworkConstants) (p : Platform) (j : Jcs) (w : Outside) where
  -- addresses are safe; a CNAME in lower case is, byte for byte, no reserved name and nothing that
  -- ends with a dot and a reserved name, and it is no unsafe address
  pub Points : Answer → Type 0
  Points (a_answer ip) = validate_ssrf_safe (v4 ip) ≡ none
  Points (aaaa_answer ip) = validate_ssrf_safe (v6 ip) ≡ none
  Points (cname_answer target) =
      ((name : Bytes)
        → Memᴰ name reserved_names
        → (p.to_lowercase target ≢ name)
          × (ends_with (p.to_lowercase target) (codes "." ++ name) ≡ false))
      × ((ip : IpAddr) → w.parse_ip target ≡ some ip → validate_ssrf_safe ip ≡ none)
  Points (txt_answer text) = Unit {0}

  unblocked_sound :
      (target name : Bytes)
      → is_blocked_cname k p j w target ≡ false
      → Memᴰ name reserved_names
      → (p.to_lowercase target ≢ name)
        × (ends_with (p.to_lowercase target) (codes "." ++ name) ≡ false)
  unfolding is_blocked_cname
  unblocked_sound target name h m =
      let lower = p.to_lowercase target in
      let test = λ (n : Bytes). bytes_eq lower n || ends_with lower (codes "." ++ n) in
      let all_fail : any test reserved_names ≡ false = h in
      elim (Bool-cases (bytes_eq lower name || ends_with lower (codes "." ++ name))) [
        | inl hit ↦ absurd (ground (arith, all_fail, mem→any test m hit))
        | inr miss ↦ (
          λ same.
              let equal : bytes_eq lower name ≡ true =
                subst (λ n. bytes_eq lower n ≡ true) same (bytes_eq_refl lower) in
              absurd (ground (arith, miss, equal)),
          ground (arith, miss),
        )
      ]

  a_record-Points :
      (q : RecordType) (ip : Ipv4Addr) (x : Answer) → a_record k p j w q ip ≡ some x → Points x
  unfolding a_record Points
  a_record-Points a_type ip x h = elim (Bool-cases (is_safe (v4 ip))) [
    | inl s ↦
        let end : some (a_answer ip) ≡ some x = ground arith in
        let same : a_answer ip ≡ x = cc end in subst Points same (is_safe_sound (v4 ip) s)
    | inr s ↦ absurd (ground arith)
  ]
  a_record-Points aaaa_type ip x h = absurd (ground arith)
  a_record-Points txt_type ip x h = absurd (ground arith)
  a_record-Points any_type ip x h = absurd (ground arith)
  a_record-Points other_type ip x h = absurd (ground arith)

  aaaa_record-Points :
      (q : RecordType) (ip : Ipv6Addr) (x : Answer) → aaaa_record k p j w q ip ≡ some x → Points x
  unfolding aaaa_record Points
  aaaa_record-Points aaaa_type ip x h = elim (Bool-cases (is_safe (v6 ip))) [
    | inl s ↦
        let end : some (aaaa_answer ip) ≡ some x = ground arith in
        let same : aaaa_answer ip ≡ x = cc end in subst Points same (is_safe_sound (v6 ip) s)
    | inr s ↦ absurd (ground arith)
  ]
  aaaa_record-Points a_type ip x h = absurd (ground arith)
  aaaa_record-Points txt_type ip x h = absurd (ground arith)
  aaaa_record-Points any_type ip x h = absurd (ground arith)
  aaaa_record-Points other_type ip x h = absurd (ground arith)

  text-Points :
      (q : RecordType) (text : Bytes) (x : Answer) → text_answer q text ≡ some x → Points x
  unfolding text_answer Points
  text-Points q text x h = elim (Bool-cases (wants_text q)) [
    | inl s ↦
        let end : some (txt_answer text) ≡ some x = ground arith in
        let same : txt_answer text ≡ x = cc end in subst Points same tt
    | inr s ↦ absurd (ground arith)
  ]

  cname-Points :
      (q : RecordType) (target : Bytes) (x : Answer)
      → answer_of k p j w q (cname target) ≡ some x
      → Points x
  unfolding answer_of Points
  cname-Points q target x h = elim (Bool-cases (is_blocked_cname k p j w target)) [
    | inl b ↦ absurd (ground arith)
    | inr b ↦ elim (Bool-cases (is_unsafe_target k p j w (w.parse_ip target))) [
      | inl u ↦ absurd (ground arith)
      | inr u ↦ elim (Bool-cases (w.is_name target)) [
        | inr n ↦ absurd (ground arith)
        | inl n ↦
            let end : some (cname_answer target) ≡ some x = ground arith in
            let same : cname_answer target ≡ x = cc end in
            let fine : (ip : IpAddr) → w.parse_ip target ≡ some ip → validate_ssrf_safe ip ≡ none =
              λ ip e. is_safe_sound ip (unfold is_unsafe_target in ground (arith, e, u)) in
            subst Points same ((λ name m. unblocked_sound target name b m), fine)
      ]
    ]
  ]

  answer-Points :
      (q : RecordType) (entry : NrsEntry) (x : Answer)
      → answer_of k p j w q entry ≡ some x
      → Points x
  answer-Points q (a ip) x h = a_record-Points q ip x (unfold answer_of in h)
  answer-Points q (aaaa ip) x h = aaaa_record-Points q ip x (unfold answer_of in h)
  answer-Points q (cname target) x h = cname-Points q target x h
  answer-Points q (txt text) x h = text-Points q text x (unfold answer_of in h)
  answer-Points q (peer_id text) x h =
      text-Points q (codes "peerid=" ++ text) x (unfold answer_of in h)
  answer-Points q (kid text) x h = text-Points q (codes "kid=" ++ text) x (unfold answer_of in h)
  answer-Points q (ipfs text) x h = text-Points q (codes "ipfs=" ++ text) x (unfold answer_of in h)
  answer-Points q other x h = absurd (unfold answer_of in ground arith)

  first_or_rest :
      (x y : Answer) (xs : List Answer)
      → Memᴰ x (y ∷ xs)
      → Points y
      → (Memᴰ x xs → Points x)
      → Points x
  first_or_rest x y xs (Memᴰ.head q) here later = subst Points (sym q) here
  first_or_rest x y xs (Memᴰ.tail m) here later = later m

  pub answers-Points :
      (q : RecordType) (has_cname : Bool) (records : List NrsEntry) (x : Answer)
      → Memᴰ x (answers_of k p j w q has_cname records)
      → Points x
  unfolding answers_of
  answers-Points q has_cname [] x m = absurd (Memᴰ.not-nil m)
  answers-Points q has_cname (entry ∷ records) x m =
      elim (Bool-cases (has_cname && not (is_cname entry))) [
        | inl s ↦ answers-Points q has_cname records x (rw s at m)
        | inr s ↦ elim (Option-cases (answer_of k p j w q entry)) [
          | inl e ↦ answers-Points q has_cname records x (rw (s, e) at m)
          | inr (y, e) ↦
              first_or_rest x y _ (rw (s, e) at m) (answer-Points q entry y e)
                (answers-Points q has_cname records x)
        ]
      ]
