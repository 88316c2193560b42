-- ===== src/Resolver/Dotted.antt =====
-- Targets that end with a dot (kinetic-nrs/src/records.rs).
use kinetic.Prelude.{
  ℕ, ◌≡◌, refl, ap, inl, inr, Bool, true, false, not, ◌&&◌, ◌||◌, none, some, List, [], ◌∷◌, ◌++◌,
  any, all, arith, Bool-cases,
}
use kinetic.Prelude.Bytes.{
  Bytes, codes, bytes_eq, bytes_eq→≡, ends_with, ends_with-append, ends_with→append,
}
use kinetic.Config.{NetworkConstants, Platform}
use kinetic.Names.{reserved_names}
use kinetic.Kid.{Jcs}
use kinetic.Zone.{cname}
use kinetic.Resolver.{
  RecordType, cname_answer, Outside, is_blocked_cname, is_unsafe_target, answer_of,
}

-- the end of a text that is not empty is the end of what it ends
ends_with-append_cons :
    (t : Bytes) (c : ℕ) (s : Bytes)
    → ends_with (t ++ c ∷ s) (codes ".") ≡ ends_with (c ∷ s) (codes ".")
unfolding ends_with bytes_eq
ends_with-append_cons [] c s = refl
ends_with-append_cons (d ∷ []) c s = ground arith
ends_with-append_cons (d ∷ x ∷ t) c s = ground (arith, ends_with-append_cons (x ∷ t) c s)

-- a text that ends with a dot is no name that does not, and does not end with such a name
dotted_apart :
    (t name : Bytes)
    → ends_with (codes "." ++ name) (codes ".") ≡ false
    → ends_with name (codes ".") ≡ false
    → (bytes_eq (t ++ codes ".") name || ends_with (t ++ codes ".") (codes "." ++ name)) ≡ false
dotted_apart t name h g =
    let dotted = ends_with-append t (codes ".") in
    elim (Bool-cases (bytes_eq (t ++ codes ".") name)) [
      | inl q ↦
          let same = bytes_eq→≡ (t ++ codes ".") name q in
          absurd (ground (arith, ap (λ s. ends_with s (codes ".")) same, dotted))
      | inr q ↦ elim (Bool-cases (ends_with (t ++ codes ".") (codes "." ++ name))) [
        | inr r ↦ ground arith
        | inl r ↦
            let (before, e) = ends_with→append (t ++ codes ".") (codes "." ++ name) r in
            let end = ends_with-append_cons before b'.' name in
            absurd (ground (arith, ap (λ s. ends_with s (codes ".")) e, dotted, end))
      ]
    ]

-- names that do not end with a dot
undotted : List Bytes → Bool
undotted names =
    all
      (λ name. not (ends_with (codes "." ++ name) (codes ".")) && not (ends_with name (codes ".")))
      names

dotted_apart_all :
    (t : Bytes) (names : List Bytes)
    → undotted names ≡ true
    → any
        (λ name. bytes_eq (t ++ codes ".") name || ends_with (t ++ codes ".") (codes "." ++ name))
        names
      ≡ false
unfolding undotted
dotted_apart_all t [] h = refl
dotted_apart_all t (name ∷ names) h =
    let here = dotted_apart t name (ground arith) (ground arith) in
    let rest = dotted_apart_all t names (unfold undotted in ground arith) in
    ground (arith, here, rest)

reserved_names-undotted : undotted reserved_names ≡ true
unfolding undotted ends_with bytes_eq
reserved_names-undotted = refl

module _ (k : NetworkConstants) (p : Platform) (j : Jcs) (w : Outside) where
  -- A CNAME whose target ends with a dot is answered to every query, whatever name stands before the
  -- dot, when lower-casing keeps the dot, the target is no literal address, and it parses as a name.
  pub dotted_target_passes :
      (q : RecordType) (target lower : Bytes)
      → p.to_lowercase (target ++ codes ".") ≡ lower ++ codes "."
      → w.parse_ip (target ++ codes ".") ≡ none
      → w.is_name (target ++ codes ".") ≡ true
      → answer_of k p j w q (cname (target ++ codes "."))
        ≡ some (cname_answer (target ++ codes "."))
  unfolding answer_of is_blocked_cname is_unsafe_target
  dotted_target_passes q target lower e ip n =
      let free = dotted_apart_all lower reserved_names reserved_names-undotted in
      rw (e, free, ip, n) refl
