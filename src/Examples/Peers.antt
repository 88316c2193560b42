-- ===== src/Examples/Peers.antt =====
-- A registry of two peers.
use mathlib.Core.List.{Memᴰ}
use kinetic.Prelude.{
  ℕ, ◌≡◌, ◌⊎◌, refl, ◌∙◌, inl, inr, Bool, true, false, none, some, List, [], ◌∷◌, arith, ◌&&◌,
  if◌then◌else◌, Bool-cases, ap, sym, subst,
}
use kinetic.Prelude.Bytes.{Bytes, bytes_eq, bytes_eq→≡}
use kinetic.Prelude.Assoc.{lookup}
use kinetic.Net.{Ipv4Addr, validate_v6, ipv6_mapped_exploit}
use kinetic.Store.State.{Lru}
use kinetic.PeerRegistry.{
  Protocol, ip4, ip6, other, Multiaddr, is_public_addr, RegistryEnv, loaded, new, from_bytes,
  to_bytes,
}
use kinetic.PeerRegistry.Public.{
  mapped, mapped_private_public, Operation, adding, connecting, KeepsEntries, run, IsPublic,
  run-new-IsPublic,
}
use kinetic.PeerRegistry.Reload.{
  Entry, reverse_onto, LruLaws, IsReadable, IsPeers, from_bytes-to_bytes,
}

abbrev home : Ipv4Addr
home = record { o0 = 10; o1 = 0; o2 = 0; o3 = 1 }

abbrev far : Ipv4Addr
far = record { o0 = 8; o1 = 8; o2 = 4; o3 = 4 }

mapped_private_public_example :
    (is_public_addr (ip6 (mapped home) ∷ other (6 ∷ []) ∷ []) ≡ true)
    × (validate_v6 (mapped home) ≡ some ipv6_mapped_exploit)
mapped_private_public_example = mapped_private_public home (6 ∷ []) (omega arith) (omega arith) refl

-- a cache that is a capacity and a list, as long as no entry is replaced or evicted
abbrev Cache : Type 0
Cache = ℕ × List Entry

abbrev list_lru : Lru (List Multiaddr) Cache
list_lru = record {
  contains = λ peer c. false;
  get = λ peer c. (lookup peer c.1, c);
  push = λ peer addrs c. ((c.0, (peer, addrs) ∷ c.1), none);
  write = λ peer addrs c. c;
}

abbrev one_addr : Multiaddr
one_addr = ip4 far ∷ []

abbrev two_peers : List Entry
two_peers = (1 ∷ [], one_addr ∷ []) ∷ (2 ∷ [], one_addr ∷ []) ∷ []

abbrev printed : List (Bytes × List Bytes)
printed = (1 ∷ [], (3 ∷ []) ∷ []) ∷ (2 ∷ [], (3 ∷ []) ∷ []) ∷ []

same_addrs : List Bytes → List Bytes → Bool
same_addrs [] [] = true
same_addrs [] (y ∷ ys) = false
same_addrs (x ∷ xs) [] = false
same_addrs (x ∷ xs) (y ∷ ys) = bytes_eq x y && same_addrs xs ys

same_peers : List (Bytes × List Bytes) → List (Bytes × List Bytes) → Bool
same_peers [] [] = true
same_peers [] (y ∷ ys) = false
same_peers (x ∷ xs) [] = false
same_peers (x ∷ xs) (y ∷ ys) = bytes_eq x.0 y.0 && (same_addrs x.1 y.1 && same_peers xs ys)

same_addrs→≡ : (xs ys : List Bytes) → same_addrs xs ys ≡ true → xs ≡ ys
unfolding same_addrs
same_addrs→≡ [] [] h = refl
same_addrs→≡ [] (y ∷ ys) h = absurd (ground arith)
same_addrs→≡ (x ∷ xs) [] h = absurd (ground arith)
same_addrs→≡ (x ∷ xs) (y ∷ ys) h = ground (arith, h, bytes_eq→≡ x y, same_addrs→≡ xs ys)

same_peers→≡ : (xs ys : List (Bytes × List Bytes)) → same_peers xs ys ≡ true → xs ≡ ys
unfolding same_peers
same_peers→≡ [] [] h = refl
same_peers→≡ [] (y ∷ ys) h = absurd (ground arith)
same_peers→≡ (x ∷ xs) [] h = absurd (ground arith)
same_peers→≡ ((x, a) ∷ xs) ((y, b) ∷ ys) h =
    ground (arith, h, bytes_eq→≡ x y, same_addrs→≡ a b, same_peers→≡ xs ys)

mem-cons : (x y : Entry) (c : List Entry) → Memᴰ x (y ∷ c) → (x ≡ y) ⊎ Memᴰ x c
mem-cons x y c (Memᴰ.head q) = inl q
mem-cons x y c (Memᴰ.tail m) = inr m

-- one text, which stands for the two peers
abbrev toy_registry : RegistryEnv Cache
toy_registry = record {
  lru = list_lru;
  walk = record { entries = λ c. c.1; pop = λ peer c. c };
  with_capacity = λ n. (n, []);
  parse = λ text. some printed;
  print = λ peers. if same_peers peers printed then some (7 ∷ []) else none;
  peer_from_bytes = λ b. some b;
  addr_from_bytes = λ b. some one_addr;
  addr_to_vec = λ a. 3 ∷ [];
}

toy_registry-KeepsEntries : KeepsEntries toy_registry
toy_registry-KeepsEntries = record {
  entries-new = λ n. refl;
  entries-push = λ peer addrs c x m. mem-cons x (peer, addrs) c.1 m;
  entries-get = λ peer c x m. m;
}

abbrev two_operations : List Operation
two_operations = adding (1 ∷ []) (one_addr ∷ (ip4 home ∷ []) ∷ []) ∷ connecting (1 ∷ []) ∷ []

run-new-IsPublic_example :
    IsPublic toy_registry (run toy_registry two_operations (new toy_registry 2))
run-new-IsPublic_example = run-new-IsPublic toy_registry toy_registry-KeepsEntries 2 two_operations

toy_registry-LruLaws : LruLaws toy_registry
toy_registry-LruLaws = record {
  capacity_of = λ c. c.0;
  capacity-new = λ n. refl;
  entries-new = λ n. refl;
  capacity-push = λ peer addrs c. refl;
  entries-push = λ peer addrs c h n. refl;
}

read_back :
    (peers : List (Bytes × List Bytes)) (text : Bytes)
    → (if same_peers peers printed then some (7 ∷ []) else none) ≡ some text
    → (some printed) ≡ some peers
read_back peers text h = elim (Bool-cases (same_peers peers printed)) [
  | inl q ↦ rw (same_peers→≡ peers printed q) refl
  | inr q ↦ absurd (ground (arith, h, q))
]

one_addr-IsReadable : IsReadable toy_registry (one_addr ∷ [])
unfolding IsReadable
one_addr-IsReadable addr (Memᴰ.head q) = ap (λ a. some a) (sym q)
one_addr-IsReadable addr (Memᴰ.tail m) = elim m [ ]

read_peer :
    (x y : Entry)
    → x ≡ y
    → y.1 ≡ one_addr ∷ []
    → (some x.0 ≡ some x.0) × IsReadable toy_registry x.1
read_peer x y q a =
    (refl, subst (λ l. IsReadable toy_registry l) (sym (ap (λ z. z.1) q ∙ a)) one_addr-IsReadable)

two_peers-IsPeers : IsPeers toy_registry two_peers
unfolding IsPeers
two_peers-IsPeers x (Memᴰ.head q) = read_peer x (1 ∷ [], one_addr ∷ []) q refl
two_peers-IsPeers x (Memᴰ.tail (Memᴰ.head q)) = read_peer x (2 ∷ [], one_addr ∷ []) q refl
two_peers-IsPeers x (Memᴰ.tail (Memᴰ.tail m)) = elim m [ ]

two_peers-printed : to_bytes toy_registry (2, two_peers) ≡ some (7 ∷ [])
unfolding to_bytes kinetic.PeerRegistry.print_peers kinetic.PeerRegistry.print_addrs same_peers
    same_addrs bytes_eq
two_peers-printed = refl

from_bytes-to_bytes_example :
    (d : Cache) × (from_bytes toy_registry 2 (7 ∷ []) ≡ loaded d)
    × (d.1 ≡ reverse_onto two_peers [])
unfolding bytes_eq
from_bytes-to_bytes_example =
    from_bytes-to_bytes toy_registry toy_registry-LruLaws (record { parse-print = read_back }) 2
      (2, two_peers) (7 ∷ []) two_peers-IsPeers refl (omega arith) (omega arith) two_peers-printed
