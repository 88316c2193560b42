-- ===== src/PeerRegistry/Reload.antt =====
-- A registry that is written and read back (kinetic-network/src/peer_registry.rs).
use mathlib.Core.List.{Memᴰ}
use kinetic.Prelude.{
  ℕ, ◌+◌, ◌≤◌, ◌<◌, ◌≡◌, refl, ap, ◌∙◌, Bool, true, false, not, ◌&&◌, some, List, [], ◌∷◌, any,
  arith, length, ◌==◌,
}
use kinetic.Prelude.Bytes.{Bytes, bytes_eq}
use kinetic.PeerRegistry.{
  Multiaddr, RegistryEnv, loaded, new, parse_addrs, put_some, load_peers, from_bytes, print_addrs,
  print_peers, to_bytes,
}

abbrev pub Entry : Type 0
Entry = Bytes × List Multiaddr

abbrev pub reverse_onto : List Entry → List Entry → List Entry
reverse_onto [] ys = ys
reverse_onto (x ∷ xs) ys = reverse_onto xs (x ∷ ys)

abbrev pub has_addrs : List Multiaddr → Bool
has_addrs [] = false
has_addrs (addr ∷ addrs) = true

abbrev pub holds_peer : Bytes → List Entry → Bool
holds_peer peer es = any (λ x. bytes_eq x.0 peer) es

-- the peers are distinct, also from those seen before, and each has an address
abbrev pub is_well_formed : List Entry → List Entry → Bool
is_well_formed [] seen = true
is_well_formed (x ∷ es) seen =
    (has_addrs x.1 && not (holds_peer x.0 seen)) && is_well_formed es (x ∷ seen)

module _ {C : Type 0} (e : RegistryEnv C) where
  -- an LRU cache below its capacity puts a new entry in front, and what is encoded is decoded
  pub record LruLaws : Type 0 where
    pub capacity_of : C → ℕ
    pub capacity-new : (n : ℕ) → capacity_of (e.with_capacity n) ≡ n
    pub entries-new : (n : ℕ) → e.walk.entries (e.with_capacity n) ≡ []
    pub capacity-push :
        (peer : Bytes) (addrs : List Multiaddr) (c : C)
        → capacity_of (e.lru.push peer addrs c).0 ≡ capacity_of c
    pub entries-push :
        (peer : Bytes) (addrs : List Multiaddr) (c : C)
        → holds_peer peer (e.walk.entries c) ≡ false
        → length (e.walk.entries c) < capacity_of c
        → e.walk.entries (e.lru.push peer addrs c).0 ≡ (peer, addrs) ∷ e.walk.entries c

  pub record CodecLaws : Type 0 where
    pub parse-print :
        (peers : List (Bytes × List Bytes)) (text : Bytes)
        → e.print peers ≡ some text
        → e.parse text ≡ some peers

  unfoldable pub IsReadable : List Multiaddr → Type 0
  IsReadable addrs =
      (addr : Multiaddr) → Memᴰ addr addrs → e.addr_from_bytes (e.addr_to_vec addr) ≡ some addr

  parse-print_addrs :
      (addrs : List Multiaddr) → IsReadable addrs → parse_addrs e (print_addrs e addrs) ≡ addrs
  unfolding parse_addrs print_addrs IsReadable
  parse-print_addrs [] r = refl
  parse-print_addrs (addr ∷ addrs) r =
      rw (r addr (Memᴰ.head refl), parse-print_addrs addrs (λ a m. r a (Memᴰ.tail m))) refl

  -- the peers' ids and addresses are read back from their bytes
  unfoldable pub IsPeers : List Entry → Type 0
  IsPeers es = (x : Entry) → Memᴰ x es → (e.peer_from_bytes x.0 ≡ some x.0) × IsReadable x.1

  load-print_peers :
      (w : LruLaws)
      → (es : List Entry) (c : C) → IsPeers es
      → is_well_formed es (e.walk.entries c) ≡ true
      → length es + length (e.walk.entries c) ≤ w.capacity_of c
      → (d : C) × (load_peers e (print_peers e es) c ≡ loaded d)
        × (e.walk.entries d ≡ reverse_onto es (e.walk.entries c))
  unfolding load_peers print_peers put_some IsPeers
  load-print_peers w [] c p h n = (c, refl, refl)
  load-print_peers w ((peer, []) ∷ es) c p h n = absurd (ground (arith, h))
  load-print_peers w ((peer, addr ∷ addrs) ∷ es) c p h n =
      let here = p (peer, addr ∷ addrs) (Memᴰ.head refl) in
      let absent : holds_peer peer (e.walk.entries c) ≡ false = ground (arith, h) in
      let front = w.entries-push peer (addr ∷ addrs) c absent (omega (arith, n)) in
      let next = (e.lru.push peer (addr ∷ addrs) c).0 in
      let rest : is_well_formed es (e.walk.entries next) ≡ true = rw front (ground (arith, h)) in
      let room : length es + length (e.walk.entries next) ≤ w.capacity_of next =
        rw (front, w.capacity-push peer (addr ∷ addrs) c) (omega (arith, n)) in
      let (d, out, order) = load-print_peers w es next (λ x m. p x (Memᴰ.tail m)) rest room in
      (
        d,
        rw (here.0, parse-print_addrs (addr ∷ addrs) here.1) out,
        order ∙ ap (reverse_onto es) front,
      )

  from_bytes-parse :
      (capacity : ℕ) (text : Bytes) (peers : List (Bytes × List Bytes))
      → 0 < capacity
      → e.parse text ≡ some peers
      → from_bytes e capacity text ≡ load_peers e peers (e.with_capacity capacity)
  unfolding from_bytes new
  from_bytes-parse capacity text peers pos q =
      let positive : (capacity == 0) ≡ false = ground (arith, pos) in
      rw (from_bytes, q, new, positive) refl

  -- A registry that is written and read back, into one of a capacity that holds all its peers,
  -- has the same peers with the same addresses in the reverse order: the peer that was used last
  -- is the next to be evicted.
  pub from_bytes-to_bytes :
      (w : LruLaws)
      → CodecLaws
      → (capacity : ℕ) (c : C) (text : Bytes) → IsPeers (e.walk.entries c)
      → is_well_formed (e.walk.entries c) [] ≡ true
      → 0 < capacity
      → length (e.walk.entries c) ≤ capacity
      → to_bytes e c ≡ some text
      → (d : C) × (from_bytes e capacity text ≡ loaded d)
        × (e.walk.entries d ≡ reverse_onto (e.walk.entries c) [])
  unfolding to_bytes
  from_bytes-to_bytes w v capacity c text p h pos n q =
      let empty = w.entries-new capacity in
      let (d, out, order) =
        load-print_peers w (e.walk.entries c) (e.with_capacity capacity) p (rw empty h)
          (rw (empty, w.capacity-new capacity) (omega (arith, n))) in
      (
        d,
        from_bytes-parse capacity text (print_peers e (e.walk.entries c)) pos
              (v.parse-print (print_peers e (e.walk.entries c)) text q)
            ∙ out,
        order ∙ ap (reverse_onto (e.walk.entries c)) empty,
      )
