-- ===== src/PeerRegistry.antt =====
-- The peers that a node can dial without a bootstrap server: kinetic-network/src/peer_registry.rs.
-- The LRU cache, JSON, and the encodings of peer ids and addresses are parameters.
pub mod Ranges
pub mod Public
pub mod Reload
use kinetic.Prelude.{
  ℕ, ◌/◌, Bool, true, false, ◌&&◌, ◌||◌, Option, none, some, List, [], ◌∷◌, leb, ◌==◌,
  if◌then◌else◌,
}
use kinetic.Prelude.Bytes.{Bytes}
use kinetic.Net.{Ipv4Addr, Ipv6Addr, is_unspecified, is_broadcast, is_low}
use kinetic.Store.State.{Lru}
use kinetic.Store.Prune.{LruWalk}

-- the parts of a `Multiaddr`: addresses, and all others
pub data Protocol : Type 0 where
  ip4 : Ipv4Addr → Protocol
  ip6 : Ipv6Addr → Protocol
  other : Bytes → Protocol

abbrev pub Multiaddr : Type 0
Multiaddr = List Protocol

-- the conditions that return false in the arms; a masked octet or segment is compared by its high
-- bits
unfoldable pub blocks_ip4 : Ipv4Addr → Bool
blocks_ip4 ip =
    (ip.o0 == 127 || (is_unspecified ip || is_broadcast ip))
    || ((ip.o0 == 10
          || ((ip.o0 == 172 && (leb 16 ip.o1 && leb ip.o1 31)) || (ip.o0 == 192 && ip.o1 == 168)))
        || ((ip.o0 == 169 && ip.o1 == 254) || ((ip.o0 == 100 && ip.o1 / 64 == 1) || leb 224 ip.o0)))

unfoldable pub blocks_ip6 : Ipv6Addr → Bool
blocks_ip6 ip =
    (is_low ip 1 || is_low ip 0)
    || (ip.s0 / 512 == 126 || (ip.s0 / 64 == 1018 || ip.s0 / 256 == 255))

-- the loop over the parts, with `has_public`
unfoldable pub scan : Bool → Multiaddr → Bool
scan has_public [] = has_public
scan has_public (ip4 ip ∷ parts) = if blocks_ip4 ip then false else scan true parts
scan has_public (ip6 ip ∷ parts) = if blocks_ip6 ip then false else scan true parts
scan has_public (other bytes ∷ parts) = scan has_public parts

unfoldable pub is_public_addr : Multiaddr → Bool
is_public_addr addr = scan false addr

unfoldable pub public_addrs : List Multiaddr → List Multiaddr
public_addrs [] = []
public_addrs (addr ∷ addrs) =
    let rest = public_addrs addrs in if is_public_addr addr then addr ∷ rest else rest

-- `LruCache::new`, whose capacity is not 0, and the JSON texts of `RegistryData`
pub record RegistryEnv (C : Type 0) : Type 0 where
  pub lru : Lru (List Multiaddr) C
  pub walk : LruWalk (List Multiaddr) C
  pub with_capacity : ℕ → C
  pub parse : Bytes → Option (List (Bytes × List Bytes))
  pub print : List (Bytes × List Bytes) → Option Bytes
  pub peer_from_bytes : Bytes → Option Bytes
  pub addr_from_bytes : Bytes → Option Multiaddr
  pub addr_to_vec : Multiaddr → Bytes

-- `PeerRegistryCorruption` or the registry
pub data Loaded (C : Type 0) : Type 0 where
  corruption : Loaded C
  loaded : C → Loaded C

module _ {C : Type 0} (e : RegistryEnv C) where
  unfoldable pub new : ℕ → C
  new capacity = e.with_capacity (if capacity == 0 then 500 else capacity)

  -- the addresses that parse
  unfoldable pub parse_addrs : List Bytes → List Multiaddr
  parse_addrs [] = []
  parse_addrs (bytes ∷ addrs) =
      let rest = parse_addrs addrs in
      elim (e.addr_from_bytes bytes) [ none ↦ rest | some addr ↦ addr ∷ rest ]

  -- put, unless there is no address
  unfoldable pub put_some : Bytes → List Multiaddr → C → C
  put_some peer [] cache = cache
  put_some peer (addr ∷ addrs) cache = (e.lru.push peer (addr ∷ addrs) cache).0

  unfoldable pub load_peers : List (Bytes × List Bytes) → C → Loaded C
  load_peers [] cache = loaded cache
  load_peers ((peer_bytes, addrs_bytes) ∷ peers) cache = elim (e.peer_from_bytes peer_bytes) [
    | none ↦ corruption
    | some peer ↦ load_peers peers (put_some peer (parse_addrs addrs_bytes) cache)
  ]

  unfoldable pub from_bytes : ℕ → Bytes → Loaded C
  from_bytes capacity data_ = elim (e.parse data_) [
    | none ↦ corruption
    | some peers ↦ load_peers peers (new capacity)
  ]

  unfoldable pub print_addrs : List Multiaddr → List Bytes
  print_addrs [] = []
  print_addrs (addr ∷ addrs) = e.addr_to_vec addr ∷ print_addrs addrs

  unfoldable pub print_peers : List (Bytes × List Multiaddr) → List (Bytes × List Bytes)
  print_peers [] = []
  print_peers ((peer, addrs) ∷ peers) = (peer, print_addrs addrs) ∷ print_peers peers

  unfoldable pub to_bytes : C → Option Bytes
  to_bytes cache = e.print (print_peers (e.walk.entries cache))

  unfoldable pub mark_connected : Bytes → C → C
  mark_connected peer cache = (e.lru.get peer cache).1

  unfoldable pub put_public : Bytes → List Multiaddr → C → Bool × C
  put_public peer [] cache = (false, cache)
  put_public peer (addr ∷ addrs) cache = (true, (e.lru.push peer (addr ∷ addrs) cache).0)

  unfoldable pub add_verified_peer : Bytes → List Multiaddr → C → Bool × C
  add_verified_peer peer addrs cache = put_public peer (public_addrs addrs) cache
