-- ===== src/PeerRegistry/Public.antt =====
-- What the registry holds (kinetic-network/src/peer_registry.rs).
use mathlib.Core.List.{Memᴰ}
use kinetic.Prelude.{
  ℕ, ◌/◌, ◌%◌, ◌*◌, ◌+◌, ◌<◌, ◌≡◌, ◌≢◌, refl, ap, ◌⊎◌, inl, inr, true, List, [], ◌∷◌, arith, ◌==◌,
  if◌then◌else◌, Bool-cases, some, subst,
}
use kinetic.Prelude.Bytes.{Bytes}
use kinetic.Net.{
  Ipv4Addr, Ipv6Addr, validate_v4, validate_v6, is_private, ipv6_mapped_exploit, to_ipv4_mapped,
  maps_to_unsafe,
}
use kinetic.PeerRegistry.Ranges.{HasOnlyOpenIps, is_public_addr-HasOnlyOpenIps}
use kinetic.PeerRegistry.{
  ip6, other, Multiaddr, blocks_ip6, scan, is_public_addr, public_addrs, RegistryEnv, new,
  put_public, mark_connected, add_verified_peer,
}

-- the address of ::ffff:0:0/96 that maps an IPv4 address
abbrev pub mapped : Ipv4Addr → Ipv6Addr
mapped ip = record {
  s0 = 0;
  s1 = 0;
  s2 = 0;
  s3 = 0;
  s4 = 0;
  s5 = 65535;
  s6 = ip.o0 * 256 + ip.o1;
  s7 = ip.o2 * 256 + ip.o3;
}

private-unsafe : (ip : Ipv4Addr) → is_private ip ≡ true → maps_to_unsafe (some ip) ≡ true
unfolding maps_to_unsafe validate_v4
private-unsafe ip h = ground (arith, h)

mapped-to_ipv4 : (ip : Ipv4Addr) → ip.o1 < 256 → ip.o3 < 256 → to_ipv4_mapped (mapped ip) ≡ some ip
unfolding to_ipv4_mapped
mapped-to_ipv4 ip b1 b3 =
    let q0 : (ip.o0 * 256 + ip.o1) / 256 ≡ ip.o0 = omega (arith, b1) in
    let q1 : (ip.o0 * 256 + ip.o1) % 256 ≡ ip.o1 = omega (arith, b1) in
    let q2 : (ip.o2 * 256 + ip.o3) / 256 ≡ ip.o2 = omega (arith, b3) in
    let q3 : (ip.o2 * 256 + ip.o3) % 256 ≡ ip.o3 = omega (arith, b3) in rw (q0, q1, q2, q3) refl

-- A private IPv4 address that is written as an IPv6 address, with a transport behind it, counts as
-- public, while the check for server-side request forgery rejects the same address.
pub mapped_private_public :
    (ip : Ipv4Addr) (transport : Bytes)
    → ip.o1 < 256
    → ip.o3 < 256
    → is_private ip ≡ true
    → (is_public_addr (ip6 (mapped ip) ∷ other transport ∷ []) ≡ true)
      × (validate_v6 (mapped ip) ≡ some ipv6_mapped_exploit)
unfolding is_public_addr scan blocks_ip6 validate_v6
mapped_private_public ip transport b1 b3 h =
    (refl, rw (mapped-to_ipv4 ip b1 b3, private-unsafe ip h) refl)

-- an operation on the registry
pub data Operation : Type 0 where
  adding : Bytes → List Multiaddr → Operation
  connecting : Bytes → Operation

module _ {C : Type 0} (e : RegistryEnv C) where
  -- an entry after a push was there before, or is the one that was pushed; reading adds none
  pub record KeepsEntries : Type 0 where
    pub entries-new : (capacity : ℕ) → e.walk.entries (e.with_capacity capacity) ≡ []
    pub entries-push :
        (peer : Bytes) (addrs : List Multiaddr) (c : C) (x : Bytes × List Multiaddr)
        → Memᴰ x (e.walk.entries (e.lru.push peer addrs c).0)
        → (x ≡ (peer, addrs)) ⊎ Memᴰ x (e.walk.entries c)
    pub entries-get :
        (peer : Bytes) (c : C) (x : Bytes × List Multiaddr)
        → Memᴰ x (e.walk.entries (e.lru.get peer c).1)
        → Memᴰ x (e.walk.entries c)

  unfoldable pub run : List Operation → C → C
  run [] c = c
  run (adding peer addrs ∷ ops) c = run ops (add_verified_peer e peer addrs c).1
  run (connecting peer ∷ ops) c = run ops (mark_connected e peer c)

  -- every peer has an address, and all its addresses have only open IPs
  pub IsPublic : C → Type 0
  IsPublic c =
      (peer : Bytes) (addrs : List Multiaddr)
      → Memᴰ (peer, addrs) (e.walk.entries c)
      → (addrs ≢ []) × ((addr : Multiaddr) → Memᴰ addr addrs → HasOnlyOpenIps addr)

  mem-public_addrs :
      (addr : Multiaddr) (addrs : List Multiaddr)
      → Memᴰ addr (public_addrs addrs)
      → is_public_addr addr ≡ true
  unfolding public_addrs
  mem-public_addrs addr [] m = elim m [ ]
  mem-public_addrs addr (x ∷ addrs) m = elim (Bool-cases (is_public_addr x)) [
    | inl q ↦ elim (rw (public_addrs, q) at m) [
      | Memᴰ.head same ↦ rw same q
      | Memᴰ.tail n ↦ mem-public_addrs addr addrs n
    ]
    | inr q ↦ mem-public_addrs addr addrs (rw (public_addrs, q) at m)
  ]

  put_public-IsPublic :
      KeepsEntries
      → (peer : Bytes) (addrs : List Multiaddr) (c : C)
      → ((addr : Multiaddr) → Memᴰ addr addrs → HasOnlyOpenIps addr)
      → IsPublic c
      → IsPublic (put_public e peer addrs c).1
  unfolding put_public IsPublic
  put_public-IsPublic w peer [] c f h = h
  put_public-IsPublic w peer (addr ∷ addrs) c f h = λ known held m.
      elim (w.entries-push peer (addr ∷ addrs) c (known, held) m) [
        | inl same ↦
            let what : held ≡ addr ∷ addrs = ap (λ x. x.1) same in
            (rw what (λ q. absurd (ground (arith, q))), λ a n. f a (rw what at n))
        | inr before ↦ h known held before
      ]

  run-IsPublic : KeepsEntries → (ops : List Operation) (c : C) → IsPublic c → IsPublic (run ops c)
  unfolding run add_verified_peer mark_connected IsPublic
  run-IsPublic w [] c h = h
  run-IsPublic w (adding peer addrs ∷ ops) c h =
      run-IsPublic w ops (put_public e peer (public_addrs addrs) c).1 (
        put_public-IsPublic w peer (public_addrs addrs) c
          (λ a m. is_public_addr-HasOnlyOpenIps a (mem-public_addrs a addrs m)) h)
  run-IsPublic w (connecting peer ∷ ops) c h =
      run-IsPublic w ops (mark_connected e peer c)
        (λ known held m. h known held (w.entries-get peer c (known, held) m))

  -- After any operations on a new registry, every peer in it has an address, and each of its
  -- addresses has an IP part, no IPv4 part of 127/8, 10/8, 172.16/12, 192.168/16, 169.254/16,
  -- 100.64/10, 224/3 or 0.0.0.0, and no IPv6 part that is :: or ::1 or of fc00::/7, fe80::/10 or
  -- ff00::/8, if the cache invents no entries.
  pub run-new-IsPublic :
      KeepsEntries → (capacity : ℕ) (ops : List Operation) → IsPublic (run ops (new e capacity))
  unfolding new IsPublic
  run-new-IsPublic w capacity ops = run-IsPublic w ops (new e capacity) λ peer addrs m.
      elim (subst (Memᴰ (peer, addrs)) (w.entries-new (if capacity == 0 then 500 else capacity))
        m) [ ]
