-- ===== src/PeerRegistry/Ranges.antt =====
-- The ranges of addresses that `is_public_addr` leaves out (kinetic-network/src/peer_registry.rs).
use mathlib.Core.List.{Memᴰ}
use kinetic.Prelude.{
  ◌+◌, ◌<◌, ◌≡◌, ◌≢◌, refl, ◌⊎◌, inl, inr, Bool, true, false, [], ◌∷◌, arith, ◌==◌, Bool-cases,
}
use kinetic.Net.{Ipv4Addr, Ipv6Addr}
use kinetic.PeerRegistry.{ip4, ip6, other, Multiaddr, blocks_ip4, blocks_ip6, scan, is_public_addr}

-- none of 127/8, 10/8, 172.16/12, 192.168/16, 169.254/16, 100.64/10, 224/3 and 0.0.0.0
pub record IsOpenIp4 (ip : Ipv4Addr) : Type 0 where
  pub below : ip.o0 < 224
  pub no_loopback : ip.o0 ≢ 127
  pub no_10 : ip.o0 ≢ 10
  pub no_172 : (ip.o0 ≢ 172) ⊎ ((ip.o1 < 16) ⊎ (31 < ip.o1))
  pub no_192 : (ip.o0 ≢ 192) ⊎ (ip.o1 ≢ 168)
  pub no_link_local : (ip.o0 ≢ 169) ⊎ (ip.o1 ≢ 254)
  pub no_cg_nat : (ip.o0 ≢ 100) ⊎ ((ip.o1 < 64) ⊎ (127 < ip.o1))
  pub specified : 0 < ip.o0 + ip.o1 + ip.o2 + ip.o3

-- neither ::, ::1, nor in fc00::/7, fe80::/10 and ff00::/8
pub record IsOpenIp6 (ip : Ipv6Addr) : Type 0 where
  pub not_low : (0 < ip.s0 + ip.s1 + ip.s2 + ip.s3 + ip.s4 + ip.s5 + ip.s6) ⊎ (1 < ip.s7)
  pub no_ula : (ip.s0 < 64512) ⊎ (65023 < ip.s0)
  pub no_link_local : (ip.s0 < 65152) ⊎ (65215 < ip.s0)
  pub no_multicast : (ip.s0 < 65280) ⊎ (65535 < ip.s0)

-- the address has a part that is an IP address, and all such parts are outside of the ranges above
pub record HasOnlyOpenIps (addr : Multiaddr) : Type 0 where
  pub has_ip : ((ip : Ipv4Addr) × Memᴰ (ip4 ip) addr) ⊎ ((ip : Ipv6Addr) × Memᴰ (ip6 ip) addr)
  pub open_ip4 : (ip : Ipv4Addr) → Memᴰ (ip4 ip) addr → IsOpenIp4 ip
  pub open_ip6 : (ip : Ipv6Addr) → Memᴰ (ip6 ip) addr → IsOpenIp6 ip

blocks_ip4-IsOpenIp4 : (ip : Ipv4Addr) → blocks_ip4 ip ≡ false → IsOpenIp4 ip
unfolding blocks_ip4
blocks_ip4-IsOpenIp4 ip h = record {
  below = ground (arith, h);
  no_loopback = λ q. absurd (ground (arith, h, q));
  no_10 = λ q. absurd (ground (arith, h, q));
  no_172 = elim (Bool-cases (ip.o0 == 172)) [
    | inl q ↦ inr (ground (arith, h, q))
    | inr q ↦ inl (λ e. absurd (ground (arith, q, e)))
  ];
  no_192 = elim (Bool-cases (ip.o0 == 192)) [
    | inl q ↦ inr (λ e. absurd (ground (arith, h, q, e)))
    | inr q ↦ inl (λ e. absurd (ground (arith, q, e)))
  ];
  no_link_local = elim (Bool-cases (ip.o0 == 169)) [
    | inl q ↦ inr (λ e. absurd (ground (arith, h, q, e)))
    | inr q ↦ inl (λ e. absurd (ground (arith, q, e)))
  ];
  no_cg_nat = elim (Bool-cases (ip.o0 == 100)) [
    | inl q ↦ inr (ground (arith, h, q))
    | inr q ↦ inl (λ e. absurd (ground (arith, q, e)))
  ];
  specified = ground (arith, h);
}

blocks_ip6-IsOpenIp6 : (ip : Ipv6Addr) → blocks_ip6 ip ≡ false → IsOpenIp6 ip
unfolding blocks_ip6
blocks_ip6-IsOpenIp6 ip h = record {
  not_low = ground (arith, h);
  no_ula = ground (arith, h);
  no_link_local = ground (arith, h);
  no_multicast = ground (arith, h);
}

scan-has_ip :
    (seen : Bool) (addr : Multiaddr)
    → scan seen addr ≡ true
    → (seen ≡ true)
      ⊎ (((ip : Ipv4Addr) × Memᴰ (ip4 ip) addr) ⊎ ((ip : Ipv6Addr) × Memᴰ (ip6 ip) addr))
unfolding scan
scan-has_ip seen [] h = inl h
scan-has_ip seen (ip4 ip ∷ parts) h = inr (inl (ip, Memᴰ.head refl))
scan-has_ip seen (ip6 ip ∷ parts) h = inr (inr (ip, Memᴰ.head refl))
scan-has_ip seen (other b ∷ parts) h = elim (scan-has_ip seen parts h) [
  | inl q ↦ inl q
  | inr (inl (ip, m)) ↦ inr (inl (ip, Memᴰ.tail m))
  | inr (inr (ip, m)) ↦ inr (inr (ip, Memᴰ.tail m))
]

scan-ip4 :
    (seen : Bool) (addr : Multiaddr) (ip : Ipv4Addr)
    → scan seen addr ≡ true
    → Memᴰ (ip4 ip) addr
    → blocks_ip4 ip ≡ false
unfolding scan
scan-ip4 seen [] ip h m = elim m [ ]
scan-ip4 seen (ip4 x ∷ parts) ip h (Memᴰ.head q) =
    let same : ip ≡ x = cc q in rw same (ground (arith, h))
scan-ip4 seen (ip4 x ∷ parts) ip h (Memᴰ.tail m) = scan-ip4 true parts ip (ground (arith, h)) m
scan-ip4 seen (ip6 x ∷ parts) ip h (Memᴰ.head q) = absurd (ground (arith, q))
scan-ip4 seen (ip6 x ∷ parts) ip h (Memᴰ.tail m) = scan-ip4 true parts ip (ground (arith, h)) m
scan-ip4 seen (other b ∷ parts) ip h (Memᴰ.head q) = absurd (ground (arith, q))
scan-ip4 seen (other b ∷ parts) ip h (Memᴰ.tail m) = scan-ip4 seen parts ip h m

scan-ip6 :
    (seen : Bool) (addr : Multiaddr) (ip : Ipv6Addr)
    → scan seen addr ≡ true
    → Memᴰ (ip6 ip) addr
    → blocks_ip6 ip ≡ false
unfolding scan
scan-ip6 seen [] ip h m = elim m [ ]
scan-ip6 seen (ip6 x ∷ parts) ip h (Memᴰ.head q) =
    let same : ip ≡ x = cc q in rw same (ground (arith, h))
scan-ip6 seen (ip6 x ∷ parts) ip h (Memᴰ.tail m) = scan-ip6 true parts ip (ground (arith, h)) m
scan-ip6 seen (ip4 x ∷ parts) ip h (Memᴰ.head q) = absurd (ground (arith, q))
scan-ip6 seen (ip4 x ∷ parts) ip h (Memᴰ.tail m) = scan-ip6 true parts ip (ground (arith, h)) m
scan-ip6 seen (other b ∷ parts) ip h (Memᴰ.head q) = absurd (ground (arith, q))
scan-ip6 seen (other b ∷ parts) ip h (Memᴰ.tail m) = scan-ip6 seen parts ip h m

pub is_public_addr-HasOnlyOpenIps :
    (addr : Multiaddr) → is_public_addr addr ≡ true → HasOnlyOpenIps addr
unfolding is_public_addr
is_public_addr-HasOnlyOpenIps addr h = record {
  has_ip = elim (scan-has_ip false addr h) [ inl q ↦ absurd (ground (arith, q)) | inr x ↦ x ];
  open_ip4 = λ ip m. blocks_ip4-IsOpenIp4 ip (scan-ip4 false addr ip h m);
  open_ip6 = λ ip m. blocks_ip6-IsOpenIp6 ip (scan-ip6 false addr ip h m);
}
