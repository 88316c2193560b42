-- ===== src/Net/Blocks.antt =====
-- The IPv4 check against a table of address blocks (kinetic-core/src/net.rs).
use kinetic.Prelude.{
  ℕ, ◌+◌, ◌*◌, ◌/◌, ◌<◌, ◌≡◌, ◌↔◌, Bool, false, none, some, List, [], ◌∷◌, any, arith, ◌==◌, refl,
  ◌&&◌, Option, true, if◌then◌else◌, ◌||◌, leb,
}
use kinetic.Net.{
  SecurityError, loopback, unspecified, private_range, local_network_routing, reserved, cg_nat,
  is_private, is_unspecified, is_documentation, is_broadcast, Ipv4Addr, validate_v4,
}

-- octets below 256
pub record IsIpv4 (ip : Ipv4Addr) : Type 0 where
  pub b0 : ip.o0 < 256
  pub b1 : ip.o1 < 256
  pub b2 : ip.o2 < 256
  pub b3 : ip.o3 < 256

-- the address as a number of 32 bits
abbrev pub address : Ipv4Addr → ℕ
address ip = ip.o0 * 16777216 + ip.o1 * 65536 + ip.o2 * 256 + ip.o3

-- the addresses whose quotient by the size of a block is the given one
abbrev pub within : ℕ → ℕ × ℕ → Bool
within addr (size, index) = addr / size == index

-- the special blocks: 0/8, 10/8, 100.64/10, 127/8, 169.254/16, 172.16/12, 192.0.2/24, 192.168/16,
-- 198.51.100/24, 203.0.113/24, 224/4 and 255.255.255.255, by size and index
abbrev pub special_blocks : List (ℕ × ℕ)
special_blocks =
    (16777216, 0)
    ∷ (16777216, 10)
    ∷ (4194304, 401)
    ∷ (16777216, 127)
    ∷ (65536, 43518)
    ∷ (1048576, 2753)
    ∷ (256, 12582914)
    ∷ (65536, 49320)
    ∷ (256, 12989284)
    ∷ (256, 13303921)
    ∷ (268435456, 14)
    ∷ (1, 4294967295)
    ∷ []

-- the tests of the code, as blocks
block_8 : (ip : Ipv4Addr) (a : ℕ) → IsIpv4 ip → (address ip / 16777216 == a) ≡ (ip.o0 == a)
block_8 ip a h =
    let q : address ip / 16777216 ≡ ip.o0 = omega (arith, h.b1, h.b2, h.b3) in rw q refl

block_16 :
    (ip : Ipv4Addr) (a b : ℕ)
    → IsIpv4 ip
    → b < 256
    → (address ip / 65536 == a * 256 + b) ≡ (ip.o0 == a && ip.o1 == b)
block_16 ip a b h l =
    let q : address ip / 65536 ≡ ip.o0 * 256 + ip.o1 = omega (arith, h.b2, h.b3) in
    rw q (ground (arith, h.b1))

block_24 :
    (ip : Ipv4Addr) (a b c : ℕ)
    → IsIpv4 ip
    → b < 256
    → c < 256
    → (address ip / 256 == a * 65536 + b * 256 + c) ≡ (ip.o0 == a && (ip.o1 == b && ip.o2 == c))
block_24 ip a b c h l m =
    let q : address ip / 256 ≡ ip.o0 * 65536 + ip.o1 * 256 + ip.o2 = omega (arith, h.b3) in
    rw q (ground (arith, h.b1, h.b2))

block_10 :
    (ip : Ipv4Addr) → IsIpv4 ip → (address ip / 4194304 == 401) ≡ (ip.o0 == 100 && ip.o1 / 64 == 1)
block_10 ip h =
    let q : address ip / 4194304 ≡ ip.o0 * 4 + ip.o1 / 64 = omega (arith, h.b1, h.b2, h.b3) in
    rw q (ground (arith, h.b1))

block_12 :
    (ip : Ipv4Addr)
    → IsIpv4 ip
    → (address ip / 1048576 == 2753) ≡ (ip.o0 == 172 && (leb 16 ip.o1 && leb ip.o1 31))
block_12 ip h =
    let q : address ip / 1048576 ≡ ip.o0 * 16 + ip.o1 / 16 = omega (arith, h.b1, h.b2, h.b3) in
    rw q (ground (arith, h.b1))

block_4 :
    (ip : Ipv4Addr) → IsIpv4 ip → (address ip / 268435456 == 14) ≡ (leb 224 ip.o0 && leb ip.o0 239)
block_4 ip h =
    let q : address ip / 268435456 ≡ ip.o0 / 16 = omega (arith, h.b1, h.b2, h.b3) in
    rw q (ground arith)

block_32 : (ip : Ipv4Addr) → IsIpv4 ip → (address ip / 1 == 4294967295) ≡ is_broadcast ip
block_32 ip h = ground (arith, h.b0, h.b1, h.b2, h.b3)

-- the blocks as tests of the octets
blocks_by_octets :
    (ip : Ipv4Addr)
    → IsIpv4 ip
    → any (within (address ip)) special_blocks ≡ (
        ip.o0 == 0
        || (ip.o0 == 10
            || ((ip.o0 == 100 && ip.o1 / 64 == 1)
                || (ip.o0 == 127
                    || ((ip.o0 == 169 && ip.o1 == 254)
                        || ((ip.o0 == 172 && (leb 16 ip.o1 && leb ip.o1 31))
                            || ((ip.o0 == 192 && (ip.o1 == 0 && ip.o2 == 2))
                                || ((ip.o0 == 192 && ip.o1 == 168)
                                    || ((ip.o0 == 198 && (ip.o1 == 51 && ip.o2 == 100))
                                        || ((ip.o0 == 203 && (ip.o1 == 0 && ip.o2 == 113))
                                            || ((leb 224 ip.o0 && leb ip.o0 239)
                                                || (is_broadcast ip || false))))))))))))
blocks_by_octets ip h =
    rw
      (
        block_8 ip 0 h,
        block_8 ip 10 h,
        block_10 ip h,
        block_8 ip 127 h,
        block_16 ip 169 254 h (omega arith),
        block_12 ip h,
        block_24 ip 192 0 2 h (omega arith) (omega arith),
        block_16 ip 192 168 h (omega arith),
        block_24 ip 198 51 100 h (omega arith) (omega arith),
        block_24 ip 203 0 113 h (omega arith) (omega arith),
        block_4 ip h,
        block_32 ip h,
      )
      refl

-- a rejecting test before others
guard :
    (b r : Bool) (x : SecurityError) (o : Option SecurityError)
    → (o ≡ none) ↔ (r ≡ false)
    → ((if b then some x else o) ≡ none) ↔ ((b || r) ≡ false)
guard true r x o h = (λ q. absurd (ground arith), λ q. absurd (ground arith))
guard false r x o h = h

-- the twelve tests in the order of the code and in that of the table; `u` is the test for 0.0.0.0
reorder :
    (t0 u t10 t100 t127 t169 t172 d1 t192 d2 d3 m b : Bool)
    → (u ≡ true → t0 ≡ true)
    → ((t127
          || (u
              || ((t10 || (t172 || t192))
                  || ((t169 || (b || m)) || ((d1 || (d2 || d3)) || (t0 || (t100 || false)))))))
        ≡ false)
      ↔ ((t0
            || (t10
                || (t100
                    || (t127
                        || (t169
                            || (t172 || (d1 || (t192 || (d2 || (d3 || (m || (b || false))))))))))))
          ≡ false)
reorder true u t10 t100 t127 t169 t172 d1 t192 d2 d3 m b h =
    (λ q. absurd (ground arith), λ q. absurd (ground arith))
reorder false true t10 t100 t127 t169 t172 d1 t192 d2 d3 m b h = absurd (ground arith)
reorder false false t10 t100 t127 t169 t172 d1 t192 d2 d3 m b h =
    (λ q. ground arith, λ q. ground arith)

-- An IPv4 address is accepted exactly when its number lies in none of the twelve special blocks.
pub validate_v4_iff :
    (ip : Ipv4Addr)
    → IsIpv4 ip
    → (validate_v4 ip ≡ none) ↔ (any (within (address ip)) special_blocks ≡ false)
unfolding validate_v4
validate_v4_iff ip h =
    let nothing : Option SecurityError = none in
    let last : (nothing ≡ none) ↔ (false ≡ false) = (λ q. refl, λ q. refl) in
    let code = guard (ip.o0 == 127) _ loopback _ (
      guard (is_unspecified ip) _ unspecified _ (
        guard (is_private ip) _ private_range _ (
          guard
            ((ip.o0 == 169 && ip.o1 == 254)
              || (is_broadcast ip || (leb 224 ip.o0 && leb ip.o0 239)))
            _ local_network_routing _
            (guard (is_documentation ip) _ reserved _ (
              guard (ip.o0 == 0) _ reserved _
                (guard (ip.o0 == 100 && ip.o1 / 64 == 1) _ cg_nat _ last)))))) in
    let order =
      reorder (ip.o0 == 0) (is_unspecified ip) (ip.o0 == 10) (ip.o0 == 100 && ip.o1 / 64 == 1)
        (ip.o0 == 127) (ip.o0 == 169 && ip.o1 == 254)
        (ip.o0 == 172 && (leb 16 ip.o1 && leb ip.o1 31))
        (ip.o0 == 192 && (ip.o1 == 0 && ip.o2 == 2)) (ip.o0 == 192 && ip.o1 == 168)
        (ip.o0 == 198 && (ip.o1 == 51 && ip.o2 == 100))
        (ip.o0 == 203 && (ip.o1 == 0 && ip.o2 == 113)) (leb 224 ip.o0 && leb ip.o0 239)
        (is_broadcast ip) (λ q. ground arith) in
    rw (blocks_by_octets ip h) (λ q. order.0 (code.0 q), λ q. code.1 (order.1 q))
