-- ===== src/Net.antt =====
-- IP addresses that a name may point to: `validate_ssrf_safe` of kinetic-core/src/net.rs, with the
-- predicates of std::net that it calls.
pub mod Blocks
use kinetic.Prelude.{
  ℕ, ◌+◌, ◌*◌, ◌/◌, ◌%◌, Bool, true, false, ◌&&◌, ◌||◌, Option, none, some, leb, ◌==◌,
  if◌then◌else◌,
}

-- `Ipv4Addr`, by its octets, and `Ipv6Addr`, by its segments
pub record Ipv4Addr : Type 0 where
  pub o0 : ℕ
  pub o1 : ℕ
  pub o2 : ℕ
  pub o3 : ℕ

pub record Ipv6Addr : Type 0 where
  pub s0 : ℕ
  pub s1 : ℕ
  pub s2 : ℕ
  pub s3 : ℕ
  pub s4 : ℕ
  pub s5 : ℕ
  pub s6 : ℕ
  pub s7 : ℕ

pub data IpAddr : Type 0 where
  v4 : Ipv4Addr → IpAddr
  v6 : Ipv6Addr → IpAddr

-- the variants of `SecurityError` that the check returns
pub data SecurityError : Type 0 where
  loopback : SecurityError
  unspecified : SecurityError
  private_range : SecurityError
  local_network_routing : SecurityError
  reserved : SecurityError
  cg_nat : SecurityError
  ipv6_mapped_exploit : SecurityError
  nat64 : SecurityError

abbrev pub is_private : Ipv4Addr → Bool
is_private ip =
    ip.o0 == 10
    || ((ip.o0 == 172 && (leb 16 ip.o1 && leb ip.o1 31)) || (ip.o0 == 192 && ip.o1 == 168))

abbrev pub is_broadcast : Ipv4Addr → Bool
is_broadcast ip = ip.o0 == 255 && (ip.o1 == 255 && (ip.o2 == 255 && ip.o3 == 255))

abbrev pub is_unspecified : Ipv4Addr → Bool
is_unspecified ip = ip.o0 == 0 && (ip.o1 == 0 && (ip.o2 == 0 && ip.o3 == 0))

abbrev pub is_documentation : Ipv4Addr → Bool
is_documentation ip =
    (ip.o0 == 192 && (ip.o1 == 0 && ip.o2 == 2))
    || ((ip.o0 == 198 && (ip.o1 == 51 && ip.o2 == 100))
        || (ip.o0 == 203 && (ip.o1 == 0 && ip.o2 == 113)))

-- the arm of IPv4; an octet masked with 0xC0 is 64 when its two high bits are 01
unfoldable pub validate_v4 : Ipv4Addr → Option SecurityError
validate_v4 ip =
    if ip.o0 == 127
    then some loopback
    else if is_unspecified ip
    then some unspecified
    else if is_private ip
    then some private_range
    else if (ip.o0 == 169 && ip.o1 == 254) || (is_broadcast ip || (leb 224 ip.o0 && leb ip.o0 239))
    then some local_network_routing
    else if is_documentation ip
    then some reserved
    else if ip.o0 == 0
    then some reserved
    else if ip.o0 == 100 && ip.o1 / 64 == 1
    then some cg_nat
    else none

-- the first six segments
abbrev pub starts_96 : Ipv6Addr → ℕ → ℕ → Bool
starts_96 ip a b =
    ip.s0 == a && (ip.s1 == b && (ip.s2 == 0 && (ip.s3 == 0 && (ip.s4 == 0 && ip.s5 == 0))))

-- `to_ipv4_mapped`, of ::ffff:0:0/96
unfoldable pub to_ipv4_mapped : Ipv6Addr → Option Ipv4Addr
to_ipv4_mapped ip =
    if ip.s0 == 0 && (ip.s1 == 0 && (ip.s2 == 0 && (ip.s3 == 0 && (ip.s4 == 0 && ip.s5 == 65535))))
    then some (record { o0 = ip.s6 / 256; o1 = ip.s6 % 256; o2 = ip.s7 / 256; o3 = ip.s7 % 256 })
    else none

-- whether the IPv4 address inside, if there is one, is rejected
unfoldable pub maps_to_unsafe : Option Ipv4Addr → Bool
maps_to_unsafe none = false
maps_to_unsafe (some ip) = elim (validate_v4 ip) [ none ↦ false | some e ↦ true ]

-- a loopback or unspecified address
abbrev pub is_low : Ipv6Addr → ℕ → Bool
is_low ip last = starts_96 ip 0 0 && (ip.s6 == 0 && ip.s7 == last)

-- the arm of IPv6; a masked segment is compared by its high bits
unfoldable pub validate_v6 : Ipv6Addr → Option SecurityError
validate_v6 ip =
    if is_low ip 1
    then some loopback
    else if is_low ip 0
    then some unspecified
    else if ip.s0 / 256 == 255
    then some local_network_routing
    else if ip.s0 / 64 == 1018
    then some local_network_routing
    else if ip.s0 / 512 == 126
    then some private_range
    else if starts_96 ip 0 0
    then some ipv6_mapped_exploit
    else if maps_to_unsafe (to_ipv4_mapped ip)
    then some ipv6_mapped_exploit
    else if starts_96 ip 100 65435
    then some nat64
    else none

unfoldable pub validate_ssrf_safe : IpAddr → Option SecurityError
validate_ssrf_safe (v4 ip) = validate_v4 ip
validate_ssrf_safe (v6 ip) = validate_v6 ip
