-- ===== src/Netip.antt =====
-- What the agent uses of Go's net/netip: addresses as numbers, prefixes, address-port pairs and
-- the classes of addresses. An IPv6 zone is not modelled.
use outrelay_agent.Base.{
  ℕ, ◌+◌, ◌-◌, ◌*◌, ◌/◌, ◌%◌, ◌^◌, ◌||◌, ◌&&◌, not, Bool, true, false, ◌==◌, ltb, if◌then◌else◌,
  Option, none, some, List, [], ◌∷◌, length,
}

-- `zero_addr` is the invalid zero value.
pub data Addr : Type 0 where
  zero_addr : Addr
  v4 : ℕ → Addr
  v6 : ℕ → Addr

pub record AddrPort : Type 0 where
  pub addr : Addr
  pub port : ℕ

pub record Prefix : Type 0 where
  pub addr : Addr
  pub bits : ℕ

abbrev pub v4_space : ℕ
v4_space = 2 ^ 32

unfoldable pub is_valid : Addr → Bool
is_valid zero_addr = false
is_valid (v4 n) = true
is_valid (v6 n) = true

-- `Addr.Next` on IPv4.
unfoldable pub next_v4 : ℕ → Option ℕ
next_v4 n = if ltb (n + 1) v4_space then some (n + 1) else none

-- The first address of the block of `bits` leading bits that holds `n`.
unfoldable pub masked_v4 : ℕ → ℕ → ℕ
masked_v4 n bits = n / 2 ^ (32 - bits) * 2 ^ (32 - bits)

-- `Prefix.Contains` for an IPv4 prefix: the leading bits agree.
unfoldable pub contains_v4 : ℕ → ℕ → ℕ → Bool
contains_v4 base bits n = n / 2 ^ (32 - bits) == base / 2 ^ (32 - bits)

v6_block : ℕ → ℕ → ℕ
v6_block bits n = n / 2 ^ (128 - bits)

-- `Addr.Unmap`: an IPv4-mapped IPv6 address as an IPv4 address.
unfoldable pub unmap : Addr → Addr
unmap zero_addr = zero_addr
unmap (v4 n) = v4 n
unmap (v6 n) = if n / 2 ^ 32 == 0xffff then v4 (n % 2 ^ 32) else v6 n

unfoldable pub is4 : Addr → Bool
is4 zero_addr = false
is4 (v4 n) = true
is4 (v6 n) = false

unfoldable pub is6 : Addr → Bool
is6 zero_addr = false
is6 (v4 n) = false
is6 (v6 n) = true

-- 127.0.0.0/8 and ::1.
loopback : Addr → Bool
loopback zero_addr = false
loopback (v4 n) = n / 2 ^ 24 == 127
loopback (v6 n) = n == 1

unfoldable pub is_loopback : Addr → Bool
unfolding loopback unmap
is_loopback ip = loopback (unmap ip)

-- 169.254.0.0/16 and fe80::/10.
link_local : Addr → Bool
unfolding v6_block
link_local zero_addr = false
link_local (v4 n) = n / 2 ^ 16 == 0xa9fe
link_local (v6 n) = v6_block 10 n == 0x3fa

unfoldable pub is_link_local_unicast : Addr → Bool
unfolding link_local unmap
is_link_local_unicast ip = link_local (unmap ip)

-- 224.0.0.0/4 and ff00::/8.
multicast : Addr → Bool
unfolding v6_block
multicast zero_addr = false
multicast (v4 n) = n / 2 ^ 28 == 14
multicast (v6 n) = v6_block 8 n == 0xff

unfoldable pub is_multicast : Addr → Bool
unfolding multicast unmap
is_multicast ip = multicast (unmap ip)

-- 0.0.0.0 and ::.
unfoldable pub is_unspecified : Addr → Bool
is_unspecified zero_addr = false
is_unspecified (v4 n) = n == 0
is_unspecified (v6 n) = n == 0

-- 10.0.0.0/8, 172.16.0.0/12, 192.168.0.0/16 and fc00::/7.
private : Addr → Bool
unfolding v6_block
private zero_addr = false
private (v4 n) = n / 2 ^ 24 == 10 || n / 2 ^ 20 == 0xac1 || n / 2 ^ 16 == 0xc0a8
private (v6 n) = v6_block 7 n == 0x7e

unfoldable pub is_private : Addr → Bool
unfolding private unmap
is_private ip = private (unmap ip)

global_unicast : Addr → Bool
unfolding is_loopback is_multicast is_link_local_unicast
global_unicast zero_addr = false
global_unicast (v4 n) =
    not (n == 0)
    && not (n == 0xffffffff)
    && not (is_loopback (v4 n))
    && not (is_multicast (v4 n))
    && not (is_link_local_unicast (v4 n))
global_unicast (v6 n) =
    not (n == 0)
    && not (is_loopback (v6 n))
    && not (is_multicast (v6 n))
    && not (is_link_local_unicast (v6 n))

unfoldable pub is_global_unicast : Addr → Bool
unfolding global_unicast unmap
is_global_unicast ip = global_unicast (unmap ip)

be_from : ℕ → List ℕ → ℕ
be_from acc [] = acc
be_from acc (b ∷ bytes) = be_from (acc * 256 + b) bytes

-- The number that bytes in network order stand for.
unfoldable pub be_value : List ℕ → ℕ
unfolding be_from
be_value bytes = be_from 0 bytes

-- `netip.AddrFromSlice`: four bytes or sixteen.
unfoldable pub addr_from_slice : List ℕ → Option Addr
unfolding be_value
addr_from_slice bytes =
    if length bytes == 4
    then some (v4 (be_value bytes))
    else if length bytes == 16
    then some (v6 (be_value bytes))
    else none
