-- ===== src/Intercept/Vip.antt =====
-- pkg/intercept/vip.go: the pool of virtual addresses. An IPv4 address is a number below 2^32, and
-- `none` in `next` is the zero `netip.Addr`, which `Addr.Next` returns after 255.255.255.255.
-- The mutex is held for a whole method, so each method is one function on the state.
pub mod Scan
pub mod Invariant
pub mod Directory
mod Tests
use outrelay_agent.Base.{
  ℕ, zero, suc, ◌+◌, ◌%◌, ◌||◌, not, Bool, true, false, ◌==◌, if◌then◌else◌, Option, none, some,
  Result, ok, err, Text, [], length, nat_eq, text_eq,
}
use outrelay_agent.Base.Map.{Map, lookup, insert}
use outrelay_agent.Netip.{Prefix, v4, v6, zero_addr, next_v4, masked_v4, contains_v4, v4_space}

pub record VipAllocator : Type 0 where
  pub base : ℕ
  pub bits : ℕ
  pub name_to_ip : Map Text ℕ
  pub ip_to_name : Map ℕ Text
  pub next : Option ℕ

pub data VipError : Type 0 where
  bad_cidr only_ipv4 pool_exhausted : VipError

-- The literal that NewVIPAllocator returns; the network address itself is skipped.
unfoldable pub empty_pool : ℕ → ℕ → VipAllocator
empty_pool base bits = record {
  base = base;
  bits = bits;
  name_to_ip = [];
  ip_to_name = [];
  next = next_v4 base;
}

-- `netip.ParsePrefix` is a parameter.
unfoldable pub new_vip_allocator : (Text → Option Prefix) → Text → Result VipError VipAllocator
new_vip_allocator parse_prefix cidr = elim (parse_prefix cidr) [
  | none ↦ err bad_cidr
  | some pfx ↦ elim pfx.addr [
    | v4 n ↦ ok (empty_pool (masked_v4 n pfx.bits) pfx.bits)
    | v6 n ↦ err only_ipv4
    | zero_addr ↦ err only_ipv4
  ]
]

-- The last byte of the address is neither 0 nor 255.
unfoldable pub is_usable : ℕ → Bool
is_usable ip = if ip % 256 == 0 || ip % 256 == 255 then false else true

unfoldable pub is_taken : VipAllocator → ℕ → Bool
unfolding lookup
is_taken a ip = elim (lookup ip a.ip_to_name) [ none ↦ false | some n ↦ true ]

-- `a` as it is after `a.next = a.next.Next()`.
unfoldable pub advance : VipAllocator → ℕ → VipAllocator
advance a ip = record a { next = next_v4 ip }

unfoldable pub install : VipAllocator → Text → ℕ → VipAllocator
install a name ip = record a {
  name_to_ip = insert name ip a.name_to_ip;
  ip_to_name = insert ip name a.ip_to_name;
}

-- The `for` of Allocate. `none` means that the fuel ran out.
unfoldable pub allocate_loop : ℕ → VipAllocator → Text → Option (VipAllocator × Result VipError ℕ)
allocate_loop zero a name = none
allocate_loop (suc fuel) a name = elim a.next [
  | none ↦ some (a, err pool_exhausted)
  | some ip ↦
      let again = allocate_loop fuel (advance a ip) name in
      if not (contains_v4 a.base a.bits ip)
      then some (a, err pool_exhausted)
      else if not (is_usable ip)
      then again
      else if is_taken a ip
      then again
      else some (install (advance a ip) name ip, ok ip)
]

unfoldable pub allocate : VipAllocator → Text → Option (VipAllocator × Result VipError ℕ)
allocate a name = elim (lookup name a.name_to_ip) [
  | some ip ↦ some (a, ok ip)
  | none ↦ allocate_loop (v4_space + 1) a name
]

unfoldable pub lookup_name : VipAllocator → Text → Option ℕ
lookup_name a name = lookup name a.name_to_ip

-- A missing key of a Go map reads as the empty string.
unfoldable pub lookup_vip : VipAllocator → ℕ → Text
lookup_vip a vip = elim (lookup vip a.ip_to_name) [ none ↦ [] | some name ↦ name ]

unfoldable pub len : VipAllocator → ℕ
len a = length a.name_to_ip
