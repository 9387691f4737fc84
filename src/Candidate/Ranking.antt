-- ===== src/Candidate/Ranking.antt =====
-- The ranking of addresses, and what the host candidates are.
use outrelay_agent.Base.{
  ℕ, ◌+◌, ◌≤◌, ◌<◌, ◌≡◌, true, false, Option, none, some, List, [], ◌∷◌, ◌++◌, All, All-append,
  Option-cases, inl, inr, arith,
}
use outrelay_agent.Netip.{
  Addr, is_valid, is_loopback, is_link_local_unicast, is_multicast, is_unspecified, is_private,
  is_global_unicast, is6, unmap, addr_from_slice,
}
use outrelay_agent.Candidate.{
  Candidate, InterfaceAddr, ip_net, other_addr, host_kind, srflx_priority, host_priority, host_of,
  host_loop, host_candidates,
}

host_priority_bounds : (ip : Addr) → (srflx_priority < host_priority ip) × (host_priority ip ≤ 80)
unfolding host_priority
host_priority_bounds ip = ground arith

-- Within one IP version a private address ranks below every address that is not private.
pub private_lowest :
    (a b : Addr)
    → is6 a ≡ is6 b
    → is_private a ≡ true
    → is_private b ≡ false
    → host_priority a < host_priority b
unfolding host_priority
private_lowest a b v p q = ground arith

-- Of two addresses in the same class the IPv6 one ranks above, by 10.
pub ipv6_preferred :
    (a b : Addr)
    → is6 a ≡ false
    → is6 b ≡ true
    → is_private a ≡ is_private b
    → is_global_unicast a ≡ is_global_unicast b
    → host_priority b ≡ host_priority a + 10
unfolding host_priority
ipv6_preferred a b v w p g = ground arith

-- What holds of every host candidate for a port.
pub record IsHost (port : ℕ) (c : Candidate) : Type 0 where
  pub named : c.kind ≡ host_kind
  pub at_port : c.addr.port ≡ port
  pub valid : is_valid c.addr.addr ≡ true
  pub no_loopback : is_loopback c.addr.addr ≡ false
  pub no_link_local : is_link_local_unicast c.addr.addr ≡ false
  pub no_multicast : is_multicast c.addr.addr ≡ false
  pub no_unspecified : is_unspecified c.addr.addr ≡ false
  pub above_srflx : srflx_priority < c.priority
  pub within : c.priority ≤ 80

host_of-IsHost :
    (port : ℕ) (a : InterfaceAddr) (c : Candidate) → host_of port a ≡ some c → IsHost port c
unfolding host_of
host_of-IsHost port other_addr c e = cc
host_of-IsHost port (ip_net none) c e = cc
host_of-IsHost port (ip_net (some bytes)) c e = elim (Option-cases (addr_from_slice bytes)) [
  | inl bad ↦ absurd (ground arith)
  | inr (raw, good) ↦ ground (arith, host_priority_bounds (unmap raw))
]

host_loop-IsHost :
    (port : ℕ) (addrs : List InterfaceAddr) (out : List Candidate)
    → All (IsHost port) out
    → All (IsHost port) (host_loop port addrs out)
unfolding host_loop
host_loop-IsHost port [] out h = h
host_loop-IsHost port (a ∷ addrs) out h = elim (Option-cases (host_of port a)) [
  | inl skip ↦ rw (skip, host_loop) (host_loop-IsHost port addrs out h)
  | inr (c, e) ↦
      rw (e, host_loop)
        (host_loop-IsHost port addrs (out ++ c ∷ [])
          (All-append (IsHost port) out (c ∷ []) h (host_of-IsHost port a c e, tt)))
]

-- Every host candidate has the given port and an address that is valid and neither loopback nor
-- link-local, multicast or unspecified; its priority lies above the server-reflexive one and is at
-- most 80.
pub host_candidates-IsHost :
    (addrs : Option (List InterfaceAddr)) (port : ℕ)
    → All (IsHost port) (host_candidates addrs port)
unfolding host_candidates
host_candidates-IsHost none port = tt
host_candidates-IsHost (some addrs) port = host_loop-IsHost port addrs [] tt
