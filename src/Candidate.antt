-- ===== src/Candidate.antt =====
-- pkg/candidate/candidate.go: the agent's reachable addresses, their ranking and their order.
-- Reading the interfaces, and the wire of the query, are parameters.
pub mod Ranking
pub mod Sorting
pub mod Unique
pub mod Query
mod Tests
use outrelay_agent.Base.{
  ℕ, ◌+◌, ◌%◌, ◌^◌, ◌||◌, ◌&&◌, not, Bool, true, false, ◌==◌, ltb, if◌then◌else◌, Option, none,
  some, List, [], ◌∷◌, ◌++◌, reverse, Text,
}
use outrelay_agent.Netip.{
  Addr, AddrPort, unmap, is_valid, is6, is_loopback, is_link_local_unicast, is_multicast,
  is_unspecified, is_private, is_global_unicast, addr_from_slice,
}

pub record Candidate : Type 0 where
  pub kind : Text
  pub addr : AddrPort
  pub priority : ℕ

abbrev pub host_kind : Text
host_kind = b'h' ∷ b'o' ∷ b's' ∷ b't' ∷ []

abbrev pub srflx_kind : Text
srflx_kind = b's' ∷ b'r' ∷ b'f' ∷ b'l' ∷ b'x' ∷ []

abbrev pub srflx_priority : ℕ
srflx_priority = 20

-- The two tests are made one after the other, so the second wins.
unfoldable pub host_priority : Addr → ℕ
host_priority ip =
    let base : ℕ = if is_private ip then 30 else 50 in
    let base' : ℕ = if is_global_unicast ip && not (is_private ip) then 70 else base in
    if is6 ip then base' + 10 else base'

-- An address of an interface: a `*net.IPNet` with its bytes (`none` for a nil IP), or another
-- kind of address.
pub data InterfaceAddr : Type 0 where
  ip_net : Option (List ℕ) → InterfaceAddr
  other_addr : InterfaceAddr

is_dropped : Addr → Bool
is_dropped ip =
    not (is_valid ip)
    || is_loopback ip
    || is_link_local_unicast ip
    || is_multicast ip
    || is_unspecified ip

host_candidate : ℕ → Addr → Candidate
host_candidate port ip = record {
  kind = host_kind;
  addr = record { addr = ip; port = port };
  priority = host_priority ip;
}

-- What the loop appends for one address, if anything.
unfoldable pub host_of : ℕ → InterfaceAddr → Option Candidate
unfolding is_dropped host_candidate
host_of port other_addr = none
host_of port (ip_net none) = none
host_of port (ip_net (some bytes)) = elim (addr_from_slice bytes) [
  | none ↦ none
  | some raw ↦ if is_dropped (unmap raw) then none else some (host_candidate port (unmap raw))
]

host_loop : ℕ → List InterfaceAddr → List Candidate → List Candidate
host_loop port [] out = out
host_loop port (a ∷ addrs) out =
    host_loop port addrs (elim (host_of port a) [ none ↦ out | some c ↦ out ++ c ∷ [] ])

-- `net.InterfaceAddrs` is the argument: `none` is its error.
unfoldable pub host_candidates : Option (List InterfaceAddr) → ℕ → List Candidate
unfolding host_loop
host_candidates none port = []
host_candidates (some addrs) port = host_loop port addrs []

-- The inner loop of Sort: `front` is out[0..j) with out[j-1] first, `back` is what stands after
-- out[j] = c. Each round swaps c with out[j-1] while c has the greater priority.
unfoldable pub sink : Candidate → List Candidate → List Candidate → List Candidate
sink c [] back = c ∷ back
sink c (d ∷ front) back =
    let swapped = sink c front (d ∷ back) in
    if ltb d.priority c.priority then swapped else reverse (d ∷ front) ++ c ∷ back

-- The outer loop: `done` is out[0..i), and the candidates from out[i] on follow.
pub sort_loop : List Candidate → List Candidate → List Candidate
unfolding sink
sort_loop done [] = done
sort_loop done (c ∷ rest) = sort_loop (sink c (reverse done) []) rest

unfoldable pub sort : List Candidate → List Candidate
unfolding sort_loop
sort cs = sort_loop [] cs
