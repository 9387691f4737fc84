-- ===== src/Intercept/Tproxy.antt =====
-- pkg/intercept/tproxy_linux.go: origDst4 and the accept loop of the transparent proxy. What
-- getsockopt and Accept return is given; a connection is a number.
pub mod Emitted
mod Tests
use outrelay_agent.Base.{
  ℕ, suc, ◌+◌, ◌*◌, ◌^◌, Bool, true, false, if◌then◌else◌, Option, none, some, List, [], ◌∷◌, Text,
}
use outrelay_agent.Netip.{Addr, AddrPort, v4}
use outrelay_agent.Intercept.Vip.{VipAllocator, lookup_vip}

-- `none`: SyscallConn, Control or the system call failed. The bytes are those of a sockaddr_in.
unfoldable pub orig_dst4 : Option (List ℕ) → Option AddrPort
orig_dst4 (some (f ∷ g ∷ p ∷ q ∷ a ∷ b ∷ c ∷ d ∷ rest)) =
    some (record { addr = v4 (a * 2 ^ 24 + b * 2 ^ 16 + c * 2 ^ 8 + d); port = p * 2 ^ 8 + q })
orig_dst4 _ = none

pub record Intercepted : Type 0 where
  pub local : ℕ
  pub orig_dest : AddrPort
  pub target : Text

-- What Accept returns: a connection, whether it is TCP, its socket's answer, and whether the agent
-- takes it before the interceptor is closed; or an error.
pub data Caught : Type 0 where
  accept_failed : Caught
  conn : (c : ℕ) → (is_tcp : Bool) → (raw : Option (List ℕ)) → (taken : Bool) → Caught

-- The connections that are handed over and those that are closed, and whether the loop has ended.
pub record Proxied : Type 0 where
  pub emitted : List Intercepted
  pub closed : List ℕ
  pub ended : Bool

unfoldable pub lookup_addr : VipAllocator → Addr → Text
lookup_addr alloc (v4 n) = lookup_vip alloc n
lookup_addr alloc _ = []

-- The select at the end of a round; a connection that is not taken ends the loop.
hand_over : ℕ → AddrPort → Text → Bool → Proxied → Proxied
hand_over c dst svc true rest = record rest {
  emitted = record { local = c; orig_dest = dst; target = svc } ∷ rest.emitted;
}
hand_over c dst svc false rest = record { emitted = []; closed = c ∷ []; ended = true }

drop_conn : ℕ → Proxied → Proxied
drop_conn c rest = record rest { closed = c ∷ rest.closed }

with_svc : ℕ → AddrPort → Text → Bool → Proxied → Proxied
unfolding hand_over drop_conn
with_svc c dst [] taken rest = drop_conn c rest
with_svc c dst (x ∷ svc) taken rest = hand_over c dst (x ∷ svc) taken rest

with_dst : VipAllocator → ℕ → Option AddrPort → Bool → Proxied → Proxied
unfolding with_svc
with_dst alloc c none taken rest = drop_conn c rest
with_dst alloc c (some dst) taken rest = with_svc c dst (lookup_addr alloc dst.addr) taken rest

-- The list ends where Accept waits.
unfoldable pub accept_loop : VipAllocator → List Caught → Proxied
unfolding with_dst
accept_loop alloc [] = record { emitted = []; closed = []; ended = false }
accept_loop alloc (accept_failed ∷ more) = record { emitted = []; closed = []; ended = true }
accept_loop alloc (conn c true raw taken ∷ more) =
    with_dst alloc c (orig_dst4 raw) taken (accept_loop alloc more)
accept_loop alloc (conn c false raw taken ∷ more) = drop_conn c (accept_loop alloc more)
