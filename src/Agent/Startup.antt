-- ===== src/Agent/Startup.antt =====
-- cmd/outrelay-agent/main.go: startInterceptor in its two modes, up to the listeners: the mappings
-- of the explicit mode, and the virtual addresses and the name server of the tproxy mode.
pub mod Served
mod Tests
use outrelay_agent.Base.{
  ℕ, Bool, true, false, if◌then◌else◌, Option, none, some, Result, ok, err, List, [], ◌∷◌, Text,
}
use outrelay_agent.Netip.{Prefix}
use outrelay_agent.Strings.{cut}
use outrelay_agent.Intercept.Vip.{VipAllocator, VipError, new_vip_allocator, allocate}
use outrelay_agent.Intercept.Dns.{DnsServer, DnsError, new_dns_server}

pub data StartError : Type 0 where
  bad_mapping : Text → StartError
  bad_pool : VipError → StartError
  no_address : Text → VipError → StartError
  bad_dns : DnsError → StartError
  listen_failed : StartError

-- The bind address and the service of each entry `<svc>@<bind-addr>`.
unfoldable pub explicit_mappings : List Text → Result StartError (List (Text × Text))
explicit_mappings [] = ok []
explicit_mappings (c ∷ consumes) =
    let rest = explicit_mappings consumes in
    elim (cut c b'@') [
      | none ↦ err (bad_mapping c)
      | some (svc, bind) ↦ elim rest [ err e ↦ err e | ok mappings ↦ ok ((bind, svc) ∷ mappings) ]
    ]

-- The loop over the services; `none` only if the fuel of Allocate runs out.
unfoldable pub allocate_each : VipAllocator → List Text → Option (Result StartError VipAllocator)
allocate_each a [] = some (ok a)
allocate_each a (svc ∷ consumes) = elim (allocate a svc) [
  | none ↦ none
  | some (b, err e) ↦ some (err (no_address svc e))
  | some (b, ok vip) ↦ allocate_each b consumes
]

-- `fold` is that of strings.ToLower, `parse_prefix` netip.ParsePrefix; `listens` is whether the
-- proxy's address can be bound.
module _ (fold : ℕ → ℕ) (parse_prefix : Text → Option Prefix) (cidr dns_addr dns_suffix : Text)
    (listens : Bool) where
  with_dns : VipAllocator → Result DnsError DnsServer → Result StartError (DnsServer × VipAllocator)
  with_dns a (err e) = err (bad_dns e)
  with_dns a (ok dns) = if listens then ok (dns, a) else err listen_failed

  with_pool :
      Option (Result StartError VipAllocator)
      → Option (Result StartError (DnsServer × VipAllocator))
  unfolding with_dns
  with_pool none = none
  with_pool (some (err e)) = some (err e)
  with_pool (some (ok a)) = some (with_dns a (new_dns_server fold dns_addr dns_suffix (some a)))

  -- The name server and the table that the proxy reads.
  unfoldable pub start_tproxy : List Text → Option (Result StartError (DnsServer × VipAllocator))
  unfolding with_pool
  start_tproxy consumes = elim (new_vip_allocator parse_prefix cidr) [
    | err e ↦ some (err (bad_pool e))
    | ok a ↦ with_pool (allocate_each a consumes)
  ]
