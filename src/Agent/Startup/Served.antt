-- ===== src/Agent/Startup/Served.antt =====
-- Each service that is consumed has a virtual address.
use outrelay_agent.Base.{
  ℕ, ◌<◌, ◌≡◌, refl, sym, ◌∙◌, subst, Bool, Bool-cases, Option, none, some, Option-cases, inl, inr,
  Result, ok, err, Result-cases, List, [], ◌∷◌, Text, text_beq, text_beq_iff, arith,
}
use mathlib.Core.List.{Memᴰ}
use outrelay_agent.Netip.{Prefix, v4, v4_space}
use outrelay_agent.Intercept.Vip.{VipAllocator, new_vip_allocator, allocate, lookup_name}
use outrelay_agent.Intercept.Vip.Invariant.{
  IsWf, allocate-IsWf, allocate_total, new_vip_allocator-IsWf,
}
use outrelay_agent.Intercept.Vip.Directory.{allocate-Serves, allocate-others}
use outrelay_agent.Intercept.Dns.{DnsServer, new_dns_server}
use outrelay_agent.Agent.Startup.{StartError, allocate_each, with_dns, with_pool, start_tproxy}

-- A name has an address.
abbrev pub IsNamed : VipAllocator → Text → Type 0
IsNamed a name = (ip : ℕ) × (lookup_name a name ≡ some ip)

stays-IsNamed :
    (a : VipAllocator) (name other : Text) (b : VipAllocator) (ip : ℕ)
    → IsWf a
    → allocate a name ≡ some (b, ok ip)
    → IsNamed a other
    → IsNamed b other
stays-IsNamed a name other b ip w p (old, known) = elim (Bool-cases (text_beq other name)) [
  | inl same ↦
      subst (IsNamed b) (sym ((text_beq_iff other name).0 same))
        (ip, (allocate-Serves a name b ip w p).named)
  | inr differs ↦ (
    old,
    allocate-others a name other b (ok ip) w
          (λ e. ground (arith, differs, text_beq_iff other name, e)) p
        ∙ known,
  )
]

-- What the loop returns: an error, or an allocator in which everything asked for is named.
abbrev Named : VipAllocator → List Text → Option (Result StartError VipAllocator) → Type 0
Named a names none = ⊥
Named a names (some (err e)) = Unit {0}
Named a names (some (ok b)) =
    IsWf b
    × ((name : Text) → IsNamed a name → IsNamed b name)
    × ((name : Text) → Memᴰ name names → IsNamed b name)

one_more :
    (a b : VipAllocator) (svc : Text) (names : List Text)
    (o : Option (Result StartError VipAllocator))
    → ((name : Text) → IsNamed a name → IsNamed b name)
    → IsNamed b svc
    → Named b names o
    → Named a (svc ∷ names) o
one_more a b svc names none keeps first rest = rest
one_more a b svc names (some (err e)) keeps first rest = rest
one_more a b svc names (some (ok c)) keeps first (w, kept, all) =
    (w, λ name k. kept name (keeps name k), each)
  where
    each : (name : Text) → Memᴰ name (svc ∷ names) → IsNamed c name
    each name (Memᴰ.head e) = subst (IsNamed c) (sym e) (kept svc first)
    each name (Memᴰ.tail m) = all name m

allocate_each-Named :
    (names : List Text) (a : VipAllocator) → IsWf a → Named a names (allocate_each a names)
unfolding allocate_each
allocate_each-Named [] a w = (w, λ name k. k, λ name m. elim m [ ])
allocate_each-Named (svc ∷ names) a w = elim (Option-cases (allocate a svc)) [
  | inl out_of_fuel ↦ absurd (allocate_total a svc w.cursor out_of_fuel)
  | inr ((b, err e), made) ↦ rw (made, allocate_each) _
  | inr ((b, ok ip), made) ↦
      rw (made, allocate_each)
        (one_more a b svc names (allocate_each b names)
          (λ name k. stays-IsNamed a svc name b ip w made k)
          (ip, (allocate-Serves a svc b ip w made).named)
          (allocate_each-Named names b (allocate-IsWf a svc b (ok ip) w made)))
]

-- The start ends; with a name server and an allocator, the two share the table, it satisfies the
-- invariant, and every service that is consumed has an address in it.
abbrev pub Started : List Text → Option (Result StartError (DnsServer × VipAllocator)) → Type 0
Started consumes none = ⊥
Started consumes (some (err e)) = Unit {0}
Started consumes (some (ok (dns, a))) =
    (dns.alloc ≡ a) × IsWf a × ((svc : Text) → Memᴰ svc consumes → IsNamed a svc)

module _ (fold : ℕ → ℕ) (parse_prefix : Text → Option Prefix) (cidr dns_addr dns_suffix : Text)
    (listens : Bool) where
  with_pool-Started :
      (a : VipAllocator) (consumes : List Text) (o : Option (Result StartError VipAllocator))
      → Named a consumes o
      → Started consumes (with_pool fold parse_prefix cidr dns_addr dns_suffix listens o)
  unfolding with_pool with_dns new_dns_server
  with_pool-Started a consumes none named = named
  with_pool-Started a consumes (some (err e)) named = _
  with_pool-Started a consumes (some (ok b)) (w, kept, all) = elim (Bool-cases listens) [
    | inl up ↦ rw up (refl, w, all)
    | inr down ↦ rw down _
  ]

  -- With a valid IPv4 prefix, startInterceptor's tproxy mode returns; and if it succeeds, the name
  -- server reads the proxy's table, which satisfies the allocator's invariant, and every service
  -- that is consumed has a virtual address in it.
  pub start_tproxy-Started :
      (n bits : ℕ) (consumes : List Text)
      → parse_prefix cidr ≡ some (record { addr = v4 n; bits = bits })
      → n < v4_space
      → Started consumes (start_tproxy fold parse_prefix cidr dns_addr dns_suffix listens consumes)
  unfolding start_tproxy
  start_tproxy-Started n bits consumes parsed low =
      elim (Result-cases (new_vip_allocator parse_prefix cidr)) [
        | inl (a, made) ↦
            rw (made, start_tproxy)
              (with_pool-Started a consumes (allocate_each a consumes) (
                allocate_each-Named consumes a
                  (new_vip_allocator-IsWf parse_prefix cidr n bits a parsed low made)))
        | inr (e, failed) ↦ rw (failed, start_tproxy) _
      ]
