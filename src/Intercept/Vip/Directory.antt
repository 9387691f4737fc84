-- ===== src/Intercept/Vip/Directory.antt =====
-- The allocator as the two-way directory that the DNS server and the interceptor read.
use outrelay_agent.Base.{
  ℕ, ◌<◌, ◌≡◌, ◌≢◌, ap, inl, inr, text_beq_iff, true, none, some, Result, ok, err, Text, arith,
  nat_eq, text_eq, Bool-cases, dec_lt,
}
use outrelay_agent.Base.Map.{lookup, lookup-insert, lookup-insert_self}
use outrelay_agent.Netip.{contains_v4, v4_space}
use outrelay_agent.Intercept.Vip.Scan.{position, IsFree, Scanned}
use outrelay_agent.Intercept.Vip.Invariant.{IsWf, allocate_cases, allocate-IsWf}
use outrelay_agent.Intercept.Vip.{
  VipAllocator, VipError, is_usable, is_taken, advance, install, allocate, lookup_name, lookup_vip,
}

-- What a caller of Allocate may rely on when it gets an address.
pub record Serves (b : VipAllocator) (name : Text) (ip : ℕ) : Type 0 where
  pub named : lookup_name b name ≡ some ip
  pub reversed : lookup_vip b ip ≡ name
  pub in_prefix : contains_v4 b.base b.bits ip ≡ true
  pub good : is_usable ip ≡ true
  pub not_network : b.base < ip

Serves-known :
    (b : VipAllocator) (name : Text) (ip : ℕ)
    → IsWf b
    → lookup name b.name_to_ip ≡ some ip
    → Serves b name ip
unfolding lookup_name lookup_vip is_taken
Serves-known b name ip w e =
    let f : lookup ip b.ip_to_name ≡ some name = w.forth name ip e in
    let t : is_taken b ip ≡ true = ground arith in
    record {
      named = e;
      reversed = ground arith;
      in_prefix = w.inside ip t;
      good = w.usable ip t;
      not_network = (w.behind ip t).0;
    }

known_after :
    (a : VipAllocator) (name : Text) (b : VipAllocator) (ip : ℕ)
    → IsWf a
    → allocate a name ≡ some (b, ok ip)
    → lookup name b.name_to_ip ≡ some ip
unfolding install advance
known_after a name b ip w p = elim (allocate_cases a name w (b, ok ip) p) [
  | inl (ip', e, q) ↦ ground arith
  | inr (absent, s) ↦ rw s.0 (lookup-insert_self name ip a.name_to_ip)
]

-- The address that Allocate returns is a usable address of the prefix, not the network address,
-- and both lookups agree on it.
pub allocate-Serves :
    (a : VipAllocator) (name : Text) (b : VipAllocator) (ip : ℕ)
    → IsWf a
    → allocate a name ≡ some (b, ok ip)
    → Serves b name ip
allocate-Serves a name b ip w p =
    Serves-known b name ip (allocate-IsWf a name b (ok ip) w p) (known_after a name b ip w p)

-- A second call with the name returns the same address and changes nothing.
pub allocate-allocate :
    (a : VipAllocator) (name : Text) (b : VipAllocator) (ip : ℕ)
    → IsWf a
    → allocate a name ≡ some (b, ok ip)
    → allocate b name ≡ some (b, ok ip)
unfolding allocate
allocate-allocate a name b ip w p = ground (arith, known_after a name b ip w p)

Scanned-others :
    (a : VipAllocator) (name other : Text)
    → other ≢ name
    → (r : VipAllocator × Result VipError ℕ) → Scanned a name r
    → lookup other r.0.name_to_ip ≡ lookup other a.name_to_ip
unfolding install advance
Scanned-others a name other ne (b, ok ip) s =
    rw s.0 (ground (arith, lookup-insert name other ip a.name_to_ip, text_beq_iff name other, ne))
Scanned-others a name other ne (b, err e) s = rw s.1

-- A call leaves the addresses of all other names alone, whether it succeeds or fails.
pub allocate-others :
    (a : VipAllocator) (name other : Text) (b : VipAllocator) (r : Result VipError ℕ)
    → IsWf a
    → other ≢ name
    → allocate a name ≡ some (b, r)
    → lookup_name b other ≡ lookup_name a other
unfolding lookup_name
allocate-others a name other b r w ne p = elim (allocate_cases a name w (b, r) p) [
  | inl (ip, e, q) ↦ ap (λ x. lookup other x.0.name_to_ip) q
  | inr (absent, s) ↦ Scanned-others a name other ne (b, r) s
]

-- In an allocator that satisfies the invariant, two names never share an address.
pub lookup_name-injective :
    (a : VipAllocator) (m n : Text) (ip : ℕ)
    → IsWf a
    → lookup_name a m ≡ some ip
    → lookup_name a n ≡ some ip
    → m ≡ n
unfolding lookup_name
lookup_name-injective a m n ip w e f = cc (w.forth m ip e, w.forth n ip f)

-- When Allocate fails, the name is new, and each usable address of the prefix after the network
-- address is already in the table.
pub allocate_exhausted :
    (a : VipAllocator) (name : Text) (b : VipAllocator) (e : VipError) (ip : ℕ)
    → IsWf a
    → allocate a name ≡ some (b, err e)
    → a.base < ip
    → ip < v4_space
    → contains_v4 a.base a.bits ip ≡ true
    → is_usable ip ≡ true
    → (lookup_name a name ≡ none) × (is_taken a ip ≡ true)
unfolding lookup_name
allocate_exhausted a name b e ip w p low high inside usable =
    elim (allocate_cases a name w (b, err e) p) [
      | inl (known, found, q) ↦ cc q
      | inr (absent, s) ↦ (
        absent,
        elim (Bool-cases (is_taken a ip)) [
          | inl t ↦ t
          | inr free ↦
              let f : IsFree a ip = record { inside = inside; usable = usable; untaken = free } in
              elim (dec_lt ip (position a)) [
                | yes before ↦ absurd (w.full ip low before f)
                | no after ↦ absurd (s.4 ip (omega arith) high f)
              ]
        ],
      )
    ]
