-- ===== src/Intercept/Tproxy/Emitted.antt =====
-- What the transparent proxy hands over.
use outrelay_agent.Base.{
  ℕ, ◌+◌, ◌*◌, ◌/◌, ◌%◌, ◌^◌, ◌<◌, ◌≡◌, refl, ◌⊎◌, Bool, true, false, Option, none, some,
  Option-cases, inl, inr, List, [], ◌∷◌, Text, arith, nat_eq, text_eq,
}
use outrelay_agent.Base.Map.{lookup}
use outrelay_agent.Netip.{Addr, AddrPort, v4, v6, zero_addr}
use outrelay_agent.Intercept.Vip.{VipAllocator, lookup_vip, lookup_name}
use outrelay_agent.Intercept.Vip.Invariant.{IsWf}
use outrelay_agent.Intercept.Tproxy.{
  orig_dst4, Intercepted, Caught, accept_failed, conn, Proxied, lookup_addr, hand_over, drop_conn,
  with_svc, with_dst, accept_loop,
}

-- The bytes of a number below 2^32, the first one first.
pub big_endian4 : ℕ → List ℕ
big_endian4 n = n / 2 ^ 24 ∷ n / 2 ^ 16 % 256 ∷ n / 2 ^ 8 % 256 ∷ n % 256 ∷ []

-- Whatever eight bytes a sockaddr_in begins with, origDst4 returns the IPv4 address below 2^32 and
-- the port below 2^16 that the last four and the third and fourth are in network order.
pub orig_dst4_network_order :
    (f g p q a b c d : ℕ) (rest : List ℕ)
    → p < 256
    → q < 256
    → a < 256
    → b < 256
    → c < 256
    → d < 256
    → (n : ℕ) × (port : ℕ) × (orig_dst4 (some (f ∷ g ∷ p ∷ q ∷ a ∷ b ∷ c ∷ d ∷ rest))
        ≡ some (record { addr = v4 n; port = port }))
      × (n < 2 ^ 32)
      × (port < 2 ^ 16)
      × (big_endian4 n ≡ a ∷ b ∷ c ∷ d ∷ [])
      × (port / 2 ^ 8 ≡ p)
      × (port % 256 ≡ q)
unfolding orig_dst4 big_endian4
orig_dst4_network_order f g p q a b c d rest hp hq ha hb hc hd =
    let n = a * 2 ^ 24 + b * 2 ^ 16 + c * 2 ^ 8 + d in
    let first : n / 2 ^ 24 ≡ a = omega arith in
    let second : n / 2 ^ 16 % 256 ≡ b = omega arith in
    let third : n / 2 ^ 8 % 256 ≡ c = omega arith in
    let fourth : n % 256 ≡ d = omega arith in
    (
      n,
      p * 2 ^ 8 + q,
      refl,
      omega arith,
      omega arith,
      rw (first, second, third, fourth) refl,
      omega arith,
      omega arith,
    )

-- The name server's table resolves the service to the address that the connection went to.
pub record Resolves (alloc : VipAllocator) (i : Intercepted) : Type 0 where
  pub vip : ℕ
  pub dest : i.orig_dest.addr ≡ v4 vip
  pub forward : lookup_name alloc i.target ≡ some vip

-- A connection that is not one to a virtual address.
abbrev pub IsStray : VipAllocator → Bool → Option (List ℕ) → Type 0
IsStray alloc is_tcp raw =
    (is_tcp ≡ false)
    ⊎ (orig_dst4 raw ≡ none)
    ⊎ ((dst : AddrPort) × (orig_dst4 raw ≡ some dst) × (lookup_addr alloc dst.addr ≡ []))

-- What becomes of the connections, one by one: strays are closed, and the others are handed over,
-- until one is not taken, which is closed, or Accept fails.
pub data Accounts (alloc : VipAllocator) : List Caught → Proxied → Type 0 where
  waits : Accounts alloc [] (record { emitted = []; closed = []; ended = false })
  fails :
      {more : List Caught}
      → Accounts alloc (accept_failed ∷ more) (record { emitted = []; closed = []; ended = true })
  drops :
      {c : ℕ} {is_tcp : Bool} {raw : Option (List ℕ)} {taken : Bool} {more : List Caught}
      {r : Proxied}
      → IsStray alloc is_tcp raw
      → Accounts alloc more r
      → Accounts alloc (conn c is_tcp raw taken ∷ more) (record r { closed = c ∷ r.closed })
  hands :
      {c : ℕ} {raw : Option (List ℕ)} {more : List Caught} {r : Proxied} {i : Intercepted}
      → i.local ≡ c
      → orig_dst4 raw ≡ some i.orig_dest
      → Resolves alloc i
      → Accounts alloc more r
      → Accounts alloc (conn c true raw true ∷ more) (record r { emitted = i ∷ r.emitted })
  stops :
      {c : ℕ} {raw : Option (List ℕ)} {more : List Caught}
      → Accounts alloc
          (conn c true raw false ∷ more)
          (record { emitted = []; closed = c ∷ []; ended = true })

module _ (alloc : VipAllocator) (w : IsWf alloc) where
  resolved :
      (c : ℕ) (dst : AddrPort) (a : Addr) (x : ℕ) (svc : Text)
      → dst.addr ≡ a
      → lookup_addr alloc a ≡ x ∷ svc
      → Resolves alloc (record { local = c; orig_dest = dst; target = x ∷ svc })
  unfolding lookup_addr lookup_vip lookup_name
  resolved c dst zero_addr x svc e found = cc
  resolved c dst (v6 n) x svc e found = cc
  resolved c dst (v4 n) x svc e found = elim (Option-cases (lookup n alloc.ip_to_name)) [
    | inl absent ↦ ground (arith, absent, found)
    | inr (name, there) ↦ record {
      vip = n;
      dest = e;
      forward = w.back n (x ∷ svc) (ground (arith, there, found));
    }
  ]

  with_svc-Accounts :
      (c : ℕ) (raw : Option (List ℕ)) (dst : AddrPort) (svc : Text) (taken : Bool)
      (more : List Caught) (r : Proxied)
      → orig_dst4 raw ≡ some dst
      → lookup_addr alloc dst.addr ≡ svc
      → Accounts alloc more r
      → Accounts alloc (conn c true raw taken ∷ more) (with_svc c dst svc taken r)
  unfolding with_svc hand_over drop_conn
  with_svc-Accounts c raw dst [] taken more r went missing rest =
      drops (inr (inr (dst, went, missing))) rest
  with_svc-Accounts c raw dst (x ∷ svc) true more r went found rest =
      hands refl went (resolved c dst dst.addr x svc refl found) rest
  with_svc-Accounts c raw dst (x ∷ svc) false more r went found rest = stops

  -- Whatever the sockets answer, each connection that the transparent proxy accepts is handed over
  -- with the service that its address stands for, by the table that the name server reads too, or
  -- it is closed: because it is a stray, or because the interceptor is closed before it is taken.
  pub accept_loop-Accounts :
      (caught : List Caught) → Accounts alloc caught (accept_loop alloc caught)
  unfolding accept_loop with_dst drop_conn
  accept_loop-Accounts [] = waits
  accept_loop-Accounts (accept_failed ∷ more) = fails
  accept_loop-Accounts (conn c false raw taken ∷ more) =
      drops (inl refl) (accept_loop-Accounts more)
  accept_loop-Accounts (conn c true raw taken ∷ more) = elim (Option-cases (orig_dst4 raw)) [
    | inl unknown ↦ rw (unknown, with_dst) (drops (inr (inl unknown)) (accept_loop-Accounts more))
    | inr (dst, went) ↦
        rw (went, with_dst)
          (with_svc-Accounts c raw dst (lookup_addr alloc dst.addr) taken more
            (accept_loop alloc more) went refl (accept_loop-Accounts more))
  ]
