-- ===== src/Intercept/Tproxy/Tests.antt =====
-- A proxy for one service: a connection to its address, one to another address, and one that is not
-- taken any more.
use outrelay_agent.Base.{
  ℕ, ◌/◌, ◌%◌, ◌^◌, ◌<◌, ◌≡◌, refl, true, false, Option, some, ok, List, [], ◌∷◌, Text, arith,
  nat_eq, text_eq,
}
use outrelay_agent.Base.Map.{lookup, insert}
use outrelay_agent.Netip.{v4, next_v4, contains_v4}
use outrelay_agent.Intercept.Vip.{
  VipAllocator, install, advance, empty_pool, allocate, allocate_loop, is_taken, is_usable,
  lookup_vip,
}
use outrelay_agent.Intercept.Vip.Invariant.{IsWf, empty_pool-IsWf, allocate-IsWf}
use outrelay_agent.Intercept.Tproxy.{orig_dst4, Caught, conn, lookup_addr, accept_loop}
use outrelay_agent.Intercept.Tproxy.Emitted.{
  Accounts, accept_loop-Accounts, big_endian4, orig_dst4_network_order,
}

abbrev pay : Text
pay = b'p' ∷ b'a' ∷ b'y' ∷ []

-- 10.0.0.0/24 with one service.
abbrev fresh : VipAllocator
fresh = empty_pool 0x0a000000 24

abbrev pool : VipAllocator
pool = install (advance fresh 0x0a000001) pay 0x0a000001

allocated : allocate fresh pay ≡ some (pool, ok 0x0a000001)
unfolding allocate allocate_loop advance install is_taken lookup insert is_usable contains_v4
    next_v4 empty_pool
allocated = refl

pool-IsWf : IsWf pool
pool-IsWf =
    allocate-IsWf fresh pay pool (ok 0x0a000001) (empty_pool-IsWf 0x0a000000 24 (omega arith))
      allocated

-- 10.0.0.last, port 80.
abbrev to_host : ℕ → Option (List ℕ)
to_host last = some (2 ∷ 0 ∷ 0 ∷ 80 ∷ 10 ∷ 0 ∷ 0 ∷ last ∷ [])

abbrev caught : List Caught
caught =
    conn 1 true (to_host 1) true ∷ conn 2 true (to_host 9) true ∷ conn 3 true (to_host 1) false ∷ []

proxied : accept_loop pool caught ≡ record {
  emitted =
      record { local = 1; orig_dest = record { addr = v4 0x0a000001; port = 80 }; target = pay }
      ∷ [];
  closed = 2 ∷ 3 ∷ [];
  ended = true;
}
unfolding accept_loop orig_dst4 lookup_addr lookup_vip lookup insert install advance empty_pool
    next_v4
proxied = refl

accept_loop-Accounts_example : Accounts pool caught (accept_loop pool caught)
accept_loop-Accounts_example = accept_loop-Accounts pool pool-IsWf caught

orig_dst4_network_order_example :
    (n : ℕ) × (port : ℕ) × (orig_dst4 (to_host 9) ≡ some (record { addr = v4 n; port = port }))
    × (n < 2 ^ 32)
    × (port < 2 ^ 16)
    × (big_endian4 n ≡ 10 ∷ 0 ∷ 0 ∷ 9 ∷ [])
    × (port / 2 ^ 8 ≡ 0)
    × (port % 256 ≡ 80)
orig_dst4_network_order_example =
    orig_dst4_network_order 2 0 0 80 10 0 0 9 [] (omega arith) (omega arith) (omega arith)
      (omega arith) (omega arith) (omega arith)
