-- ===== src/Intercept/Vip/Tests.antt =====
-- Pools of two addresses, 10.0.0.0/31: one VIP, then exhaustion.
use outrelay_agent.Base.{
  ℕ, ◌+◌, ◌≡◌, ◌≢◌, refl, true, Option, none, some, ok, err, Text, [], ◌∷◌, arith, nat_eq, text_eq,
}
use outrelay_agent.Base.Map.{lookup, insert}
use outrelay_agent.Netip.{Prefix, v4, next_v4, contains_v4, masked_v4}
use outrelay_agent.Intercept.Vip.Invariant.{
  IsWf, empty_pool-IsWf, new_vip_allocator-IsWf, allocate-IsWf, allocate_total,
}
use outrelay_agent.Intercept.Vip.Directory.{
  Serves, allocate-Serves, allocate-allocate, allocate-others, lookup_name-injective,
  allocate_exhausted,
}
use outrelay_agent.Intercept.Vip.{
  VipAllocator, pool_exhausted, is_usable, is_taken, advance, install, allocate, allocate_loop,
  empty_pool, new_vip_allocator, lookup_name,
}

abbrev network : ℕ
network = 0x0a000000

abbrev pay : Text
pay = b'p' ∷ b'a' ∷ b'y' ∷ []

abbrev mail : Text
mail = b'm' ∷ b'a' ∷ b'i' ∷ b'l' ∷ []

-- Stands for a parser that reads every text as 10.0.0.1/31.
abbrev parse_test : Text → Option Prefix
parse_test s = some (record { addr = v4 0x0a000001; bits = 31 })

abbrev fresh : VipAllocator
fresh = empty_pool network 31

fresh-IsWf : IsWf fresh
fresh-IsWf = empty_pool-IsWf network 31 (omega arith)

-- The pool after `pay` has its address, and after a failed call for `mail`.
abbrev paid : VipAllocator
paid = install (advance fresh (network + 1)) pay (network + 1)

pay_allocation : allocate fresh pay ≡ some (paid, ok (network + 1))
unfolding allocate allocate_loop advance install is_taken lookup insert is_usable contains_v4
    next_v4 empty_pool
pay_allocation = refl

paid-IsWf : IsWf paid
paid-IsWf = allocate-IsWf fresh pay paid (ok (network + 1)) fresh-IsWf pay_allocation

mail_allocation : allocate paid mail ≡ some (paid, err pool_exhausted)
unfolding allocate allocate_loop advance install is_taken lookup insert is_usable contains_v4
    next_v4 empty_pool
mail_allocation = refl

lookup_pay : lookup_name paid pay ≡ some (network + 1)
unfolding lookup_name advance install lookup insert empty_pool
lookup_pay = refl

applied_new_vip_allocator_iswf : IsWf fresh
unfolding new_vip_allocator masked_v4
applied_new_vip_allocator_iswf =
    new_vip_allocator-IsWf parse_test [] 0x0a000001 31 fresh refl (omega arith) refl

allocate_total_example : allocate paid mail ≢ none
unfolding advance install next_v4
allocate_total_example = allocate_total paid mail (omega arith)

allocate-IsWf_example : IsWf paid
allocate-IsWf_example = allocate-IsWf fresh pay paid (ok (network + 1)) fresh-IsWf pay_allocation

applied_allocate-Serves : Serves paid pay (network + 1)
applied_allocate-Serves = allocate-Serves fresh pay paid (network + 1) fresh-IsWf pay_allocation

applied_allocate-allocate : allocate paid pay ≡ some (paid, ok (network + 1))
applied_allocate-allocate = allocate-allocate fresh pay paid (network + 1) fresh-IsWf pay_allocation

applied_allocate-others : lookup_name paid pay ≡ lookup_name paid pay
applied_allocate-others =
    allocate-others paid mail pay paid (err pool_exhausted) paid-IsWf (λ e. cc) mail_allocation

applied_lookup_name_injective : pay ≡ pay
applied_lookup_name_injective =
    lookup_name-injective paid pay pay (network + 1) paid-IsWf lookup_pay lookup_pay

allocate_exhausted_example : (lookup_name paid mail ≡ none) × (is_taken paid (network + 1) ≡ true)
unfolding advance install empty_pool contains_v4 is_usable
allocate_exhausted_example =
    allocate_exhausted paid mail paid pool_exhausted (network + 1) paid-IsWf mail_allocation
      (omega arith) (omega arith) refl refl
