-- ===== src/Intercept/Vip/Invariant.antt =====
-- The allocator's invariant: its two maps are inverse to one another, and they hold the usable
-- addresses of the prefix from the first one up to the cursor, all of them and no other.
use native.Mathlib.Nat.{div-mul-le_self}
use outrelay_agent.Base.{
  ℕ, ◌+◌, ◌-◌, ◌^◌, ◌≤◌, ◌<◌, ◌≡◌, ◌≢◌, sym, ap, subst, ◌⊎◌, inl, inr, ==_iff, text_beq_iff, true,
  Option, none, some, Option-cases, dec_lt, Result, ok, err, Text, arith, nat_eq, text_eq,
}
use outrelay_agent.Base.Map.{lookup, insert, lookup-insert}
use outrelay_agent.Netip.{Prefix, v4, masked_v4, contains_v4, v4_space}
use outrelay_agent.Intercept.Vip.Scan.{
  position, position_of, IsCursor, IsFree, Scanned, allocate_loop-Scanned, allocate_loop_total,
  next_v4-IsCursor, next_v4_position,
}
use outrelay_agent.Intercept.Vip.{
  VipAllocator, VipError, is_usable, is_taken, advance, install, allocate, empty_pool,
  new_vip_allocator,
}

pub record IsWf (a : VipAllocator) : Type 0 where
  pub cursor : IsCursor a.next
  pub started : a.base < position a
  pub forth :
      (name : Text) (ip : ℕ)
      → lookup name a.name_to_ip ≡ some ip
      → lookup ip a.ip_to_name ≡ some name
  pub back :
      (ip : ℕ) (name : Text)
      → lookup ip a.ip_to_name ≡ some name
      → lookup name a.name_to_ip ≡ some ip
  pub inside : (ip : ℕ) → is_taken a ip ≡ true → contains_v4 a.base a.bits ip ≡ true
  pub usable : (ip : ℕ) → is_taken a ip ≡ true → is_usable ip ≡ true
  pub behind : (ip : ℕ) → is_taken a ip ≡ true → (a.base < ip) × (ip < position a)
  pub full : (ip : ℕ) → a.base < ip → ip < position a → ¬ IsFree a ip

taken-install :
    (a : VipAllocator) (name : Text) (ip m : ℕ)
    → is_taken (install (advance a ip) name ip) m ≡ true
    → (m ≡ ip) ⊎ (is_taken a m ≡ true)
unfolding install advance is_taken
taken-install a name ip m h = ground (arith, lookup-insert ip m name a.ip_to_name, ==_iff ip m)

install-taken :
    (a : VipAllocator) (name : Text) (ip m : ℕ)
    → (m ≡ ip) ⊎ (is_taken a m ≡ true)
    → is_taken (install (advance a ip) name ip) m ≡ true
unfolding install advance is_taken
install-taken a name ip m h = ground (arith, lookup-insert ip m name a.ip_to_name, ==_iff ip m)

IsFree-before_install :
    (a : VipAllocator) (name : Text) (ip m : ℕ)
    → IsFree (install (advance a ip) name ip) m
    → IsFree a m × (m ≢ ip)
unfolding install advance is_taken
IsFree-before_install a name ip m f = (
  record {
    inside = f.inside;
    usable = f.usable;
    untaken = ground (arith, f.untaken, lookup-insert ip m name a.ip_to_name, ==_iff ip m);
  },
  λ e. ground (arith, f.untaken, lookup-insert ip m name a.ip_to_name, ==_iff ip m),
)

module _ (a : VipAllocator) (name : Text) (ip : ℕ) (w : IsWf a)
    (absent : lookup name a.name_to_ip ≡ none) (free : IsFree a ip) where
  untaken : lookup ip a.ip_to_name ≡ none
  unfolding is_taken
  untaken = ground (arith, free.untaken)

  install-forth :
      (n : Text) (m : ℕ)
      → lookup n (insert name ip a.name_to_ip) ≡ some m
      → lookup m (insert ip name a.ip_to_name) ≡ some n
  install-forth n m h = ground (
    arith,
    lookup-insert name n ip a.name_to_ip,
    lookup-insert ip m name a.ip_to_name,
    text_beq_iff name n,
    ==_iff ip m,
    w.forth n m,
    untaken,
  )

  install-back :
      (m : ℕ) (n : Text)
      → lookup m (insert ip name a.ip_to_name) ≡ some n
      → lookup n (insert name ip a.name_to_ip) ≡ some m
  install-back m n h = ground (
    arith,
    lookup-insert name n ip a.name_to_ip,
    lookup-insert ip m name a.ip_to_name,
    text_beq_iff name n,
    ==_iff ip m,
    w.back m n,
    absent,
  )

  install-IsWf :
      ip < v4_space
      → position a ≤ ip
      → ((m : ℕ) → position a ≤ m → m < ip → ¬ IsFree a m)
      → IsWf (install (advance a ip) name ip)
  unfolding install advance
  install-IsWf h lo skipped = record {
    cursor = next_v4-IsCursor ip;
    started = omega (arith, next_v4_position ip h, w.started);
    forth = install-forth;
    back = install-back;
    inside = λ m t. elim (taken-install a name ip m t) [
      | inl e ↦ rw e free.inside
      | inr old ↦ w.inside m old
    ];
    usable = λ m t. elim (taken-install a name ip m t) [
      | inl e ↦ rw e free.usable
      | inr old ↦ w.usable m old
    ];
    behind = λ m t. elim (taken-install a name ip m t) [
      | inl e ↦ omega (arith, next_v4_position ip h, w.started)
      | inr old ↦ omega (arith, next_v4_position ip h, w.behind m old)
    ];
    full = λ m low high f.
        let (was, other) = IsFree-before_install a name ip m f in
        elim (dec_lt m (position a)) [
          | yes before ↦ w.full m low before was
          | no after ↦ skipped m (omega arith) (omega (arith, next_v4_position ip h)) was
        ];
  }

position_lt : (o : Option ℕ) → IsCursor o → (m : ℕ) → m < position_of o → m < v4_space
position_lt none c m h = h
position_lt (some n) c m h = omega arith

-- The pool with the cursor moved to its end, as a failed search leaves it.
exhausted-IsWf :
    (a b : VipAllocator)
    → IsWf a
    → b ≡ record a { next = b.next }
    → IsCursor b.next
    → position a ≤ position b
    → ((m : ℕ) → position a ≤ m → m < v4_space → ¬ IsFree a m)
    → IsWf b
unfolding is_taken
exhausted-IsWf a b w e c later spent = subst IsWf (sym e) (moved b.next c later)
  where
    before : (m : ℕ) → a.base < m → m < v4_space → IsFree a m → ⊥
    before m low high f = elim (dec_lt m (position a)) [
      | yes p ↦ w.full m low p f
      | no p ↦ spent m (omega arith) high f
    ]

    moved : (n : Option ℕ) → IsCursor n → position a ≤ position_of n → IsWf (record a { next = n })
    moved n c later = record {
      cursor = c;
      started = omega (arith, w.started);
      forth = w.forth;
      back = w.back;
      inside = w.inside;
      usable = w.usable;
      behind = λ m t. omega (arith, w.behind m t);
      full = λ m low high f.
          before m low (position_lt n c m high)
            (record { inside = f.inside; usable = f.usable; untaken = f.untaken });
    }

-- Each outcome of a search for a new name keeps the invariant.
Scanned-IsWf :
    (a : VipAllocator) (name : Text)
    → IsWf a
    → lookup name a.name_to_ip ≡ none
    → (r : VipAllocator × Result VipError ℕ) → Scanned a name r
    → IsWf r.0
Scanned-IsWf a name w absent (b, ok ip) s =
    subst IsWf (sym s.0) (install-IsWf a name ip w absent s.1 s.2 s.3 s.4)
Scanned-IsWf a name w absent (b, err e) s = exhausted-IsWf a b w s.1 s.2 s.3 s.4

-- What Allocate does: a known name has its address, and the search answers for a new one.
pub allocate_cases :
    (a : VipAllocator) (name : Text)
    → IsWf a
    → (r : VipAllocator × Result VipError ℕ) → allocate a name ≡ some r
    → ((ip : ℕ) × (lookup name a.name_to_ip ≡ some ip) × (r ≡ (a, ok ip)))
      ⊎ ((lookup name a.name_to_ip ≡ none) × Scanned a name r)
unfolding allocate
allocate_cases a name w r p = elim (Option-cases (lookup name a.name_to_ip)) [
  | inl e ↦ inr (
    e,
    allocate_loop-Scanned (v4_space + 1) a name w.cursor (omega (arith, w.started)) r
        (ground arith),
  )
  | inr (ip, e) ↦ inl (ip, e, ground arith)
]

-- Allocate keeps the invariant, whether it finds an address, makes one or fails: the two maps are
-- inverse to each other, and hold exactly the usable addresses of the prefix that lie between the
-- network address and the cursor.
pub allocate-IsWf :
    (a : VipAllocator) (name : Text) (b : VipAllocator) (r : Result VipError ℕ)
    → IsWf a
    → allocate a name ≡ some (b, r)
    → IsWf b
allocate-IsWf a name b r w p = elim (allocate_cases a name w (b, r) p) [
  | inl (ip, e, q) ↦ subst IsWf (ap (λ x. x.0) (sym q)) w
  | inr (absent, s) ↦ Scanned-IsWf a name w absent (b, r) s
]

-- Allocate returns, on every pool whose cursor is an IPv4 address or at the end.
pub allocate_total : (a : VipAllocator) (name : Text) → IsCursor a.next → allocate a name ≢ none
unfolding allocate
allocate_total a name c = ground (arith, allocate_loop_total (v4_space + 1) a name c)

pub empty_pool-IsWf : (base bits : ℕ) → base < v4_space → IsWf (empty_pool base bits)
unfolding empty_pool is_taken lookup
empty_pool-IsWf base bits h = record {
  cursor = next_v4-IsCursor base;
  started = omega (arith, next_v4_position base h);
  forth = λ name ip e. cc;
  back = λ ip name e. cc;
  inside = λ ip t. cc;
  usable = λ ip t. cc;
  behind = λ ip t. absurd (cc);
  full = λ ip low high f. omega (arith, next_v4_position base h);
}

-- What NewVIPAllocator returns satisfies the invariant of the allocator.
pub new_vip_allocator-IsWf :
    (parse : Text → Option Prefix) (cidr : Text) (n bits : ℕ) (a : VipAllocator)
    → parse cidr ≡ some (record { addr = v4 n; bits = bits })
    → n < v4_space
    → new_vip_allocator parse cidr ≡ ok a
    → IsWf a
unfolding new_vip_allocator masked_v4
new_vip_allocator-IsWf parse cidr n bits a p h q =
    let low : masked_v4 n bits ≤ n = div-mul-le_self n (2 ^ (32 - bits)) in
    let made : empty_pool (masked_v4 n bits) bits ≡ a = ground (arith, p) in
    subst IsWf made (empty_pool-IsWf (masked_v4 n bits) bits (omega arith))
