-- ===== src/Intercept/Vip/Scan.antt =====
-- The loop of Allocate: it ends within its fuel, and what its two outcomes mean.
use outrelay_agent.Base.{
  ℕ, zero, suc, ◌+◌, ◌^◌, ◌-◌, ◌≤◌, ◌<◌, ◌≡◌, ◌≢◌, refl, ap, inl, inr, Option-cases, Bool-cases,
  dec_lt, subst, div_mono, true, false, Option, none, some, Result, ok, err, Text, arith,
}
use outrelay_agent.Netip.{next_v4, contains_v4, v4_space}
use outrelay_agent.Intercept.Vip.{
  VipAllocator, VipError, pool_exhausted, is_usable, is_taken, advance, install, allocate_loop,
}

-- The cursor as a number: past the last address it is 2^32.
abbrev pub position_of : Option ℕ → ℕ
position_of none = v4_space
position_of (some n) = n

abbrev pub position : VipAllocator → ℕ
position a = position_of a.next

-- The loop hands out `ip` when it comes to it.
pub record IsFree (a : VipAllocator) (ip : ℕ) : Type 0 where
  pub inside : contains_v4 a.base a.bits ip ≡ true
  pub usable : is_usable ip ≡ true
  pub untaken : is_taken a ip ≡ false

-- The cursor is an address, or none is left.
abbrev pub IsCursor : Option ℕ → Type 0
IsCursor none = Unit {0}
IsCursor (some n) = n < v4_space

position_bound : (o : Option ℕ) → IsCursor o → ¬ (v4_space < 0 + position_of o)
position_bound none c h = omega arith
position_bound (some n) c h = omega arith

cursor_lt : {n : ℕ} (o : Option ℕ) → IsCursor o → o ≡ some n → n < v4_space
cursor_lt none c e = cc
cursor_lt (some n) c e = ground arith

pub next_v4-IsCursor : (n : ℕ) → IsCursor (next_v4 n)
unfolding next_v4
next_v4-IsCursor n = ground arith

pub next_v4_position : (n : ℕ) → n < v4_space → position_of (next_v4 n) ≡ n + 1
unfolding next_v4
next_v4_position n h = ground arith

pub allocate_loop_total :
    (fuel : ℕ) (a : VipAllocator) (name : Text)
    → IsCursor a.next
    → v4_space < fuel + position a
    → allocate_loop fuel a name ≢ none
unfolding allocate_loop advance
allocate_loop_total zero a name c h = absurd (position_bound a.next c h)
allocate_loop_total (suc fuel) a name c h = elim (Option-cases a.next) [
  | inl e ↦ rw (e, allocate_loop) (λ p. cc)
  | inr (ip, e) ↦
      let here : ip < v4_space = cursor_lt a.next c e in
      ground (
        arith,
        e,
        here,
        next_v4_position ip here,
        ap position_of e,
        allocate_loop_total fuel (advance a ip) name (next_v4-IsCursor ip),
      )
]

contains_v4_beyond :
    (base bits n m : ℕ)
    → base ≤ n
    → n ≤ m
    → contains_v4 base bits n ≡ false
    → contains_v4 base bits m ≡ false
unfolding contains_v4
contains_v4_beyond base bits n m h k out =
    let size = 2 ^ (32 - bits) in ground (arith, div_mono size base n h, div_mono size n m k)

abbrev pub Scanned : VipAllocator → Text → VipAllocator × Result VipError ℕ → Type 0
Scanned a name (b, ok ip) =
    (b ≡ install (advance a ip) name ip)
    × IsFree a ip
    × (ip < v4_space)
    × (position a ≤ ip)
    × ((m : ℕ) → position a ≤ m → m < ip → ¬ IsFree a m)
Scanned a name (b, err e) =
    (e ≡ pool_exhausted)
    × (b ≡ record a { next = b.next })
    × IsCursor b.next
    × (position a ≤ position b)
    × ((m : ℕ) → position a ≤ m → m < v4_space → ¬ IsFree a m)

IsFree-advance : (a : VipAllocator) (ip m : ℕ) → IsFree a m → IsFree (advance a ip) m
unfolding advance is_taken
IsFree-advance a ip m f = record { inside = f.inside; usable = f.usable; untaken = f.untaken }

module _ (a : VipAllocator) (name : Text) (ip : ℕ) (e : a.next ≡ some ip) (h : ip < v4_space)
    (busy : ¬ IsFree a ip) where
  cursor_beyond : (m : ℕ) → position a ≤ m → IsFree a m → position_of (next_v4 ip) ≤ m
  cursor_beyond m lo f = elim (dec_lt ip m) [
    | yes past ↦ omega (arith, next_v4_position ip h)
    | no here ↦
        let same : m ≡ ip = omega (arith, ap position_of e) in
        absurd (busy (subst (IsFree a) same f))
  ]

  -- Past an address that is not free the search says as much of the pool before it.
  Scanned-advance :
      (r : VipAllocator × Result VipError ℕ) → Scanned (advance a ip) name r → Scanned a name r
  unfolding advance is_taken
  Scanned-advance (b, ok found) s = (
    s.0,
    record { inside = s.1.inside; usable = s.1.usable; untaken = s.1.untaken },
    s.2,
    omega (arith, ap position_of e, next_v4_position ip h, s.3),
    λ m lo hi f. s.4 m (cursor_beyond m lo f) hi (IsFree-advance a ip m f),
  )
  Scanned-advance (b, err x) s = (
    s.0,
    s.1,
    s.2,
    omega (arith, ap position_of e, next_v4_position ip h, s.3),
    λ m lo hi f. s.4 m (cursor_beyond m lo f) hi (IsFree-advance a ip m f),
  )

module _ (a : VipAllocator) (name : Text) (c : IsCursor a.next) where
  stopped : a.next ≡ none → Scanned a name (a, err pool_exhausted)
  stopped e = (refl, refl, c, omega arith, λ m lo hi f. omega (arith, ap position_of e))

  outside :
      (ip : ℕ)
      → a.next ≡ some ip
      → a.base ≤ position a
      → contains_v4 a.base a.bits ip ≡ false
      → Scanned a name (a, err pool_exhausted)
  outside ip e low out = (
    refl,
    refl,
    c,
    omega arith,
    λ m lo hi f.
        let gone =
          contains_v4_beyond a.base a.bits ip m (omega (arith, ap position_of e))
            (omega (arith, ap position_of e)) out in
        cc (gone, f.inside),
  )

  found :
      (ip : ℕ)
      → a.next ≡ some ip
      → IsFree a ip
      → Scanned a name (install (advance a ip) name ip, ok ip)
  found ip e free = (
    refl,
    free,
    cursor_lt a.next c e,
    omega (arith, ap position_of e),
    λ m lo hi f. omega (arith, ap position_of e),
  )

settle :
    (a : VipAllocator) (name : Text) (x r : VipAllocator × Result VipError ℕ)
    → x ≡ r
    → Scanned a name x
    → Scanned a name r
settle a name x r e s = subst (Scanned a name) e s

-- What the loop returns is the first free address at or after the cursor, or there is none.
pub allocate_loop-Scanned :
    (fuel : ℕ) (a : VipAllocator) (name : Text)
    → IsCursor a.next
    → a.base ≤ position a
    → (r : VipAllocator × Result VipError ℕ) → allocate_loop fuel a name ≡ some r
    → Scanned a name r
unfolding allocate_loop advance
allocate_loop-Scanned zero a name c low r p = cc
allocate_loop-Scanned (suc fuel) a name c low r p = elim (Option-cases a.next) [
  | inl e ↦ settle a name (a, err pool_exhausted) r (ground arith) (stopped a name c e)
  | inr (ip, e) ↦
      let here = cursor_lt a.next c e in
      let further = λ (q : allocate_loop fuel (advance a ip) name ≡ some r).
        allocate_loop-Scanned fuel (advance a ip) name (next_v4-IsCursor ip)
          (omega (arith, ap position_of e, next_v4_position ip here)) r q in
      elim (Bool-cases (contains_v4 a.base a.bits ip)) [
        | inr out ↦
            settle a name (a, err pool_exhausted) r (ground arith) (outside a name c ip e low out)
        | inl inside ↦ elim (Bool-cases (is_usable ip)) [
          | inr bad ↦
              Scanned-advance a name ip e here (λ f. cc (f.usable, bad)) r (further (ground arith))
          | inl usable ↦ elim (Bool-cases (is_taken a ip)) [
            | inl taken ↦
                Scanned-advance a name ip e here (λ f. cc (f.untaken, taken)) r
                  (further (ground arith))
            | inr free ↦
                settle a name (install (advance a ip) name ip, ok ip) r (ground arith)
                  (found a name c ip e
                    (record { inside = inside; usable = usable; untaken = free }))
          ]
        ]
      ]
]
