-- ===== src/Forward/Framing.antt =====
-- The wire format of the forwarding plane: a packet names the peer's allocation, and cannot be
-- taken for a registration.
use mathlib.Core.List.{append-nil}
use outrelay_agent.Base.{
  if◌then◌else◌, map, ◌==◌, ==_iff, ℕ, ◌+◌, ◌*◌, ◌/◌, ◌%◌, ◌^◌, ◌≤◌, ◌<◌, ap, sym, ◌∙◌, subst,
  ℕ_discrete, Bool-cases, take_all, ◌≡◌, ◌≢◌, refl, true, false, Bool, Option, none, some, ok, err,
  List, [], ◌∷◌, ◌++◌, length, arith, ◌⊎◌, inl, inr,
}
use outrelay_agent.Netip.{AddrPort}
use outrelay_agent.Forward.{
  Conn, zero_alloc, bind_failed, register_failed, UdpEvent, bound, sent, closed, put_uint32,
  registration, dial, packet, write_to, read_from,
}

-- What the header of a datagram says, by the format that the package documents: the allocation that
-- it is for, 0 for a registration, and the payload.
unfoldable pub header : List ℕ → Option (ℕ × List ℕ)
header (a ∷ b ∷ c ∷ d ∷ payload) = some (((a * 256 + b) * 256 + c) * 256 + d, payload)
header _ = none

put_uint32_value :
    (n : ℕ)
    → n < 2 ^ 32
    → ((n / 2 ^ 24 % 256 * 256 + n / 2 ^ 16 % 256) * 256 + n / 2 ^ 8 % 256) * 256 + n % 256 ≡ n
put_uint32_value n h = omega arith

pub header-put_uint32 : (n : ℕ) (p : List ℕ) → n < 2 ^ 32 → header (put_uint32 n ++ p) ≡ some (n, p)
unfolding header put_uint32
header-put_uint32 n p h = ap (λ v. some (v, p)) (put_uint32_value n h)

-- On success a write sends one datagram to the relay, which reads as the peer's allocation and the
-- payload, and returns the payload's length; on failure it sends nothing.
pub write_to-header :
    (c : Conn) (p : List ℕ) (writable : Bool)
    → c.peer_alloc < 2 ^ 32
    → ((writable ≡ true)
        × (write_to c p writable ≡ (some (length p), sent (packet c p) c.relay ∷ []))
        × (header (packet c p) ≡ some (c.peer_alloc, p)))
      ⊎ ((writable ≡ false) × (write_to c p writable ≡ (none, [])))
unfolding write_to packet
write_to-header c p true h = inl (refl, refl, header-put_uint32 c.peer_alloc p h)
write_to-header c p false h = inr (refl, refl)

-- What the relay sends on to the peer that registered an allocation, by the format of the plane: the
-- payloads of the datagrams whose header names it.
unfoldable pub relayed : ℕ → List UdpEvent → List (List ℕ)
relayed alloc [] = []
relayed alloc (bound ∷ events) = relayed alloc events
relayed alloc (closed ∷ events) = relayed alloc events
relayed alloc (sent datagram relay ∷ events) =
    let rest = relayed alloc events in
    elim (header datagram) [
      | none ↦ rest
      | some (named, payload) ↦ if named == alloc then payload ∷ rest else rest
    ]

-- The allocations that the datagrams register, by the format of the plane.
unfoldable pub registered_by : List UdpEvent → List ℕ
registered_by [] = []
registered_by (bound ∷ events) = registered_by events
registered_by (closed ∷ events) = registered_by events
registered_by (sent datagram relay ∷ events) =
    let rest = registered_by events in
    elim (header datagram) [
      | none ↦ rest
      | some (named, body) ↦
          if named == 0
          then elim (header body) [ none ↦ rest | some (n, more) ↦ n ∷ rest ]
          else rest
    ]

-- Where the datagrams go.
unfoldable pub destinations : List UdpEvent → List AddrPort
destinations [] = []
destinations (bound ∷ events) = destinations events
destinations (closed ∷ events) = destinations events
destinations (sent datagram relay ∷ events) = relay ∷ destinations events

relayed_one :
    (alloc : ℕ) (datagram payload : List ℕ) (relay : AddrPort)
    → header datagram ≡ some (alloc, payload)
    → relayed alloc (sent datagram relay ∷ []) ≡ payload ∷ []
unfolding relayed
relayed_one alloc datagram payload relay e = rw (e, relayed, (==_iff alloc alloc).1 refl) refl

abbrev pub Read : Type 0
Read = Option (List ℕ × ℕ × AddrPort)

-- One write of a connection whose peer allocation is that of the reader: the write says that all
-- its bytes are sent, or that it failed; and what the relay sends on of it, read in a buffer that is
-- large enough, is exactly those bytes, once, under the relay's address, and nothing when the write
-- failed.
pub read_from-write_to :
    (c d : Conn) (p : List ℕ) (writable : Bool) (size : ℕ)
    → d.peer_alloc ≡ c.my_alloc
    → d.peer_alloc < 2 ^ 32
    → length p ≤ size
    → ((write_to d p writable).0 ≡ (if writable then some (length p) else none))
      × (map
            (λ payload. read_from c size (some payload))
            (relayed c.my_alloc (write_to d p writable).1)
          ≡ (if writable then some (p, length p, c.relay) ∷ [] else []))
unfolding write_to packet relayed
read_from-write_to c d p false size paired low fits = (refl, refl)
read_from-write_to c d p true size paired low fits =
    let whole : read_from c size (some p) ≡ some (p, length p, c.relay) =
      unfold read_from in
      rw (take_all size p fits) (ap (λ n. some (p, n, c.relay)) (omega arith)) in
    let named : header (put_uint32 d.peer_alloc ++ p) ≡ some (c.my_alloc, p) =
      header-put_uint32 d.peer_alloc p low ∙ ap (λ n. some (n, p)) paired in
    (
      refl,
      ap (map (λ payload. read_from c size (some payload)))
            (relayed_one c.my_alloc (put_uint32 d.peer_alloc ++ p) p d.relay named)
          ∙ ap (λ r. r ∷ []) whole,
    )

dialled :
    (relay : AddrPort) (my peer : ℕ) (bindable writable : Bool) (c : Conn) (events : List UdpEvent)
    → dial relay my peer bindable writable ≡ (ok c, events)
    → (record { relay = relay; peer_alloc = peer; my_alloc = my } ≡ c) × (peer ≢ 0)
unfolding dial
dialled relay my peer true true c events e = (ground arith, λ z. ground arith)
dialled relay my peer true false c events e = absurd (ground arith)
dialled relay my peer false writable c events e = absurd (ground arith)

-- A packet of a connection that Dial returned never reads as a registration, and the registration
-- reads as allocation 0 with the connection's own allocation behind it.
pub registration_distinct :
    (relay : AddrPort) (my peer : ℕ) (p : List ℕ) (bindable writable : Bool) (c : Conn)
    (events : List UdpEvent)
    → my < 2 ^ 32
    → peer < 2 ^ 32
    → dial relay my peer bindable writable ≡ (ok c, events)
    → (header (registration c) ≡ some (0, put_uint32 my))
      × (header (packet c p) ≡ some (peer, p))
      × (peer ≢ 0)
unfolding packet registration
registration_distinct relay my peer p bindable writable c events h k e =
    let (made, set) = dialled relay my peer bindable writable c events e in
    (
      header-put_uint32 0 (put_uint32 c.my_alloc) (omega arith)
          ∙ ap (λ (d : Conn). some (0, put_uint32 d.my_alloc)) (sym made),
      subst (λ (d : Conn). header (put_uint32 d.peer_alloc ++ p) ≡ some (peer, p)) made
          (header-put_uint32 peer p k),
      set,
    )

-- The three errors and the success of Dial, with the socket's events: no socket is left open by an
-- error, and the registration is sent to the relay exactly on success.
pub dial_cases :
    (relay : AddrPort) (my peer : ℕ) (bindable writable : Bool)
    → let c : Conn = record { relay = relay; peer_alloc = peer; my_alloc = my } in
      (((my ≡ 0) ⊎ (peer ≡ 0)) × (dial relay my peer bindable writable ≡ (err zero_alloc, [])))
      ⊎ ((bindable ≡ false) × (dial relay my peer bindable writable ≡ (err bind_failed, [])))
      ⊎ ((writable ≡ false)
          × (dial relay my peer bindable writable ≡ (err register_failed, bound ∷ closed ∷ [])))
      ⊎ ((my ≢ 0)
          × (peer ≢ 0)
          × (dial relay my peer bindable writable
              ≡ (ok c, bound ∷ sent (registration c) relay ∷ [])))
unfolding dial
dial_cases relay my peer bindable writable = elim (ℕ_discrete my 0) [
  | yes z ↦ inl (inl z, ground arith)
  | no my_set ↦ elim (ℕ_discrete peer 0) [
    | yes z ↦ inl (inr z, ground arith)
    | no peer_set ↦ elim (Bool-cases bindable) [
      | inr unbound ↦ inr (inl (unbound, ground arith))
      | inl b ↦ elim (Bool-cases writable) [
        | inr silent ↦ inr (inr (inl (silent, ground arith)))
        | inl w ↦ inr (inr (inr (my_set, peer_set, ground arith)))
      ]
    ]
  ]
]

registered_of :
    (datagram body : List ℕ) (n : ℕ) (relay : AddrPort)
    → header datagram ≡ some (0, body)
    → header body ≡ some (n, [])
    → registered_by (bound ∷ sent datagram relay ∷ []) ≡ n ∷ []
unfolding registered_by
registered_of datagram body n relay e f = rw (e, registered_by, f) refl

registered_one :
    (n : ℕ) (relay : AddrPort)
    → n < 2 ^ 32
    → registered_by (bound ∷ sent (put_uint32 0 ++ put_uint32 n) relay ∷ []) ≡ n ∷ []
registered_one n relay low =
    registered_of (put_uint32 0 ++ put_uint32 n) (put_uint32 n) n relay
      (header-put_uint32 0 (put_uint32 n) (omega arith))
      (subst (λ body. header body ≡ some (n, [])) (append-nil (put_uint32 n))
        (header-put_uint32 n [] low))

-- A Dial that succeeds sends one datagram, which registers its allocation, to its relay.
pub dial-registered_by :
    (relay : AddrPort) (my peer : ℕ) (bindable writable : Bool) (c : Conn) (events : List UdpEvent)
    → my < 2 ^ 32
    → dial relay my peer bindable writable ≡ (ok c, events)
    → (registered_by events ≡ my ∷ []) × (destinations events ≡ relay ∷ [])
unfolding registration destinations
dial-registered_by relay my peer bindable writable c events low e =
    elim (dial_cases relay my peer bindable writable) [
      | inl (z, f) ↦ absurd (cc)
      | inr (inl (b, f)) ↦ absurd (cc)
      | inr (inr (inl (w, f))) ↦ absurd (cc)
      | inr (inr (inr (m, q, f))) ↦
          let same : events ≡ bound ∷ sent (put_uint32 0 ++ put_uint32 my) relay ∷ [] = cc in
          rw same (registered_one my relay low, refl)
    ]

-- What a write that succeeds sends: one datagram, whose payload the relay sends on to the peer.
pub write_to-relayed :
    (c : Conn) (p : List ℕ)
    → c.peer_alloc < 2 ^ 32
    → (relayed c.peer_alloc (write_to c p true).1 ≡ p ∷ [])
      × (destinations (write_to c p true).1 ≡ c.relay ∷ [])
unfolding write_to packet destinations
write_to-relayed c p low = (
  relayed_one c.peer_alloc (put_uint32 c.peer_alloc ++ p) p c.relay
      (header-put_uint32 c.peer_alloc p low),
  refl,
)
