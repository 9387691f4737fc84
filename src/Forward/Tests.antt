-- ===== src/Forward/Tests.antt =====
-- A connection from allocation 7 to allocation 258.
use outrelay_agent.Base.{
  map, ℕ, ◌≡◌, ◌≢◌, refl, true, false, none, some, ok, err, List, [], ◌∷◌, ◌⊎◌, arith,
}
use outrelay_agent.Netip.{AddrPort, v4}
use outrelay_agent.Forward.{
  Conn, bound, sent, closed, zero_alloc, bind_failed, register_failed, put_uint32, registration,
  dial, packet, write_to, read_from,
}
use outrelay_agent.Forward.Framing.{
  relayed, header, write_to-header, read_from-write_to, relayed, registration_distinct, dial_cases,
}

abbrev relay_addr : AddrPort
relay_addr = record { addr = v4 0x01020304; port = 7443 }

abbrev conn : Conn
conn = record { relay = relay_addr; peer_alloc = 258; my_alloc = 7 }

abbrev hello : List ℕ
hello = b'h' ∷ b'i' ∷ []

wire_hello : packet conn hello ≡ 0 ∷ 0 ∷ 1 ∷ 2 ∷ b'h' ∷ b'i' ∷ []
unfolding packet
wire_hello = refl

applied_header :
    ((true ≡ true)
      × (write_to conn hello true ≡ (some 2, sent (packet conn hello) relay_addr ∷ []))
      × (header (packet conn hello) ≡ some (258, hello)))
    ⊎ ((true ≡ false) × (write_to conn hello true ≡ (none, [])))
applied_header = write_to-header conn hello true (omega arith)

abbrev peer : Conn
peer = record { relay = relay_addr; peer_alloc = 7; my_alloc = 258 }

read_from-write_to_example :
    ((write_to conn hello true).0 ≡ some 2)
    × (map
          (λ payload. read_from peer 1500 (some payload))
          (relayed 258 (write_to conn hello true).1)
        ≡ some (hello, 2, relay_addr) ∷ [])
read_from-write_to_example =
    read_from-write_to peer conn hello true 1500 refl (omega arith) (omega arith)

applied_registration_distinct :
    (header (registration conn) ≡ some (0, put_uint32 7))
    × (header (packet conn hello) ≡ some (258, hello))
    × ◌≢◌ {A = ℕ} 258 0
unfolding dial
applied_registration_distinct =
    registration_distinct relay_addr 7 258 hello true true conn
      (bound ∷ sent (registration conn) relay_addr ∷ []) (omega arith) (omega arith) refl

applied_dial_cases :
    ((◌≡◌ {A = ℕ} 7 0 ⊎ ◌≡◌ {A = ℕ} 258 0)
      × (dial relay_addr 7 258 true false ≡ (err zero_alloc, [])))
    ⊎ ((true ≡ false) × (dial relay_addr 7 258 true false ≡ (err bind_failed, [])))
    ⊎ ((false ≡ false)
        × (dial relay_addr 7 258 true false ≡ (err register_failed, bound ∷ closed ∷ [])))
    ⊎ (◌≢◌ {A = ℕ} 7 0
        × ◌≢◌ {A = ℕ} 258 0
        × (dial relay_addr 7 258 true false
            ≡ (ok conn, bound ∷ sent (registration conn) relay_addr ∷ [])))
applied_dial_cases = dial_cases relay_addr 7 258 true false
