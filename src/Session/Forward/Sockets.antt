-- ===== src/Session/Forward/Sockets.antt =====
-- The ends of forward.Dial, for the sessions that stand on it.
use outrelay_agent.Base.{ℕ, ◌≡◌, Bool, inl, inr, ok, err, List, [], ◌∷◌}
use outrelay_agent.Netip.{AddrPort}
use outrelay_agent.Forward.{
  Conn, DialError, zero_alloc, bind_failed, register_failed, bound, sent, closed, registration,
  dial,
}
use outrelay_agent.Forward.Framing.{dial_cases}
use outrelay_agent.Session.Forward.{UdpDial}

-- The socket is not bound, or bound and closed, or it stands with its registration sent.
pub data DialEnds (d : UdpDial) : Type 0 where
  no_socket : (e : DialError) → d ≡ (err e, []) → DialEnds d
  closed_socket : (e : DialError) → d ≡ (err e, bound ∷ closed ∷ []) → DialEnds d
  stands :
      (udp : Conn) (datagram : List ℕ) (to : AddrPort)
      → d ≡ (ok udp, bound ∷ sent datagram to ∷ [])
      → DialEnds d

pub dial-DialEnds :
    (relay : AddrPort) (my peer : ℕ) (bindable writable : Bool)
    → DialEnds (dial relay my peer bindable writable)
dial-DialEnds relay my peer bindable writable =
    let c : Conn = record { relay = relay; peer_alloc = peer; my_alloc = my } in
    elim (dial_cases relay my peer bindable writable) [
      | inl (z, e) ↦ no_socket zero_alloc e
      | inr (inl (b, e)) ↦ no_socket bind_failed e
      | inr (inr (inl (w, e))) ↦ closed_socket register_failed e
      | inr (inr (inr (m, q, e))) ↦ stands c (registration c) relay e
    ]
