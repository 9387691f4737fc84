-- ===== src/Session/Forward/Dials.antt =====
-- The ends of DialForward.
use outrelay_agent.Base.{
  List, ℕ, ◌||◌, ◌==◌, ◌≡◌, refl, Bool-cases, Option, some, Option-cases, inl, inr, ok, err, [],
  ◌∷◌, Text,
}
use outrelay_agent.Base.Usage.{opened, shut}
use outrelay_agent.Netip.{AddrPort}
use outrelay_agent.Orp.{AllocGranted}
use outrelay_agent.Forward.{Conn, bound, sent}
use outrelay_agent.Session.Forward.Sockets.{
  DialEnds, no_socket, closed_socket, stands, dial-DialEnds,
}
use outrelay_agent.Session.Forward.{
  UdpDial, socket_uses, Part, socket, quic, conn, Brought, TlsConfig, Plane, ForwardError, whole,
  udp_failed, invalid_grant, bad_endpoint, dial_failed, open_stream_failed, dial_over, bring_up,
  dial_forward, ensure_forward_alpn, default_quic_config,
}

-- What DialForward may return.
pub data Dials (r : Brought) : Type 0 where
  refused : (e : ForwardError) → r ≡ (err e, []) → Dials r
  unregistered : (e : ForwardError) → r ≡ (err e, opened socket ∷ shut socket ∷ []) → Dials r
  unmet :
      (e : ForwardError)
      → r ≡ (err e, opened socket ∷ opened quic ∷ shut quic ∷ shut socket ∷ [])
      → Dials r
  silent :
      (e : ForwardError)
      → r ≡ (
        err e,
        opened socket ∷ opened quic ∷ opened conn ∷ shut conn ∷ shut quic ∷ shut socket ∷ [],
      )
      → Dials r
  brought :
      (udp : Conn)
      → r ≡ (ok (whole udp), opened socket ∷ opened quic ∷ opened conn ∷ opened Part.stream ∷ [])
      → Dials r

module _ (parse_addr_port : Text → Option AddrPort) (plane : Plane) (tls : TlsConfig) where
  dial_up-Dials :
      (udp : Conn) (datagram : List ℕ) (to : AddrPort)
      → Dials (dial_over parse_addr_port plane tls (ok udp, bound ∷ sent datagram to ∷ []))
  unfolding dial_over socket_uses
  dial_up-Dials udp datagram to =
      elim (Bool-cases (plane.handshakes udp (ensure_forward_alpn tls) default_quic_config)) [
        | inl up ↦ elim (Bool-cases plane.opens_stream) [
          | inl streams ↦ brought udp (rw (up, streams) refl)
          | inr quiet ↦ silent open_stream_failed (rw (up, quiet) refl)
        ]
        | inr down ↦ unmet dial_failed (rw down refl)
      ]

  dial_over-Dials : (d : UdpDial) → DialEnds d → Dials (dial_over parse_addr_port plane tls d)
  unfolding dial_over socket_uses
  dial_over-Dials d (no_socket e h) = rw h (refused (udp_failed e) refl)
  dial_over-Dials d (closed_socket e h) = rw h (unregistered (udp_failed e) refl)
  dial_over-Dials d (stands udp datagram to h) = rw h (dial_up-Dials udp datagram to)

  pub dial_forward-Dials :
      (g : AllocGranted) → Dials (dial_forward parse_addr_port plane tls (some g))
  unfolding dial_forward bring_up
  dial_forward-Dials g = elim (Bool-cases (g.my_allocation == 0 || g.peer_allocation == 0)) [
    | inl zero_alloc ↦ refused invalid_grant (rw zero_alloc refl)
    | inr set ↦ elim (Option-cases (parse_addr_port g.forward_endpoint)) [
      | inl bad ↦ refused bad_endpoint (rw (set, bad) refl)
      | inr (relay, good) ↦
          rw (set, bring_up, good)
            (dial_over-Dials _
              (dial-DialEnds relay g.my_allocation g.peer_allocation plane.bindable plane.writable))
    ]
  ]
