-- ===== src/Session/Forward/Parts.antt =====
-- No part of a forward session leaks or is closed twice.
use outrelay_agent.Base.{
  List, ℕ, ◌≡◌, ◌≢◌, refl, ◌||◌, ◌==◌, if◌then◌else◌, Bool-cases, Option, none, some, Option-cases,
  inl, inr, ok, err, [], ◌∷◌, ◌++◌, Text, Eq, coded_eq,
}
use outrelay_agent.Base.Usage.{opened, shut, held}
use outrelay_agent.Netip.{AddrPort}
use outrelay_agent.Orp.{AllocGranted}
use outrelay_agent.Forward.{Conn, bound, sent}
use outrelay_agent.Session.Forward.Sockets.{
  DialEnds, no_socket, closed_socket, stands, dial-DialEnds,
}
use outrelay_agent.Session.Forward.{
  UdpDial, socket_uses, listen_failed, accept_conn_failed, bad_endpoint, accept_stream_failed,
  udp_failed, invalid_grant, ForwardError, Part, socket, quic, listener, conn, stream, TlsConfig,
  Brought, Plane, dial_forward, accept_forward, close_forward, bring_up, dial_over, accept_over,
  whole, ensure_forward_alpn, default_quic_config,
}

unfoldable pub part_code : Part → ℕ
part_code socket = 0
part_code quic = 1
part_code listener = 2
part_code conn = 3
part_code stream = 4

pub part_of : ℕ → Part
part_of n =
    if n == 0
    then socket
    else if n == 1
    then quic
    else if n == 2
    then listener
    else if n == 3
    then conn
    else stream

pub part_of-code : (p : Part) → part_of (part_code p) ≡ p
unfolding part_of part_code
part_of-code socket = refl
part_of-code quic = refl
part_of-code listener = refl
part_of-code conn = refl
part_of-code stream = refl

instance abbrev pub part_eq : Eq Part
part_eq = coded_eq part_code part_of part_of-code

-- Behind an error nothing is left open. A session leaves open what Close then closes, whatever the
-- parts' Close methods return; and nothing is closed that is not open.
abbrev pub Owned : (Part → Option ℕ) → Brought → Type 0
Owned fails (err e, uses) = held [] uses ≡ some []
Owned fails (ok f, uses) =
    (held [] uses ≢ some []) × (held [] (uses ++ (close_forward fails f).1) ≡ some [])

pub close_whole :
    (fails : Part → Option ℕ) (udp : Conn)
    → (close_forward fails (whole udp)).1 ≡ shut stream ∷ shut conn ∷ shut quic ∷ shut socket ∷ []
unfolding close_forward whole
close_whole fails udp = refl

module _ (fails : Part → Option ℕ) (parse_addr_port : Text → Option AddrPort) (plane : Plane)
    (tls : TlsConfig) where
  bring_up-Owned :
      (over : UdpDial → Brought)
      → ((d : UdpDial) → DialEnds d → Owned fails (over d))
      → (granted : Option AllocGranted)
      → Owned fails (bring_up parse_addr_port plane tls over granted)
  unfolding bring_up held
  bring_up-Owned over owned none = refl
  bring_up-Owned over owned (some g) =
      elim (Bool-cases (g.my_allocation == 0 || g.peer_allocation == 0)) [
        | inl zero_alloc ↦ rw (zero_alloc, bring_up) refl
        | inr set ↦ elim (Option-cases (parse_addr_port g.forward_endpoint)) [
          | inl bad ↦ rw (set, bring_up, bad) refl
          | inr (relay, good) ↦
              rw (set, bring_up, good)
                (owned _ (
                  dial-DialEnds relay g.my_allocation g.peer_allocation plane.bindable
                    plane.writable))
        ]
      ]

  dial_up-Owned :
      (udp : Conn) (datagram : List ℕ) (to : AddrPort)
      → Owned fails (dial_over parse_addr_port plane tls (ok udp, bound ∷ sent datagram to ∷ []))
  unfolding dial_over held part_code socket_uses
  dial_up-Owned udp datagram to =
      elim (Bool-cases (plane.handshakes udp (ensure_forward_alpn tls) default_quic_config)) [
        | inl up ↦ elim (Bool-cases plane.opens_stream) [
          | inl opens ↦ rw (up, dial_over, opens, close_whole) (λ e. cc, refl)
          | inr refuses ↦ rw (up, dial_over, refuses) refl
        ]
        | inr down ↦ rw (down, dial_over) refl
      ]

  dial_over-Owned : (d : UdpDial) → DialEnds d → Owned fails (dial_over parse_addr_port plane tls d)
  unfolding dial_over held part_code socket_uses
  dial_over-Owned d (no_socket e h) = rw h refl
  dial_over-Owned d (closed_socket e h) = rw h refl
  dial_over-Owned d (stands udp datagram to h) = rw h (dial_up-Owned udp datagram to)

  accept_up-Owned :
      (udp : Conn) (datagram : List ℕ) (to : AddrPort)
      → Owned fails (accept_over parse_addr_port plane tls (ok udp, bound ∷ sent datagram to ∷ []))
  unfolding accept_over held part_code socket_uses
  accept_up-Owned udp datagram to =
      elim (Bool-cases (plane.listens udp (ensure_forward_alpn tls) default_quic_config)) [
        | inl up ↦ elim (Bool-cases plane.accepts_conn) [
          | inl met ↦ elim (Bool-cases plane.accepts_stream) [
            | inl streams ↦ rw (up, accept_over, met, streams, close_whole) (λ e. cc, refl)
            | inr silent ↦ rw (up, accept_over, met, silent) refl
          ]
          | inr alone ↦ rw (up, accept_over, alone) refl
        ]
        | inr down ↦ rw (down, accept_over) refl
      ]

  accept_over-Owned :
      (d : UdpDial) → DialEnds d → Owned fails (accept_over parse_addr_port plane tls d)
  unfolding accept_over held part_code socket_uses
  accept_over-Owned d (no_socket e h) = rw h refl
  accept_over-Owned d (closed_socket e h) = rw h refl
  accept_over-Owned d (stands udp datagram to h) = rw h (accept_up-Owned udp datagram to)

  -- DialForward and AcceptForward: behind an error no socket, QUIC transport, listener, connection
  -- or stream is left open, and a session that is returned leaves open what its Close closes, each
  -- once, whatever the parts' own Close methods return.
  pub forward-Owned :
      (granted : Option AllocGranted)
      → Owned fails (dial_forward parse_addr_port plane tls granted)
        × Owned fails (accept_forward parse_addr_port plane tls granted)
  unfolding dial_forward accept_forward
  forward-Owned granted = (
    bring_up-Owned (dial_over parse_addr_port plane tls) dial_over-Owned granted,
    bring_up-Owned (accept_over parse_addr_port plane tls) accept_over-Owned granted,
  )

-- What AcceptForward may return.
pub data Accepts (r : Brought) : Type 0 where
  refused : (e : ForwardError) → r ≡ (err e, []) → Accepts r
  unregistered : (e : ForwardError) → r ≡ (err e, opened socket ∷ shut socket ∷ []) → Accepts r
  unheard :
      (e : ForwardError)
      → r ≡ (err e, opened socket ∷ opened quic ∷ shut quic ∷ shut socket ∷ [])
      → Accepts r
  unmet :
      (e : ForwardError)
      → r ≡ (
        err e,
        opened socket
            ∷ opened quic
            ∷ opened listener
            ∷ shut quic
            ∷ shut socket
            ∷ shut listener
            ∷ [],
      )
      → Accepts r
  silent :
      (e : ForwardError)
      → r ≡ (
        err e,
        opened socket
            ∷ opened quic
            ∷ opened listener
            ∷ opened conn
            ∷ shut conn
            ∷ shut quic
            ∷ shut socket
            ∷ shut listener
            ∷ [],
      )
      → Accepts r
  brought :
      (udp : Conn)
      → r ≡ (
        ok (whole udp),
        opened socket
            ∷ opened quic
            ∷ opened listener
            ∷ opened conn
            ∷ opened stream
            ∷ shut listener
            ∷ [],
      )
      → Accepts r

module _ (parse_addr_port : Text → Option AddrPort) (plane : Plane) (tls : TlsConfig) where
  accept_up-Accepts :
      (udp : Conn) (datagram : List ℕ) (to : AddrPort)
      → Accepts (accept_over parse_addr_port plane tls (ok udp, bound ∷ sent datagram to ∷ []))
  unfolding accept_over socket_uses
  accept_up-Accepts udp datagram to =
      elim (Bool-cases (plane.listens udp (ensure_forward_alpn tls) default_quic_config)) [
        | inl up ↦ elim (Bool-cases plane.accepts_conn) [
          | inl met ↦ elim (Bool-cases plane.accepts_stream) [
            | inl streams ↦ brought udp (rw (up, met, streams) refl)
            | inr quiet ↦ silent accept_stream_failed (rw (up, met, quiet) refl)
          ]
          | inr alone ↦ unmet accept_conn_failed (rw (up, alone) refl)
        ]
        | inr down ↦ unheard listen_failed (rw down refl)
      ]

  accept_over-Accepts :
      (d : UdpDial) → DialEnds d → Accepts (accept_over parse_addr_port plane tls d)
  unfolding accept_over socket_uses
  accept_over-Accepts d (no_socket e h) = rw h (refused (udp_failed e) refl)
  accept_over-Accepts d (closed_socket e h) = rw h (unregistered (udp_failed e) refl)
  accept_over-Accepts d (stands udp datagram to h) = rw h (accept_up-Accepts udp datagram to)

  pub accept_forward-Accepts :
      (granted : Option AllocGranted) → Accepts (accept_forward parse_addr_port plane tls granted)
  unfolding accept_forward bring_up
  accept_forward-Accepts none = refused invalid_grant refl
  accept_forward-Accepts (some g) =
      elim (Bool-cases (g.my_allocation == 0 || g.peer_allocation == 0)) [
        | inl zero_alloc ↦ refused invalid_grant (rw zero_alloc refl)
        | inr set ↦ elim (Option-cases (parse_addr_port g.forward_endpoint)) [
          | inl bad ↦ refused bad_endpoint (rw (set, bad) refl)
          | inr (relay, good) ↦
              rw (set, bring_up, good)
                (accept_over-Accepts _ (
                  dial-DialEnds relay g.my_allocation g.peer_allocation plane.bindable
                    plane.writable))
        ]
      ]
