-- ===== src/Session/Forward.antt =====
-- pkg/session/forward.go: the session that carries one stream over the relay's forwarding plane.
-- The socket is that of pkg/forward; QUIC is given by the outcomes of its calls, and the result has
-- the parts that are opened and closed, in order. The adapters to lib/transport only pass calls on.
pub mod Sockets
pub mod Parts
pub mod Pairing
pub mod Dials
mod Tests
use outrelay_agent.Base.{
  ℕ, Bool, true, false, ◌||◌, ◌==◌, if◌then◌else◌, Option, none, some, Result, ok, err, List, [],
  ◌∷◌, ◌++◌, Text, ==_iff, Eq,
}
use outrelay_agent.Base.Usage.{Use, opened, shut}
use outrelay_agent.Netip.{AddrPort}
use outrelay_agent.Orp.{AllocGranted}
use outrelay_agent.Forward.{Conn, DialError, UdpEvent, bound, sent, closed, dial}

pub data Part : Type 0 where
  socket quic listener conn stream : Part

pub record TlsConfig : Type 0 where
  pub next_protos : List Text
  pub min_version : ℕ
  pub identity : ℕ

-- Nanoseconds.
pub record QuicConfig : Type 0 where
  pub handshake_idle_timeout : ℕ
  pub max_idle_timeout : ℕ
  pub keep_alive_period : ℕ

abbrev pub tls13 : ℕ
tls13 = 0x0304

-- "outrelay-fwd/1"
abbrev pub forward_alpn : Text
forward_alpn =
    b'o' ∷ b'u' ∷ b't' ∷ b'r' ∷ b'e' ∷ b'l' ∷ b'a' ∷ b'y' ∷ b'-' ∷ b'f' ∷ b'w' ∷ b'd' ∷ b'/' ∷ b'1'
    ∷ []

unfoldable pub ensure_forward_alpn : TlsConfig → TlsConfig
ensure_forward_alpn c = record c {
  next_protos = forward_alpn ∷ [];
  min_version = if c.min_version == 0 then tls13 else c.min_version;
}

unfoldable pub default_quic_config : QuicConfig
default_quic_config = record {
  handshake_idle_timeout = 30000000000;
  max_idle_timeout = 45000000000;
  keep_alive_period = 15000000000;
}

-- Which fields are not nil; the socket with what it is bound to.
pub record ForwardSession : Type 0 where
  pub has_stream : Bool
  pub has_conn : Bool
  pub has_transport : Bool
  pub udp : Option Conn

pub data ForwardError : Type 0 where
  invalid_grant bad_endpoint dial_failed open_stream_failed : ForwardError
  listen_failed accept_conn_failed accept_stream_failed : ForwardError
  udp_failed : DialError → ForwardError

abbrev pub Brought : Type 0
Brought = Result ForwardError ForwardSession × List (Use Part)

-- The literal at the end of both.
unfoldable pub whole : Conn → ForwardSession
whole udp = record { has_stream = true; has_conn = true; has_transport = true; udp = some udp }

-- The outcomes of the calls on the socket and on QUIC, which may depend on what they are given.
pub record Plane : Type 0 where
  pub bindable : Bool
  pub writable : Bool
  pub handshakes : Conn → TlsConfig → QuicConfig → Bool
  pub opens_stream : Bool
  pub listens : Conn → TlsConfig → QuicConfig → Bool
  pub accepts_conn : Bool
  pub accepts_stream : Bool

-- What forward.Dial returns, with its events.
abbrev pub UdpDial : Type 0
UdpDial = Result DialError Conn × List UdpEvent

-- What forward.Dial does with its socket.
pub socket_uses : List UdpEvent → List (Use Part)
socket_uses [] = []
socket_uses (bound ∷ events) = opened socket ∷ socket_uses events
socket_uses (sent datagram to ∷ events) = socket_uses events
socket_uses (closed ∷ events) = shut socket ∷ socket_uses events

module _ (parse_addr_port : Text → Option AddrPort) (plane : Plane) (tls : TlsConfig) where
  dial_over : UdpDial → Brought
  unfolding ensure_forward_alpn default_quic_config whole socket_uses
  dial_over (err e, events) = (err (udp_failed e), socket_uses events)
  dial_over (ok udp, events) =
      let up = socket_uses events ++ opened quic ∷ [] in
      if plane.handshakes udp (ensure_forward_alpn tls) default_quic_config
      then (if plane.opens_stream
          then (ok (whole udp), up ++ opened conn ∷ opened stream ∷ [])
          else (
            err open_stream_failed,
            up ++ opened conn ∷ shut conn ∷ shut quic ∷ shut socket ∷ [],
          ))
      else (err dial_failed, up ++ shut quic ∷ shut socket ∷ [])

  -- The listener is closed when the function returns.
  accept_over : UdpDial → Brought
  unfolding ensure_forward_alpn default_quic_config whole socket_uses
  accept_over (err e, events) = (err (udp_failed e), socket_uses events)
  accept_over (ok udp, events) =
      let begun = socket_uses events ++ opened quic ∷ [] in
      let up = begun ++ opened listener ∷ [] in
      let down = shut quic ∷ shut socket ∷ shut listener ∷ [] in
      if plane.listens udp (ensure_forward_alpn tls) default_quic_config
      then (if plane.accepts_conn
          then (if plane.accepts_stream
              then (ok (whole udp), up ++ opened conn ∷ opened stream ∷ shut listener ∷ [])
              else (err accept_stream_failed, up ++ opened conn ∷ shut conn ∷ down))
          else (err accept_conn_failed, up ++ down))
      else (err listen_failed, begun ++ shut quic ∷ shut socket ∷ [])

  -- The checks and the socket, which both sides have in common.
  bring_up : (UdpDial → Brought) → Option AllocGranted → Brought
  bring_up over none = (err invalid_grant, [])
  bring_up over (some g) =
      if g.my_allocation == 0 || g.peer_allocation == 0
      then (err invalid_grant, [])
      else elim (parse_addr_port g.forward_endpoint) [
        | none ↦ (err bad_endpoint, [])
        | some relay ↦
            over (dial relay g.my_allocation g.peer_allocation plane.bindable plane.writable)
      ]

  unfoldable pub dial_forward : Option AllocGranted → Brought
  unfolding bring_up dial_over
  dial_forward granted = bring_up dial_over granted

  unfoldable pub accept_forward : Option AllocGranted → Brought
  unfolding bring_up accept_over
  accept_forward granted = bring_up accept_over granted

-- `first` is the error to return.
keep_first : Option ℕ → Option ℕ → Option ℕ
keep_first none e = e
keep_first (some first) e = some first

module _ (fails : Part → Option ℕ) where
  -- One `if` of Close.
  close_part : Bool → Part → Option ℕ × List (Use Part) → Option ℕ × List (Use Part)
  unfolding keep_first
  close_part false p (first, uses) = (first, uses)
  close_part true p (first, uses) = (keep_first first (fails p), uses ++ shut p ∷ [])

  has_udp : Option Conn → Bool
  has_udp none = false
  has_udp (some udp) = true

  unfoldable pub close_forward : ForwardSession → Option ℕ × List (Use Part)
  unfolding close_part keep_first has_udp
  close_forward f = close_part (has_udp f.udp) socket (
      close_part f.has_transport quic
        (close_part f.has_conn conn (close_part f.has_stream stream (none, []))))
