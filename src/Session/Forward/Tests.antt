-- ===== src/Session/Forward/Tests.antt =====
-- The two ends of one allocation, and a handshake that fails.
use outrelay_agent.Base.{
  ℕ, ◌≡◌, refl, Bool, true, false, Option, none, some, err, List, [], ◌∷◌, Text,
}
use outrelay_agent.Base.Usage.{Use, opened, shut}
use outrelay_agent.Netip.{AddrPort, v4}
use outrelay_agent.Orp.{AllocGranted}
use outrelay_agent.Forward.{dial}
use outrelay_agent.Session.Forward.{
  Part, socket, quic, listener, conn, stream, TlsConfig, Plane, ForwardSession, dial_failed,
  dial_forward, accept_forward, close_forward, ensure_forward_alpn, forward_alpn,
}
use outrelay_agent.Session.Forward.Parts.{Owned, forward-Owned}

abbrev relay : AddrPort
relay = record { addr = v4 0x0a000001; port = 3478 }

parse : Text → Option AddrPort
parse t = some relay

abbrev tls : TlsConfig
tls = record { next_protos = []; min_version = 0; identity = 1 }

abbrev plane : Bool → Plane
plane up = record {
  bindable = true;
  writable = true;
  handshakes = λ c t q. up;
  opens_stream = true;
  listens = λ c t q. true;
  accepts_conn = true;
  accepts_stream = true;
}

abbrev consumer : AllocGranted
consumer = record { stream_id = 1; my_allocation = 7; peer_allocation = 8; forward_endpoint = [] }

abbrev provider : AllocGranted
provider = record { stream_id = 1; my_allocation = 8; peer_allocation = 7; forward_endpoint = [] }

abbrev session_of : ℕ → ℕ → ForwardSession
session_of mine peer = record {
  has_stream = true;
  has_conn = true;
  has_transport = true;
  udp = some (record { relay = relay; peer_alloc = peer; my_alloc = mine });
}

no_handshake :
    dial_forward parse (plane false) tls (some consumer)
    ≡ (err dial_failed, opened socket ∷ opened quic ∷ shut quic ∷ shut socket ∷ [])
unfolding dial_forward dial parse
no_handshake = refl

only_alpn : (ensure_forward_alpn tls).next_protos ≡ forward_alpn ∷ []
unfolding ensure_forward_alpn
only_alpn = refl

two_fail :
    close_forward (λ p. some 3) (session_of 7 8)
    ≡ (some 3, shut stream ∷ shut conn ∷ shut quic ∷ shut socket ∷ [])
unfolding close_forward
two_fail = refl

forward-Owned_example :
    Owned (λ p. none) (dial_forward parse (plane true) tls (some consumer))
    × Owned (λ p. none) (accept_forward parse (plane true) tls (some consumer))
forward-Owned_example = forward-Owned (λ p. none) parse (plane true) tls (some consumer)

abbrev up : List (Use Part)
up = opened socket ∷ opened quic ∷ opened conn ∷ opened stream ∷ []

abbrev listened : List (Use Part)
listened =
    opened socket ∷ opened quic ∷ opened listener ∷ opened conn ∷ opened stream ∷ shut listener ∷ []
