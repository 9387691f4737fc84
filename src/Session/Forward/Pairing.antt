-- ===== src/Session/Forward/Pairing.antt =====
-- The two ends of one forwarded stream.
use outrelay_agent.Base.{true, ℕ, ◌≡◌, [], ◌∷◌, Option, some, ok, List, Text}
use outrelay_agent.Base.Usage.{Use}
use outrelay_agent.Netip.{AddrPort}
use outrelay_agent.Orp.{AllocGranted}
use outrelay_agent.Forward.{Conn, UdpEvent, dial, write_to}
use outrelay_agent.Forward.Framing.{relayed, registered_by, destinations}
use outrelay_agent.Session.Forward.{UdpDial, Part, TlsConfig, Brought, Plane, ForwardSession}

-- A session on a socket that Dial has made for its grant, at the relay that the grant names, and
-- the allocation that this Dial has registered there.
abbrev pub Stands :
    (Text → Option AddrPort) → Plane → AllocGranted → ForwardSession → Conn → ℕ → Type 0
Stands parse plane g f c registered =
    (f.udp ≡ some c)
    × (parse g.forward_endpoint ≡ some c.relay)
    × ((events : List UdpEvent) × (dial c.relay g.my_allocation g.peer_allocation plane.bindable
            plane.writable
          ≡ (ok c, events))
        × (registered_by events ≡ registered ∷ [])
        × (destinations events ≡ c.relay ∷ []))

-- A write on the socket `c` sends one datagram, to its relay, which sends the payload on to the peer
-- that has registered the allocation.
abbrev pub Reaches : Conn → ℕ → List ℕ → Type 0
Reaches c registered payload =
    (relayed registered (write_to c payload true).1 ≡ payload ∷ [])
    × (destinations (write_to c payload true).1 ≡ c.relay ∷ [])

module _ (parse : Text → Option AddrPort) (plane : Plane) (tls : TlsConfig) (g : AllocGranted) where
  granted_conn : AddrPort → Conn
  granted_conn relay = record {
    relay = relay;
    peer_alloc = g.peer_allocation;
    my_alloc = g.my_allocation;
  }

  -- A function on the dialled socket that gives a session only on a socket, and with it.
  abbrev Keeps : (UdpDial → Brought) → Type 0
  Keeps over =
      (d : UdpDial) (f : ForwardSession) (uses : List (Use Part))
      → over d ≡ (ok f, uses)
      → (udp : Conn) × (events : List UdpEvent) × (d ≡ (ok udp, events)) × (f.udp ≡ some udp)
