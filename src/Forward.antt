-- ===== src/Forward.antt =====
-- pkg/forward/conn.go: the packet connection over the relay's forwarding plane. The UDP socket is
-- given by the outcomes of its calls, and each operation returns the socket events that it causes.
pub mod Framing
mod Tests
use outrelay_agent.Base.{
  ℕ, ◌+◌, ◌/◌, ◌%◌, ◌^◌, ◌||◌, Bool, true, false, ◌==◌, if◌then◌else◌, Option, none, some, Result,
  ok, err, List, [], ◌∷◌, ◌++◌, length, take,
}
use outrelay_agent.Netip.{AddrPort}
use Prim.Native.Nat.{min}

pub record Conn : Type 0 where
  pub relay : AddrPort
  pub peer_alloc : ℕ
  pub my_alloc : ℕ

pub data DialError : Type 0 where
  zero_alloc bind_failed register_failed : DialError

pub data UdpEvent : Type 0 where
  bound : UdpEvent
  sent : List ℕ → AddrPort → UdpEvent
  closed : UdpEvent

-- `binary.BigEndian.PutUint32` of a uint32.
unfoldable pub put_uint32 : ℕ → List ℕ
put_uint32 n = n / 2 ^ 24 % 256 ∷ n / 2 ^ 16 % 256 ∷ n / 2 ^ 8 % 256 ∷ n % 256 ∷ []

-- The payload is `my_alloc`, behind the allocation 0.
unfoldable pub registration : Conn → List ℕ
unfolding put_uint32
registration c = put_uint32 0 ++ put_uint32 c.my_alloc

-- `writable` says whether the write succeeds.
unfoldable pub register : Conn → Bool → Option DialError × List UdpEvent
unfolding registration
register c true = (none, sent (registration c) c.relay ∷ [])
register c false = (some register_failed, [])

-- The end of DialWithLogger: a failed registration closes the socket.
unfoldable pub finish_dial :
    Conn → Option DialError × List UdpEvent → Result DialError Conn × List UdpEvent
finish_dial c (none, events) = (ok c, bound ∷ events)
finish_dial c (some e, events) = (err e, bound ∷ (events ++ closed ∷ []))

-- DialWithLogger, and Dial with no logger.
unfoldable pub dial : AddrPort → ℕ → ℕ → Bool → Bool → Result DialError Conn × List UdpEvent
unfolding register finish_dial
dial relay my_alloc peer_alloc bindable writable =
    let c : Conn = record { relay = relay; peer_alloc = peer_alloc; my_alloc = my_alloc } in
    if my_alloc == 0 || peer_alloc == 0
    then (err zero_alloc, [])
    else if bindable
    then finish_dial c (register c writable)
    else (err bind_failed, [])

-- The bytes of one packet on the wire.
unfoldable pub packet : Conn → List ℕ → List ℕ
unfolding put_uint32
packet c p = put_uint32 c.peer_alloc ++ p

-- The number of bytes, or `none` for an error.
unfoldable pub write_to : Conn → List ℕ → Bool → Option ℕ × List UdpEvent
unfolding packet
write_to c p true = (some (length p), sent (packet c p) c.relay ∷ [])
write_to c p false = (none, [])

-- A datagram longer than the buffer of `size` bytes is cut. The address is the relay's.
unfoldable pub read_from : Conn → ℕ → Option (List ℕ) → Option (List ℕ × ℕ × AddrPort)
read_from c size none = none
read_from c size (some datagram) = some (take size datagram, min size (length datagram), c.relay)
