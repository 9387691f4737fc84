-- ===== src/Agent/Consumer.antt =====
-- cmd/outrelay-agent/main.go: what runConsumer does with one intercepted connection. The connection
-- is a number; the outcomes of the calls are given, and the stream stays on the relay: a promotion
-- runs next to the bridge.
pub mod Teardown
mod Tests
use outrelay_agent.Base.{
  ℕ, Bool, true, false, Option, none, some, Result, ok, err, List, [], ◌∷◌, ◌++◌, Text, map,
}
use outrelay_agent.Base.Usage.{Use, opened, shut}
use outrelay_agent.Netip.{AddrPort}
use outrelay_agent.Orp.{AllocGranted}
use outrelay_agent.Session.Waiters.{P2pState, Notice, wait_for_stream_mode}
use outrelay_agent.Session.Registry.{Registry, RegistryOp, registry_steps}
use outrelay_agent.Session.Bridge.{HalfClose, copy_then_close}
use outrelay_agent.Session.Forward.{Part, Brought, TlsConfig, Plane, dial_forward, close_forward}
use outrelay_agent.Session.Incoming.{
  Handle, stream, backend, part, StreamState, of_part, arrive_all, close_wrapper,
}
use outrelay_agent.Session.Opening.{Opened, OpenError, dial_stream}

-- `stream` and `writes` are the outcomes of OpenStream and of the write of OPEN_STREAM, and `ids`
-- the ids that are drawn. `arrivals` are the notices that come until the wait for the mode ends;
-- `meanwhile` is what happens to the session's streams until the bridge ends; the inner stream of
-- the dialled wrapper is not replaced. `local_over` and `peer_over` tell whether io.Copy from the
-- connection and from the other side is over.
pub record Outgoing : Type 0 where
  pub target : Text
  pub stream : Option ℕ
  pub ids : List ℕ
  pub writes : Bool
  pub arrivals : List (ℕ × Notice)
  pub ctx_done : Bool
  pub picks_ctx : Bool
  pub peer_tls : Option TlsConfig
  pub parse_addr_port : Text → Option AddrPort
  pub plane : Plane
  pub part_fails : Part → Option ℕ
  pub meanwhile : List RegistryOp
  pub local_over : Bool
  pub peer_over : Bool
  pub local_half_closes : Bool
  pub peer_half_closes : Bool

pub record Consumed : Type 0 where
  pub state : StreamState
  pub uses : List (Use Handle)

of_stream : Use ℕ → Use Handle
of_stream (opened st) = opened (Handle.stream st)
of_stream (shut st) = shut (Handle.stream st)

both_done : Option HalfClose → Option HalfClose → Option (HalfClose × HalfClose)
both_done none b = none
both_done (some a) none = none
both_done (some a) (some b) = some (a, b)

-- bridge of the agent's main: what the other side and the connection are asked for behind the two
-- copies, or `none` while a copy goes on.
pub agent_bridge : Outgoing → Option (HalfClose × HalfClose)
unfolding both_done
agent_bridge v =
    both_done (copy_then_close v.local_over v.peer_half_closes)
      (copy_then_close v.peer_over v.local_half_closes)

-- What follows the bridge. A side without CloseWrite is closed behind the copy into it already; its
-- Close at the end of the bridge stands for both.
behind_bridge : Outgoing → Consumed → Option Consumed
unfolding agent_bridge
behind_bridge v d = elim (agent_bridge v) [ none ↦ none | some half_closes ↦ some d ]

-- `local` is the intercepted connection, `w` the stream's wrapper.
module _ (v : Outgoing) (local w : ℕ) where
  -- The deferred Close of the stream and of the connection, behind the uses of the middle part.
  torn_down : P2pState → Registry → List (Use Handle) → Consumed
  torn_down ws reg uses =
      let (reg', closed) = close_wrapper reg w in
      record {
        state = record { waiters = ws; registry = reg' };
        uses = uses ++ closed ++ shut (backend local) ∷ [];
      }

  -- bridge(in.Local, s).
  on_relay : P2pState → Registry → Option Consumed
  unfolding torn_down behind_bridge
  on_relay ws reg =
      let (reg', closed) = close_wrapper (registry_steps reg v.meanwhile) w in
      behind_bridge v (torn_down ws reg' (shut (backend local) ∷ closed))

  on_plane : P2pState → Registry → Brought → Option Consumed
  unfolding torn_down behind_bridge
  on_plane ws reg (err e, used) =
      some (torn_down ws (registry_steps reg v.meanwhile) (map of_part used))
  on_plane ws reg (ok fs, used) = behind_bridge v (
      torn_down ws (registry_steps reg v.meanwhile) (
        map of_part used
        ++ shut (backend local)
          ∷ shut (part Part.stream)
          ∷ map of_part (close_forward v.part_fails fs).1))

  -- Behind the wait for the mode; `none` for a wait, or a bridge, that goes on.
  behind_mode : Registry → Option (P2pState × Notice) → Option Consumed
  unfolding on_relay on_plane torn_down
  behind_mode reg none = none
  behind_mode reg (some (ws, none)) = on_relay ws reg
  behind_mode reg (some (ws, some g)) = elim v.peer_tls [
    | none ↦ some (torn_down ws (registry_steps reg v.meanwhile) [])
    | some tls ↦ on_plane ws reg (dial_forward v.parse_addr_port v.plane tls (some g))
  ]

more_uses : List (Use Handle) → Option Consumed → Option Consumed
more_uses uses none = none
more_uses uses (some d) = some (record d { uses = uses ++ d.uses })

with_stream : Outgoing → (local : ℕ) → Opened → Result OpenError (ℕ × ℕ) → Option Consumed
unfolding behind_mode more_uses of_stream
with_stream v local o (err e) =
    some (record { state = o.state; uses = map of_stream o.uses ++ shut (backend local) ∷ [] })
with_stream v local o (ok (w, id)) = more_uses (map of_stream o.uses) (
    behind_mode v local w o.state.registry
      (wait_for_stream_mode (arrive_all o.state.waiters v.arrivals) id v.ctx_done v.picks_ctx))

unfoldable pub consume : StreamState → Outgoing → ℕ → Option Consumed
unfolding with_stream
consume s v local = elim (dial_stream s v.target [] v.stream v.ids v.writes) [
  | none ↦ none
  | some o ↦ with_stream v local o o.result
]
