-- ===== src/Session/Incoming.antt =====
-- pkg/session/session.go: handleIncoming and Run. What the outside decides (the first frame, the
-- handler's backend, what arrives on the control stream, the forwarding plane) is given; the state
-- is that of the waiters and of the active streams. Backends are numbers.
pub mod Handles
pub mod Ends
pub mod Cleanup
mod Tests
use outrelay_agent.Base.{
  ℕ, Bool, true, false, if◌then◌else◌, Option, none, some, Result, ok, err, List, [], ◌∷◌, ◌++◌,
  Text, map,
}
use outrelay_agent.Base.Usage.{Use, opened, shut}
use outrelay_agent.Netip.{AddrPort}
use outrelay_agent.Orp.{
  Frame, IncomingStream, incoming_stream_frame, stream_reject_frame, stream_accept_frame,
  AllocGranted,
}
use outrelay_agent.Session.Waiters.{
  P2pState, Notice, register_stream_mode_waiter, cancel_stream_mode_waiter, deliver_mode,
  wait_for_stream_mode,
}
use outrelay_agent.Session.Registry.{Registry, wrap_stream, close, RegistryOp, registry_steps}
use outrelay_agent.Session.Bridge.{Round, Side, copy_and_done, bridge}
use outrelay_agent.Session.Forward.{
  Part, ForwardSession, ForwardError, Brought, TlsConfig, Plane, accept_forward, close_forward,
}

-- A stream of the relay connection, a handler's backend, or a part of a forward session.
pub data Handle : Type 0 where
  stream backend : ℕ → Handle
  part : Part → Handle

pub record StreamState : Type 0 where
  pub waiters : P2pState
  pub registry : Registry

-- How one incoming stream ends.
pub record Served : Type 0 where
  pub state : StreamState
  pub uses : List (Use Handle)
  pub frames : List Frame

-- `arrivals` are the notices that the control reader delivers behind STREAM_ACCEPT; `meanwhile` is
-- what happens to the session's streams until the bridge ends; the inner stream of the handled
-- wrapper is not replaced. `forward_tls` is what SetForwardServerTLS has set. The two directions of
-- the bridge read `from_peer` and `from_backend`.
pub record Visit : Type 0 where
  pub first : Option Frame
  pub handlers : Text → Option (IncomingStream → Result Text ℕ)
  pub accept_written : Bool
  pub arrivals : List (ℕ × Notice)
  pub ctx_done : Bool
  pub picks_ctx : Bool
  pub forward_tls : Option TlsConfig
  pub parse_addr_port : Text → Option AddrPort
  pub plane : Plane
  pub part_fails : Part → Option ℕ
  pub meanwhile : List RegistryOp
  pub from_peer : List Round
  pub from_backend : List Round
  pub peer_half_closes : Bool
  pub backend_half_closes : Bool

-- "no handler"
abbrev pub no_handler : Text
no_handler = b'n' ∷ b'o' ∷ b' ' ∷ b'h' ∷ b'a' ∷ b'n' ∷ b'd' ∷ b'l' ∷ b'e' ∷ b'r' ∷ []

abbrev pub of_part : Use Part → Use Handle
of_part (opened p) = opened (part p)
of_part (shut p) = shut (part p)

-- The control reader's deliveries.
pub arrive_all : P2pState → List (ℕ × Notice) → P2pState
arrive_all s [] = s
arrive_all s ((id, n) ∷ ns) = arrive_all (deliver_mode s id n) ns

-- Close of the wrapper.
unfoldable pub close_wrapper : Registry → ℕ → Registry × List (Use Handle)
close_wrapper s w = elim (close s w).1 [
  | none ↦ ((close s w).0, [])
  | some st ↦ ((close s w).0, shut (stream st) ∷ [])
]

refuse : StreamState → ℕ → Frame → Served
refuse s st f = record { state = s; uses = shut (stream st) ∷ []; frames = f ∷ [] }

-- The bridge of the visit: the sides that it closes, or `none` while a direction is not done.
pub bridged : Visit → Option (List Side)
bridged v =
    bridge (copy_and_done v.backend_half_closes v.from_peer)
      (copy_and_done v.peer_half_closes v.from_backend)

map_served : (Served → Served) → Option Served → Option Served
map_served f none = none
map_served f (some d) = some (f d)

-- What the handler does once its bridge is over.
over_bridge : Visit → Served → Option Served
unfolding bridged
over_bridge v d = elim (bridged v) [ none ↦ none | some sides ↦ some d ]

module _ (v : Visit) (id b w : ℕ) where
  -- bridge(wrapped, backend), and the deferred Close.
  pub splice : P2pState → Registry → Option Served
  unfolding close_wrapper over_bridge
  splice ws reg =
      let (reg', closed) = close_wrapper (registry_steps reg v.meanwhile) w in
      let (reg'', again) = close_wrapper reg' w in
      over_bridge v (record {
        state = record { waiters = ws; registry = reg'' };
        uses = closed ++ shut (backend b) ∷ [] ++ again;
        frames = [];
      })

  -- bridge(fs.Stream(), backend), and the deferred Close of the forward session and the wrapper.
  forward : P2pState → Registry → Brought → Option Served
  unfolding close_wrapper over_bridge
  forward ws reg (err e, used) =
      let (reg', closed) = close_wrapper (registry_steps reg v.meanwhile) w in
      some (record {
        state = record { waiters = ws; registry = reg' };
        uses = map of_part used ++ shut (backend b) ∷ [] ++ closed;
        frames = [];
      })
  forward ws reg (ok fs, used) =
      let (reg', closed) = close_wrapper (registry_steps reg v.meanwhile) w in
      over_bridge v (record {
        state = record { waiters = ws; registry = reg' };
        uses =
            map of_part used
            ++ shut (part Part.stream) ∷ shut (backend b) ∷ []
            ++ map of_part (close_forward v.part_fails fs).1
            ++ closed;
        frames = [];
      })

  -- Behind the wait for the mode; `none` for a wait, or a bridge, that goes on.
  pub by_mode : Registry → Option (P2pState × Notice) → Option Served
  unfolding splice forward
  by_mode reg none = none
  by_mode reg (some (ws, none)) = splice ws reg
  by_mode reg (some (ws, some g)) = elim v.forward_tls [
    | none ↦ splice ws reg
    | some tls ↦ forward ws reg (accept_forward v.parse_addr_port v.plane tls (some g))
  ]

-- The backend stands; the accept is written or not.
then_uses : List (Use Handle) → List Frame → Served → Served
then_uses uses frames d = record d { uses = uses ++ d.uses; frames = frames ++ d.frames }

mode_waiters : P2pState → ℕ → P2pState
mode_waiters s id = if s.p2p_enabled then (register_stream_mode_waiter s id).0 else s

unwait : P2pState → ℕ → P2pState
unwait s id = if s.p2p_enabled then cancel_stream_mode_waiter s id else s

accepted : StreamState → Visit → (id st b : ℕ) → Option Served
unfolding by_mode splice arrive_all mode_waiters
accepted s v id st b =
    let (reg, w) = wrap_stream s.registry id st in
    let ws = mode_waiters s.waiters id in
    if s.waiters.p2p_enabled
    then by_mode v id b w reg
        (wait_for_stream_mode (arrive_all ws v.arrivals) id v.ctx_done v.picks_ctx)
    else splice v id b w ws reg

with_backend : StreamState → Visit → (id st b : ℕ) → Option Served
unfolding accepted mode_waiters unwait then_uses map_served
with_backend s v id st b =
    let done =
      map_served (then_uses (opened (backend b) ∷ []) (stream_accept_frame ∷ []))
        (accepted s v id st b) in
    if v.accept_written
    then done
    else some (record {
      state = record s { waiters = unwait (mode_waiters s.waiters id) id };
      uses = opened (backend b) ∷ shut (backend b) ∷ shut (stream st) ∷ [];
      frames = [];
    })

serve :
    StreamState
    → Visit
    → ℕ
    → IncomingStream
    → Option (IncomingStream → Result Text ℕ)
    → Option Served
unfolding with_backend refuse
serve s v st i none = some (refuse s st (stream_reject_frame 404 no_handler))
serve s v st i (some handler) = elim (handler i) [
  | err reason ↦ some (refuse s st (stream_reject_frame 502 reason))
  | ok b ↦ with_backend s v i.stream_id st b
]

drop_stream : StreamState → ℕ → Served
drop_stream s st = record { state = s; uses = shut (stream st) ∷ []; frames = [] }

-- `st` is the stream that was accepted. A first frame that is missing, of another type or malformed
-- closes it without a reply.
unfoldable pub handle_incoming : StreamState → Visit → ℕ → Option Served
unfolding serve drop_stream
handle_incoming s v st = elim v.first [
  | some (incoming_stream_frame i) ↦ serve s v st i (v.handlers i.target_service)
  | _ ↦ some (drop_stream s st)
]

pub data RunError : Type 0 where
  accept_failed : RunError

-- What AcceptStream returns: a stream, or an error and whether it is context.Canceled.
pub data Accepting : Type 0 where
  got_stream : ℕ → Accepting
  accept_error : (cancelled : Bool) → Accepting

-- The streams that are handled, each on its own, and the result once Run returns.
unfoldable pub run_session : List Accepting → List ℕ × Option (Option RunError)
run_session [] = ([], none)
run_session (got_stream st ∷ more) = let r = run_session more in (st ∷ r.0, r.1)
run_session (accept_error cancelled ∷ more) =
    ([], some (if cancelled then none else some accept_failed))
