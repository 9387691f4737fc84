-- ===== src/Session/Opening.antt =====
-- pkg/session/session.go: Session.Dial with freshStreamID, and Expose. The ids that
-- resume.NewStreamID makes are given as a list, and the outcomes of the calls on the stream.
pub mod Ids
pub mod Ends
pub mod Dialled
mod Tests
use outrelay_agent.Base.{
  ℕ, Bool, true, false, if◌then◌else◌, Option, none, some, Result, ok, err, List, [], ◌∷◌, ◌++◌,
  Text, nat_eq, text_eq,
}
use outrelay_agent.Base.Map.{Map, lookup, insert}
use outrelay_agent.Base.Usage.{Use, opened, shut}
use outrelay_agent.Orp.{
  Frame, OpenStream, open_stream_frame, register_frame, register_ack_frame, malformed, register_ack,
}
use outrelay_agent.Session.Waiters.{
  P2pState, register_stream_mode_waiter, cancel_stream_mode_waiter,
}
use outrelay_agent.Session.Registry.{Registry, wrap_stream}
use outrelay_agent.Session.Incoming.{StreamState}

-- The first id that is not active; `none`: the loop is still at it.
unfoldable pub fresh_stream_id : List ℕ → Map ℕ ℕ → Option ℕ
fresh_stream_id [] streams = none
fresh_stream_id (id ∷ ids) streams =
    let rest = fresh_stream_id ids streams in
    elim (lookup id streams) [ none ↦ some id | some w ↦ rest ]

pub data OpenError : Type 0 where
  no_stream send_open : OpenError

-- `result` is the wrapper and its id. `at_write` is the waiters when OPEN_STREAM is written.
pub record Opened : Type 0 where
  pub state : StreamState
  pub result : Result OpenError (ℕ × ℕ)
  pub uses : List (Use ℕ)
  pub sent : Option OpenStream
  pub at_write : P2pState

wait_if_enabled : P2pState → ℕ → P2pState
wait_if_enabled s id = if s.p2p_enabled then (register_stream_mode_waiter s id).0 else s

cancel_if : Bool → P2pState → ℕ → P2pState
cancel_if ena s id = if ena then cancel_stream_mode_waiter s id else s

-- Behind the choice of the id; `st` is the stream that was opened.
open_as : StreamState → (target method : Text) → (st id : ℕ) → (writes : Bool) → Opened
unfolding wait_if_enabled cancel_if
open_as s target method st id true = record {
  state = record {
    waiters = wait_if_enabled s.waiters id;
    registry = (wrap_stream s.registry id st).0;
  };
  result = ok (s.registry.next_wrapper, id);
  uses = opened st ∷ [];
  sent = some (record { target_service = target; method = method; stream_id = id });
  at_write = wait_if_enabled s.waiters id;
}
open_as s target method st id false = record {
  state = record s { waiters = cancel_if s.waiters.p2p_enabled (wait_if_enabled s.waiters id) id };
  result = err send_open;
  uses = opened st ∷ shut st ∷ [];
  sent = none;
  at_write = wait_if_enabled s.waiters id;
}

unfoldable pub dial_stream :
    StreamState
    → (target method : Text) → Option ℕ
    → (ids : List ℕ) → (writes : Bool) → Option Opened
unfolding open_as
dial_stream s target method none ids writes =
    some
      (record { state = s; result = err no_stream; uses = []; sent = none; at_write = s.waiters })
dial_stream s target method (some st) ids writes = elim (fresh_stream_id ids s.registry.streams) [
  | none ↦ none
  | some id ↦ some (open_as s target method st id writes)
]

pub data ExposeError : Type 0 where
  send_register read_ack not_acked : ExposeError

-- What is read behind REGISTER counts by its type alone.
is_register_ack : Frame → Bool
is_register_ack register_ack_frame = true
is_register_ack (malformed register_ack) = true
is_register_ack _ = false

-- A REGISTER and its answer: whether it is written, and the frame that is read, if any.
unfoldable pub await_ack : Bool → Option Frame → Option ExposeError
unfolding is_register_ack
await_ack false reply = some send_register
await_ack true none = some read_ack
await_ack true (some f) = if is_register_ack f then none else some not_acked

-- Handlers are numbers; the handler stays where it is if the registration fails. The frame is the
-- one that is written, if it can be.
unfoldable pub expose :
    Map Text ℕ
    → (name local_addr : Text) → ℕ
    → Bool
    → Option Frame
    → Map Text ℕ × Frame × Option ExposeError
unfolding await_ack
expose handlers name local_addr handler writes reply =
    (insert name handler handlers, register_frame name local_addr, await_ack writes reply)
