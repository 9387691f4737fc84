-- ===== src/Session/Opening/Tests.antt =====
-- A session with one stream opens another one, and exposes a service.
use outrelay_agent.Base.{ℕ, ◌≡◌, refl, true, false, none, some, ok, List, [], ◌∷◌, nat_eq, arith}
use outrelay_agent.Base.Map.{lookup, insert}
use outrelay_agent.Base.Usage.{opened}
use outrelay_agent.Orp.{register_frame, hello_ack_frame}
use outrelay_agent.Session.Waiters.{
  P2pState, Notice, initial, entries, wait_for_stream_mode, register_stream_mode_waiter,
}
use outrelay_agent.Session.Waiters.Modes.{IsFresh, GotMode, first_notice, deliver_all}
use outrelay_agent.Session.Registry.{
  Registry, no_streams, wraps, registry_steps, registry_step, wrap_stream,
}
use outrelay_agent.Session.Registry.Live.{registry_steps-IsLive}
use outrelay_agent.Session.Incoming.{StreamState}
use outrelay_agent.Session.Opening.{fresh_stream_id, Opened, dial_stream, expose, not_acked}
use outrelay_agent.Session.Opening.Ids.{fresh_stream_id_total}
use outrelay_agent.Session.Opening.Dialled.{OpensAs, dial_stream-OpensAs, dial_then_mode}

applied_fresh_stream_id_total :
    (id : ℕ) × (fresh_stream_id (4 ∷ 6 ∷ 7 ∷ []) ((4, 0) ∷ (6, 1) ∷ []) ≡ some id)
    × (lookup {V = ℕ} id ((4, 0) ∷ (6, 1) ∷ []) ≡ none)
applied_fresh_stream_id_total =
    fresh_stream_id_total (4 ∷ 6 ∷ 7 ∷ []) ((4, 0) ∷ (6, 1) ∷ []) (omega arith) (omega arith)

refused_service :
    expose [] (1 ∷ []) (2 ∷ []) 8 true (some hello_ack_frame)
    ≡ ((1 ∷ [], 8) ∷ [], register_frame (1 ∷ []) (2 ∷ []), some not_acked)
unfolding expose insert
refused_service = refl

abbrev one_stream : Registry
one_stream = registry_steps no_streams (wraps 4 10 ∷ [])

-- EnableP2P on a new session.
abbrev waiters : P2pState
waiters = record initial { p2p_enabled = true; pending_mode = some []; readers = 1 }

abbrev state : StreamState
state = record { waiters = waiters; registry = one_stream }

abbrev opened_stream : Opened
opened_stream = record {
  state = record {
    waiters = (register_stream_mode_waiter waiters 6).0;
    registry = (wrap_stream one_stream 6 11).0;
  };
  result = ok (1, 6);
  uses = opened 11 ∷ [];
  sent = some (record { target_service = 1 ∷ []; method = []; stream_id = 6 });
  at_write = (register_stream_mode_waiter waiters 6).0;
}

dialled : dial_stream state (1 ∷ []) [] (some 11) (4 ∷ 6 ∷ []) true ≡ some opened_stream
unfolding dial_stream registry_steps registry_step wrap_stream fresh_stream_id lookup no_streams
    insert
dialled = refl

dial_stream-OpensAs_example : OpensAs state opened_stream (ok (1, 6))
dial_stream-OpensAs_example =
    dial_stream-OpensAs state (1 ∷ []) [] (some 11) (4 ∷ 6 ∷ []) true opened_stream
      (registry_steps-IsLive (wraps 4 10 ∷ [])) dialled

waiters-IsFresh : IsFresh waiters
unfolding entries lookup initial
waiters-IsFresh = record { waited = λ id c e. cc; filled = λ c n e. cc }

abbrev deliveries : List (ℕ × Notice)
deliveries = (4, none) ∷ (6, none) ∷ []

dial_then_mode_example : GotMode 6 (first_notice none 6 deliveries) (
    wait_for_stream_mode
      (deliver_all (register_stream_mode_waiter waiters 6).0 deliveries)
      6
      false
      true)
dial_then_mode_example =
    dial_then_mode state (1 ∷ []) [] 11 6 1 (4 ∷ 6 ∷ []) opened_stream deliveries true
      waiters-IsFresh (unfold initial in refl) dialled refl
