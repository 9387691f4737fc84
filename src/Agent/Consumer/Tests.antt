-- ===== src/Agent/Consumer/Tests.antt =====
-- A connection for a service, on a session with one stream, over the relay.
use outrelay_agent.Base.{◌≡◌, refl, true, false, none, some, ok, [], ◌∷◌, nat_eq}
use outrelay_agent.Base.Map.{lookup, insert}
use outrelay_agent.Base.Usage.{opened}
use outrelay_agent.Session.Waiters.{initial, register_stream_mode_waiter}
use outrelay_agent.Session.Registry.{
  Registry, no_streams, wraps, registry_steps, registry_step, wrap_stream,
}
use outrelay_agent.Session.Registry.Live.{registry_steps-IsLive}
use outrelay_agent.Session.Bridge.{closed_write, copy_then_close}
use outrelay_agent.Session.Forward.{Plane}
use outrelay_agent.Session.Incoming.{StreamState}
use outrelay_agent.Session.Opening.{Opened, fresh_stream_id, dial_stream}
use outrelay_agent.Agent.Consumer.{Outgoing, agent_bridge, consume}
use outrelay_agent.Agent.Consumer.Teardown.{Ended, EndsIf, consume-EndsIf}

abbrev one_stream : Registry
one_stream = registry_steps no_streams (wraps 4 10 ∷ [])

abbrev state : StreamState
state = record {
  waiters = record initial { p2p_enabled = true; pending_mode = some []; readers = 1 };
  registry = one_stream;
}

abbrev plane : Plane
plane = record {
  bindable = true;
  writable = true;
  handshakes = λ c t q. true;
  opens_stream = true;
  listens = λ c t q. true;
  accepts_conn = true;
  accepts_stream = true;
}

abbrev for_pay : Outgoing
for_pay = record {
  target = b'p' ∷ b'a' ∷ b'y' ∷ [];
  stream = some 11;
  ids = 4 ∷ 6 ∷ [];
  writes = true;
  arrivals = (6, none) ∷ [];
  ctx_done = false;
  picks_ctx = false;
  peer_tls = none;
  parse_addr_port = λ t. none;
  plane = plane;
  part_fails = λ p. none;
  meanwhile = [];
  local_over = true;
  peer_over = true;
  local_half_closes = true;
  peer_half_closes = true;
}

abbrev opened_stream : Opened
opened_stream = record {
  state = record {
    waiters = (register_stream_mode_waiter state.waiters 6).0;
    registry = (wrap_stream one_stream 6 11).0;
  };
  result = ok (1, 6);
  uses = opened 11 ∷ [];
  sent = some (record { target_service = for_pay.target; method = []; stream_id = 6 });
  at_write = (register_stream_mode_waiter state.waiters 6).0;
}

dialled :
    dial_stream state for_pay.target [] for_pay.stream for_pay.ids for_pay.writes
    ≡ some opened_stream
unfolding dial_stream registry_steps registry_step wrap_stream fresh_stream_id lookup no_streams
    insert
dialled = refl

bridge_over : agent_bridge for_pay ≡ some (closed_write, closed_write)
unfolding agent_bridge copy_then_close
bridge_over = refl

consume-EndsIf_example : EndsIf (Ended 3) for_pay (consume state for_pay 3)
consume-EndsIf_example =
    consume-EndsIf for_pay 3 state opened_stream (registry_steps-IsLive (wraps 4 10 ∷ [])) dialled
