-- ===== src/Session/Incoming/Tests.antt =====
-- A provider with one service: a stream for it, one for another, and one over the forwarding plane.
use outrelay_agent.Base.{◌≡◌, refl, true, none, some, ok, [], ◌∷◌, Text, if◌then◌else◌, text_beq}
use outrelay_agent.Base.Usage.{shut}
use outrelay_agent.Orp.{Frame, incoming_stream_frame, stream_reject_frame}
use outrelay_agent.Session.Waiters.{initial}
use outrelay_agent.Session.Registry.{no_streams}
use outrelay_agent.Session.Bridge.{left, right, bridge, copy_and_done}
use outrelay_agent.Session.Forward.{Plane}
use outrelay_agent.Session.Incoming.{
  bridge, copy_and_done, stream, StreamState, Visit, bridged, no_handler, handle_incoming,
  got_stream, accept_error, run_session,
}

abbrev fresh_state : StreamState
fresh_state = record { waiters = initial; registry = no_streams }

abbrev for_service : Text → Frame
for_service name = incoming_stream_frame (record { target_service = name; stream_id = 5 })

abbrev plane : Plane
plane = record {
  bindable = true;
  writable = true;
  handshakes = λ c t q. true;
  opens_stream = true;
  listens = λ c t q. true;
  accepts_conn = true;
  accepts_stream = true;
}

abbrev visit : Text → Visit
visit name = record {
  first = some (for_service name);
  handlers = λ service. if text_beq service (b'a' ∷ []) then some (λ i. ok 30) else none;
  accept_written = true;
  arrivals = [];
  ctx_done = true;
  picks_ctx = true;
  forward_tls = none;
  parse_addr_port = λ t. none;
  plane = plane;
  part_fails = λ p. none;
  meanwhile = [];
  from_peer = record { bytes = 1 ∷ []; ends = true; accepted = true } ∷ [];
  from_backend = record { bytes = []; ends = true; accepted = true } ∷ [];
  peer_half_closes = true;
  backend_half_closes = true;
}

served_to_the_end : bridged (visit (b'a' ∷ [])) ≡ some (left ∷ right ∷ [])
unfolding bridged bridge copy_and_done
served_to_the_end = refl

not_served :
    handle_incoming fresh_state (visit (b'b' ∷ [])) 9
    ≡ some (record {
      state = fresh_state;
      uses = shut (stream 9) ∷ [];
      frames = stream_reject_frame 404 no_handler ∷ [];
    })
unfolding handle_incoming
not_served = refl

two_streams :
    run_session (got_stream 3 ∷ got_stream 4 ∷ accept_error true ∷ []) ≡ (3 ∷ 4 ∷ [], some none)
unfolding run_session
two_streams = refl
