-- ===== src/Session/Reconnect/Tests.antt =====
-- A session with two streams reconnects at the second address; one stream is resumed.
use outrelay_agent.Base.{Option, ◌+◌, Bool, ℕ, ◌≡◌, refl, true, none, some, [], ◌∷◌, Text, nat_eq}
use outrelay_agent.Base.Map.{lookup, insert, delete}
use outrelay_agent.Base.Usage.{held}
use outrelay_agent.Orp.{Frame, resume_frame, hello_ack_frame, register_ack_frame}
use outrelay_agent.Session.Registry.{
  Registry, no_streams, wraps, registry_steps, registry_step, wrap_stream, active_streams,
  forget_stream, abandon_wrapper,
}
use outrelay_agent.Session.Registry.Live.{registry_steps-IsLive}
use outrelay_agent.Session.Dialing.{Attempt}
use outrelay_agent.Session.Opening.{await_ack}
use outrelay_agent.Session.Resume.{resume}
use outrelay_agent.Session.Reconnect.{
  Rejoin, Connection, reconnect, redial, reregister, rejoin, rejoin_all,
}
use outrelay_agent.Session.Reconnect.Connections.{reconnect-held, open_after, KeepsOld}
use outrelay_agent.Session.Reconnect.Streams.{Settles, reconnect-Settles}

abbrev unreachable : Attempt
unreachable = record { conn = some 7; opens = true; writes = true; reply = none }

abbrev reachable : Attempt
reachable = record { conn = some 8; opens = true; writes = true; reply = some hello_ack_frame }

abbrev two_streams : Registry
two_streams = registry_steps no_streams (wraps 4 10 ∷ wraps 6 11 ∷ [])

abbrev before : Connection
before = record { conn = 1; exposed = (b'a' ∷ []) ∷ []; registry = two_streams }

-- The relay resumes both halves of the stream 4, and knows no other.
abbrev meets : ℕ → Rejoin
meets w = record {
  payload = (0, 0);
  retransmit_from = λ pos. some [];
  link = record {
    stream = some (20 + w);
    sends = true;
    reply = some (resume_frame (record { stream_id = 4; my_position = 0; peer_ack_position = 0 }));
    writes = true;
  };
}

abbrev answer : Text → Bool × Option Frame
answer name = (true, some register_ack_frame)

second_address : (reconnect (unreachable ∷ reachable ∷ []) answer meets before).0.conn ≡ 8
unfolding reconnect redial reregister await_ack
second_address = refl

one_resumed :
    (reconnect (unreachable ∷ reachable ∷ []) answer meets before).0.registry.streams ≡ (4, 0) ∷ []
unfolding reconnect redial reregister await_ack rejoin_all active_streams rejoin resume
    registry_steps no_streams registry_step wrap_stream insert lookup forget_stream abandon_wrapper
    delete
one_resumed = refl

reconnect-held_example :
    (held (1 ∷ []) (reconnect (unreachable ∷ reachable ∷ []) answer meets before).2
      ≡ some (
          open_after
            (reconnect (unreachable ∷ reachable ∷ []) answer meets before).0.conn
            (reconnect (unreachable ∷ reachable ∷ []) answer meets before).1))
    × KeepsOld 1 (reconnect (unreachable ∷ reachable ∷ []) answer meets before)
reconnect-held_example = reconnect-held answer meets before (unreachable ∷ reachable ∷ [])

reconnect-Settles_example :
    Settles meets two_streams
      (reconnect (unreachable ∷ reachable ∷ []) answer meets before).1
      (reconnect (unreachable ∷ reachable ∷ []) answer meets before).0.registry
reconnect-Settles_example =
    reconnect-Settles meets (unreachable ∷ reachable ∷ []) answer before
      (registry_steps-IsLive (wraps 4 10 ∷ wraps 6 11 ∷ []))
