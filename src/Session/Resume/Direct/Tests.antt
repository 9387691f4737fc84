-- ===== src/Session/Resume/Direct/Tests.antt =====
-- Two direct streams for the stream 9 and one for a stream that is not there.
use outrelay_agent.Base.{ℕ, ◌==◌, ◌≡◌, refl, true, none, some, List, [], ◌∷◌, if◌then◌else◌}
use outrelay_agent.Orp.{resume_frame}
use outrelay_agent.Session.Wrapper.{wrap, steps}
use outrelay_agent.Session.Resume.{Streams, handle_direct_stream}
use outrelay_agent.Session.Resume.Direct.{DirectStream, accept_direct_streams}
use outrelay_agent.Session.Resume.Direct.Placed.{ring_of}
use outrelay_agent.Session.Resume.Direct.Settled.{joins, refused, accept_direct-Settles}

abbrev streams : Streams
streams id = if id == 9 then some (wrap 3, λ pos. some (5 ∷ [])) else none

abbrev arrival : ℕ → ℕ → DirectStream
arrival st id = record {
  stream = st;
  reply = some (resume_frame (record { stream_id = id; my_position = 0; peer_ack_position = 2 }));
  writes = true;
}

abbrev three : List DirectStream
three = arrival 7 9 ∷ arrival 6 4 ∷ arrival 8 9 ∷ []

three_closed : (accept_direct_streams streams three).1 ≡ 6 ∷ []
unfolding accept_direct_streams handle_direct_stream
three_closed = refl

accept_direct-Settles_example :
    ((accept_direct_streams streams three).0 9
      ≡ some (steps (wrap 3) (joins (λ j. ring_of (streams j)) 9 three), λ pos. some (5 ∷ [])))
    × ((accept_direct_streams streams three).1 ≡ refused (λ j. ring_of (streams j)) three)
accept_direct-Settles_example =
    accept_direct-Settles three streams 9 (wrap 3) (λ pos. some (5 ∷ [])) refl
