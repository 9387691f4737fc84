-- ===== src/Session/Checkpoints/Tests.antt =====
-- Two streams, of which the first checkpoint can be written.
use outrelay_agent.Base.{ℕ, ◌≡◌, refl, Bool, ◌==◌, [], ◌∷◌, nat_eq}
use outrelay_agent.Base.Map.{lookup, insert}
use outrelay_agent.Orp.{Positions}
use outrelay_agent.Session.Registry.{
  Registry, no_streams, wraps, registry_steps, registry_step, wrap_stream, active_streams,
}
use outrelay_agent.Session.Checkpoints.{Counters, checkpoint, checkpoints, emit, emit_once}

abbrev two_streams : Registry
two_streams = registry_steps no_streams (wraps 4 10 ∷ wraps 6 11 ∷ [])

abbrev counters : ℕ → Counters
counters w = record { sent = w; received = 3 }

abbrev first_only : Positions → Bool
first_only cp = cp.stream_id == 4

one_written :
    emit_once counters first_only two_streams
    ≡ record { stream_id = 4; my_position = 0; peer_ack_position = 3 } ∷ []
unfolding emit_once emit checkpoints checkpoint active_streams registry_steps registry_step
    wrap_stream no_streams insert lookup
one_written = refl
