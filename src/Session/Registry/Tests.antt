-- ===== src/Session/Registry/Tests.antt =====
-- Two streams of one id, the first of which is closed.
use outrelay_agent.Base.{◌≡◌, refl, List, [], ◌∷◌, arith}
use outrelay_agent.Base.Map.{lookup, insert, delete}
use outrelay_agent.Session.Wrapper.{wrap}
use outrelay_agent.Session.Registry.{
  Registry, no_streams, wrap_stream, abandon_wrapper, forget_stream, close, active_streams,
  RegistryOp, wraps, forgets, closes, registry_step, registry_steps,
}
use outrelay_agent.Session.Registry.Live.{IsLive, registry_steps-IsLive}
use outrelay_agent.Session.Registry.Closing.{IsClosed, close-IsClosed, close_replaced}

abbrev collided : List RegistryOp
collided = wraps 4 10 ∷ wraps 6 11 ∷ wraps 4 12 ∷ []

abbrev both : Registry
both = record {
  streams = (4, 2) ∷ (6, 1) ∷ [];
  wrappers = (0, (4, wrap 10)) ∷ (1, (6, wrap 11)) ∷ (2, (4, wrap 12)) ∷ [];
  next_wrapper = 3;
}

collided-both : registry_steps no_streams collided ≡ both
unfolding registry_steps registry_step wrap_stream no_streams insert
collided-both = refl

left_active : active_streams (close both 0).0 ≡ 1 ∷ []
unfolding close forget_stream abandon_wrapper active_streams lookup insert delete
left_active = refl

registry_steps-IsLive_example :
    IsLive (registry_steps no_streams (wraps 4 10 ∷ wraps 4 12 ∷ closes 0 ∷ forgets 4 ∷ []))
registry_steps-IsLive_example =
    registry_steps-IsLive (wraps 4 10 ∷ wraps 4 12 ∷ closes 0 ∷ forgets 4 ∷ [])

applied_close-IsClosed : IsClosed (close both 1).0 6 1
applied_close-IsClosed = close-IsClosed both 1 6 (wrap 11) (unfold lookup in refl)

close_replaced_example : IsClosed (close both 0).0 4 2
close_replaced_example =
    close_replaced both 0 2 4 (wrap 10) (wrap 12) (omega arith) (unfold lookup in refl)
      (unfold lookup in refl) (unfold lookup in refl)
