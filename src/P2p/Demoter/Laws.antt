-- ===== src/P2p/Demoter/Laws.antt =====
-- OnDegrade is called at most once, as the last action, and only for a failure that the context
-- did not cause.
use outrelay_agent.Base.{ℕ, ◌≡◌, refl, ap, ap, true, Option, none, some, List, [], ◌∷◌, ◌++◌, map}
use outrelay_agent.P2p.Demoter.{
  peer_close, DemoteError, ctx_done, accept_failed, Accepted, stream, failed, Action, discarded,
  degraded, after, run_loop, run,
}

module _ {Err : Type 0} where
  -- After the streams `ns` the connection has failed as `e` says, and nothing behind it was read.
  pub data Ended (events : List (Accepted Err))
      : List (Action Err) × Option (DemoteError Err) → Type 0 where
    waiting : (ns : List ℕ) → events ≡ map stream ns → Ended events (map discarded ns, none)
    cancelled :
        (ns : List ℕ) (x c : Err) (rest : List (Accepted Err))
        → events ≡ map stream ns ++ failed x (some c) ∷ rest
        → Ended events (map discarded ns, some (ctx_done c))
    demoted :
        (ns : List ℕ) (x : Err) (rest : List (Accepted Err))
        → events ≡ map stream ns ++ failed x none ∷ rest
        → Ended events (map discarded ns ++ degraded peer_close x ∷ [], some (accept_failed x))

  Ended-stream :
      (n : ℕ) (events : List (Accepted Err)) {r : List (Action Err) × Option (DemoteError Err)}
      → Ended events r
      → Ended (stream n ∷ events) (after (discarded n) r)
  unfolding after
  Ended-stream n events (waiting ns e) = waiting (n ∷ ns) (ap (◌∷◌ (stream n)) e)
  Ended-stream n events (cancelled ns x c rest e) =
      cancelled (n ∷ ns) x c rest (ap (◌∷◌ (stream n)) e)
  Ended-stream n events (demoted ns x rest e) = demoted (n ∷ ns) x rest (ap (◌∷◌ (stream n)) e)

  run_loop-Ended : (events : List (Accepted Err)) → Ended events (run_loop events)
  unfolding run_loop
  run_loop-Ended [] = waiting [] refl
  run_loop-Ended (stream n ∷ events) = Ended-stream n events (run_loop-Ended events)
  run_loop-Ended (failed x (some c) ∷ events) = cancelled [] x c events refl
  run_loop-Ended (failed x none ∷ events) = demoted [] x events refl

  -- A wired demoter closes every stream that the peer opens and stops at the first failure; it
  -- calls OnDegrade once, last and with the reason peer_close, if the context was not over then,
  -- and not at all otherwise.
  pub run-Ended : (events : List (Accepted Err)) → Ended events (run true true events)
  unfolding run
  run-Ended events = run_loop-Ended events
