-- ===== src/P2p/Demoter.antt =====
-- pkg/p2p/demoter.go: the watch over a direct connection. The connection is the list of what its
-- AcceptStream returns, call by call; the result is what the run does and, once it ends, its error.
pub mod Laws
use outrelay_agent.Base.{Bool, true, false, Option, none, some, List, [], ◌∷◌, ℕ}

pub data DemoteReason : Type 0 where
  peer_close rtt_timeout : DemoteReason

pub data DemoteError (Err : Type 0) : Type 0 where
  misconfigured : DemoteError Err
  ctx_done accept_failed : Err → DemoteError Err

-- A stream that the peer opened, or an error together with `ctx.Err()` after it.
pub data Accepted (Err : Type 0) : Type 0 where
  stream : ℕ → Accepted Err
  failed : Err → Option Err → Accepted Err

-- A stream is closed unused, or OnDegrade is called.
pub data Action (Err : Type 0) : Type 0 where
  discarded : ℕ → Action Err
  degraded : DemoteReason → Err → Action Err

module _ {Err : Type 0} where
  after :
      Action Err
      → List (Action Err) × Option (DemoteError Err)
      → List (Action Err) × Option (DemoteError Err)
  after a (acts, out) = (a ∷ acts, out)

  -- `none` for the error: the loop waits in AcceptStream.
  unfoldable pub run_loop : List (Accepted Err) → List (Action Err) × Option (DemoteError Err)
  unfolding after
  run_loop [] = ([], none)
  run_loop (stream n ∷ events) = after (discarded n) (run_loop events)
  run_loop (failed x (some c) ∷ events) = ([], some (ctx_done c))
  run_loop (failed x none ∷ events) = (degraded peer_close x ∷ [], some (accept_failed x))

  -- Whether Conn and OnDegrade are set, and the connection's events.
  unfoldable pub run :
      Bool → Bool → List (Accepted Err) → List (Action Err) × Option (DemoteError Err)
  unfolding run_loop
  run true true events = run_loop events
  run _ _ events = ([], some misconfigured)
