-- ===== src/Session/Resume/Direct.antt =====
-- pkg/session/promote.go: the streams that AcceptDirect takes from its connections. Each is handled
-- in a goroutine of its own; the list is in the order in which they reach the session's streams. The
-- streams' resume states stay as they are meanwhile, and no stream is added or forgotten.
pub mod Placed
pub mod Settled
mod Tests
use outrelay_agent.Base.{
  ℕ, ◌==◌, Bool, true, false, if◌then◌else◌, Option, none, some, List, [], ◌∷◌, ◌++◌,
}
use outrelay_agent.Orp.{Frame, resume_frame}
use outrelay_agent.Session.Wrapper.{Wrapper}
use outrelay_agent.Session.Resume.{ResumeError, StreamEvent, shut, Streams, handle_direct_stream}

-- RetransmitFrom of a stream's resume state.
abbrev pub Ring : Type 0
Ring = ℕ → Option (List ℕ)

-- A stream, the first frame that is read from it, if any, and whether it takes what is written.
pub record DirectStream : Type 0 where
  pub stream : ℕ
  pub reply : Option Frame
  pub writes : Bool

-- The wrapper of an id that is known; its resume state stays.
unfoldable pub renew : Wrapper → Option (Wrapper × Ring) → Option (Wrapper × Ring)
renew r none = none
renew r (some known) = some (r, known.1)

unfoldable pub set_stream : Streams → ℕ → Wrapper → Streams
unfolding renew
set_stream streams id r = λ other. if other == id then renew r (streams other) else streams other

-- What handleDirectStream has done to the wrapper that the frame names.
unfoldable pub place : Streams → Option Frame → Option Wrapper → Streams
unfolding set_stream
place streams (some (resume_frame peer)) (some r) = set_stream streams peer.stream_id r
place streams reply changed = streams

-- The arrival's stream, for each time that it is closed.
unfoldable pub dropped : DirectStream → List StreamEvent → List ℕ
dropped a [] = []
dropped a (shut ∷ events) = a.stream ∷ dropped a events
dropped a (event ∷ events) = dropped a events

-- The session's streams, and the streams that are closed.
unfoldable pub accept_direct_streams : Streams → List DirectStream → Streams × List ℕ
unfolding place dropped
accept_direct_streams streams [] = (streams, [])
accept_direct_streams streams (a ∷ more) =
    let out = handle_direct_stream streams a.stream a.reply a.writes in
    let rest = accept_direct_streams (place streams a.reply out.0) more in
    (rest.0, dropped a out.2 ++ rest.1)
