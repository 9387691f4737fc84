-- ===== src/Session/Waiters/Reader.antt =====
-- pkg/session/promote.go and checkpoints.go: controlReader, what it does on each frame, and
-- warmupPunch. The resume state of a stream (lib/resume) is a parameter, and so is net.ParseIP.
pub mod Replies
pub mod Offers
use outrelay_agent.Base.{
  ℕ, Bool, true, false, ◌||◌, ◌&&◌, not, ◌==◌, ltb, if◌then◌else◌, Option, none, some, List, [],
  ◌∷◌, ◌++◌, map, Text, text_beq, nat_eq,
}
use outrelay_agent.Base.Map.{Map, lookup, insert}
use outrelay_agent.Netip.{Addr}
use outrelay_agent.Orp.{
  Frame, FrameType, PbCandidate, CandidateList, Positions, AllocGranted, answer_frame, offer_frame,
  checkpoint_frame, alloc_granted_frame, stream_ready_frame, malformed, candidate_answer,
  candidate_offer, stream_checkpoint, alloc_granted, stream_ready,
}
use outrelay_agent.Session.Waiters.{P2pState, deliver_answer, answer_offer, deliver_mode}

-- A frame on the control stream, or a one-byte datagram to a candidate.
pub data Output : Type 0 where
  wrote : Frame → Output
  punched : Addr → ℕ → Output

module _ (parse_ip : Text → Option Addr) where
  -- Where a candidate of the peer is punched; a nil candidate and an unusable one are skipped.
  unfoldable pub punch_target : Option PbCandidate → Option (Addr × ℕ)
  punch_target none = none
  punch_target (some c) =
      if text_beq c.ip [] || c.port == 0 || ltb 0xffff c.port
      then none
      else elim (parse_ip c.ip) [ none ↦ none | some ip ↦ some (ip, c.port) ]

  unfoldable pub punch_each : List (Option PbCandidate) → List Output
  punch_each [] = []
  punch_each (c ∷ cs) = elim (punch_target c) [
    | none ↦ punch_each cs
    | some (ip, port) ↦ punched ip port ∷ punch_each cs
  ]

  -- `shared` is whether the session's dialer is a SharedTransport. A failed write is only logged.
  unfoldable pub warmup_punch : Bool → List (Option PbCandidate) → List Output
  unfolding punch_each
  warmup_punch shared cands = if not shared then [] else punch_each cands

module _ (S : Type 0) where
  pub record Control : Type 0 where
    pub p2p : P2pState
    pub streams : Map ℕ S
    pub shared : Bool

module _ (parse_ip : Text → Option Addr) {S : Type 0} (on_checkpoint_from_peer : S → ℕ → S) where
  unfoldable pub apply_checkpoint : Control S → Positions → Control S
  apply_checkpoint c cp = elim (lookup cp.stream_id c.streams) [
    | none ↦ c
    | some st ↦ record c {
      streams = insert cp.stream_id (on_checkpoint_from_peer st cp.peer_ack_position) c.streams;
    }
  ]

  -- The `switch` on the frame's type. A payload that does not unmarshal and an unexpected type are
  -- logged only.
  unfoldable pub dispatch : Control S → Frame → Control S × List Output
  unfolding apply_checkpoint warmup_punch
  dispatch c (answer_frame a) = (record c { p2p = deliver_answer c.p2p a }, [])
  dispatch c (offer_frame o) = (
    c,
    wrote (answer_frame (answer_offer c.p2p o))
        ∷ warmup_punch parse_ip c.shared (map some o.candidates),
  )
  dispatch c (checkpoint_frame cp) = (apply_checkpoint c cp, [])
  dispatch c (alloc_granted_frame g) =
      (record c { p2p = deliver_mode c.p2p g.stream_id (some g) }, [])
  dispatch c (stream_ready_frame id) = (record c { p2p = deliver_mode c.p2p id none }, [])
  dispatch c _ = (c, [])

  then_out : List Output → Control S × List Output → Control S × List Output
  then_out out (c, more) = (c, out ++ more)

  -- `continue` after a failed unmarshal skips the test of the context.
  skips_select : Frame → Bool
  skips_select (malformed candidate_answer) = true
  skips_select (malformed candidate_offer) = true
  skips_select (malformed stream_checkpoint) = true
  skips_select (malformed alloc_granted) = true
  skips_select (malformed stream_ready) = true
  skips_select _ = false

  -- The frames that ParseFrame returns, each with whether the context is over behind its case, up
  -- to the read that waits or fails.
  unfoldable pub control_reader : Control S → List (Frame × Bool) → Control S × List Output
  unfolding dispatch then_out skips_select
  control_reader c [] = (c, [])
  control_reader c ((f, ctx_done) ∷ frames) =
      let r = dispatch c f in
      let more = then_out r.1 (control_reader r.0 frames) in
      if ctx_done && not (skips_select f) then r else more
