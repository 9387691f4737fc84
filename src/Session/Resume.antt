-- ===== src/Session/Resume.antt =====
-- pkg/session/session.go and promote.go: Resume with completeResume, MigrateToDirect and
-- handleDirectStream. A stream is a number; the outcomes of the calls on it are given; the resume
-- state of lib/resume is a parameter, as its payload and RetransmitFrom.
pub mod Gap
pub mod Pairs
pub mod Direct
mod Tests
use outrelay_agent.Base.{
  ℕ, ◌==◌, Bool, true, false, not, if◌then◌else◌, Option, none, some, Result, ok, err, List, [],
  ◌∷◌, ◌++◌,
}
use outrelay_agent.Orp.{Frame, Positions, resume_frame, malformed, stream_resume}
use outrelay_agent.Session.Wrapper.{Wrapper, swap_inner}

pub data ResumeError : Type 0 where
  nil_argument open_stream send_resume read_peer bad_peer no_gap retransmit_write unknown_stream :
      ResumeError
  id_mismatch : ℕ → ResumeError

-- What happens on the new stream.
pub data StreamEvent : Type 0 where
  sent_resume : Positions → StreamEvent
  retransmitted : List ℕ → StreamEvent
  shut : StreamEvent

-- The stream, if it opens; whether STREAM_RESUME is written; the frame that is read, if any; and
-- whether the bytes are written.
pub record Link : Type 0 where
  pub stream : Option ℕ
  pub sends : Bool
  pub reply : Option Frame
  pub writes : Bool

-- A non-empty gap is written before the swap; OnWrite is not called for it.
pub write_gap : Bool → List ℕ → Option ResumeError × List StreamEvent
write_gap writes [] = (none, [])
write_gap true (b ∷ bs) = (none, retransmitted (b ∷ bs) ∷ [])
write_gap false (b ∷ bs) = (some retransmit_write, retransmitted (b ∷ bs) ∷ [])

-- RetransmitFrom on the position that the peer has acknowledged; `none` is its error.
pub retransmit : (ℕ → Option (List ℕ)) → Bool → ℕ → Option ResumeError × List StreamEvent
unfolding write_gap
retransmit retransmit_from writes ack = elim (retransmit_from ack) [
  | none ↦ (some no_gap, [])
  | some gap ↦ write_gap writes gap
]

unfoldable pub complete_resume :
    (id : ℕ) → (ℕ → Option (List ℕ)) → Option Frame → Bool → Option ResumeError × List StreamEvent
unfolding retransmit
complete_resume id retransmit_from none writes = (some read_peer, [])
complete_resume id retransmit_from (some (resume_frame peer)) writes =
    if not (peer.stream_id == id)
    then (some (id_mismatch peer.stream_id), [])
    else retransmit retransmit_from writes peer.peer_ack_position
complete_resume id retransmit_from (some f) writes = (some bad_peer, [])

abbrev pub Resumed : Type 0
Resumed = Wrapper × Option ResumeError × List StreamEvent

-- The stream is closed behind an error, and the wrapper is left as it was.
pub finish : Wrapper → ℕ → List StreamEvent → Option ResumeError × List StreamEvent → Resumed
finish r st before (none, events) = (swap_inner r st, none, before ++ events)
finish r st before (some e, events) = (r, some e, before ++ events ++ shut ∷ [])

module _ (id : ℕ) (payload : ℕ × ℕ) (retransmit_from : ℕ → Option (List ℕ)) where
  unfoldable pub own_positions : Positions
  own_positions = record { stream_id = id; my_position = payload.0; peer_ack_position = payload.1 }

  unfoldable pub resume : Wrapper → Link → Resumed
  unfolding finish own_positions complete_resume
  resume r link = elim link.stream [
    | none ↦ (r, some open_stream, [])
    | some st ↦
        let mine = sent_resume own_positions ∷ [] in
        if link.sends
        then finish r st mine (complete_resume id retransmit_from link.reply link.writes)
        else (r, some send_resume, mine ++ shut ∷ [])
  ]

  -- The initiator's side of a migration: it neither reads an echo nor retransmits. `given` is
  -- whether neither argument is nil.
  unfoldable pub migrate_to_direct : Bool → Wrapper → Link → Resumed
  unfolding own_positions
  migrate_to_direct given r link =
      if not given then (r, some nil_argument, []) else elim link.stream [
        | none ↦ (r, some open_stream, [])
        | some st ↦
            let mine = sent_resume own_positions ∷ [] in
            if link.sends
            then (swap_inner r st, none, mine)
            else (r, some send_resume, mine ++ shut ∷ [])
      ]

-- The responder's side, on a stream that the peer opened: the map of the streams gives the wrapper
-- and RetransmitFrom of a known id.
pub direct_stream : (ℕ → Option (List ℕ)) → Wrapper → ℕ → ℕ → Bool → Resumed
unfolding finish retransmit
direct_stream retransmit_from r st ack writes =
    finish r st [] (retransmit retransmit_from writes ack)

abbrev pub Streams : Type 0
Streams = ℕ → Option (Wrapper × (ℕ → Option (List ℕ)))

-- `none` as the wrapper: no wrapper is concerned.
unfoldable pub handle_direct_stream :
    Streams → ℕ → Option Frame → Bool → Option Wrapper × Option ResumeError × List StreamEvent
unfolding direct_stream
handle_direct_stream streams st none writes = (none, some read_peer, shut ∷ [])
handle_direct_stream streams st (some (resume_frame peer)) writes = elim (streams peer.stream_id) [
  | none ↦ (none, some unknown_stream, shut ∷ [])
  | some (r, retransmit_from) ↦
      let out = direct_stream retransmit_from r st peer.peer_ack_position writes in
      (some out.0, out.1, out.2)
]
handle_direct_stream streams st (some f) writes = (none, some bad_peer, shut ∷ [])
