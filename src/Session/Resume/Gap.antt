-- ===== src/Session/Resume/Gap.antt =====
-- What is retransmitted, and what becomes of a new stream.
use mathlib.Core.List.{append-nil}
use outrelay_agent.Base.{
  ℕ, ◌≡◌, refl, ap, ◌∙◌, ◌⊎◌, inl, inr, ==_iff, Bool, true, false, Bool-cases, Option, none, some,
  Option-cases, List, [], ◌∷◌, ◌++◌, take, drop, take-append-drop, arith,
}
use outrelay_agent.Orp.{
  Frame, Positions, resume_frame, hello_frame, hello_ack_frame, register_frame, register_ack_frame,
  open_stream_frame, incoming_stream_frame, stream_accept_frame, stream_reject_frame,
  stream_ready_frame, alloc_granted_frame, checkpoint_frame, offer_frame, answer_frame,
  migrate_frame, addr_query_frame, addr_resp_frame, malformed, unknown_frame,
}
use outrelay_agent.Session.Wrapper.{Wrapper, swap_inner}
use outrelay_agent.Session.Resume.{
  ResumeError, StreamEvent, sent_resume, retransmitted, shut, Link, Resumed, resume,
  complete_resume, retransmit, write_gap, finish, own_positions, migrate_to_direct, Streams,
  handle_direct_stream, direct_stream,
}

-- The bytes that are retransmitted.
pub bytes : List StreamEvent → List ℕ
bytes [] = []
bytes (retransmitted bs ∷ events) = bs ++ bytes events
bytes (e ∷ events) = bytes events

-- lib/resume: RetransmitFrom returns the bytes that were sent from a position on, or an error.
pub record Retransmits (sent : List ℕ) (retransmit_from : ℕ → Option (List ℕ)) : Type 0 where
  pub from_position :
      (pos : ℕ) (gap : List ℕ) → retransmit_from pos ≡ some gap → gap ≡ drop pos sent

-- The stream is swapped in, or closed with the wrapper left alone, or it was never opened and
-- nothing was done.
abbrev pub Placed : Wrapper → Option ℕ → Resumed → Type 0
Placed r link (t, none, events) = (st : ℕ) × (link ≡ some st) × (t ≡ swap_inner r st)
Placed r link (t, some e, events) =
    (t ≡ r)
    × (((link ≡ none) × (events ≡ []))
        ⊎ ((before : List StreamEvent) × (events ≡ before ++ shut ∷ [])))

finish-Placed :
    (r : Wrapper) (st : ℕ) (before : List StreamEvent) (o : Option ResumeError × List StreamEvent)
    → Placed r (some st) (finish r st before o)
unfolding finish
finish-Placed r st before (none, events) = (st, refl, refl)
finish-Placed r st before (some e, events) = (refl, inr (before ++ events, refl))

pub gap_events : List ℕ → List StreamEvent
gap_events [] = []
gap_events (b ∷ bs) = retransmitted (b ∷ bs) ∷ []

pub write_gap_ok : (gap : List ℕ) → write_gap true gap ≡ (none, gap_events gap)
unfolding write_gap gap_events
write_gap_ok [] = refl
write_gap_ok (b ∷ bs) = refl

pub bytes-gap_events : (gap : List ℕ) → bytes (gap_events gap) ≡ gap
unfolding bytes gap_events
bytes-gap_events [] = refl
bytes-gap_events (b ∷ bs) = append-nil (b ∷ bs)

module _ (id : ℕ) (payload : ℕ × ℕ) (retransmit_from : ℕ → Option (List ℕ)) where
  pub resume-Placed :
      (r : Wrapper) (link : Link) → Placed r link.stream (resume id payload retransmit_from r link)
  unfolding resume
  resume-Placed r link = elim (Option-cases link.stream) [
    | inl closed ↦ rw (closed, resume) (refl, inl (refl, refl))
    | inr (st, up) ↦ elim (Bool-cases link.sends) [
      | inl sends ↦
          rw (up, resume, sends)
            (finish-Placed r st (sent_resume (own_positions id payload retransmit_from) ∷ [])
              (complete_resume id retransmit_from link.reply link.writes))
      | inr stuck ↦
          rw (up, resume, stuck)
            (refl, inr (sent_resume (own_positions id payload retransmit_from) ∷ [], refl))
    ]
  ]

  migrate-Placed :
      (r : Wrapper) (stream : Option ℕ) (sends : Bool) (reply : Option Frame) (writes : Bool)
      → let link : Link = record {
        stream = stream;
        sends = sends;
        reply = reply;
        writes = writes;
      } in
        Placed r stream (migrate_to_direct id payload retransmit_from true r link)
  unfolding migrate_to_direct
  migrate-Placed r none sends reply writes = (refl, inl (refl, refl))
  migrate-Placed r (some st) true reply writes = (st, refl, refl)
  migrate-Placed r (some st) false reply writes =
      (refl, inr (sent_resume (own_positions id payload retransmit_from) ∷ [], refl))

  -- MigrateToDirect swaps its new stream in, or closes it and leaves the wrapper alone.
  pub migrate_to_direct-Placed :
      (r : Wrapper) (link : Link)
      → Placed r link.stream (migrate_to_direct id payload retransmit_from true r link)
  migrate_to_direct-Placed r link = migrate-Placed r link.stream link.sends link.reply link.writes

  -- MigrateToDirect retransmits nothing, whatever happens on its new stream.
  pub migrate_to_direct_silent :
      (given : Bool) (r : Wrapper) (link : Link)
      → bytes (migrate_to_direct id payload retransmit_from given r link).2 ≡ []
  unfolding migrate_to_direct bytes
  migrate_to_direct_silent false r link = refl
  migrate_to_direct_silent true r link = elim (Option-cases link.stream) [
    | inl closed ↦ rw (closed, migrate_to_direct) refl
    | inr (st, up) ↦ elim (Bool-cases link.sends) [
      | inl sends ↦ rw (up, migrate_to_direct, sends) refl
      | inr stuck ↦ rw (up, migrate_to_direct, stuck) refl
    ]
  ]

  complete_resume_ok :
      (peer : Positions) (gap : List ℕ)
      → peer.stream_id ≡ id
      → retransmit_from peer.peer_ack_position ≡ some gap
      → complete_resume id retransmit_from (some (resume_frame peer)) true ≡ (none, gap_events gap)
  unfolding complete_resume retransmit
  complete_resume_ok peer gap same got =
      ground (arith, same, got, ==_iff peer.stream_id id, write_gap_ok gap)

  -- When the relay pairs the stream with the peer's, Resume swaps in the new stream, and what the
  -- peer has acknowledged with what is retransmitted is all that was sent, if the ring still holds
  -- the bytes after the acknowledged ones.
  pub resume_restores :
      (r : Wrapper) (st : ℕ) (peer : Positions) (sent gap : List ℕ)
      → Retransmits sent retransmit_from
      → peer.stream_id ≡ id
      → retransmit_from peer.peer_ack_position ≡ some gap
      → let link : Link = record {
        stream = some st;
        sends = true;
        reply = some (resume_frame peer);
        writes = true;
      } in
        let out = resume id payload retransmit_from r link in
        (out.0 ≡ swap_inner r st)
        × (out.1 ≡ none)
        × (take peer.peer_ack_position sent ++ bytes out.2 ≡ sent)
  unfolding resume bytes finish
  resume_restores r st peer sent gap doc same got =
      rw (complete_resume_ok peer gap same got, finish)
        (
          refl,
          refl,
          ap (λ l. take peer.peer_ack_position sent ++ l)
                (bytes-gap_events gap ∙ doc.from_position peer.peer_ack_position gap got)
              ∙ take-append-drop peer.peer_ack_position sent,
        )

-- The stream is swapped into the wrapper that its first frame names, or it is closed last and no
-- wrapper changes.
abbrev pub Handled :
    Streams → ℕ → Option Frame → Option Wrapper × Option ResumeError × List StreamEvent → Type 0
Handled streams st reply (t, none, events) =
    (peer : Positions) × (r : Wrapper) × (from : ℕ → Option (List ℕ)) × (reply
      ≡ some (resume_frame peer))
    × (streams peer.stream_id ≡ some (r, from))
    × (t ≡ some (swap_inner r st))
Handled streams st reply (t, some e, events) =
    (before : List StreamEvent) × (events ≡ before ++ shut ∷ [])
    × ((t ≡ none)
        ⊎ ((peer : Positions) × (r : Wrapper) × (from : ℕ → Option (List ℕ)) × (streams
                peer.stream_id
              ≡ some (r, from))
            × (t ≡ some r)))

known-Handled :
    (streams : Streams) (st : ℕ) (peer : Positions) (r : Wrapper) (from : ℕ → Option (List ℕ))
    (o : Option ResumeError × List StreamEvent)
    → streams peer.stream_id ≡ some (r, from)
    → Handled streams st
        (some (resume_frame peer))
        (some (finish r st [] o).0, (finish r st [] o).1, (finish r st [] o).2)
unfolding finish
known-Handled streams st peer r from (none, events) known = (peer, r, from, refl, known, refl)
known-Handled streams st peer r from (some e, events) known =
    (events, refl, inr (peer, r, from, known, refl))

module _ (streams : Streams) (st : ℕ) where
  handle_resume_frame :
      (peer : Positions) (writes : Bool)
      → Handled streams st
          (some (resume_frame peer))
          (handle_direct_stream streams st (some (resume_frame peer)) writes)
  unfolding handle_direct_stream direct_stream
  handle_resume_frame peer writes = elim (Option-cases (streams peer.stream_id)) [
    | inl unknown ↦ rw (unknown, handle_direct_stream) ([], refl, inl refl)
    | inr ((r, from), known) ↦
        rw (known, handle_direct_stream)
          (known-Handled streams st peer r from (retransmit from writes peer.peer_ack_position)
            known)
  ]

  -- Whatever the first frame of a direct stream is, handleDirectStream either swaps the stream into
  -- the wrapper of the id that a STREAM_RESUME names, or closes the stream last and changes no
  -- wrapper.
  pub handle_direct_stream-Handled :
      (reply : Option Frame) (writes : Bool)
      → Handled streams st reply (handle_direct_stream streams st reply writes)
  unfolding handle_direct_stream
  handle_direct_stream-Handled none writes = ([], refl, inl refl)
  handle_direct_stream-Handled (some (resume_frame peer)) writes = handle_resume_frame peer writes
  handle_direct_stream-Handled (some (hello_frame a b)) writes = ([], refl, inl refl)
  handle_direct_stream-Handled (some hello_ack_frame) writes = ([], refl, inl refl)
  handle_direct_stream-Handled (some (register_frame a b)) writes = ([], refl, inl refl)
  handle_direct_stream-Handled (some register_ack_frame) writes = ([], refl, inl refl)
  handle_direct_stream-Handled (some (open_stream_frame o)) writes = ([], refl, inl refl)
  handle_direct_stream-Handled (some (incoming_stream_frame i)) writes = ([], refl, inl refl)
  handle_direct_stream-Handled (some stream_accept_frame) writes = ([], refl, inl refl)
  handle_direct_stream-Handled (some (stream_reject_frame n t)) writes = ([], refl, inl refl)
  handle_direct_stream-Handled (some (stream_ready_frame n)) writes = ([], refl, inl refl)
  handle_direct_stream-Handled (some (alloc_granted_frame g)) writes = ([], refl, inl refl)
  handle_direct_stream-Handled (some (checkpoint_frame c)) writes = ([], refl, inl refl)
  handle_direct_stream-Handled (some (offer_frame o)) writes = ([], refl, inl refl)
  handle_direct_stream-Handled (some (answer_frame a)) writes = ([], refl, inl refl)
  handle_direct_stream-Handled (some (migrate_frame m)) writes = ([], refl, inl refl)
  handle_direct_stream-Handled (some (addr_query_frame n)) writes = ([], refl, inl refl)
  handle_direct_stream-Handled (some (addr_resp_frame r)) writes = ([], refl, inl refl)
  handle_direct_stream-Handled (some (malformed t)) writes = ([], refl, inl refl)
  handle_direct_stream-Handled (some (unknown_frame n)) writes = ([], refl, inl refl)
