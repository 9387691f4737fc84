-- ===== src/Session/Resume/Pairs.antt =====
-- The two ends of a stream: both resume over the relay, or one migrates and the other accepts it.
use outrelay_agent.Base.{
  ℕ, ◌≡◌, refl, ap, ◌∙◌, true, Option, none, some, List, [], ◌++◌, take, take-append-drop,
}
use outrelay_agent.Orp.{Positions, resume_frame}
use outrelay_agent.Session.Wrapper.{Wrapper, swap_inner}
use outrelay_agent.Session.Resume.{
  ResumeError, StreamEvent, Link, Resumed, resume, own_positions, migrate_to_direct, Streams,
  handle_direct_stream, direct_stream, retransmit, finish,
}
use outrelay_agent.Session.Resume.Gap.{
  Retransmits, bytes, gap_events, write_gap_ok, bytes-gap_events, resume_restores,
  migrate_to_direct_silent,
}

-- One end: its wrapper, its new stream, what it has sent, and its resume state.
pub record End : Type 0 where
  pub wrapper : Wrapper
  pub stream : ℕ
  pub sent : List ℕ
  pub payload : ℕ × ℕ
  pub retransmit_from : ℕ → Option (List ℕ)

-- Of what its peer has sent, an end has received as much as it acknowledges.
abbrev pub received : End → End → List ℕ
received a b = take a.payload.1 b.sent

-- The positions that an end sends.
abbrev pub positions : ℕ → End → Positions
positions id a = own_positions id a.payload a.retransmit_from

-- The stream of an end works, and its first frame is the peer's STREAM_RESUME.
abbrev pub linked : ℕ → End → End → Link
linked id a b = record {
  stream = some a.stream;
  sends = true;
  reply = some (resume_frame (positions id b));
  writes = true;
}

abbrev pub resumed : ℕ → End → End → Resumed
resumed id a b = resume id a.payload a.retransmit_from a.wrapper (linked id a b)

abbrev pub migrated : ℕ → End → End → Resumed
migrated id a b = migrate_to_direct id a.payload a.retransmit_from true a.wrapper (linked id a b)

-- An end that Resume brings back behind a peer: nothing that it sent is missing there.
abbrev pub Restores : ℕ → End → End → Type 0
Restores id a b =
    ((resumed id a b).0 ≡ swap_inner a.wrapper a.stream)
    × ((resumed id a b).1 ≡ none)
    × (received b a ++ bytes (resumed id a b).2 ≡ a.sent)

module _ (id : ℕ) (a b : End) where
  resumed-Restores :
      (gap : List ℕ)
      → Retransmits a.sent a.retransmit_from
      → a.retransmit_from b.payload.1 ≡ some gap
      → Restores id a b
  unfolding own_positions
  resumed-Restores gap doc got =
      resume_restores id a.payload a.retransmit_from a.wrapper a.stream (positions id b) a.sent gap
        doc refl got

module _ (id : ℕ) (a b : End) (from_a from_b : List ℕ) where
  -- When the relay splices the new streams of two ends that both call Resume, and each ring still
  -- holds what the other end has not received, both swap their streams in, and each end has then
  -- been sent, with what it had received before, all that the other has sent.
  pub resume_pairs :
      Retransmits a.sent a.retransmit_from
      → Retransmits b.sent b.retransmit_from
      → a.retransmit_from b.payload.1 ≡ some from_a
      → b.retransmit_from a.payload.1 ≡ some from_b
      → Restores id a b × Restores id b a
  resume_pairs doc_a doc_b got_a got_b =
      (resumed-Restores id a b from_a doc_a got_a, resumed-Restores id b a from_b doc_b got_b)

-- The other end's handleDirectStream, on what MigrateToDirect sends.
abbrev pub accepted :
    ℕ → Streams → End → End → Option Wrapper × Option ResumeError × List StreamEvent
accepted id streams a b =
    handle_direct_stream streams b.stream (some (resume_frame (positions id a))) true

retransmit_ok :
    (from : ℕ → Option (List ℕ)) (ack : ℕ) (gap : List ℕ)
    → from ack ≡ some gap
    → retransmit from true ack ≡ (none, gap_events gap)
unfolding retransmit
retransmit_ok from ack gap got = rw (got, retransmit) (write_gap_ok gap)

accepted_ok :
    (id : ℕ) (streams : Streams) (a b : End) (gap : List ℕ)
    → streams id ≡ some (b.wrapper, b.retransmit_from)
    → b.retransmit_from a.payload.1 ≡ some gap
    → accepted id streams a b ≡ (some (swap_inner b.wrapper b.stream), none, gap_events gap)
unfolding handle_direct_stream direct_stream finish own_positions
accepted_ok id streams a b gap known got =
    rw (known, handle_direct_stream)
      (ap
        (λ out. (
          some (finish b.wrapper b.stream [] out).0,
          (finish b.wrapper b.stream [] out).1,
          (finish b.wrapper b.stream [] out).2,
        ))
        (retransmit_ok b.retransmit_from a.payload.1 gap got))

module _ (id : ℕ) (a b : End) (streams : Streams) (gap : List ℕ) where
  -- When MigrateToDirect reaches a peer whose stream has the id, and the peer's ring still holds
  -- what this end has not received, both swap the direct stream in. This end has then been sent
  -- all that the peer has sent; but nothing is sent again to the peer.
  pub direct_pairs :
      Retransmits b.sent b.retransmit_from
      → streams id ≡ some (b.wrapper, b.retransmit_from)
      → b.retransmit_from a.payload.1 ≡ some gap
      → ((migrated id a b).0 ≡ swap_inner a.wrapper a.stream)
        × ((accepted id streams a b).0 ≡ some (swap_inner b.wrapper b.stream))
        × (received a b ++ bytes (accepted id streams a b).2 ≡ b.sent)
        × (bytes (migrated id a b).2 ≡ [])
  unfolding migrate_to_direct
  direct_pairs doc known got =
      let peer = accepted_ok id streams a b gap known got in
      (
        refl,
        ap (λ out. out.0) peer,
        rw peer (
            ap (λ l. received a b ++ l)
              (bytes-gap_events gap ∙ doc.from_position a.payload.1 gap got)
            ∙ take-append-drop a.payload.1 b.sent),
        migrate_to_direct_silent id a.payload a.retransmit_from true a.wrapper (linked id a b),
      )
