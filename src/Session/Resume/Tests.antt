-- ===== src/Session/Resume/Tests.antt =====
-- A stream of five bytes whose peer has the first two.
use outrelay_agent.Base.{
  ℕ, ◌≡◌, refl, true, Option, none, some, List, [], ◌∷◌, ◌++◌, take, drop, arith, if◌then◌else◌,
  ◌==◌,
}
use outrelay_agent.Orp.{Positions, resume_frame}
use outrelay_agent.Session.Wrapper.{wrap, swap_inner}
use outrelay_agent.Session.Resume.{
  Link, sent_resume, retransmitted, shut, resume, complete_resume, migrate_to_direct,
  handle_direct_stream, Streams,
}
use outrelay_agent.Session.Resume.Gap.{
  Retransmits, bytes, resume_restores, migrate_to_direct_silent, Handled,
  handle_direct_stream-Handled,
}
use outrelay_agent.Session.Resume.Pairs.{
  End, Restores, resume_pairs, migrated, accepted, received, direct_pairs,
}

abbrev sent : List ℕ
sent = 1 ∷ 2 ∷ 3 ∷ 4 ∷ 5 ∷ []

-- A ring that holds everything.
abbrev ring : ℕ → Option (List ℕ)
ring pos = some (drop pos sent)

ring-Retransmits : Retransmits sent ring
ring-Retransmits = record { from_position = λ pos gap e. ground (arith, e) }

abbrev peer : Positions
peer = record { stream_id = 9; my_position = 0; peer_ack_position = 2 }

abbrev link : Link
link = record { stream = some 7; sends = true; reply = some (resume_frame peer); writes = true }

resume_run :
    (resume 9 (5, 0) ring (wrap 3) link).2
    ≡ sent_resume (record { stream_id = 9; my_position = 5; peer_ack_position = 0 })
      ∷ retransmitted (3 ∷ 4 ∷ 5 ∷ [])
      ∷ []
unfolding resume complete_resume
resume_run = refl

mismatched :
    (resume 8 (5, 0) ring (wrap 3) link).2
    ≡ sent_resume (record { stream_id = 8; my_position = 5; peer_ack_position = 0 }) ∷ shut ∷ []
unfolding resume complete_resume
mismatched = refl

applied_resume_restores :
    ((resume 9 (5, 0) ring (wrap 3) link).0 ≡ swap_inner (wrap 3) 7)
    × ((resume 9 (5, 0) ring (wrap 3) link).1 ≡ none)
    × (take 2 sent ++ bytes (resume 9 (5, 0) ring (wrap 3) link).2 ≡ sent)
applied_resume_restores =
    resume_restores 9 (5, 0) ring (wrap 3) 7 peer sent (3 ∷ 4 ∷ 5 ∷ []) ring-Retransmits refl refl

applied_migrate_to_direct_silent : bytes (migrate_to_direct 9 (5, 0) ring true (wrap 3) link).2 ≡ []
applied_migrate_to_direct_silent = migrate_to_direct_silent 9 (5, 0) ring true (wrap 3) link

abbrev streams : Streams
streams id = if id == 9 then some (wrap 3, ring) else none

applied_handle_direct_stream-Handled :
    Handled streams 7
      (some (resume_frame peer))
      (handle_direct_stream streams 7 (some (resume_frame peer)) true)
applied_handle_direct_stream-Handled =
    handle_direct_stream-Handled streams 7 (some (resume_frame peer)) true

-- Two ends of the stream 9: each has received the first two bytes of the other.
abbrev here : End
here = record {
  wrapper = wrap 3;
  stream = 7;
  sent = sent;
  payload = (5, 2);
  retransmit_from = ring;
}

abbrev there : End
there = record {
  wrapper = wrap 4;
  stream = 8;
  sent = sent;
  payload = (5, 2);
  retransmit_from = ring;
}

resume_pairs_example : Restores 9 here there × Restores 9 there here
resume_pairs_example =
    resume_pairs 9 here there (3 ∷ 4 ∷ 5 ∷ []) (3 ∷ 4 ∷ 5 ∷ []) ring-Retransmits ring-Retransmits
      refl refl

abbrev peers : Streams
peers id = some (wrap 4, ring)

direct_pairs_example :
    ((migrated 9 here there).0 ≡ swap_inner (wrap 3) 7)
    × ((accepted 9 peers here there).0 ≡ some (swap_inner (wrap 4) 8))
    × (received here there ++ bytes (accepted 9 peers here there).2 ≡ sent)
    × (bytes (migrated 9 here there).2 ≡ [])
direct_pairs_example = direct_pairs 9 here there peers (3 ∷ 4 ∷ 5 ∷ []) ring-Retransmits refl refl
