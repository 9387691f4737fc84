-- ===== src/Session/Waiters/Tests.antt =====
-- Two streams that wait, one answer that comes twice, and a warm-up with one usable candidate.
use outrelay_agent.Base.{
  ℕ, ◌≡◌, refl, true, false, Option, none, some, List, [], ◌∷◌, ◌+◌, map, Text, Bool, nat_eq,
}
use outrelay_agent.Base.Map.{lookup, insert}
use outrelay_agent.Netip.{Addr, v4}
use outrelay_agent.Orp.{
  Frame, PbCandidate, CandidateList, offer_frame, stream_ready_frame, malformed, candidate_offer,
  checkpoint_frame,
}
use outrelay_agent.Session.Waiters.{
  P2pState, Notice, initial, enable_p2p, register_answer_waiter, deliver_answer, entries,
  register_stream_mode_waiter, wait_for_stream_mode,
}
use outrelay_agent.Session.Waiters.Modes.{
  ModeOp, registers, cancels, delivers, mode_steps, deliver_all, first_notice, GotMode,
  first_notice_wins,
}
use outrelay_agent.Session.Waiters.Reader.{warmup_punch, Control, control_reader}
use outrelay_agent.Session.Waiters.Reader.Offers.{
  offers, offer_of, written, reply, control_reader_replies,
}
use outrelay_agent.Session.Waiters.Reader.Replies.{
  deliver_answer_once, enable_times, enable_p2p_once, Punches, warmup_punch-Punches,
}

abbrev answer : CandidateList
answer = record { stream_id = 5; candidates = [] }

registered : P2pState × ℕ
unfolding enable_p2p initial register_answer_waiter
registered =
    (record (enable_p2p initial) { pending_answers = some ((5, 0) ∷ []); next_chan = 1 }, 0)

applied_deliver_answer_once :
    (lookup 0 (deliver_answer registered.0 answer).answers ≡ some answer)
    × (deliver_answer (deliver_answer registered.0 answer) answer
        ≡ deliver_answer registered.0 answer)
applied_deliver_answer_once =
    deliver_answer_once (enable_p2p initial) registered.0 [] answer answer 0
      (unfold enable_p2p initial entries in refl) (unfold enable_p2p initial lookup in refl)
      (unfold register_answer_waiter registered enable_p2p initial insert in refl) refl

applied_enable_p2p_once : (enable_times 3 initial).readers ≡ 1
applied_enable_p2p_once = enable_p2p_once 2

abbrev history : List ModeOp
history = registers 4 ∷ delivers 4 none ∷ cancels 4 ∷ registers 6 ∷ []

abbrev deliveries : List (ℕ × Notice)
deliveries = (6, none) ∷ (4, none) ∷ (4, none) ∷ []

first_notice_wins_example : GotMode 4 (first_notice none 4 deliveries) (
    wait_for_stream_mode
      (deliver_all (register_stream_mode_waiter (mode_steps initial history) 4).0 deliveries)
      4
      false
      true)
first_notice_wins_example = first_notice_wins history 4 deliveries true

any_address : Text → Option Addr
any_address t = some (v4 0x7f000001)

abbrev offered : List (Option PbCandidate)
offered =
    none
    ∷ some (record { ip = 49 ∷ []; port = 0; kind = []; priority = 0 })
    ∷ some (record { ip = 49 ∷ []; port = 443; kind = []; priority = 0 })
    ∷ []

applied_warmup_punch-Punches : Punches any_address offered (warmup_punch any_address true offered)
applied_warmup_punch-Punches = warmup_punch-Punches any_address offered

abbrev control : Control ℕ
control = record {
  p2p = record initial {
    local_candidates = record { kind = []; ip = 50 ∷ []; port = 9; priority = 1 } ∷ [];
  };
  streams = (5, 100) ∷ [];
  shared = true;
}

abbrev frames : List (Frame × Bool)
frames =
    (offer_frame answer, false)
    ∷ (stream_ready_frame 5, false)
    ∷ (malformed candidate_offer, false)
    ∷ (checkpoint_frame (record { stream_id = 5; my_position = 7; peer_ack_position = 3 }), false)
    ∷ (offer_frame (record { stream_id = 8; candidates = [] }), false)
    ∷ []

two_offers : offers frames ≡ answer ∷ record { stream_id = 8; candidates = [] } ∷ []
unfolding offers offer_of
two_offers = refl

control_reader_replies_example :
    written (control_reader any_address (λ (s : ℕ) n. s + n) control frames).1
    ≡ map (reply control.p2p.local_candidates) (offers frames)
control_reader_replies_example =
    control_reader_replies any_address (λ (s : ℕ) n. s + n) control frames
      (refl, (refl, (refl, (refl, (refl, tt)))))
