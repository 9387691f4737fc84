-- ===== src/Session/Promotion/Tests.antt =====
-- A promotion of the stream 4, while an answer for the stream 9 comes before its own.
use outrelay_agent.Base.{
  ℕ, ◌≡◌, refl, ap, sym, arith, true, false, Option, none, some, err, [], ◌∷◌, Text, nat_eq,
}
use outrelay_agent.Base.Map.{lookup, insert}
use outrelay_agent.Netip.{Addr, v4}
use outrelay_agent.Orp.{CandidateList, PbCandidate}
use outrelay_agent.Candidate.{Candidate, host_kind}
use outrelay_agent.P2p.Check.{Engine, Dialer, new_engine}
use outrelay_agent.Session.Waiters.{
  P2pState, initial, entries, answer_offer, register_answer_waiter,
}
use outrelay_agent.Session.Promotion.{Outside, PromoteOptions, Promotion, gather_locals, promote}
use outrelay_agent.Session.Promotion.Routing.{IsFresh}
use outrelay_agent.Session.Promotion.Outcomes.{Ends, promote-Ends}
use outrelay_agent.Session.Promotion.Outcomes.Peers.{check_on, promote-check_on, dispatch-answers}
use outrelay_agent.Session.Waiters.Reader.{Control}
use outrelay_agent.P2p.Promoter.{to_pb, to_pb_loop, to_pb_one}

abbrev host : Candidate
host = record { kind = host_kind; addr = record { addr = v4 5; port = 7445 }; priority = 30 }

abbrev answer_for : ℕ → CandidateList
answer_for id = record { stream_id = id; candidates = [] }

-- The state counts the frames that are written.
abbrev outside : Outside ℕ ℕ
outside = record {
  write_ctrl = λ o f. (1, none);
  arrivals = λ o. (o, answer_for 9 ∷ answer_for 4 ∷ []);
  picks_ctx = λ o. false;
  wait_err = λ o. 7;
}

abbrev unreachable : Dialer (P2pState × ℕ) ℕ ℕ
unreachable w timeout r = (w, err 1)

abbrev alive : (P2pState × ℕ) → Option ℕ
alive w = none

abbrev engine : Engine (P2pState × ℕ) ℕ ℕ
engine = new_engine

abbrev format_test : Addr → Text
format_test a = []

abbrev parse_test : Text → Option Addr
parse_test t = none

-- EnableP2P on a new session.
abbrev enabled : P2pState
enabled = record initial { pending_answers = some []; p2p_enabled = true; readers = 1 }

enabled-IsFresh : IsFresh enabled
unfolding initial entries lookup
enabled-IsFresh = record { waited = λ id c e. cc; filled = λ c a e. cc }

abbrev waiting : P2pState
waiting = record enabled { pending_answers = some ((4, 0) ∷ []); next_chan = 1 }

registered : register_answer_waiter enabled 4 ≡ some (waiting, 0)
unfolding register_answer_waiter initial insert
registered = refl

abbrev opts : PromoteOptions
opts = record { host_port = 7445; locals = host ∷ [] }

applied_promote-Ends :
    (out : Promotion format_test parse_test none outside unreachable alive) × (promote format_test
        parse_test none outside unreachable alive enabled 0
        (some 4)
        (some engine)
        opts
      ≡ some out)
    × Ends format_test parse_test none outside unreachable alive 4 0 engine
        (gather_locals format_test parse_test none opts enabled)
        waiting
        0
        out
applied_promote-Ends =
    promote-Ends format_test parse_test none outside unreachable alive engine enabled waiting 0 4 0
      opts enabled-IsFresh registered

-- Reads each text as the address of the host candidate.
abbrev parse_five : Text → Option Addr
parse_five t = some (v4 5)

abbrev host_pb : PbCandidate
host_pb = record { kind = host_kind; ip = []; port = 7445; priority = 30 }

abbrev peer : Control ℕ
peer = record {
  p2p = record initial { local_candidates = host_pb ∷ [] };
  streams = [];
  shared = true;
}

-- What the peer answers arrives.
abbrev paired : Outside ℕ ℕ
paired = record outside {
  arrivals = λ o. (o, record { stream_id = 4; candidates = host_pb ∷ [] } ∷ []);
}

promote-check_on_example :
    (u : P2pState) × (promote format_test parse_five none paired unreachable alive enabled 0
        (some 4)
        (some engine)
        opts
      ≡ some (
          check_on format_test parse_five none paired unreachable alive 4 0 engine
            (host ∷ [])
            (host ∷ [])
            (u, 1)))
unfolding gather_locals answer_offer to_pb to_pb_loop to_pb_one
promote-check_on_example =
    promote-check_on format_test parse_five none paired unreachable alive engine (λ (n pos : ℕ). n)
      peer (host ∷ []) enabled waiting 0 1 1 4 0 opts enabled-IsFresh registered
      ((refl, omega arith), tt) refl refl
      (ap (λ l. (1, l))
        (sym (
          dispatch-answers parse_five (λ (n pos : ℕ). n) peer
            (record { stream_id = 4; candidates = host_pb ∷ [] }))))
      refl
