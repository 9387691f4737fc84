-- ===== src/Agent/Promoting/Tests.antt =====
-- A promotion of the stream 4 whose check passes, with a direct stream and without one.
use outrelay_agent.Base.{
  ℕ, ◌≡◌, refl, true, false, Option, none, some, ok, List, [], ◌∷◌, Text, nat_eq,
}
use outrelay_agent.Base.Map.{lookup, insert}
use outrelay_agent.Netip.{Addr, v4}
use outrelay_agent.Orp.{CandidateList}
use outrelay_agent.Candidate.{host_kind}
use outrelay_agent.P2p.Check.{Engine, Dialer, new_engine}
use outrelay_agent.Session.Wrapper.{wrap}
use outrelay_agent.Session.Waiters.{P2pState, initial, entries, register_answer_waiter}
use outrelay_agent.Session.Resume.{Link}
use outrelay_agent.Session.Promotion.{Outside, Promotion, gather_locals}
use outrelay_agent.Session.Promotion.Routing.{IsFresh}
use outrelay_agent.Session.Promotion.Outcomes.{Ends}
use outrelay_agent.Agent.Promoting.{Tried, DialledStream, options, try_promote}
use outrelay_agent.Agent.Promoting.Settled.{Settles, try_promote-Settles}

abbrev answer : CandidateList
answer = record {
  stream_id = 4;
  candidates = record { kind = host_kind; ip = []; port = 7445; priority = 30 } ∷ [];
}

-- The outside is the list of the connections that have been opened.
abbrev outside : Outside (List ℕ) ℕ
outside = record {
  write_ctrl = λ o f. (o, none);
  arrivals = λ o. (o, answer ∷ []);
  picks_ctx = λ o. false;
  wait_err = λ o. 7;
}

-- Each dial gives the connection 3.
abbrev reachable : Dialer (P2pState × List ℕ) ℕ ℕ
reachable (s, o) timeout r = ((s, 3 ∷ o), ok 3)

abbrev alive : (P2pState × List ℕ) → Option ℕ
alive w = none

abbrev engine : Engine (P2pState × List ℕ) ℕ ℕ
engine = new_engine

abbrev format_test : Addr → Text
format_test a = []

abbrev parse_test : Text → Option Addr
parse_test t = some (v4 5)

abbrev enabled : P2pState
enabled = record initial { pending_answers = some []; p2p_enabled = true; readers = 1 }

enabled-IsFresh : IsFresh enabled
unfolding initial entries lookup
enabled-IsFresh = record { waited = λ id c e. cc; filled = λ c a e. cc }

abbrev waiting : P2pState
waiting = record enabled { pending_answers = some ((4, 0) ∷ []); next_chan = 1 }

registered : register_answer_waiter enabled 4 ≡ some (waiting, 0)
unfolding register_answer_waiter initial insert
registered = refl

abbrev stream : DialledStream
stream = record { id = 4; payload = (5, 2); retransmit_from = λ pos. none; wrapper = wrap 1 }

-- The connection opens the stream 8.
abbrev link : ℕ → Link
link c = record { stream = some 8; sends = true; reply = none; writes = false }

try_promote-Settles_example :
    (p : Promotion format_test parse_test none outside reachable alive) × (out : Tried (List ℕ) ℕ ℕ)
    × (try_promote format_test parse_test none outside reachable alive link true stream enabled []
          engine
        ≡ some out)
    × Ends format_test parse_test none outside reachable alive 4 0 engine
        (gather_locals format_test parse_test none options enabled)
        waiting
        []
        p
    × Settles link stream (λ o. o) [] p out
try_promote-Settles_example =
    try_promote-Settles format_test parse_test none outside reachable alive link engine (λ o. o)
      (λ w timeout r. refl) (λ d set. absurd (unfold new_engine in cc)) (λ o f. refl) (λ o. refl)
      stream enabled waiting [] 0 enabled-IsFresh registered
