-- ===== src/P2p/Tests.antt =====
-- A network of which candidate 2 can be reached: the state counts the dials.
use mathlib.Core.List.{Perm}
use outrelay_agent.Base.{
  ℕ, ◌+◌, ◌≤◌, ◌≡◌, refl, ◌==◌, if◌then◌else◌, true, Option, none, some, ok, err, List, [], ◌∷◌,
  ◌++◌, All, Text, arith,
}
use outrelay_agent.Netip.{Addr, v4, v6, zero_addr, is_valid}
use outrelay_agent.Orp.{CandidateList}
use outrelay_agent.Candidate.{Candidate, host_kind, sort, sink}
use outrelay_agent.P2p.Check.{
  CheckResult, Engine, Dialer, new_engine, best_local, dial_one, after_dial, check_loop, check,
}
use outrelay_agent.P2p.Check.Laws.{Failed, Checked, check-Checked, check_best}
use outrelay_agent.P2p.Promoter.{
  Promoter, to_pb, from_pb, run, after_offer, after_answer, after_check, notify,
}
use outrelay_agent.P2p.Promoter.Wire.{from_pb-to_pb}
use outrelay_agent.P2p.Promoter.Laws.{Completed, run-Completed, migrate_best_effort}
use outrelay_agent.P2p.Demoter
use outrelay_agent.P2p.Demoter.Laws.{Ended, run-Ended}

abbrev at : ℕ → ℕ → Candidate
at n priority = record {
  kind = host_kind;
  addr = record { addr = v4 n; port = 7445 };
  priority = priority;
}

abbrev dial_test : Dialer ℕ ℕ ℕ
dial_test w timeout r = elim r.addr.addr [
  | v4 n ↦ (w + 1, (if n == 2 then ok 99 else err 1))
  | v6 n ↦ (w, err 1)
  | zero_addr ↦ (w, err 1)
]

abbrev alive : ℕ → Option ℕ
alive w = none

abbrev engine : Engine ℕ ℕ ℕ
engine = new_engine

abbrev remotes : List Candidate
remotes = at 2 20 ∷ at 1 70 ∷ []

abbrev found : CheckResult ℕ
found = record { local = at 5 30; remote = at 2 20; conn = 99 }

found_by_check : check dial_test alive engine (at 5 30 ∷ []) remotes 0 ≡ (2, ok found)
unfolding check check_loop after_dial dial_one best_local sort sink is_valid new_engine
found_by_check = refl

check-Checked_example :
    Checked dial_test alive engine
      (at 5 30 ∷ [])
      (sort remotes)
      0
      (check dial_test alive engine (at 5 30 ∷ []) remotes 0)
check-Checked_example = check-Checked dial_test alive engine (at 5 30 ∷ []) remotes 0

applied_check_best :
    (pre post : List Candidate) × (w1 : ℕ) × Perm (pre ++ at 2 20 ∷ post) remotes
    × Failed dial_test alive engine 0 pre w1
    × All (λ d. d.priority ≤ 20) post
applied_check_best =
    check_best dial_test alive engine (at 5 30 ∷ []) remotes 0 2 found found_by_check

-- Stand for Addr.String and ParseAddr.
abbrev format_test : Addr → Text
format_test (v4 n) = n ∷ []
format_test (v6 n) = n ∷ 6 ∷ []
format_test zero_addr = []

abbrev parse_test : Text → Option Addr
parse_test [] = none
parse_test (n ∷ []) = some (v4 n)
parse_test (n ∷ x ∷ s) = some (v6 n)

applied_from_pb-to_pb :
    from_pb format_test parse_test (to_pb format_test parse_test remotes) ≡ remotes
applied_from_pb-to_pb =
    from_pb-to_pb format_test parse_test remotes ((refl, omega arith), ((refl, omega arith), tt))

abbrev remote_answer : CandidateList
remote_answer = record { stream_id = 8; candidates = to_pb format_test parse_test remotes }

abbrev promoter : Promoter ℕ ℕ ℕ
promoter = record {
  stream_id = 8;
  engine = some engine;
  locals = at 5 30 ∷ [];
  send_offer = some (λ w o. (w, none));
  recv_answer = some (λ w. (w, ok (some remote_answer)));
  send_migrate = some (λ w m. (w + 10, some 1));
}

promoted : run format_test parse_test dial_test alive promoter 0 ≡ (12, ok found)
unfolding run after_offer after_answer after_check notify to_pb from_pb check check_loop after_dial
    dial_one best_local sort sink is_valid new_engine
promoted = refl

applied_run-Completed : Completed format_test parse_test dial_test alive promoter 0 12 found
applied_run-Completed =
    run-Completed format_test parse_test dial_test alive promoter 0 12 found promoted

applied_migrate_best_effort :
    (run format_test parse_test dial_test alive (record promoter { send_migrate = none }) 0).1
    ≡ (run format_test parse_test dial_test alive promoter 0).1
applied_migrate_best_effort =
    migrate_best_effort format_test parse_test dial_test alive promoter none 0

abbrev accepted : List (Demoter.Accepted ℕ)
accepted = Demoter.stream 1 ∷ Demoter.failed 3 none ∷ Demoter.stream 2 ∷ []

applied_run_ended : Ended accepted (Demoter.run true true accepted)
applied_run_ended = run-Ended accepted
