-- ===== src/Session/Waiters.antt =====
-- pkg/session/promote.go: the waiters for answers and for stream modes, and the reader of the
-- control stream that serves them. A channel of capacity one is a number whose content stands in
-- `answers` or `notices`; p2pMu is held in each operation. A map that has not been made is `none`.
pub mod Modes
pub mod Reader
mod Tests
use outrelay_agent.Base.{
  Result, ok, err, ℕ, suc, ◌+◌, Bool, true, false, if◌then◌else◌, Option, none, some, List, [], ◌∷◌,
  ◌++◌, nat_eq,
}
use outrelay_agent.Base.Map.{Map, lookup, insert, delete}
use outrelay_agent.Candidate.{Candidate}
use outrelay_agent.Candidate.Query.{QueryError}
use outrelay_agent.Orp.{PbCandidate, CandidateList, AllocGranted}

-- streamModeNotice: `none` is splice.
abbrev pub Notice : Type 0
Notice = Option AllocGranted

pub record P2pState : Type 0 where
  pub pending_answers : Option (Map ℕ ℕ)
  pub pending_mode : Option (Map ℕ ℕ)
  pub local_candidates : List PbCandidate
  pub p2p_enabled : Bool
  pub readers : ℕ
  pub next_chan : ℕ
  pub answers : Map ℕ CandidateList
  pub notices : Map ℕ Notice

-- A new session.
unfoldable pub initial : P2pState
initial = record {
  pending_answers = none;
  pending_mode = none;
  local_candidates = [];
  p2p_enabled = false;
  readers = 0;
  next_chan = 0;
  answers = [];
  notices = [];
}

-- Reading a nil map finds nothing, and making it keeps one that is there.
unfoldable pub entries : Option (Map ℕ ℕ) → Map ℕ ℕ
entries none = []
entries (some m) = m

-- `readers` counts the goroutines that run controlReader.
unfoldable pub enable_p2p : P2pState → P2pState
unfolding entries
enable_p2p s = record s {
  pending_answers = some (entries s.pending_answers);
  pending_mode = some (entries s.pending_mode);
  p2p_enabled = true;
  readers = if s.p2p_enabled then s.readers else suc s.readers;
}

-- restartControlReaderIfEnabled, with a context that is set whenever the flag is.
unfoldable pub restart_control_reader : P2pState → P2pState
restart_control_reader s = if s.p2p_enabled then record s { readers = suc s.readers } else s

unfoldable pub set_local_candidates : P2pState → List PbCandidate → P2pState
set_local_candidates s cs = record s { local_candidates = cs }

unfoldable pub answer_offer : P2pState → CandidateList → CandidateList
answer_offer s offer = record { stream_id = offer.stream_id; candidates = s.local_candidates }

-- A write to a nil map panics: `none`.
unfoldable pub register_answer_waiter : P2pState → ℕ → Option (P2pState × ℕ)
register_answer_waiter s id = elim s.pending_answers [
  | none ↦ none
  | some m ↦ some (
    record s { pending_answers = some (insert id s.next_chan m); next_chan = suc s.next_chan },
    s.next_chan,
  )
]

-- A send that does not wait: a full channel keeps what it has.
unfoldable pub put_answer : P2pState → ℕ → CandidateList → P2pState
put_answer s ch a = elim (lookup ch s.answers) [
  | none ↦ record s { answers = insert ch a s.answers }
  | some old ↦ s
]

unfoldable pub deliver_answer : P2pState → CandidateList → P2pState
unfolding put_answer entries
deliver_answer s a = elim (lookup a.stream_id (entries s.pending_answers)) [
  | none ↦ s
  | some ch ↦
      put_answer
        (record s { pending_answers = some (delete a.stream_id (entries s.pending_answers)) }) ch a
]

unfoldable pub register_stream_mode_waiter : P2pState → ℕ → P2pState × ℕ
unfolding entries
register_stream_mode_waiter s id = (
  record s {
    pending_mode = some (insert id s.next_chan (entries s.pending_mode));
    next_chan = suc s.next_chan;
  },
  s.next_chan,
)

-- A deletion from a nil map does nothing.
unfoldable pub cancel_stream_mode_waiter : P2pState → ℕ → P2pState
cancel_stream_mode_waiter s id = elim s.pending_mode [
  | none ↦ s
  | some m ↦ record s { pending_mode = some (delete id m) }
]

put_notice : P2pState → ℕ → Notice → P2pState
put_notice s ch n = elim (lookup ch s.notices) [
  | none ↦ record s { notices = insert ch n s.notices }
  | some old ↦ s
]

unfoldable pub deliver_mode : P2pState → ℕ → Notice → P2pState
unfolding put_notice entries
deliver_mode s id n = elim (lookup id (entries s.pending_mode)) [
  | none ↦ s
  | some ch ↦ put_notice s ch n
]

-- The `select` of WaitForStreamMode: `ctx_done` is whether the context is over, and `picks_ctx`
-- what Go picks when both cases are ready. `none` means that it waits on.
select_mode :
    P2pState → ℕ → (ctx_done picks_ctx : Bool) → Option Notice → Option (P2pState × Notice)
select_mode s ch true true (some n) = some (s, none)
select_mode s ch true false (some n) = some (record s { notices = delete ch s.notices }, n)
select_mode s ch false picks_ctx (some n) = some (record s { notices = delete ch s.notices }, n)
select_mode s ch true picks_ctx none = some (s, none)
select_mode s ch false picks_ctx none = none

-- The deferred cancellation.
then_cancel : ℕ → Option (P2pState × Notice) → Option (P2pState × Notice)
unfolding cancel_stream_mode_waiter
then_cancel id none = none
then_cancel id (some (s, n)) = some (cancel_stream_mode_waiter s id, n)

unfoldable pub wait_for_stream_mode :
    P2pState → ℕ → (ctx_done picks_ctx : Bool) → Option (P2pState × Notice)
unfolding select_mode then_cancel entries
wait_for_stream_mode s id ctx_done picks_ctx = elim (lookup id (entries s.pending_mode)) [
  | none ↦ some (s, none)
  | some ch ↦ then_cancel id (select_mode s ch ctx_done picks_ctx (lookup ch s.notices))
]

-- The session's QueryServerReflexive, over the candidates' one: it is refused behind EnableP2P.
pub data ReflexiveError : Type 0 where
  after_enable : ReflexiveError
  query_failed : QueryError → ReflexiveError

unfoldable pub of_query : Result QueryError Candidate → Result ReflexiveError Candidate
of_query (ok c) = ok c
of_query (err e) = err (query_failed e)

unfoldable pub query_before_enable :
    P2pState → Result QueryError Candidate → Result ReflexiveError Candidate
unfolding of_query
query_before_enable s queried = if s.p2p_enabled then err after_enable else of_query queried
