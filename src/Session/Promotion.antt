-- ===== src/Session/Promotion.antt =====
-- pkg/session/promote.go: Session.Promote. The promotion runs over the waiters for answers, next to
-- the state `O` of what lies outside; the answers that controlReader delivers meanwhile are given.
pub mod Routing
pub mod Outcomes
pub mod Opened
mod Tests
use outrelay_agent.Base.{
  ℕ, Bool, true, false, if◌then◌else◌, Option, none, some, Result, ok, err, List, [], ◌∷◌, Text,
  nat_eq,
}
use outrelay_agent.Base.Map.{Map, lookup, delete}
use outrelay_agent.Netip.{Addr}
use outrelay_agent.Orp.{Frame, CandidateList, Migrate, PbCandidate, offer_frame, migrate_frame}
use outrelay_agent.Candidate.{Candidate, InterfaceAddr, host_candidates}
use outrelay_agent.P2p.Check.{CheckResult, Engine, Dialer}
use outrelay_agent.P2p.Promoter.{Promoter, PromoteError, from_pb, run}
use outrelay_agent.Session.Waiters.{P2pState, register_answer_waiter, deliver_answer}

-- `locals` is empty when it is nil.
pub record PromoteOptions : Type 0 where
  pub host_port : ℕ
  pub locals : List Candidate

-- The outside of a promotion: a write on the control stream, the answers that are delivered until
-- the wait ends, whether its select takes the context when it can take either, and the context's
-- error. A wait without an answer ends with the context.
pub record Outside (O Err : Type 0) : Type 0 where
  pub write_ctrl : O → Frame → O × Option Err
  pub arrivals : O → O × List CandidateList
  pub picks_ctx : O → Bool
  pub wait_err : O → Err

pub data PromoteFailure (Err : Type 0) : Type 0 where
  nil_argument not_enabled : PromoteFailure Err
  promoter : PromoteError Err → PromoteFailure Err

unfoldable pub deliver_answers : P2pState → List CandidateList → P2pState
deliver_answers s [] = s
deliver_answers s (a ∷ more) = deliver_answers (deliver_answer s a) more

module _ {O Err : Type 0} (outside : Outside O Err) where
  write_hook : (P2pState × O) → Frame → (P2pState × O) × Option Err
  write_hook (s, o) f = let out = outside.write_ctrl o f in ((s, out.0), out.1)

  -- The select on the channel and the context.
  pub take_answer : ℕ → P2pState → O → (P2pState × O) × Result Err (Option CandidateList)
  take_answer ch s o = elim (lookup ch s.answers) [
    | none ↦ ((s, o), err (outside.wait_err o))
    | some a ↦
        if outside.picks_ctx o
        then ((s, o), err (outside.wait_err o))
        else ((record s { answers = delete ch s.answers }, o), ok (some a))
  ]

  recv_hook : ℕ → (P2pState × O) → (P2pState × O) × Result Err (Option CandidateList)
  unfolding take_answer
  recv_hook ch (s, o) =
      let arrived = outside.arrivals o in take_answer ch (deliver_answers s arrived.1) arrived.0

  unfoldable pub promoter_of :
      {Conn : Type 0}
      → (id ch : ℕ) → Engine (P2pState × O) Conn Err
      → List Candidate
      → Promoter (P2pState × O) Conn Err
  unfolding write_hook recv_hook
  promoter_of id ch eng locals = record {
    stream_id = id;
    engine = some eng;
    locals = locals;
    send_offer = some (λ w c. write_hook w (offer_frame c));
    recv_answer = some (recv_hook ch);
    send_migrate = some (λ w m. write_hook w (migrate_frame m));
  }

module _ (format_addr : Addr → Text) (parse_addr : Text → Option Addr)
    (addrs : Option (List InterfaceAddr)) where
  -- The candidates that are offered: the caller's, else the session's, else the host's.
  unfoldable pub gather_locals : PromoteOptions → P2pState → List Candidate
  gather_locals opts s = elim opts.locals [
    | c ∷ cs ↦ c ∷ cs
    | [] ↦ elim s.local_candidates [
      | d ∷ ds ↦ from_pb format_addr parse_addr (d ∷ ds)
      | [] ↦ host_candidates addrs opts.host_port
    ]
  ]

  module _ {O Conn Err : Type 0} (outside : Outside O Err)
      (dial_quic : Dialer (P2pState × O) Conn Err) (ctx_err : (P2pState × O) → Option Err) where
    abbrev pub Promotion : Type 0
    Promotion = (P2pState × O) × Result (PromoteFailure Err) (CheckResult Conn)

    pub of_run : (P2pState × O) × Result (PromoteError Err) (CheckResult Conn) → Promotion
    of_run (w, err e) = (w, err (promoter e))
    of_run (w, ok res) = (w, ok res)

    -- Behind the registration, whose write to a nil map would panic: `none`.
    pub promote_on :
        ℕ
        → Engine (P2pState × O) Conn Err
        → List Candidate
        → O
        → Option (P2pState × ℕ)
        → Option Promotion
    unfolding of_run
    promote_on id eng locals o none = none
    promote_on id eng locals o (some (s, ch)) = some (
        of_run (
          run format_addr parse_addr dial_quic ctx_err (promoter_of outside id ch eng locals)
            (s, o)))

    -- The stream is given by its id; it and the engine may be nil.
    unfoldable pub promote :
        P2pState
        → O
        → Option ℕ
        → Option (Engine (P2pState × O) Conn Err)
        → PromoteOptions
        → Option Promotion
    unfolding promote_on
    promote s o (some id) (some eng) opts = elim s.pending_answers [
      | none ↦ some ((s, o), err not_enabled)
      | some m ↦ promote_on id eng (gather_locals opts s) o (register_answer_waiter s id)
    ]
    promote s o _ _ opts = some ((s, o), err nil_argument)
