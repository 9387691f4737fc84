-- ===== src/Session/Promotion/Opened.antt =====
-- The connections that Session.Promote leaves: that of its result, and none behind an error.
use outrelay_agent.Base.{
  ℕ, ◌≡◌, refl, subst, ◌∙◌, ◌==◌, Bool-cases, Option, none, some, Option-cases, inl, inr, Result,
  ok, err, List, Text, nat_eq,
}
use outrelay_agent.Base.Map.{lookup}
use outrelay_agent.Netip.{Addr}
use outrelay_agent.Orp.{Frame, CandidateList}
use outrelay_agent.Candidate.{Candidate, InterfaceAddr}
use outrelay_agent.P2p.Check.{CheckError, CheckResult, Engine, Dialer, check}
use outrelay_agent.P2p.Check.Opened.{DialOpens, LeavesOne, check-LeavesOne}
use outrelay_agent.P2p.Promoter.{
  Promoter, PromoteError, from_pb, run, run_with, notify, after_check, after_answer, after_offer,
}
use outrelay_agent.Session.Waiters.{P2pState}
use outrelay_agent.Session.Promotion.{
  Outside, PromoteOptions, Promotion, deliver_answers, write_hook, take_answer, recv_hook,
  promoter_of, of_run, promote_on, promote,
}

module _ {O Conn Err : Type 0} (opened : O → List Conn) (outside : Outside O Err) where
  abbrev pub opened_in : P2pState × O → List Conn
  opened_in w = opened w.1

  -- A write on the control stream opens no connection, and no wait for an answer does.
  abbrev pub WritesKeep : Type 0
  WritesKeep = (o : O) (f : Frame) → opened (outside.write_ctrl o f).0 ≡ opened o

  abbrev pub WaitsKeep : Type 0
  WaitsKeep = (o : O) → opened (outside.arrivals o).0 ≡ opened o

  take_answer_keeps :
      (ch : ℕ) (s : P2pState) (o : O) → opened (take_answer outside ch s o).0.1 ≡ opened o
  unfolding take_answer
  take_answer_keeps ch s o = elim (Option-cases (lookup ch s.answers)) [
    | inl empty ↦ rw (empty, take_answer) refl
    | inr (a, full) ↦ elim (Bool-cases (outside.picks_ctx o)) [
      | inl ctx ↦ rw (full, take_answer, ctx) refl
      | inr answer ↦ rw (full, take_answer, answer) refl
    ]
  ]

module _ (format_addr : Addr → Text) (parse_addr : Text → Option Addr)
    (addrs : Option (List InterfaceAddr)) {O Conn Err : Type 0} (opened : O → List Conn)
    (outside : Outside O Err) (dial_quic : Dialer (P2pState × O) Conn Err)
    (ctx_err : (P2pState × O) → Option Err) (eng : Engine (P2pState × O) Conn Err)
    (over_quic : DialOpens (opened_in opened outside) dial_quic)
    (over_dialer : (d : Dialer (P2pState × O) Conn Err)
      → eng.dialer ≡ some d
      → DialOpens (opened_in opened outside) d)
    (writes : WritesKeep opened outside) (waits : WaitsKeep opened outside) where
  abbrev Leaves : {E : Type 0} → List Conn → (P2pState × O) × Result E (CheckResult Conn) → Type 0
  Leaves = LeavesOne (opened_in opened outside)

  module _ (id ch : ℕ) (locals : List Candidate) where
    abbrev p : Promoter (P2pState × O) Conn Err
    p = promoter_of outside id ch eng locals

    after_check-LeavesOne :
        (before : List Conn) (out : (P2pState × O) × Result (CheckError Err) (CheckResult Conn))
        → Leaves before out
        → Leaves before (after_check format_addr parse_addr dial_quic ctx_err p out)
    unfolding after_check notify promoter_of write_hook
    after_check-LeavesOne before (w, err e) h = h
    after_check-LeavesOne before ((s, o), ok res) h = writes o _ ∙ h

    after_answer-LeavesOne :
        (before : List Conn) (got : (P2pState × O) × Result Err (Option CandidateList))
        → opened got.0.1 ≡ before
        → Leaves before (after_answer format_addr parse_addr dial_quic ctx_err p eng got)
    unfolding after_answer
    after_answer-LeavesOne before (w, err e) h = h
    after_answer-LeavesOne before (w, ok none) h = h
    after_answer-LeavesOne before (w, ok (some a)) h =
        elim (Bool-cases (a.stream_id == p.stream_id)) [
          | inl mine ↦
              rw (mine, after_answer)
                (after_check-LeavesOne before _ (
                  subst
                    (λ b. Leaves b (
                      check dial_quic ctx_err eng p.locals
                        (from_pb format_addr parse_addr a.candidates) w))
                    h
                    (check-LeavesOne (opened_in opened outside) dial_quic ctx_err eng over_quic
                      over_dialer p.locals (from_pb format_addr parse_addr a.candidates) w)))
          | inr other ↦ rw (other, after_answer) h
        ]

    sent-LeavesOne :
        (before : List Conn) (s : P2pState) (out : O × Option Err)
        → opened out.0 ≡ before
        → Leaves before (
            after_offer format_addr parse_addr dial_quic ctx_err p eng
              (recv_hook outside ch)
              ((s, out.0), out.1))
    unfolding after_offer recv_hook
    sent-LeavesOne before s (o, some e) h = h
    sent-LeavesOne before s (o, none) h = after_answer-LeavesOne before _ (
        take_answer_keeps opened outside ch (deliver_answers s (outside.arrivals o).1)
          (outside.arrivals o).0
        ∙ waits o
        ∙ h)

    run-LeavesOne :
        (s : P2pState) (o : O)
        → Leaves (opened o) (run format_addr parse_addr dial_quic ctx_err p (s, o))
    unfolding run run_with promoter_of write_hook
    run-LeavesOne s o = sent-LeavesOne (opened o) s _ (writes o _)

  of_run-LeavesOne :
      (before : List Conn) (out : (P2pState × O) × Result (PromoteError Err) (CheckResult Conn))
      → Leaves before out
      → Leaves before (of_run format_addr parse_addr addrs outside dial_quic ctx_err out)
  unfolding of_run
  of_run-LeavesOne before (w, err e) h = h
  of_run-LeavesOne before (w, ok res) h = h

  abbrev LeavesIf :
      Option (Promotion format_addr parse_addr addrs outside dial_quic ctx_err) → List Conn → Type 0
  LeavesIf none before = Unit {0}
  LeavesIf (some out) before = Leaves before out

  promote_on-LeavesIf :
      (id : ℕ) (locals : List Candidate) (o : O) (made : Option (P2pState × ℕ))
      → LeavesIf
          (promote_on format_addr parse_addr addrs outside dial_quic ctx_err id eng locals o made)
          (opened o)
  unfolding promote_on
  promote_on-LeavesIf id locals o none = tt
  promote_on-LeavesIf id locals o (some (s, ch)) =
      of_run-LeavesOne (opened o) _ (run-LeavesOne id ch locals s o)

  promote-LeavesIf :
      (s : P2pState) (o : O) (id : ℕ) (opts : PromoteOptions)
      → LeavesIf
          (promote format_addr parse_addr addrs outside dial_quic ctx_err s o
            (some id)
            (some eng)
            opts)
          (opened o)
  unfolding promote
  promote-LeavesIf s o id opts = elim (Option-cases s.pending_answers) [
    | inl unset ↦ rw (unset, promote) refl
    | inr (m, there) ↦ rw (there, promote) (promote_on-LeavesIf id _ o _)
  ]

  -- Promote opens the connection that it returns, and leaves nothing else open; behind an error it
  -- leaves nothing open.
  pub promote-LeavesOne :
      (s : P2pState) (o : O) (id : ℕ) (opts : PromoteOptions)
      (out : Promotion format_addr parse_addr addrs outside dial_quic ctx_err)
      → promote format_addr parse_addr addrs outside dial_quic ctx_err s o (some id) (some eng) opts
        ≡ some out
      → Leaves (opened o) out
  promote-LeavesOne s o id opts out h =
      subst (λ made. LeavesIf made (opened o)) h (promote-LeavesIf s o id opts)
