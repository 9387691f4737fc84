-- ===== src/Session/Promotion/Outcomes.antt =====
-- How a promotion of a stream can end, and what it leaves of its waiter.
pub mod Peers
use outrelay_agent.Base.{
  ℕ, ◌≡◌, refl, ◌==◌, ==_iff, true, Bool-cases, inl, inr, Option, none, some, Option-cases, Result,
  ok, err, List, Text, nat_eq, arith,
}
use outrelay_agent.Base.Map.{Map, lookup, delete}
use outrelay_agent.Netip.{Addr}
use outrelay_agent.Orp.{CandidateList, offer_frame}
use outrelay_agent.Candidate.{Candidate, InterfaceAddr}
use outrelay_agent.P2p.Check.{Engine, Dialer, check}
use outrelay_agent.P2p.Promoter.{
  send_offer_failed, recv_answer_failed, from_pb, to_pb, after_check, after_answer, after_offer,
  run_with, run, offer,
}
use outrelay_agent.Session.Waiters.{P2pState, entries, register_answer_waiter}
use outrelay_agent.Session.Promotion.{
  Outside, PromoteOptions, promoter, deliver_answers, take_answer, recv_hook, write_hook,
  promoter_of, gather_locals, Promotion, of_run, promote_on, promote,
}
use outrelay_agent.Session.Promotion.Routing.{
  IsFresh, Routes, register-Routes, register_empty, registered_map, deliver_answers-Routes,
}

module _ (format_addr : Addr → Text) (parse_addr : Text → Option Addr)
    (addrs : Option (List InterfaceAddr)) {O Conn Err : Type 0} (outside : Outside O Err)
    (dial_quic : Dialer (P2pState × O) Conn Err) (ctx_err : (P2pState × O) → Option Err) (id ch : ℕ)
    (eng : Engine (P2pState × O) Conn Err) (locals : List Candidate) where
  pub offered : CandidateList
  offered = record { stream_id = id; candidates = to_pb format_addr parse_addr locals }

  -- What is left after the check on the candidates of an answer, made in the state `w`.
  pub checked :
      CandidateList
      → P2pState × O
      → Promotion format_addr parse_addr addrs outside dial_quic ctx_err
  checked a w = of_run format_addr parse_addr addrs outside dial_quic ctx_err (
      after_check format_addr parse_addr dial_quic ctx_err (promoter_of outside id ch eng locals)
        (check dial_quic ctx_err eng locals (from_pb format_addr parse_addr a.candidates) w))

  -- The three ends of a promotion with the waiter `ch`, from a state in which it waits. Without an
  -- answer the waiter is still there.
  pub data Ends (s : P2pState) (o : O)
      : Promotion format_addr parse_addr addrs outside dial_quic ctx_err → Type 0 where
    not_offered :
        {o' : O} {e : Err}
        → outside.write_ctrl o (offer_frame offered) ≡ (o', some e)
        → lookup id (entries s.pending_answers) ≡ some ch
        → Ends s o ((s, o'), err (promoter (send_offer_failed e)))
    not_answered :
        {t : P2pState} {o' : O}
        → (lookup ch t.answers ≡ none → lookup id (entries t.pending_answers) ≡ some ch)
        → Ends s o ((t, o'), err (promoter (recv_answer_failed (outside.wait_err o'))))
    answered :
        (t : P2pState) (o' : O) (a : CandidateList)
        → a.stream_id ≡ id
        → lookup ch t.answers ≡ some a
        → Ends s o (checked a (record t { answers = delete ch t.answers }, o'))

  -- Behind the answer, and behind the offer.
  pub with_answer :
      (P2pState × O) × Result Err (Option CandidateList)
      → Promotion format_addr parse_addr addrs outside dial_quic ctx_err
  with_answer got = of_run format_addr parse_addr addrs outside dial_quic ctx_err (
      after_answer format_addr parse_addr dial_quic ctx_err (promoter_of outside id ch eng locals)
        eng got)

  pub with_offer :
      (P2pState × O) × Option Err → Promotion format_addr parse_addr addrs outside dial_quic ctx_err
  with_offer sent = of_run format_addr parse_addr addrs outside dial_quic ctx_err (
      after_offer format_addr parse_addr dial_quic ctx_err (promoter_of outside id ch eng locals)
        eng (recv_hook outside ch) sent)

  found-Ends :
      (s : P2pState) (o : O) (t : P2pState) (o' : O) (a : CandidateList)
      → a.stream_id ≡ id
      → lookup ch t.answers ≡ some a
      → Ends s o (with_answer ((record t { answers = delete ch t.answers }, o'), ok (some a)))
  unfolding with_answer after_answer checked promoter_of
  found-Ends s o t o' a mine full =
      let same : (a.stream_id == id) ≡ true = ground (arith, mine, ==_iff a.stream_id id) in
      rw same (answered t o' a mine full)

  take-Ends :
      (s : P2pState) (o : O) (t : P2pState) (o' : O)
      → Routes id ch t
      → Ends s o (with_answer (take_answer outside ch t o'))
  unfolding take_answer with_answer of_run after_answer
  take-Ends s o t o' v = elim (Option-cases (lookup ch t.answers)) [
    | inl empty ↦ rw (empty, take_answer) (not_answered v.waits)
    | inr (a, full) ↦ elim (Bool-cases (outside.picks_ctx o')) [
      | inl ctx ↦ rw (full, take_answer, ctx) (not_answered v.waits)
      | inr answer ↦ rw (full, take_answer, answer) (found-Ends s o t o' a (v.own a full) full)
    ]
  ]

  sent-Ends :
      (s : P2pState) (o : O) (out : O × Option Err)
      → Routes id ch s
      → lookup ch s.answers ≡ none
      → outside.write_ctrl o (offer_frame offered) ≡ out
      → Ends s o (with_offer ((s, out.0), out.1))
  unfolding with_offer of_run recv_hook after_offer with_answer
  sent-Ends s o (o', some e) v empty failed = not_offered failed (v.waits empty)
  sent-Ends s o (o', none) v empty sent =
      take-Ends s o (deliver_answers s (outside.arrivals o').1) (outside.arrivals o').0
        (deliver_answers-Routes id ch s (outside.arrivals o').1 v)

  run-Ends :
      (s : P2pState) (o : O)
      → Routes id ch s
      → lookup ch s.answers ≡ none
      → Ends s o (
          of_run format_addr parse_addr addrs outside dial_quic ctx_err (
            run format_addr parse_addr dial_quic ctx_err
              (promoter_of outside id ch eng locals)
              (s, o)))
  unfolding run run_with promoter_of offer write_hook offered with_offer
  run-Ends s o v empty = sent-Ends s o (outside.write_ctrl o (offer_frame offered)) v empty refl

module _ (format_addr : Addr → Text) (parse_addr : Text → Option Addr)
    (addrs : Option (List InterfaceAddr)) {O Conn Err : Type 0} (outside : Outside O Err)
    (dial_quic : Dialer (P2pState × O) Conn Err) (ctx_err : (P2pState × O) → Option Err)
    (eng : Engine (P2pState × O) Conn Err) where
  pub promote_registered :
      (s t : P2pState) (o : O) (id ch : ℕ) (opts : PromoteOptions) (m : Map ℕ ℕ)
      → s.pending_answers ≡ some m
      → register_answer_waiter s id ≡ some (t, ch)
      → promote format_addr parse_addr addrs outside dial_quic ctx_err s o (some id) (some eng) opts
        ≡ promote_on format_addr parse_addr addrs outside dial_quic ctx_err id eng
            (gather_locals format_addr parse_addr addrs opts s)
            o
            (some (t, ch))
  unfolding promote gather_locals
  promote_registered s t o id ch opts m there made = rw (there, promote, made) refl

  -- Promote on a session where EnableP2P has run returns, and ends in one of three ways: the offer
  -- could not be written; the wait for the answer ended with the context; or the answer is one for
  -- the stream, whatever answers come for others, and what is left is the check on its candidates.
  -- In the first, and in the second if no answer came, the waiter stays in the map of waiters.
  pub promote-Ends :
      (s t : P2pState) (o : O) (id ch : ℕ) (opts : PromoteOptions)
      → IsFresh s
      → register_answer_waiter s id ≡ some (t, ch)
      → (out : Promotion format_addr parse_addr addrs outside dial_quic ctx_err) × (promote
            format_addr parse_addr addrs outside dial_quic ctx_err s o
            (some id)
            (some eng)
            opts
          ≡ some out)
        × Ends format_addr parse_addr addrs outside dial_quic ctx_err id ch eng
            (gather_locals format_addr parse_addr addrs opts s)
            t
            o
            out
  unfolding promote_on
  promote-Ends s t o id ch opts v made = (
    of_run format_addr parse_addr addrs outside dial_quic ctx_err (
        run format_addr parse_addr dial_quic ctx_err
          (promoter_of outside id ch eng (gather_locals format_addr parse_addr addrs opts s))
          (t, o)),
    promote_registered s t o id ch opts (registered_map s t id ch made).0
        (registered_map s t id ch made).1 made,
    run-Ends format_addr parse_addr addrs outside dial_quic ctx_err id ch eng
        (gather_locals format_addr parse_addr addrs opts s) t o (register-Routes s t id ch v made)
        (register_empty s t id ch v made),
  )
