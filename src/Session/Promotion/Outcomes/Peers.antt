-- ===== src/Session/Promotion/Outcomes/Peers.antt =====
-- A promotion and the control reader of the peer's session, which answers its offer.
use outrelay_agent.Base.{
  ℕ, ◌≡◌, refl, ap, sym, ◌∙◌, ◌==◌, ==_iff, true, false, Option, none, some, Option-cases, inl, inr,
  List, [], ◌∷◌, map, All, Text, nat_eq, arith, subst, Bool,
}
use outrelay_agent.Base.Map.{lookup, delete, lookup-insert_self}
use outrelay_agent.Netip.{Addr}
use outrelay_agent.Orp.{PbCandidate, CandidateList, offer_frame, answer_frame}
use outrelay_agent.Candidate.{Candidate, InterfaceAddr}
use outrelay_agent.P2p.Check.{Engine, Dialer, check}
use outrelay_agent.P2p.Promoter.{
  from_pb, to_pb, after_check, after_answer, after_offer, run_with, run, offer,
}
use outrelay_agent.P2p.Promoter.Wire.{IsSendable, from_pb-to_pb}
use outrelay_agent.Session.Waiters.{
  P2pState, entries, register_answer_waiter, put_answer, deliver_answer, answer_offer,
}
use outrelay_agent.Session.Waiters.Reader.{
  Output, wrote, Control, dispatch, warmup_punch, punch_each, punch_target,
}
use outrelay_agent.Session.Promotion.{
  Outside, PromoteOptions, deliver_answers, take_answer, recv_hook, write_hook, promoter_of,
  gather_locals, Promotion, of_run, promote_on, promote,
}
use outrelay_agent.Session.Promotion.Routing.{
  IsFresh, Routes, register-Routes, register_empty, registered_map,
}
use outrelay_agent.Session.Promotion.Outcomes.{offered, with_answer, with_offer, promote_registered}

-- The answers among what a control reader writes.
pub answers_in : List Output → List CandidateList
answers_in [] = []
answers_in (wrote (answer_frame a) ∷ outputs) = a ∷ answers_in outputs
answers_in (_ ∷ outputs) = answers_in outputs

punches-answers :
    (parse_ip : Text → Option Addr) (cs : List (Option PbCandidate))
    → answers_in (punch_each parse_ip cs) ≡ []
unfolding punch_each answers_in
punches-answers parse_ip [] = refl
punches-answers parse_ip (c ∷ cs) = elim (Option-cases (punch_target parse_ip c)) [
  | inl skip ↦ rw (skip, punch_each) (punches-answers parse_ip cs)
  | inr ((ip, port), e) ↦ rw (e, punch_each) (punches-answers parse_ip cs)
]

warmup-answers :
    (parse_ip : Text → Option Addr) (shared : Bool) (cs : List (Option PbCandidate))
    → answers_in (warmup_punch parse_ip shared cs) ≡ []
unfolding warmup_punch answers_in
warmup-answers parse_ip true cs = punches-answers parse_ip cs
warmup-answers parse_ip false cs = refl

-- The peer answers an offer with its own candidates, once.
pub dispatch-answers :
    (parse_ip : Text → Option Addr) {S : Type 0} (on_checkpoint_from_peer : S → ℕ → S)
    (peer : Control S) (o : CandidateList)
    → answers_in (dispatch parse_ip on_checkpoint_from_peer peer (offer_frame o)).1
      ≡ answer_offer peer.p2p o ∷ []
unfolding dispatch answers_in
dispatch-answers parse_ip f peer o =
    ap (λ l. answer_offer peer.p2p o ∷ l)
      (warmup-answers parse_ip peer.shared (map some o.candidates))

-- An answer for the stream fills the channel that waits for it.
deliver_lem :
    (id ch : ℕ) (s : P2pState) (a : CandidateList)
    → Routes id ch s
    → lookup ch s.answers ≡ none
    → a.stream_id ≡ id
    → lookup ch (deliver_answer s a).answers ≡ some a
unfolding deliver_answer put_answer entries
deliver_lem id ch s a v empty mine =
    let waiting : lookup a.stream_id (entries s.pending_answers) ≡ some ch =
      subst (λ j. lookup j (entries s.pending_answers) ≡ some ch) (sym mine) (v.waits empty) in
    rw (waiting, deliver_answer, empty, put_answer) (lookup-insert_self ch a s.answers)

module _ (format_addr : Addr → Text) (parse_addr : Text → Option Addr)
    (addrs : Option (List InterfaceAddr)) {O Conn Err : Type 0} (outside : Outside O Err)
    (dial_quic : Dialer (P2pState × O) Conn Err) (ctx_err : (P2pState × O) → Option Err) (id ch : ℕ)
    (eng : Engine (P2pState × O) Conn Err) (locals : List Candidate) where
  -- The check on `remotes`, made in the state `w`, and what follows it.
  abbrev pub check_on :
      List Candidate
      → P2pState × O
      → Promotion format_addr parse_addr addrs outside dial_quic ctx_err
  check_on remotes w = of_run format_addr parse_addr addrs outside dial_quic ctx_err (
      after_check format_addr parse_addr dial_quic ctx_err (promoter_of outside id ch eng locals)
        (check dial_quic ctx_err eng locals remotes w))

  taken_lem :
      (t : P2pState) (o : O) (a : CandidateList)
      → a.stream_id ≡ id
      → lookup ch t.answers ≡ some a
      → outside.picks_ctx o ≡ false
      → with_answer format_addr parse_addr addrs outside dial_quic ctx_err id ch eng locals
          (take_answer outside ch t o)
        ≡ check_on
            (from_pb format_addr parse_addr a.candidates)
            (record t { answers = delete ch t.answers }, o)
  unfolding with_answer take_answer after_answer promoter_of
  taken_lem t o a mine full free =
      let same : (a.stream_id == id) ≡ true = ground (arith, mine, ==_iff a.stream_id id) in
      rw (full, take_answer, free, same) refl

  sent_lem :
      (s : P2pState) (o o' o'' : O) (a : CandidateList)
      → Routes id ch s
      → lookup ch s.answers ≡ none
      → a.stream_id ≡ id
      → outside.write_ctrl o (
          offer_frame
            (offered format_addr parse_addr addrs outside dial_quic ctx_err id ch eng locals))
        ≡ (o', none)
      → outside.arrivals o' ≡ (o'', a ∷ [])
      → outside.picks_ctx o'' ≡ false
      → of_run format_addr parse_addr addrs outside dial_quic ctx_err (
          run format_addr parse_addr dial_quic ctx_err
            (promoter_of outside id ch eng locals)
            (s, o))
        ≡ check_on
            (from_pb format_addr parse_addr a.candidates)
            (record (deliver_answer s a) { answers = delete ch (deliver_answer s a).answers }, o'')
  unfolding run run_with promoter_of offer write_hook offered with_offer with_answer after_offer
      recv_hook deliver_answers
  sent_lem s o o' o'' a v empty mine sent arrived free =
      ap
        (λ (out : O × Option Err).
          with_offer format_addr parse_addr addrs outside dial_quic ctx_err id ch eng locals
            ((s, out.0), out.1))
        sent
      ∙ ap
          (λ (got : O × List CandidateList).
            with_answer format_addr parse_addr addrs outside dial_quic ctx_err id ch eng locals
              (take_answer outside ch (deliver_answers s got.1) got.0))
          arrived
      ∙ taken_lem (deliver_answer s a) o'' a mine (deliver_lem id ch s a v empty mine) free

module _ (format_addr : Addr → Text) (parse_addr : Text → Option Addr)
    (addrs : Option (List InterfaceAddr)) {O Conn Err : Type 0} (outside : Outside O Err)
    (dial_quic : Dialer (P2pState × O) Conn Err) (ctx_err : (P2pState × O) → Option Err)
    (eng : Engine (P2pState × O) Conn Err) {S : Type 0} (on_checkpoint_from_peer : S → ℕ → S)
    (peer : Control S) (remotes : List Candidate) where
  -- When the offer is written, the peer's control reader is the one that answers it, with the
  -- candidates `remotes` that the peer has set, and the answer comes before the context is done:
  -- Promote runs the check on just these candidates, and what it returns is what follows the check.
  -- (The addresses read back, and the ports are uint16s.)
  pub promote-check_on :
      (s t : P2pState) (o o' o'' : O) (id ch : ℕ) (opts : PromoteOptions)
      → IsFresh s
      → register_answer_waiter s id ≡ some (t, ch)
      → All (IsSendable format_addr parse_addr) remotes
      → peer.p2p.local_candidates ≡ to_pb format_addr parse_addr remotes
      → let locals : List Candidate = gather_locals format_addr parse_addr addrs opts s in
        let asked : CandidateList = record {
          stream_id = id;
          candidates = to_pb format_addr parse_addr locals;
        } in
        outside.write_ctrl o (offer_frame asked) ≡ (o', none)
        → outside.arrivals o' ≡ (
          o'',
          answers_in (dispatch parse_addr on_checkpoint_from_peer peer (offer_frame asked)).1,
        )
        → outside.picks_ctx o'' ≡ false
        → (u : P2pState) × (promote format_addr parse_addr addrs outside dial_quic ctx_err s o
              (some id)
              (some eng)
              opts
            ≡ some (
                check_on format_addr parse_addr addrs outside dial_quic ctx_err id ch eng locals
                  remotes
                  (u, o'')))
  unfolding promote_on offered answer_offer
  promote-check_on s t o o' o'' id ch opts v made sendable set sent arrived free =
      let locals : List Candidate = gather_locals format_addr parse_addr addrs opts s in
      let asked : CandidateList = record {
        stream_id = id;
        candidates = to_pb format_addr parse_addr locals;
      } in
      let a : CandidateList = answer_offer peer.p2p asked in
      let u : P2pState = record (deliver_answer t a) {
        answers = delete ch (deliver_answer t a).answers;
      } in
      let (m, there) = registered_map s t id ch made in
      let only =
        arrived
        ∙ ap (λ l. (o'', l)) (dispatch-answers parse_addr on_checkpoint_from_peer peer asked) in
      let read : from_pb format_addr parse_addr a.candidates ≡ remotes =
        ap (from_pb format_addr parse_addr) set
        ∙ from_pb-to_pb format_addr parse_addr remotes sendable in
      (
        u,
        promote_registered format_addr parse_addr addrs outside dial_quic ctx_err eng s t o id ch
              opts m there made
            ∙ ap some (
                sent_lem format_addr parse_addr addrs outside dial_quic ctx_err id ch eng locals t o
                  o' o'' a (register-Routes s t id ch v made) (register_empty s t id ch v made) refl
                  sent only free)
            ∙ ap
                (λ rs. some (
                  check_on format_addr parse_addr addrs outside dial_quic ctx_err id ch eng locals
                    rs (u, o'')))
                read,
      )
