-- ===== src/P2p/Promoter/Laws.antt =====
-- What a run of the promotion has done when it returns.
use outrelay_agent.Base.{◌≡◌, refl, Option, none, some, Result, ok, err, Text, arith}
use outrelay_agent.Netip.{Addr}
use outrelay_agent.Orp.{CandidateList, Migrate}
use outrelay_agent.P2p.Check.{CheckError, CheckResult, Engine, Dialer, check}
use outrelay_agent.P2p.Promoter.{
  Promoter, notify, after_check, after_answer, after_offer, offer, run_with, run, from_pb,
}

module _ (format_addr : Addr → Text) (parse_addr : Text → Option Addr) {W Conn Err : Type 0}
    (dial_quic : Dialer W Conn Err) (ctx_err : W → Option Err) where
  -- The steps that lead to a connection.
  pub record Completed (p : Promoter W Conn Err) (w w' : W) (res : CheckResult Conn) : Type 0 where
    pub engine : Engine W Conn Err
    pub send : W → CandidateList → W × Option Err
    pub recv : W → W × Result Err (Option CandidateList)
    pub offered : W
    pub answered : W
    pub checked : W
    pub answer : CandidateList
    pub has_engine : p.engine ≡ some engine
    pub has_send : p.send_offer ≡ some send
    pub has_recv : p.recv_answer ≡ some recv
    pub step1 : send w (offer format_addr parse_addr dial_quic ctx_err p) ≡ (offered, none)
    pub step2 : recv offered ≡ (answered, ok (some answer))
    pub for_stream : answer.stream_id ≡ p.stream_id
    pub step3 :
        check dial_quic ctx_err engine p.locals
          (from_pb format_addr parse_addr answer.candidates)
          answered
        ≡ (checked, ok res)
    pub step4 : w' ≡ notify format_addr parse_addr dial_quic ctx_err p checked res

  check_completed :
      (p : Promoter W Conn Err) (out : W × Result (CheckError Err) (CheckResult Conn)) (w' : W)
      (res : CheckResult Conn)
      → after_check format_addr parse_addr dial_quic ctx_err p out ≡ (w', ok res)
      → (out ≡ (out.0, ok res)) × (w' ≡ notify format_addr parse_addr dial_quic ctx_err p out.0 res)
  unfolding after_check
  check_completed p (w, ok r) w' res e = ground arith
  check_completed p (w, err x) w' res e = cc

  answer_completed :
      (p : Promoter W Conn Err) (eng : Engine W Conn Err)
      (out : W × Result Err (Option CandidateList)) (w' : W) (res : CheckResult Conn)
      → after_answer format_addr parse_addr dial_quic ctx_err p eng out ≡ (w', ok res)
      → (answer : CandidateList) × (out ≡ (out.0, ok (some answer)))
        × (answer.stream_id ≡ p.stream_id)
        × (after_check format_addr parse_addr dial_quic ctx_err p (
              check dial_quic ctx_err eng p.locals
                (from_pb format_addr parse_addr answer.candidates)
                out.0)
            ≡ (w', ok res))
  unfolding after_answer
  answer_completed p eng (w, err x) w' res e = cc
  answer_completed p eng (w, ok none) w' res e = cc
  answer_completed p eng (w, ok (some answer)) w' res e = (answer, refl, ground arith, ground arith)

  offer_completed :
      (p : Promoter W Conn Err) (eng : Engine W Conn Err)
      (recv : W → W × Result Err (Option CandidateList)) (out : W × Option Err) (w' : W)
      (res : CheckResult Conn)
      → after_offer format_addr parse_addr dial_quic ctx_err p eng recv out ≡ (w', ok res)
      → (out ≡ (out.0, none))
        × (after_answer format_addr parse_addr dial_quic ctx_err p eng (recv out.0) ≡ (w', ok res))
  unfolding after_offer
  offer_completed p eng recv (w, some x) w' res e = cc
  offer_completed p eng recv (w, none) w' res e = (refl, e)

  run_with-Completed :
      (p : Promoter W Conn Err) (engine : Option (Engine W Conn Err))
      (send : Option (W → CandidateList → W × Option Err))
      (recv : Option (W → W × Result Err (Option CandidateList))) (w w' : W)
      (res : CheckResult Conn)
      → p.engine ≡ engine
      → p.send_offer ≡ send
      → p.recv_answer ≡ recv
      → run_with format_addr parse_addr dial_quic ctx_err p engine send recv w ≡ (w', ok res)
      → Completed p w w' res
  unfolding run_with
  run_with-Completed p (some eng) (some send) (some recv) w w' res h k l e =
      let o = send w (offer format_addr parse_addr dial_quic ctx_err p) in
      let (sent, e1) = offer_completed p eng recv o w' res e in
      let (answer, got, same, e2) = answer_completed p eng (recv o.0) w' res e1 in
      let c =
        check dial_quic ctx_err eng p.locals (from_pb format_addr parse_addr answer.candidates)
          (recv o.0).0 in
      let (found, last) = check_completed p c w' res e2 in
      record {
        engine = eng;
        send = send;
        recv = recv;
        offered = o.0;
        answered = (recv o.0).0;
        checked = c.0;
        answer = answer;
        has_engine = h;
        has_send = k;
        has_recv = l;
        step1 = sent;
        step2 = got;
        for_stream = same;
        step3 = found;
        step4 = last;
      }
  run_with-Completed p _ _ _ w w' res h k l e = cc e

  -- A run returns a connection only if it is wired, its offer was sent, an answer for its stream
  -- came, and the check on the answer's candidates found the connection; then MIGRATE_TO_P2P is
  -- handed to its hook.
  pub run-Completed :
      (p : Promoter W Conn Err) (w w' : W) (res : CheckResult Conn)
      → run format_addr parse_addr dial_quic ctx_err p w ≡ (w', ok res)
      → Completed p w w' res
  unfolding run
  run-Completed p w w' res e =
      run_with-Completed p p.engine p.send_offer p.recv_answer w w' res refl refl refl e

  -- The hook of MIGRATE_TO_P2P, whatever it does or returns, does not bear on the result.
  pub migrate_best_effort :
      (p : Promoter W Conn Err) (hook : Option (W → Migrate → W × Option Err)) (w : W)
      → (run format_addr parse_addr dial_quic ctx_err (record p { send_migrate = hook }) w).1
        ≡ (run format_addr parse_addr dial_quic ctx_err p w).1
  unfolding run
  migrate_best_effort p hook w = ground arith
