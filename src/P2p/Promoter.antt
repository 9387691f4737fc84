-- ===== src/P2p/Promoter.antt =====
-- pkg/p2p/promoter.go: the four steps of a promotion. The hooks are functions on the state `W` of
-- what lies outside; a nil hook is `none`. The logger is left out.
pub mod Wire
pub mod Laws
use outrelay_agent.Base.{
  ℕ, ◌%◌, ◌^◌, not, ◌==◌, if◌then◌else◌, Option, none, some, Result, ok, err, List, [], ◌∷◌, ◌++◌,
  Text,
}
use outrelay_agent.Netip.{Addr}
use outrelay_agent.Orp.{PbCandidate, CandidateList, Migrate}
use outrelay_agent.Candidate.{Candidate}
use outrelay_agent.P2p.Check.{CheckError, CheckResult, Engine, Dialer, check}

pub data PromoteError (Err : Type 0) : Type 0 where
  misconfigured answer_missing : PromoteError Err
  send_offer_failed recv_answer_failed : Err → PromoteError Err
  stream_id_mismatch : ℕ → ℕ → PromoteError Err
  check_failed : CheckError Err → PromoteError Err

-- `Addr.String` and `netip.ParseAddr`.
module _ (format_addr : Addr → Text) (parse_addr : Text → Option Addr) where
  unfoldable pub to_pb_one : Candidate → PbCandidate
  to_pb_one c = record {
    kind = c.kind;
    ip = format_addr c.addr.addr;
    port = c.addr.port;
    priority = c.priority;
  }

  unfoldable pub to_pb_loop : List Candidate → List PbCandidate → List PbCandidate
  unfolding to_pb_one
  to_pb_loop [] out = out
  to_pb_loop (c ∷ cs) out = to_pb_loop cs (out ++ to_pb_one c ∷ [])

  unfoldable pub to_pb : List Candidate → List PbCandidate
  unfolding to_pb_loop
  to_pb cs = to_pb_loop cs []

  from_pb_one : PbCandidate → Addr → Candidate
  from_pb_one c ip = record {
    kind = c.kind;
    addr = record { addr = ip; port = c.port % 2 ^ 16 };
    priority = c.priority;
  }

  from_pb_loop : List PbCandidate → List Candidate → List Candidate
  unfolding from_pb_one
  from_pb_loop [] out = out
  from_pb_loop (c ∷ cs) out =
      from_pb_loop cs
        (elim (parse_addr c.ip) [ none ↦ out | some ip ↦ out ++ from_pb_one c ip ∷ [] ])

  unfoldable pub from_pb : List PbCandidate → List Candidate
  unfolding from_pb_loop
  from_pb cs = from_pb_loop cs []

-- An answer may be nil.
pub record Promoter (W Conn Err : Type 0) : Type 0 where
  pub stream_id : ℕ
  pub engine : Option (Engine W Conn Err)
  pub locals : List Candidate
  pub send_offer : Option (W → CandidateList → W × Option Err)
  pub recv_answer : Option (W → W × Result Err (Option CandidateList))
  pub send_migrate : Option (W → Migrate → W × Option Err)

module _ (format_addr : Addr → Text) (parse_addr : Text → Option Addr) {W Conn Err : Type 0}
    (dial_quic : Dialer W Conn Err) (ctx_err : W → Option Err) where
  abbrev pub Promoted : Type 0
  Promoted = W × Result (PromoteError Err) (CheckResult Conn)

  -- Step 4: a failure of the hook is logged only.
  unfoldable pub notify : Promoter W Conn Err → W → CheckResult Conn → W
  notify p w res = elim p.send_migrate [
    | none ↦ w
    | some hook ↦
        (hook w (record {
          stream_id = p.stream_id;
          selected = to_pb_one format_addr parse_addr res.remote;
        })).0
  ]

  unfoldable pub after_check :
      Promoter W Conn Err → W × Result (CheckError Err) (CheckResult Conn) → Promoted
  unfolding notify
  after_check p (w, err e) = (w, err (check_failed e))
  after_check p (w, ok res) = (notify p w res, ok res)

  -- Step 3.
  unfoldable pub after_answer :
      Promoter W Conn Err → Engine W Conn Err → W × Result Err (Option CandidateList) → Promoted
  unfolding after_check
  after_answer p eng (w, err e) = (w, err (recv_answer_failed e))
  after_answer p eng (w, ok none) = (w, err answer_missing)
  after_answer p eng (w, ok (some answer)) =
      if not (answer.stream_id == p.stream_id)
      then (w, err (stream_id_mismatch answer.stream_id p.stream_id))
      else after_check p (
          check dial_quic ctx_err eng p.locals (from_pb format_addr parse_addr answer.candidates) w)

  -- Step 2.
  unfoldable pub after_offer :
      Promoter W Conn Err
      → Engine W Conn Err
      → (W → W × Result Err (Option CandidateList))
      → W × Option Err
      → Promoted
  unfolding after_answer
  after_offer p eng recv (w, some e) = (w, err (send_offer_failed e))
  after_offer p eng recv (w, none) = after_answer p eng (recv w)

  unfoldable pub offer : Promoter W Conn Err → CandidateList
  offer p = record { stream_id = p.stream_id; candidates = to_pb format_addr parse_addr p.locals }

  unfoldable pub run_with :
      Promoter W Conn Err
      → Option (Engine W Conn Err)
      → Option (W → CandidateList → W × Option Err)
      → Option (W → W × Result Err (Option CandidateList))
      → W
      → Promoted
  unfolding after_offer offer
  run_with p (some eng) (some send) (some recv) w = after_offer p eng recv (send w (offer p))
  run_with p _ _ _ w = (w, err misconfigured)

  unfoldable pub run : Promoter W Conn Err → W → Promoted
  unfolding run_with
  run p w = run_with p p.engine p.send_offer p.recv_answer w
