-- ===== src/Candidate/Query.antt =====
-- QueryServerReflexive: one request to the relay, and the three ways in which the wait can end.
use outrelay_agent.Base.{
  ℕ, ◌+◌, ◌*◌, ◌/◌, ◌%◌, ◌^◌, ◌≡◌, ◌≢◌, refl, not, Bool, true, false, ◌==◌, if◌then◌else◌, Option,
  none, some, Result, ok, err, Text, arith,
}
use outrelay_agent.Netip.{Addr}
use outrelay_agent.Orp.{
  Frame, malformed, observed_addr_resp, addr_query_frame, addr_resp_frame, ObservedAddr,
}
use outrelay_agent.Candidate.{Candidate, srflx_kind, srflx_priority}

pub data QueryError : Type 0 where
  send_query read_response unexpected_frame bad_payload id_mismatch bad_ip : QueryError
  query_timed_out context_done : QueryError

-- What the `select` sees first: the reader's frame (`none` for its error), the timer or the context.
pub data Wait : Type 0 where
  arrived : Option Frame → Wait
  timer_fired cancelled : Wait

-- `nextRequestID.Add(1)`, a uint64; a wrap to 0 takes an odd random number instead.
unfoldable pub request_id : ℕ → ℕ → ℕ
request_id counter random =
    let id = (counter + 1) % 2 ^ 64 in if id == 0 then random / 2 * 2 + 1 else id

-- A request never carries the id 0.
pub request_id_nonzero : (counter random : ℕ) → request_id counter random ≢ 0
unfolding request_id
request_id_nonzero counter random = ground arith

module _ (parse_addr : Text → Option Addr) where
  -- The goroutine's reading of the response.
  read_answer : ℕ → Option Frame → Result QueryError Candidate
  read_answer id none = err read_response
  read_answer id (some (addr_resp_frame r)) =
      if not (r.request_id == id) then err id_mismatch else elim (parse_addr r.ip) [
        | none ↦ err bad_ip
        | some ip ↦ ok (record {
          kind = srflx_kind;
          addr = record { addr = ip; port = r.port % 2 ^ 16 };
          priority = srflx_priority;
        })
      ]
  read_answer id (some (malformed observed_addr_resp)) = err bad_payload
  read_answer id (some f) = err unexpected_frame

  select_answer : ℕ → Wait → Result QueryError Candidate
  unfolding read_answer
  select_answer id (arrived f) = read_answer id f
  select_answer id timer_fired = err query_timed_out
  select_answer id cancelled = err context_done

  -- `sent` says whether WriteFrame succeeds. The request is part of the result, with the counter.
  unfoldable pub query_server_reflexive :
      (counter random : ℕ) → Bool → Wait → ℕ × Frame × Result QueryError Candidate
  unfolding select_answer
  query_server_reflexive counter random sent wait =
      let id = request_id counter random in
      (
        (counter + 1) % 2 ^ 64,
        addr_query_frame id,
        (if sent then select_answer id wait else err send_query),
      )

  -- A candidate is returned only for a response to this very request, with the address and the
  -- port that it names, and it ranks as server-reflexive.
  pub query_server_reflexive_ok :
      (counter random : ℕ) (sent : Bool) (wait : Wait) (c : Candidate)
      → (query_server_reflexive counter random sent wait).2 ≡ ok c
      → (r : ObservedAddr) × (wait ≡ arrived (some (addr_resp_frame r)))
        × (r.request_id ≡ request_id counter random)
        × (parse_addr r.ip ≡ some c.addr.addr)
        × (c.addr.port ≡ r.port % 2 ^ 16)
        × (c.kind ≡ srflx_kind)
        × (c.priority ≡ srflx_priority)
  unfolding query_server_reflexive
  query_server_reflexive_ok counter random true (arrived (some (addr_resp_frame r))) c e =
      (r, refl, ground arith, ground arith, ground arith, ground arith, ground arith)
  query_server_reflexive_ok counter random true (arrived (some (malformed observed_addr_resp))) c
        e =
      cc
  query_server_reflexive_ok counter random true (arrived (some f)) c e = cc
  query_server_reflexive_ok counter random true (arrived none) c e = cc
  query_server_reflexive_ok counter random true timer_fired c e = cc
  query_server_reflexive_ok counter random true cancelled c e = cc
  query_server_reflexive_ok counter random false wait c e = cc
