-- ===== src/P2p/Check/Opened.antt =====
-- The connections that Engine.Check opens: that of its result, and none behind an error.
use outrelay_agent.Base.{
  ℕ, ◌≡◌, refl, subst, Bool-cases, Option, some, Option-cases, inl, inr, Result, ok, err, List, [],
  ◌∷◌,
}
use outrelay_agent.Netip.{is_valid}
use outrelay_agent.Candidate.{Candidate, sort}
use outrelay_agent.P2p.Check.{
  CheckError, CheckResult, Dialer, Engine, dial_one, after_dial, check_loop, check,
}

module _ {W Conn : Type 0} (opened : W → List Conn) where
  -- One dial: the connection that it returns is opened, and no other.
  abbrev pub DialsOne : {Err : Type 0} → List Conn → W × Result Err Conn → Type 0
  DialsOne before (w, ok conn) = opened w ≡ conn ∷ before
  DialsOne before (w, err e) = opened w ≡ before

  abbrev pub DialOpens : {Err : Type 0} → Dialer W Conn Err → Type 0
  DialOpens dial = (w : W) (timeout : ℕ) (r : Candidate) → DialsOne (opened w) (dial w timeout r)

  -- The same of a step that returns the result of a check.
  abbrev pub LeavesOne : {E : Type 0} → List Conn → W × Result E (CheckResult Conn) → Type 0
  LeavesOne before (w, ok res) = opened w ≡ res.conn ∷ before
  LeavesOne before (w, err e) = opened w ≡ before

  module _ {Err : Type 0} (dial_quic : Dialer W Conn Err) (ctx_err : W → Option Err)
      (e : Engine W Conn Err) (over_quic : DialOpens dial_quic)
      (over_dialer : (d : Dialer W Conn Err) → e.dialer ≡ some d → DialOpens d) where
    dial_one-DialsOne :
        (w : W) (r : Candidate) → DialsOne (opened w) (dial_one dial_quic ctx_err e w r)
    unfolding dial_one
    dial_one-DialsOne w r = elim (Option-cases e.dialer) [
      | inl unset ↦ rw (unset, dial_one) (over_quic w e.per_pair r)
      | inr (d, set) ↦ rw (set, dial_one) (over_dialer d set w e.per_pair r)
    ]

    after_dial-LeavesOne :
        (before : List Conn) (locals : List Candidate) (r : Candidate)
        (rest : W → W × Result (CheckError Err) (CheckResult Conn)) (out : W × Result Err Conn)
        → DialsOne before out
        → ((w : W) → opened w ≡ before → LeavesOne before (rest w))
        → LeavesOne before (after_dial dial_quic ctx_err e locals r rest out)
    unfolding after_dial
    after_dial-LeavesOne before locals r rest (w, ok conn) h more = h
    after_dial-LeavesOne before locals r rest (w, err x) h more = elim (Option-cases (ctx_err w)) [
      | inl alive ↦ rw (alive, after_dial) (more w h)
      | inr (c, done) ↦ rw (done, after_dial) h
    ]

    check_loop-LeavesOne :
        (before : List Conn) (locals rs : List Candidate) (w : W)
        → opened w ≡ before
        → LeavesOne before (check_loop dial_quic ctx_err e locals rs w)
    unfolding check_loop
    check_loop-LeavesOne before locals [] w h = h
    check_loop-LeavesOne before locals (r ∷ rs) w h = elim (Bool-cases (is_valid r.addr.addr)) [
      | inl valid ↦
          rw (valid, check_loop)
            (after_dial-LeavesOne before locals r _ _
              (subst (λ b. DialsOne b (dial_one dial_quic ctx_err e w r)) h (dial_one-DialsOne w r))
              (check_loop-LeavesOne before locals rs))
      | inr bad ↦ rw (bad, check_loop) (check_loop-LeavesOne before locals rs w h)
    ]

    -- A check opens the connection that it returns, and leaves nothing else open; behind an error it
    -- leaves nothing open.
    pub check-LeavesOne :
        (locals remotes : List Candidate) (w : W)
        → LeavesOne (opened w) (check dial_quic ctx_err e locals remotes w)
    unfolding check
    check-LeavesOne locals remotes w = check_loop-LeavesOne (opened w) locals (sort remotes) w refl
