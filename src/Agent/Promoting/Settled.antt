-- ===== src/Agent/Promoting/Settled.antt =====
-- How tryPromote ends, with what it leaves of the connection and of the wrapper.
use outrelay_agent.Base.{ℕ, ◌≡◌, ap, true, Option, none, some, Result, ok, err, List, [], ◌∷◌, Text}
use outrelay_agent.Netip.{Addr}
use outrelay_agent.Candidate.{InterfaceAddr}
use outrelay_agent.P2p.Check.{CheckResult, Engine, Dialer}
use outrelay_agent.Session.Wrapper.{swap_inner}
use outrelay_agent.Session.Waiters.{P2pState, register_answer_waiter}
use outrelay_agent.Session.Resume.{Link, ResumeError, Resumed, migrate_to_direct}
use outrelay_agent.Session.Promotion.{Outside, PromoteFailure, Promotion, gather_locals}
use outrelay_agent.Session.Promotion.Routing.{IsFresh}
use outrelay_agent.Session.Promotion.Outcomes.{Ends, promote-Ends}
use outrelay_agent.P2p.Check.Opened.{DialOpens, LeavesOne}
use outrelay_agent.Session.Promotion.Opened.{opened_in, WritesKeep, WaitsKeep, promote-LeavesOne}
use outrelay_agent.Session.Resume.Gap.{Placed, migrate_to_direct-Placed}
use outrelay_agent.Agent.Promoting.{
  not_promoted, not_migrated, migrated, Tried, DialledStream, options, after_migrate, after_promote,
  of_promotion, try_promote,
}

module _ {O Conn Err : Type 0} (link : Conn → Link) (st : DialledStream) (opened : O → List Conn)
    (before : List Conn) where
  -- What follows from how the promotion went, where `before` are the connections that were opened
  -- before it: on an error the stream stays where it is, no other is opened and none is closed;
  -- behind a passed check the one of the check is opened, and the stream runs on a stream of it and
  -- it is not closed, or the stream stays where it is and that connection is closed.
  pub data Settles
      : (P2pState × O) × Result (PromoteFailure Err) (CheckResult Conn)
        → Tried O Conn Err
        → Type 0 where
    stays :
        {w : P2pState × O} {e : PromoteFailure Err}
        → opened w.1 ≡ before
        → Settles
            (w, err e)
            (record { world = w; wrapper = st.wrapper; ended = not_promoted e; closed = [] })
    moves :
        {w : P2pState × O} {res : CheckResult Conn} (direct : ℕ)
        → (link res.conn).stream ≡ some direct
        → opened w.1 ≡ res.conn ∷ before
        → Settles
            (w, ok res)
            (record {
              world = w;
              wrapper = swap_inner st.wrapper direct;
              ended = migrated;
              closed = [];
            })
    gives_back :
        {w : P2pState × O} {res : CheckResult Conn} (e : ResumeError)
        → opened w.1 ≡ res.conn ∷ before
        → Settles
            (w, ok res)
            (record {
              world = w;
              wrapper = st.wrapper;
              ended = not_migrated e;
              closed = res.conn ∷ [];
            })

  after_migrate-Settles :
      (w : P2pState × O) (res : CheckResult Conn) (m : Resumed)
      → Placed st.wrapper (link res.conn).stream m
      → opened w.1 ≡ res.conn ∷ before
      → Settles (w, ok res) (after_migrate link w res.conn m)
  unfolding after_migrate
  after_migrate-Settles w res (t, none, events) (direct, up, e) one = rw e (moves direct up one)
  after_migrate-Settles w res (t, some e, events) (same, rest) one = rw same (gives_back e one)

  after_promote-Settles :
      (p : (P2pState × O) × Result (PromoteFailure Err) (CheckResult Conn))
      → LeavesOne (λ (w : P2pState × O). opened w.1) before p
      → Settles p (after_promote link st p)
  unfolding after_promote
  after_promote-Settles (w, err e) same = stays same
  after_promote-Settles (w, ok res) one =
      after_migrate-Settles w res
        (migrate_to_direct st.id st.payload st.retransmit_from true st.wrapper (link res.conn))
        (migrate_to_direct-Placed st.id st.payload st.retransmit_from st.wrapper (link res.conn))
        one

module _ (format_addr : Addr → Text) (parse_addr : Text → Option Addr)
    (addrs : Option (List InterfaceAddr)) {O Conn Err : Type 0} (outside : Outside O Err)
    (dial_quic : Dialer (P2pState × O) Conn Err) (ctx_err : (P2pState × O) → Option Err)
    (link : Conn → Link) (eng : Engine (P2pState × O) Conn Err) (opened : O → List Conn)
    (over_quic : DialOpens (opened_in opened outside) dial_quic)
    (over_dialer : (d : Dialer (P2pState × O) Conn Err)
      → eng.dialer ≡ some d
      → DialOpens (opened_in opened outside) d)
    (writes : WritesKeep opened outside) (waits : WaitsKeep opened outside) where
  -- Where a dial that succeeds opens the connection that it returns and no other, a failed dial
  -- opens none, and neither do a write on the control stream and a wait for an answer: when the wait
  -- of a second has passed, tryPromote on a session where EnableP2P has run returns, with one of the
  -- ends of Promote. If that is an error, the stream stays where it is and no connection has been
  -- opened; if the check has passed, the connection of the check is the one that has been opened,
  -- and either the stream runs on a direct stream of it, or the stream stays where it is and that
  -- connection is closed.
  pub try_promote-Settles :
      (st : DialledStream) (s t : P2pState) (o : O) (ch : ℕ)
      → IsFresh s
      → register_answer_waiter s st.id ≡ some (t, ch)
      → (p : Promotion format_addr parse_addr addrs outside dial_quic ctx_err) × (out : Tried O Conn
          Err)
        × (try_promote format_addr parse_addr addrs outside dial_quic ctx_err link true st s o eng
            ≡ some out)
        × Ends format_addr parse_addr addrs outside dial_quic ctx_err st.id ch eng
            (gather_locals format_addr parse_addr addrs options s)
            t
            o
            p
        × Settles link st opened (opened o) p out
  unfolding try_promote of_promotion
  try_promote-Settles st s t o ch v made =
      let (p, e, ends) =
        promote-Ends format_addr parse_addr addrs outside dial_quic ctx_err eng s t o st.id ch
          options v made in
      (
        p,
        after_promote link st p,
        ap (of_promotion format_addr parse_addr addrs outside dial_quic ctx_err link st) e,
        ends,
        after_promote-Settles link st opened (opened o) p (
            promote-LeavesOne format_addr parse_addr addrs opened outside dial_quic ctx_err eng
              over_quic over_dialer writes waits s o st.id options p e),
      )
