-- ===== src/Agent/Promoting.antt =====
-- cmd/outrelay-agent/main.go: tryPromote, over Session.Promote and MigrateToDirect.
pub mod Settled
mod Tests
use outrelay_agent.Base.{
  ℕ, Bool, true, false, Option, none, some, Result, ok, err, List, [], ◌∷◌, Text,
}
use outrelay_agent.Netip.{Addr}
use outrelay_agent.Candidate.{InterfaceAddr}
use outrelay_agent.P2p.Check.{CheckResult, Engine, Dialer}
use outrelay_agent.Session.Wrapper.{Wrapper}
use outrelay_agent.Session.Waiters.{P2pState}
use outrelay_agent.Session.Resume.{Link, ResumeError, Resumed, migrate_to_direct}
use outrelay_agent.Session.Promotion.{Outside, PromoteOptions, PromoteFailure, Promotion, promote}

pub data Ending (Err : Type 0) : Type 0 where
  gave_up : Ending Err
  not_promoted : PromoteFailure Err → Ending Err
  not_migrated : ResumeError → Ending Err
  migrated : Ending Err

-- What is left: the session's waiters and the outside, the stream's wrapper, how it ended, and the
-- connections that tryPromote itself closes. Those that are opened are in the outside's state.
pub record Tried (O Conn Err : Type 0) : Type 0 where
  pub world : P2pState × O
  pub wrapper : Wrapper
  pub ended : Ending Err
  pub closed : List Conn

-- The dialled stream: its id and resume state, and its wrapper.
pub record DialledStream : Type 0 where
  pub id : ℕ
  pub payload : ℕ × ℕ
  pub retransmit_from : ℕ → Option (List ℕ)
  pub wrapper : Wrapper

-- PromoteOptions{HostPort: 0}.
abbrev pub options : PromoteOptions
options = record { host_port = 0; locals = [] }

module _ {O Conn Err : Type 0} (link : Conn → Link) where
  after_migrate : P2pState × O → Conn → Resumed → Tried O Conn Err
  after_migrate w c (r, none, events) = record {
    world = w;
    wrapper = r;
    ended = migrated;
    closed = [];
  }
  after_migrate w c (r, some e, events) = record {
    world = w;
    wrapper = r;
    ended = not_migrated e;
    closed = c ∷ [];
  }

  -- Behind Promote. `link` is what MigrateToDirect meets on the connection.
  unfoldable pub after_promote :
      DialledStream
      → (P2pState × O) × Result (PromoteFailure Err) (CheckResult Conn)
      → Tried O Conn Err
  unfolding after_migrate
  after_promote st (w, err e) = record {
    world = w;
    wrapper = st.wrapper;
    ended = not_promoted e;
    closed = [];
  }
  after_promote st (w, ok res) =
      after_migrate w res.conn
        (migrate_to_direct st.id st.payload st.retransmit_from true st.wrapper (link res.conn))

module _ (format_addr : Addr → Text) (parse_addr : Text → Option Addr)
    (addrs : Option (List InterfaceAddr)) {O Conn Err : Type 0} (outside : Outside O Err)
    (dial_quic : Dialer (P2pState × O) Conn Err) (ctx_err : (P2pState × O) → Option Err)
    (link : Conn → Link) where
  of_promotion :
      DialledStream
      → Option (Promotion format_addr parse_addr addrs outside dial_quic ctx_err)
      → Option (Tried O Conn Err)
  unfolding after_promote
  of_promotion st none = none
  of_promotion st (some p) = some (after_promote link st p)

  -- `waits` is whether the second has passed before the parent context is done; `none` is a panic.
  unfoldable pub try_promote :
      Bool
      → DialledStream
      → P2pState
      → O
      → Engine (P2pState × O) Conn Err
      → Option (Tried O Conn Err)
  unfolding of_promotion
  try_promote false st s o eng =
      some (record { world = (s, o); wrapper = st.wrapper; ended = gave_up; closed = [] })
  try_promote true st s o eng = of_promotion st (
      promote format_addr parse_addr addrs outside dial_quic ctx_err s o (some st.id) (some eng)
        options)
