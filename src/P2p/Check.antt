-- ===== src/P2p/Check.antt =====
-- pkg/p2p/check.go: Engine. What lies outside (the network, the clock, the context) is a state `W`
-- that each dial changes; a dial returns a connection or an error, and `ctx_err` is `ctx.Err()`.
-- The logger and the measured round-trip time are left out.
pub mod Laws
pub mod Opened
use outrelay_agent.Base.{
  ℕ, ltb, if◌then◌else◌, not, Option, none, some, Result, ok, err, List, [], ◌∷◌, Text,
}
use outrelay_agent.Netip.{is_valid, zero_addr}
use outrelay_agent.Candidate.{Candidate, sort}

-- Milliseconds.
abbrev pub default_per_pair : ℕ
default_per_pair = 500

pub data CheckError (Err : Type 0) : Type 0 where
  no_pair : CheckError Err
  ctx_done : Err → CheckError Err

pub record CheckResult (Conn : Type 0) : Type 0 where
  pub local : Candidate
  pub remote : Candidate
  pub conn : Conn

abbrev pub zero_candidate : Candidate
zero_candidate = record { kind = []; addr = record { addr = zero_addr; port = 0 }; priority = 0 }

module _ (W Conn Err : Type 0) where
  -- A dial under the timeout of one pair.
  abbrev pub Dialer : Type 0
  Dialer = W → ℕ → Candidate → W × Result Err Conn

  pub record Engine : Type 0 where
    pub per_pair : ℕ
    pub dialer : Option Dialer

module _ {W Conn Err : Type 0} where
  unfoldable pub new_engine : Engine W Conn Err
  new_engine = record { per_pair = default_per_pair; dialer = none }

  -- The duration is not negative here: the source ignores one that is not positive.
  unfoldable pub set_per_pair_timeout : Engine W Conn Err → ℕ → Engine W Conn Err
  set_per_pair_timeout e d = if ltb 0 d then record e { per_pair = d } else e

  unfoldable pub set_dialer : Engine W Conn Err → Option (Dialer W Conn Err) → Engine W Conn Err
  set_dialer e d = record e { dialer = d }

-- The candidate that is reported as the local half of the pair.
unfoldable pub best_local : List Candidate → Candidate
best_local locals = elim (sort locals) [ [] ↦ zero_candidate | c ∷ cs ↦ c ]

module _ {W Conn Err : Type 0} (dial_quic : Dialer W Conn Err) (ctx_err : W → Option Err)
    (e : Engine W Conn Err) where
  unfoldable pub dial_one : W → Candidate → W × Result Err Conn
  dial_one w r = elim e.dialer [ none ↦ dial_quic w e.per_pair r | some d ↦ d w e.per_pair r ]

  -- One round on a candidate after its dial; `rest` is what the remaining rounds do.
  unfoldable pub after_dial :
      List Candidate
      → Candidate
      → (W → W × Result (CheckError Err) (CheckResult Conn))
      → W × Result Err Conn
      → W × Result (CheckError Err) (CheckResult Conn)
  after_dial locals r rest (w, ok conn) =
      (w, ok (record { local = best_local locals; remote = r; conn = conn }))
  after_dial locals r rest (w, err x) = elim (ctx_err w) [
    | some c ↦ (w, err (ctx_done c))
    | none ↦ rest w
  ]

  unfoldable pub check_loop :
      List Candidate → List Candidate → W → W × Result (CheckError Err) (CheckResult Conn)
  unfolding after_dial
  check_loop locals [] w = (w, err no_pair)
  check_loop locals (r ∷ rs) w =
      let rest = check_loop locals rs in
      if not (is_valid r.addr.addr) then rest w else after_dial locals r rest (dial_one w r)

  unfoldable pub check :
      List Candidate → List Candidate → W → W × Result (CheckError Err) (CheckResult Conn)
  unfolding check_loop
  check locals remotes w = check_loop locals (sort remotes) w
