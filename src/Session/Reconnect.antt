-- ===== src/Session/Reconnect.antt =====
-- pkg/session/session.go: Reconnect. It dials the addresses in turn, registers the exposed services
-- again and resumes each active stream. The outcomes of the calls are given; connections are numbers.
pub mod Connections
pub mod Rejoined
pub mod Streams
mod Tests
use outrelay_agent.Base.{
  ℕ, Bool, true, false, if◌then◌else◌, Option, none, some, Result, ok, err, List, [], ◌∷◌, ◌++◌,
  Text, nat_eq,
}
use outrelay_agent.Base.Map.{Map, lookup, insert}
use outrelay_agent.Base.Usage.{Use, opened, shut}
use outrelay_agent.Orp.{Frame, hello_ack_frame, register_frame}
use outrelay_agent.Session.Wrapper.{Wrapper}
use outrelay_agent.Session.Registry.{Registry, forget_stream, active_streams}
use outrelay_agent.Session.Resume.{Link, Resumed, resume, ResumeError}
use outrelay_agent.Session.Dialing.{Attempt}
use outrelay_agent.Session.Opening.{ExposeError, await_ack}

is_hello_ack : Option Frame → Bool
is_hello_ack (some hello_ack_frame) = true
is_hello_ack _ = false

-- `dialErr`: whether a dial has failed. A failure behind the dial closes the connection and leaves
-- no error.
pub record Redial : Type 0 where
  pub conn : Option ℕ
  pub dial_failed : Bool
  pub uses : List (Use ℕ)

redial_one : Attempt → Redial → Redial
unfolding is_hello_ack
redial_one a rest = elim a.conn [
  | none ↦ record rest { dial_failed = true }
  | some c ↦
      let bad = record rest { uses = opened c ∷ shut c ∷ rest.uses } in
      if a.opens
      then (if a.writes
          then (if is_hello_ack a.reply
              then record { conn = some c; dial_failed = false; uses = opened c ∷ [] }
              else bad)
          else bad)
      else bad
]

unfoldable pub redial : List Attempt → Redial
unfolding redial_one
redial [] = record { conn = none; dial_failed = false; uses = [] }
redial (a ∷ attempts) = redial_one a (redial attempts)

pub data ReconnectError : Type 0 where
  no_addresses dial_error all_failed : ReconnectError
  registration : Text → ExposeError → ReconnectError

-- REGISTER for each name, up to the first failure: the frames that are written.
unfoldable pub reregister :
    List Text → (Text → Bool × Option Frame) → Option ReconnectError × List Frame
reregister [] answer = (none, [])
reregister (name ∷ names) answer =
    let more = reregister names answer in
    elim (await_ack (answer name).0 (answer name).1) [
      | none ↦ (more.0, register_frame name [] ∷ more.1)
      | some e ↦ (some (registration name e), register_frame name [] ∷ [])
    ]

-- What Resume meets on the new connection for one wrapper, with its resume state.
pub record Rejoin : Type 0 where
  pub payload : ℕ × ℕ
  pub retransmit_from : ℕ → Option (List ℕ)
  pub link : Link

set_wrapper : Registry → (w id : ℕ) → Wrapper → Registry
set_wrapper s w id r = record s { wrappers = insert w (id, r) s.wrappers }

-- A stream that cannot be resumed is forgotten.
pub rejoined : Registry → (w id : ℕ) → Resumed → Registry
unfolding set_wrapper
rejoined s w id (r, none, events) = set_wrapper s w id r
rejoined s w id (r, some e, events) = forget_stream (set_wrapper s w id r) id

unfoldable pub rejoin : (ℕ → Rejoin) → Registry → ℕ → Registry
unfolding rejoined
rejoin meets s w = elim (lookup w s.wrappers) [
  | none ↦ s
  | some (id, r) ↦
      rejoined s w id (resume id (meets w).payload (meets w).retransmit_from r (meets w).link)
]

unfoldable pub rejoin_all : (ℕ → Rejoin) → Registry → List ℕ → Registry
rejoin_all meets s [] = s
rejoin_all meets s (w ∷ ws) = rejoin_all meets (rejoin meets s w) ws

-- A session as Reconnect sees it: its connection, the names that have handlers, its streams.
pub record Connection : Type 0 where
  pub conn : ℕ
  pub exposed : List Text
  pub registry : Registry

-- The new state, the error, and the connections that are opened and closed.
abbrev pub Reconnected : Type 0
Reconnected = Connection × Option ReconnectError × List (Use ℕ)

after_registers :
    (ℕ → Rejoin) → Connection → List (Use ℕ) → Option ReconnectError × List Frame → Reconnected
after_registers meets s uses (some e, frames) = (s, some e, uses)
after_registers meets s uses (none, frames) =
    (record s { registry = rejoin_all meets s.registry (active_streams s.registry) }, none, uses)

after_redial : (Text → Bool × Option Frame) → (ℕ → Rejoin) → Connection → Redial → Reconnected
unfolding after_registers
after_redial answer meets s r = elim r.conn [
  | none ↦ (s, some (if r.dial_failed then dial_error else all_failed), shut s.conn ∷ r.uses)
  | some c ↦
      after_registers meets (record s { conn = c }) (shut s.conn ∷ r.uses)
        (reregister s.exposed answer)
]

unfoldable pub reconnect :
    List Attempt → (Text → Bool × Option Frame) → (ℕ → Rejoin) → Connection → Reconnected
unfolding after_redial
reconnect [] answer meets s = (s, some no_addresses, [])
reconnect (a ∷ attempts) answer meets s = after_redial answer meets s (redial (a ∷ attempts))
