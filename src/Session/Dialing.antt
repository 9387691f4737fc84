-- ===== src/Session/Dialing.antt =====
-- pkg/session/session.go: DialWithDialer, DialAny, DialAnyHappy and the loops of
-- RunWithReconnect. An attempt is given by the outcomes of its calls; connections are numbers, and
-- the events say which are opened and closed.
pub mod Race
pub mod Backoff
mod Tests
use outrelay_agent.Base.{
  ℕ, ◌+◌, ◌*◌, Bool, true, false, ltb, if◌then◌else◌, Option, none, some, Result, ok, err, List, [],
  ◌∷◌, ◌++◌,
}
use outrelay_agent.Orp.{Frame, hello_ack_frame}

pub data DialError : Type 0 where
  no_addresses dial_failed open_ctrl send_hello read_hello_ack bad_hello_ack : DialError
  all_failed : DialError → DialError

pub data ConnEvent : Type 0 where
  opened closed : ℕ → ConnEvent

-- The connection, if the dial succeeds; whether the control stream opens and HELLO is written; and
-- the frame that is read, if any.
pub record Attempt : Type 0 where
  pub conn : Option ℕ
  pub opens : Bool
  pub writes : Bool
  pub reply : Option Frame

abbrev pub Dialled : Type 0
Dialled = Result DialError ℕ × List ConnEvent

-- An error behind the dial closes the connection.
give_up : ℕ → DialError → Dialled
give_up c e = (err e, opened c ∷ closed c ∷ [])

read_ack : ℕ → Option Frame → Dialled
unfolding give_up
read_ack c none = give_up c read_hello_ack
read_ack c (some hello_ack_frame) = (ok c, opened c ∷ [])
read_ack c (some f) = give_up c bad_hello_ack

unfoldable pub dial_with_dialer : Attempt → Dialled
unfolding read_ack give_up
dial_with_dialer a = elim a.conn [
  | none ↦ (err dial_failed, [])
  | some c ↦
      if a.opens
      then (if a.writes then read_ack c a.reply else give_up c send_hello)
      else give_up c open_ctrl
]

-- `first` is firstErr.
first_error : Option DialError → DialError → DialError
first_error none e = e
first_error (some e) e' = e

any_next : Option DialError → Dialled → (Option DialError → Dialled) → Dialled
unfolding first_error
any_next first (ok c, events) rest = (ok c, events)
any_next first (err e, events) rest =
    let r = rest (some (first_error first e)) in (r.0, events ++ r.1)

last_error : Option DialError → Dialled
last_error none = (err no_addresses, [])
last_error (some e) = (err (all_failed e), [])

any_loop : List Attempt → Option DialError → Dialled
unfolding any_next last_error
any_loop [] first = last_error first
any_loop (a ∷ attempts) first = any_next first (dial_with_dialer a) (any_loop attempts)

unfoldable pub dial_any : List Attempt → Dialled
unfolding any_loop
dial_any attempts = any_loop attempts none

-- The race: the outcomes of all attempts in the order in which they arrive.
pub record Contest : Type 0 where
  pub winner : Option ℕ
  pub first_err : Option DialError
  pub closed_conns : List ℕ

arrive : Contest → Result DialError ℕ → Contest
unfolding first_error
arrive r (ok c) = elim r.winner [
  | none ↦ record r { winner = some c }
  | some w ↦ record r { closed_conns = r.closed_conns ++ c ∷ [] }
]
arrive r (err e) = record r { first_err = some (first_error r.first_err e) }

race : Contest → List (Result DialError ℕ) → Contest
unfolding arrive
race r [] = r
race r (x ∷ xs) = race (arrive r x) xs

race_result : Contest → Result DialError ℕ × List ℕ
race_result r = elim r.winner [
  | some c ↦ (ok c, r.closed_conns)
  | none ↦ elim r.first_err [
    | none ↦ (err no_addresses, r.closed_conns)
    | some e ↦ (err (all_failed e), r.closed_conns)
  ]
]

-- With one address the outcome is that of its dial; the result has the sessions that are closed.
unfoldable pub dial_any_happy : List (Result DialError ℕ) → Result DialError ℕ × List ℕ
unfolding race race_result
dial_any_happy [] = (err no_addresses, [])
dial_any_happy (x ∷ []) = (x, [])
dial_any_happy (x ∷ y ∷ xs) =
    race_result (race (record { winner = none; first_err = none; closed_conns = [] }) (x ∷ y ∷ xs))

-- Milliseconds.
abbrev pub max_backoff : ℕ
max_backoff = 30000

abbrev pub first_backoff : ℕ
first_backoff = 1000

unfoldable pub next_backoff : ℕ → ℕ
next_backoff b =
    if ltb b max_backoff then (if ltb max_backoff (b * 2) then max_backoff else b * 2) else b

-- The outcome of a call of Reconnect, and whether the context ends during the wait after a failure.
pub data Retry : Type 0 where
  reconnected : Retry
  refused : Bool → Retry

-- The inner loop: whether it ends by a reconnection, and the waits; `none` if it is still at it.
unfoldable pub retry_loop : ℕ → List Retry → Option Bool × List ℕ
retry_loop backoff [] = (none, [])
retry_loop backoff (reconnected ∷ rs) = (some true, [])
retry_loop backoff (refused true ∷ rs) = (some false, backoff ∷ [])
retry_loop backoff (refused false ∷ rs) =
    let r = retry_loop (next_backoff backoff) rs in (r.0, backoff ∷ r.1)

-- How Run ends: without an error or by the context's, or by the loss of the connection.
pub data RunEnd : Type 0 where
  run_done : RunEnd
  lost : List Retry → RunEnd

-- The outer loop over the ends of Run: `some none` is the result nil.
unfoldable pub run_with_reconnect : List RunEnd → Option (Option DialError)
run_with_reconnect [] = none
run_with_reconnect (run_done ∷ runs) = some none
run_with_reconnect (lost rs ∷ runs) =
    let again = run_with_reconnect runs in
    elim (retry_loop first_backoff rs).0 [
      | none ↦ none
      | some true ↦ again
      | some false ↦ some none
    ]
