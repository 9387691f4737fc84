-- ===== src/Session/Dialing/Tests.antt =====
-- A race of four attempts and a connection that is lost.
use outrelay_agent.Base.{ℕ, ◌≡◌, refl, true, false, none, some, Result, ok, err, List, [], ◌∷◌}
use outrelay_agent.Orp.{hello_ack_frame}
use outrelay_agent.Session.Dialing.{
  DialError, open_ctrl, read_hello_ack, dial_with_dialer, dial_any, dial_any_happy, first_backoff,
  reconnected, refused, retry_loop, lost, run_with_reconnect, opened, closed,
}
use outrelay_agent.Session.Dialing.Race.{Settles, dial_any_happy-Settles}
use outrelay_agent.Session.Dialing.Backoff.{failures, waits, retry_loop_waits}

abbrev arrivals : List (Result DialError ℕ)
arrivals = err open_ctrl ∷ ok 7 ∷ err read_hello_ack ∷ ok 4 ∷ []

race_of_four : dial_any_happy arrivals ≡ (ok 7, 4 ∷ [])
unfolding dial_any_happy
race_of_four = refl

second_address :
    dial_any (
      record { conn = some 1; opens = true; writes = true; reply = none }
      ∷ record { conn = some 2; opens = true; writes = true; reply = some hello_ack_frame }
      ∷ [])
    ≡ (ok 2, opened 1 ∷ closed 1 ∷ opened 2 ∷ [])
unfolding dial_any dial_with_dialer
second_address = refl

dial_any_happy-Settles_example : Settles arrivals (dial_any_happy arrivals)
dial_any_happy-Settles_example = dial_any_happy-Settles arrivals

seven_waits : waits 0 7 ≡ 1000 ∷ 2000 ∷ 4000 ∷ 8000 ∷ 16000 ∷ 30000 ∷ 30000 ∷ []
unfolding waits
seven_waits = refl

applied_retry_loop_waits :
    retry_loop first_backoff (failures 7 (reconnected ∷ [])) ≡ (some true, waits 0 7)
applied_retry_loop_waits = retry_loop_waits 7 []

one_reconnection :
    run_with_reconnect (lost (refused false ∷ reconnected ∷ []) ∷ lost (refused true ∷ []) ∷ [])
    ≡ some none
unfolding run_with_reconnect retry_loop
one_reconnection = refl
