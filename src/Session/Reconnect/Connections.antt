-- ===== src/Session/Reconnect/Connections.antt =====
-- Which connections Reconnect leaves open.
use outrelay_agent.Base.{
  nat_eq, arith, inl, inr, ◌∙◌, Bool-cases, ap, arith, ℕ, ◌≡◌, refl, Bool, Option, none, some,
  Option-cases, List, [], ◌∷◌, Text,
}
use outrelay_agent.Base.Usage.{Use, shut, remove, held}
use outrelay_agent.Orp.{Frame}
use outrelay_agent.Session.Dialing.{Attempt}
use outrelay_agent.Session.Opening.{ExposeError}
use outrelay_agent.Session.Reconnect.{
  await_ack, Redial, redial_one, redial, ReconnectError, Reconnected, no_addresses, registration,
  dial_error, all_failed, Rejoin, Connection, after_registers, after_redial, reconnect, reregister,
}

dialled : Option ℕ → List ℕ
dialled none = []
dialled (some c) = c ∷ []

shut_last : (c : ℕ) (uses : List (Use ℕ)) → held (c ∷ []) (shut c ∷ uses) ≡ held [] uses
unfolding held remove
shut_last c uses = ground arith

held-redial_one :
    (a : Attempt) (rest : Redial)
    → held [] rest.uses ≡ some (dialled rest.conn)
    → held [] (redial_one a rest).uses ≡ some (dialled (redial_one a rest).conn)
unfolding redial_one held dialled
held-redial_one a rest so = elim (Option-cases a.conn) [
  | inl failed ↦ rw (failed, redial_one) so
  | inr (c, up) ↦ ground (arith, so, up, shut_last c rest.uses)
]

held-redial :
    (attempts : List Attempt)
    → held [] (redial attempts).uses ≡ some (dialled (redial attempts).conn)
unfolding redial held dialled
held-redial [] = refl
held-redial (a ∷ attempts) = held-redial_one a (redial attempts) (held-redial attempts)

-- What is open when Reconnect returns with an error or none; `c` is the session's connection.
pub open_after : ℕ → Option ReconnectError → List ℕ
open_after c (some dial_error) = []
open_after c (some all_failed) = []
open_after c _ = c ∷ []

-- An error before a new connection is there leaves the session its old one, `c`.
abbrev pub KeepsOld : ℕ → Reconnected → Type 0
KeepsOld c (s, some no_addresses, uses) = s.conn ≡ c
KeepsOld c (s, some dial_error, uses) = s.conn ≡ c
KeepsOld c (s, some all_failed, uses) = s.conn ≡ c
KeepsOld c (s, e, uses) = Unit {0}

after_registers-held :
    (meets : ℕ → Rejoin) (s : Connection) (uses : List (Use ℕ))
    (o : Option ReconnectError × List Frame) (open_now : List ℕ)
    → held open_now uses ≡ some (s.conn ∷ [])
    → ((e : ReconnectError) → o.0 ≡ some e → open_after s.conn (some e) ≡ s.conn ∷ [])
    → let out = after_registers meets s uses o in
      held open_now out.2 ≡ some (open_after out.0.conn out.1)
unfolding after_registers open_after
after_registers-held meets s uses (some e, frames) open_now so stays = rw (stays e refl) so
after_registers-held meets s uses (none, frames) open_now so stays = so

reregister_open :
    (names : List Text) (answer : Text → Bool × Option Frame) (c : ℕ) (e : ReconnectError)
    → (reregister names answer).0 ≡ some e
    → open_after c (some e) ≡ c ∷ []
unfolding reregister open_after
reregister_open [] answer c e failed = cc
reregister_open (name ∷ names) answer c e failed =
    elim (Option-cases (await_ack (answer name).0 (answer name).1)) [
      | inl acked ↦ reregister_open names answer c e (rw (acked, reregister) at failed)
      | inr (x, no_ack) ↦ ground (arith, failed, no_ack)
    ]

reregister_late :
    (names : List Text) (answer : Text → Bool × Option Frame) (e : ReconnectError)
    → (reregister names answer).0 ≡ some e
    → (name : Text) × (x : ExposeError) × (e ≡ registration name x)
unfolding reregister
reregister_late [] answer e failed = cc
reregister_late (name ∷ names) answer e failed =
    elim (Option-cases (await_ack (answer name).0 (answer name).1)) [
      | inl acked ↦ reregister_late names answer e (rw (acked, reregister) at failed)
      | inr (x, no_ack) ↦ (name, x, ground (arith, failed, no_ack))
    ]

module _ (answer : Text → Bool × Option Frame) (meets : ℕ → Rejoin) (s : Connection) where
  after_redial-held :
      (r : Redial)
      → held [] r.uses ≡ some (dialled r.conn)
      → let out = after_redial answer meets s r in
        held (s.conn ∷ []) out.2 ≡ some (open_after out.0.conn out.1)
  unfolding after_redial open_after dialled
  after_redial-held r so = elim (Option-cases r.conn) [
    | inl failed ↦ rw (failed, after_redial) (ground (arith, so, failed, shut_last s.conn r.uses))
    | inr (c, up) ↦
        rw (up, after_redial)
          (after_registers-held meets (record s { conn = c }) (shut s.conn ∷ r.uses)
            (reregister s.exposed answer) (s.conn ∷ [])
            (shut_last s.conn r.uses ∙ so ∙ ap (λ o. some (dialled o)) up)
            (reregister_open s.exposed answer c))
  ]

  after_registers-KeepsOld :
      (c : Connection) (uses : List (Use ℕ)) (o : Option ReconnectError × List Frame)
      → ((e : ReconnectError)
          → o.0 ≡ some e
          → (name : Text) × (x : ExposeError) × (e ≡ registration name x))
      → KeepsOld s.conn (after_registers meets c uses o)
  unfolding after_registers
  after_registers-KeepsOld c uses (none, frames) late = tt
  after_registers-KeepsOld c uses (some no_addresses, frames) late =
      absurd (cc (late no_addresses refl).2)
  after_registers-KeepsOld c uses (some dial_error, frames) late =
      absurd (cc (late dial_error refl).2)
  after_registers-KeepsOld c uses (some all_failed, frames) late =
      absurd (cc (late all_failed refl).2)
  after_registers-KeepsOld c uses (some (registration name x), frames) late = tt

  after_redial-KeepsOld : (r : Redial) → KeepsOld s.conn (after_redial answer meets s r)
  unfolding after_redial
  after_redial-KeepsOld r = elim (Option-cases r.conn) [
    | inl failed ↦ elim (Bool-cases r.dial_failed) [
      | inl dial ↦ rw (failed, after_redial, dial) refl
      | inr other ↦ rw (failed, after_redial, other) refl
    ]
    | inr (c, up) ↦
        rw (up, after_redial)
          (after_registers-KeepsOld (record s { conn = c }) (shut s.conn ∷ r.uses)
            (reregister s.exposed answer) (reregister_late s.exposed answer))
  ]

  -- Whatever fails on whichever address, Reconnect closes the session's old connection and each one
  -- that it opened, but for the connection that the session has when it returns; when no address
  -- could be dialled to a HELLO_ACK, the session has its old connection, which is closed; and without
  -- an address it has its old connection, which is open.
  pub reconnect-held :
      (attempts : List Attempt)
      → let out = reconnect attempts answer meets s in
        (held (s.conn ∷ []) out.2 ≡ some (open_after out.0.conn out.1)) × KeepsOld s.conn out
  unfolding reconnect held open_after
  reconnect-held [] = (refl, refl)
  reconnect-held (a ∷ attempts) = (
    after_redial-held (redial (a ∷ attempts)) (held-redial (a ∷ attempts)),
    after_redial-KeepsOld (redial (a ∷ attempts)),
  )
