-- ===== src/Intercept/Explicit/Tests.antt =====
-- Two mappings of which the second cannot be bound, and a listener with two connections.
use outrelay_agent.Base.{ℕ, ◌≡◌, refl, true, false, Option, none, some, err, [], ◌∷◌, Text}
use outrelay_agent.Base.Usage.{opened, shut}
use outrelay_agent.Intercept.Explicit.{
  close_once, Mapping, listen_failed, new_explicit, conn, failed, serve_listener,
}
use outrelay_agent.Intercept.Explicit.Listeners.{Binds, new_explicit-Binds}

abbrev pay : Mapping
pay = record { bind_addr = b'1' ∷ []; target_svc = b'p' ∷ [] }

abbrev mail : Mapping
mail = record { bind_addr = b'1' ∷ b'2' ∷ []; target_svc = b'm' ∷ [] }

-- A listener can be had on the address of one character.
abbrev listen_test : Text → Option ℕ
listen_test (c ∷ []) = some 5
listen_test _ = none

closed_twice : close_once (close_once false (5 ∷ 6 ∷ [])).0 (5 ∷ 6 ∷ []) ≡ (true, [])
unfolding close_once
closed_twice = refl

second_taken :
    new_explicit listen_test (pay ∷ mail ∷ [])
    ≡ (err (listen_failed mail.bind_addr), opened 5 ∷ shut 5 ∷ [])
unfolding new_explicit
second_taken = refl

one_taken :
    serve_listener (b'p' ∷ []) (conn 1 true ∷ conn 2 false ∷ failed true ∷ [])
    ≡ record { emitted = (1, b'p' ∷ []) ∷ []; closed = 2 ∷ []; surfaced = false; ended = true }
unfolding serve_listener
one_taken = refl

new_explicit-Binds_example : Binds [] (new_explicit listen_test (pay ∷ mail ∷ []))
new_explicit-Binds_example = new_explicit-Binds listen_test (pay ∷ mail ∷ [])
