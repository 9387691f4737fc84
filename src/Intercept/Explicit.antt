-- ===== src/Intercept/Explicit.antt =====
-- pkg/intercept/explicit.go: NewExplicit and the accept loop of one listener. Listeners and
-- connections are numbers; what Listen and Accept return is given.
pub mod Listeners
mod Tests
use outrelay_agent.Base.{
  ℕ, Bool, true, false, if◌then◌else◌, Option, none, some, Result, ok, err, List, [], ◌∷◌, ◌++◌,
  Text, map,
}
use outrelay_agent.Base.Usage.{Use, opened, shut}

pub record Mapping : Type 0 where
  pub bind_addr : Text
  pub target_svc : Text

pub data ListenError : Type 0 where
  no_mappings : ListenError
  listen_failed : Text → ListenError

-- A listener with the service that its loop serves.
abbrev pub Bound : Type 0
Bound = ℕ × Text

abbrev pub Listening : Type 0
Listening = Result ListenError (List Bound) × List (Use ℕ)

module _ (listen : Text → Option ℕ) where
  one_listener : ℕ → Listening → Listening
  one_listener ln r = (r.0, opened ln ∷ r.1)

  listen_loop : List Bound → List Mapping → Listening
  unfolding one_listener
  listen_loop bound [] = (ok bound, [])
  listen_loop bound (m ∷ mappings) = elim (listen m.bind_addr) [
    | none ↦ (err (listen_failed m.bind_addr), map (λ (b : Bound). shut b.0) bound)
    | some ln ↦ one_listener ln (listen_loop (bound ++ (ln, m.target_svc) ∷ []) mappings)
  ]

  unfoldable pub new_explicit : List Mapping → Listening
  unfolding listen_loop
  new_explicit [] = (err no_mappings, [])
  new_explicit (m ∷ mappings) = listen_loop [] (m ∷ mappings)

-- What Accept returns: an error, and whether the interceptor is closed by then; or a connection,
-- and whether the agent takes it before the interceptor is closed.
pub data Arrival : Type 0 where
  failed : (closed : Bool) → Arrival
  conn : (c : ℕ) → (taken : Bool) → Arrival

-- `surfaced`: the loop has offered its error to Accept.
pub record ListenerRun : Type 0 where
  pub emitted : List (ℕ × Text)
  pub closed : List ℕ
  pub surfaced : Bool
  pub ended : Bool

-- The list ends where Accept of the listener waits.
unfoldable pub serve_listener : Text → List Arrival → ListenerRun
serve_listener svc [] = record { emitted = []; closed = []; surfaced = false; ended = false }
serve_listener svc (failed is_closed ∷ more) = record {
  emitted = [];
  closed = [];
  surfaced = if is_closed then false else true;
  ended = true;
}
serve_listener svc (conn c taken ∷ more) =
    let rest = serve_listener svc more in
    if taken
    then record rest { emitted = (c, svc) ∷ rest.emitted }
    else record { emitted = []; closed = c ∷ []; surfaced = false; ended = true }

-- Close, on whether it has been called and on the listeners; a second call does nothing. The
-- transparent proxy's Close is the same on one listener.
unfoldable pub close_once : Bool → List ℕ → Bool × List (Use ℕ)
close_once is_closed listeners =
    (true, (if is_closed then [] else map (λ (ln : ℕ). shut ln) listeners))
