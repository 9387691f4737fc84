-- ===== src/Intercept/Explicit/Listeners.antt =====
-- Which listeners NewExplicit leaves open.
use mathlib.Core.List.{append-nil, append_assoc}
use outrelay_agent.Base.{
  ℕ, ◌≡◌, refl, sym, ap, ◌∙◌, Option, Option-cases, inl, inr, ok, err, List, [], ◌∷◌, ◌++◌, Text,
  map,
}
use outrelay_agent.Base.Usage.{Use, opened, shut}
use outrelay_agent.Intercept.Explicit.{
  Mapping, Bound, Listening, one_listener, listen_loop, new_explicit,
}

abbrev pub opens : List Bound → List (Use ℕ)
opens bs = map (λ (b : Bound). opened b.0) bs

abbrev pub shuts : List Bound → List (Use ℕ)
shuts bs = map (λ (b : Bound). shut b.0) bs

-- On success the listeners are those that are opened, and none is closed; with an error each one
-- that is opened is closed behind them.
abbrev pub Binds : List Bound → Listening → Type 0
Binds bound (ok bs, uses) = (more : List Bound) × (bs ≡ bound ++ more) × (uses ≡ opens more)
Binds bound (err e, uses) = (more : List Bound) × (uses ≡ opens more ++ shuts (bound ++ more))

one_listener-Binds :
    (bound : List Bound) (b : Bound) (r : Listening)
    → Binds (bound ++ b ∷ []) r
    → Binds bound (r.0, opened b.0 ∷ r.1)
one_listener-Binds bound b (ok bs, uses) (more, same, trace) =
    (b ∷ more, same ∙ append_assoc bound (b ∷ []) more, ap (λ us. opened b.0 ∷ us) trace)
one_listener-Binds bound b (err e, uses) (more, trace) = (
  b ∷ more,
  ap (λ us. opened b.0 ∷ us)
      (trace ∙ ap (λ bs. opens more ++ shuts bs) (append_assoc bound (b ∷ []) more)),
)

module _ (listen : Text → Option ℕ) where
  listen_loop-Binds :
      (bound : List Bound) (mappings : List Mapping)
      → Binds bound (listen_loop listen bound mappings)
  unfolding listen_loop one_listener
  listen_loop-Binds bound [] = ([], sym (append-nil bound), refl)
  listen_loop-Binds bound (m ∷ mappings) = elim (Option-cases (listen m.bind_addr)) [
    | inl taken ↦ rw (taken, listen_loop) ([], ap shuts (sym (append-nil bound)))
    | inr (ln, free) ↦
        rw (free, listen_loop)
          (one_listener-Binds bound (ln, m.target_svc)
            (listen_loop listen (bound ++ (ln, m.target_svc) ∷ []) mappings)
            (listen_loop-Binds (bound ++ (ln, m.target_svc) ∷ []) mappings))
  ]

  -- Whichever addresses can be bound: NewExplicit returns the listeners that it opened, and closes
  -- none; or it returns an error and has closed each listener that it opened, in their order.
  pub new_explicit-Binds : (mappings : List Mapping) → Binds [] (new_explicit listen mappings)
  unfolding new_explicit
  new_explicit-Binds [] = ([], refl)
  new_explicit-Binds (m ∷ mappings) = listen_loop-Binds [] (m ∷ mappings)
