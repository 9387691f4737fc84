-- ===== src/Session/Resume/Direct/Settled.antt =====
-- What becomes of all the direct streams of a session.
use outrelay_agent.Base.{
  ℕ, ◌≡◌, refl, ap, ◌∙◌, Bool-cases, inl, inr, if◌then◌else◌, some, List, [], ◌∷◌, ◌++◌,
}
use outrelay_agent.Session.Wrapper.{Wrapper, swap_inner, Op, swap, step, steps}
use outrelay_agent.Session.Resume.{Streams, handle_direct_stream}
use outrelay_agent.Session.Resume.Direct.{DirectStream, Ring, place, accept_direct_streams}
use outrelay_agent.Session.Resume.Direct.Placed.{Rings, ring_of, is_taken, names, handled-Effect}

-- The changes of one wrapper, and the streams that are closed, as the rings alone decide them.
pub joins : Rings → ℕ → List DirectStream → List Op
joins rings id [] = []
joins rings id (a ∷ more) =
    let rest = joins rings id more in
    if is_taken rings a then (if names id a.reply then swap a.stream ∷ rest else rest) else rest

pub refused : Rings → List DirectStream → List ℕ
refused rings [] = []
refused rings (a ∷ more) = (if is_taken rings a then [] else a.stream ∷ []) ++ refused rings more

joined_first :
    (rings : Rings) (id : ℕ) (a : DirectStream) (more : List DirectStream) (r : Wrapper)
    → steps
        (if is_taken rings a then (if names id a.reply then swap_inner r a.stream else r) else r)
        (joins rings id more)
      ≡ steps r (joins rings id (a ∷ more))
unfolding joins steps step
joined_first rings id a more r = elim (Bool-cases (is_taken rings a)) [
  | inl taken ↦ elim (Bool-cases (names id a.reply)) [
    | inl named ↦ rw (taken, named) refl
    | inr else_ ↦ rw (taken, else_) refl
  ]
  | inr untaken ↦ rw untaken refl
]

accepted-joins :
    (rings : Rings) (arrivals : List DirectStream) (streams : Streams) (id : ℕ) (r : Wrapper)
    (from : Ring)
    → ((j : ℕ) → ring_of (streams j) ≡ rings j)
    → streams id ≡ some (r, from)
    → (accept_direct_streams streams arrivals).0 id ≡ some (steps r (joins rings id arrivals), from)
unfolding accept_direct_streams joins steps
accepted-joins rings [] streams id r from agree known = known
accepted-joins rings (a ∷ more) streams id r from agree known =
    let out = handle_direct_stream streams a.stream a.reply a.writes in
    let effect = handled-Effect rings streams agree a.stream a.reply a.writes in
    accepted-joins rings more (place streams a.reply out.0) id _ from effect.keeps
      (effect.swaps id r from known)
    ∙ ap (λ w. some (w, from)) (joined_first rings id a more r)

accepted-refused :
    (rings : Rings) (arrivals : List DirectStream) (streams : Streams)
    → ((j : ℕ) → ring_of (streams j) ≡ rings j)
    → (accept_direct_streams streams arrivals).1 ≡ refused rings arrivals
unfolding accept_direct_streams refused
accepted-refused rings [] streams agree = refl
accepted-refused rings (a ∷ more) streams agree =
    let out = handle_direct_stream streams a.stream a.reply a.writes in
    let effect = handled-Effect rings streams agree a.stream a.reply a.writes in
    ap (λ l. l ++ (accept_direct_streams (place streams a.reply out.0) more).1) effect.closes
    ∙ ap (λ l. (if is_taken rings a then [] else a.stream ∷ []) ++ l)
        (accepted-refused rings more (place streams a.reply out.0) effect.keeps)

-- While the resume states of the session's streams stay as they are, and no stream is added or
-- forgotten: in whatever order the direct streams are handled, and whatever comes first on each: the wrapper
-- of a known stream is changed by just those, in their order, whose first frame is a STREAM_RESUME
-- for it that its ring can answer, and every stream that is not swapped into the wrapper that it
-- names is closed. Whether one is swapped in does not depend on those before it.
pub accept_direct-Settles :
    (arrivals : List DirectStream) (streams : Streams) (id : ℕ) (r : Wrapper) (from : Ring)
    → streams id ≡ some (r, from)
    → let rings : Rings = λ j. ring_of (streams j) in
      ((accept_direct_streams streams arrivals).0 id
        ≡ some (steps r (joins rings id arrivals), from))
      × ((accept_direct_streams streams arrivals).1 ≡ refused rings arrivals)
accept_direct-Settles arrivals streams id r from known = (
  accepted-joins (λ j. ring_of (streams j)) arrivals streams id r from (λ j. refl) known,
  accepted-refused (λ j. ring_of (streams j)) arrivals streams (λ j. refl),
)
