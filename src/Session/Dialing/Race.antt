-- ===== src/Session/Dialing/Race.antt =====
-- The race of DialAnyHappy: what becomes of each connection.
use mathlib.Core.List.{append_assoc, append-nil}
use outrelay_agent.Base.{
  ℕ, ◌≡◌, refl, sym, ap, ◌∙◌, subst, inl, inr, List-cases, Option, none, some, Result, ok, err,
  List, [], ◌∷◌, ◌++◌,
}
use outrelay_agent.Session.Dialing.{
  DialError, no_addresses, all_failed, arrive, first_error, race, race_result, dial_any_happy,
}

-- The connections of the attempts that succeed.
pub connected : List (Result DialError ℕ) → List ℕ
connected [] = []
connected (ok c ∷ rs) = c ∷ connected rs
connected (err e ∷ rs) = connected rs

-- The error, if no attempt succeeds.
pub failure : List (Result DialError ℕ) → DialError
failure [] = no_addresses
failure (ok c ∷ rs) = no_addresses
failure (err e ∷ []) = e
failure (err e ∷ r ∷ rs) = all_failed e

-- A connection that is returned is the first of those that are made and the others are closed; an
-- error means that none is made.
abbrev pub Settles : List (Result DialError ℕ) → Result DialError ℕ × List ℕ → Type 0
Settles rs (ok c, shut) = connected rs ≡ c ∷ shut
Settles rs (err e, shut) = (connected rs ≡ []) × (shut ≡ []) × (e ≡ failure rs)

won :
    (c : ℕ) (first : Option DialError) (shut : List ℕ) (rs : List (Result DialError ℕ))
    → race_result (race (record { winner = some c; first_err = first; closed_conns = shut }) rs)
      ≡ (ok c, shut ++ connected rs)
unfolding race arrive connected race_result
won c first shut [] = ap (λ l. (ok c, l)) (sym (append-nil shut))
won c first shut (ok d ∷ rs) =
    won c first (shut ++ d ∷ []) rs
    ∙ ap (λ l. (ok c, l)) (append_assoc shut (d ∷ []) (connected rs))
won c first shut (err e ∷ rs) = won c (some (first_error first e)) shut rs

settled : DialError → List ℕ → Result DialError ℕ × List ℕ
settled e [] = (err (all_failed e), [])
settled e (c ∷ cs) = (ok c, cs)

race_failed :
    (e : DialError) (rs : List (Result DialError ℕ))
    → (race_result (race (record { winner = none; first_err = some e; closed_conns = [] }) rs)
        ≡ settled e (connected rs))
unfolding race arrive connected race_result settled first_error
race_failed e [] = refl
race_failed e (ok c ∷ rs) = won c (some e) [] rs
race_failed e (err d ∷ rs) = race_failed e rs

settled-Settles :
    (e : DialError) (r : Result DialError ℕ) (rs : List (Result DialError ℕ))
    → Settles (err e ∷ r ∷ rs) (settled e (connected (r ∷ rs)))
unfolding settled connected failure
settled-Settles e r rs = elim (List-cases (connected (r ∷ rs))) [
  | inl none_made ↦ rw none_made (none_made, refl, refl)
  | inr (c, cs, made) ↦ rw made made
]

-- Of the connections that the attempts of a race make, in whichever order they arrive, the first is
-- returned and exactly the others are closed; if the result is an error, no connection is made, and
-- the error is that of the first attempt to arrive, wrapped if there are several.
pub dial_any_happy-Settles : (rs : List (Result DialError ℕ)) → Settles rs (dial_any_happy rs)
unfolding dial_any_happy connected failure
dial_any_happy-Settles [] = (refl, refl, refl)
dial_any_happy-Settles (ok c ∷ []) = refl
dial_any_happy-Settles (err e ∷ []) = (refl, refl, refl)
dial_any_happy-Settles (ok c ∷ r ∷ rs) =
    subst (Settles (ok c ∷ r ∷ rs)) (sym (won c none [] (r ∷ rs))) refl
dial_any_happy-Settles (err e ∷ r ∷ rs) =
    subst (Settles (err e ∷ r ∷ rs)) (sym (race_failed e (r ∷ rs))) (settled-Settles e r rs)
