-- ===== src/Base/Usage.antt =====
-- Resources that are opened and closed: a trace of uses, and what it leaves open.
use mathlib.Core.Option.{Option, none, some}
use mathlib.Core.List.{List, [], ◌∷◌}
use outrelay_agent.Base.Tests.{if◌then◌else◌}
use outrelay_agent.Base.Equality.{Eq}

pub data Use {ℓ} (R : Type ℓ) : Type ℓ where
  opened shut : R → Use R

module _ {ℓ} {R : Type ℓ} ⦃e : Eq R⦄ where
  -- `none`: it is not in the list.
  unfoldable pub remove : R → List R → Option (List R)
  remove r [] = none
  remove r (s ∷ rs) =
      let rest : Option (List R) = elim (remove r rs) [
        | none ↦ none
        | some left ↦ some (s ∷ left)
      ] in
      if e.beq r s then some rs else rest

  -- What is open after a trace that starts with `open_now` open; `none` if the trace closes
  -- something that is not open.
  unfoldable pub held : List R → List (Use R) → Option (List R)
  unfolding remove
  held open_now [] = some open_now
  held open_now (opened r ∷ uses) = held (r ∷ open_now) uses
  held open_now (shut r ∷ uses) = elim (remove r open_now) [
    | none ↦ none
    | some left ↦ held left uses
  ]

  -- What is left open; a second close of something does not matter.
  unfoldable pub left_open : List R → List (Use R) → List R
  unfolding remove
  left_open open_now [] = open_now
  left_open open_now (opened r ∷ uses) = left_open (r ∷ open_now) uses
  left_open open_now (shut r ∷ uses) = elim (remove r open_now) [
    | none ↦ left_open open_now uses
    | some left ↦ left_open left uses
  ]
