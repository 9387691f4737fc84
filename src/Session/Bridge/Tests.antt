-- ===== src/Session/Bridge/Tests.antt =====
-- A request of three bytes in two reads.
use outrelay_agent.Base.{◌≡◌, refl, true, false, none, some, List, [], ◌∷◌}
use outrelay_agent.Session.Bridge.{
  Round, copy_and_done, left, right, bridge, closed_all, copy_then_close,
}
use outrelay_agent.Session.Bridge.Copies.{has_end, source_bytes, Copies, copy_and_done-Copies}

abbrev request : List Round
request =
    record { bytes = 1 ∷ 2 ∷ []; ends = false; accepted = true }
    ∷ record { bytes = []; ends = false; accepted = true }
    ∷ record { bytes = 3 ∷ []; ends = true; accepted = true }
    ∷ []

copied_request :
    copy_and_done true request
    ≡ record { chunks = (1 ∷ 2 ∷ []) ∷ (3 ∷ []) ∷ []; half_closed = true; done = true }
unfolding copy_and_done
copied_request = refl

one_direction : bridge (copy_and_done true request) (copy_and_done true []) ≡ none
unfolding copy_and_done bridge
one_direction = refl

both_directions :
    bridge (copy_and_done true request) (copy_and_done false request) ≡ some (left ∷ right ∷ [])
unfolding copy_and_done bridge
both_directions = refl

no_half_close : copy_then_close true false ≡ some closed_all
unfolding copy_then_close
no_half_close = refl

copy_and_done-Copies_example :
    Copies true (has_end request) (source_bytes request) (copy_and_done true request)
copy_and_done-Copies_example = copy_and_done-Copies true request
