-- ===== src/Candidate/Sorting/Kept.antt =====
-- What holds of every candidate holds of every candidate that Sort returns.
use mathlib.Core.List.{append-nil}
use outrelay_agent.Base.{Bool-cases, inl, inr, ltb, List, [], ◌∷◌, reverse, All, ◌∙◌}
use outrelay_agent.Candidate.{Candidate, sink, sort_loop, sort}
use outrelay_agent.Candidate.Sorting.{unwind, unwind-reverse, sink_stop, sink_swap}

module _ (P : Candidate → Type 0) where
  unwind-All : (front back : List Candidate) → All P front → All P back → All P (unwind front back)
  unfolding unwind
  unwind-All [] back f b = b
  unwind-All (d ∷ front) back f b = unwind-All front (d ∷ back) f.1 (f.0, b)

  reverse-All : (xs : List Candidate) → All P xs → All P (reverse xs)
  reverse-All xs h = rw (unwind-reverse xs [] ∙ append-nil (reverse xs)) at (unwind-All xs [] h tt)

  sink-All :
      (c : Candidate) (front back : List Candidate)
      → P c
      → All P front
      → All P back
      → All P (sink c front back)
  sink-All c [] back p f b = unfold sink in (p, b)
  sink-All c (d ∷ front) back p f b = elim (Bool-cases (ltb d.priority c.priority)) [
    | inl less ↦ rw (sink_swap c d front back less) (sink-All c front (d ∷ back) p f.1 (f.0, b))
    | inr stop ↦
        rw (sink_stop c d front back stop) (unwind-All front (d ∷ c ∷ back) f.1 (f.0, (p, b)))
  ]

  sort_loop-All :
      (done rest : List Candidate) → All P done → All P rest → All P (sort_loop done rest)
  unfolding sort_loop
  sort_loop-All done [] d r = d
  sort_loop-All done (c ∷ rest) d r =
      sort_loop-All (sink c (reverse done) []) rest
        (sink-All c (reverse done) [] r.0 (reverse-All done d) tt) r.1

  pub sort-All : (cs : List Candidate) → All P cs → All P (sort cs)
  unfolding sort
  sort-All cs h = sort_loop-All [] cs tt h
