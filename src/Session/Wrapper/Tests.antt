-- ===== src/Session/Wrapper/Tests.antt =====
-- A stream that is resumed twice and closed.
use outrelay_agent.Base.{ℕ, ◌≡◌, ◌≢◌, refl, true, some, List, [], ◌∷◌, ◌++◌}
use outrelay_agent.Session.Wrapper.{
  wrap, mark_abandoned, swap_inner, Op, swap, abandon, step, steps,
}
use outrelay_agent.Session.Wrapper.Channels.{
  IsSound, steps-wrap-IsSound, abandon_is_final, step_wakes,
}

abbrev ops : List Op
ops = swap 11 ∷ swap 12 ∷ abandon ∷ abandon ∷ []

closed_chans : (steps (wrap 10) ops).closed ≡ 2 ∷ 1 ∷ 0 ∷ []
unfolding steps step swap_inner mark_abandoned wrap
closed_chans = refl

applied_steps-wrap-IsSound : IsSound (steps (wrap 10) ops)
applied_steps-wrap-IsSound = steps-wrap-IsSound 10 ops

applied_abandon_is_final :
    (steps (wrap 10) ((swap 11 ∷ []) ++ abandon ∷ swap 12 ∷ [])).abandoned ≡ true
applied_abandon_is_final = abandon_is_final (wrap 10) (swap 11 ∷ []) (swap 12 ∷ [])

applied_step_wakes :
    ((step (wrap 10) abandon).closed ≡ 0 ∷ [])
    × ((step (wrap 10) (swap 11)).closed ≡ 0 ∷ [])
    × ((step (wrap 10) (swap 11)).inner ≡ some 11)
    × ((step (wrap 10) (swap 11)).ready ≡ some 1)
    × ◌≢◌ {A = ℕ} 1 0
    × ((step (wrap 10) (swap 11)).cancelled ≡ 10 ∷ [])
unfolding wrap steps
applied_step_wakes = step_wakes (wrap 10) 0 10 11 (steps-wrap-IsSound 10 []) refl refl refl
