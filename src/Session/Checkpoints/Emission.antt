-- ===== src/Session/Checkpoints/Emission.antt =====
-- Which checkpoints a tick writes.
use outrelay_agent.Base.{
  ℕ, ◌≡◌, refl, sym, ap, subst, Bool, true, inl, inr, some, Option-cases, List, [], ◌∷◌, nat_eq,
}
use mathlib.Core.List.{Memᴰ}
use outrelay_agent.Base.Map.{lookup}
use outrelay_agent.Orp.{Positions}
use outrelay_agent.Session.Wrapper.{Wrapper}
use outrelay_agent.Session.Registry.{Registry, active_streams}
use outrelay_agent.Session.Registry.Live.{IsLive}
use outrelay_agent.Session.Reconnect.Streams.{active-Mem}
use outrelay_agent.Session.Checkpoints.{Counters, checkpoint, checkpoints, emit, emit_once}

listed :
    (counters : ℕ → Counters) (s : Registry) (ws : List ℕ) (w id : ℕ) (r : Wrapper)
    → lookup w s.wrappers ≡ some (id, r)
    → Memᴰ w ws
    → Memᴰ (checkpoint id (counters w)) (checkpoints counters s ws)
unfolding checkpoints
listed counters s [] w id r stored m = elim m [ ]
listed counters s (x ∷ ws) w id r stored (Memᴰ.head e) =
    let there : lookup x s.wrappers ≡ some (id, r) =
      subst (λ y. lookup y s.wrappers ≡ some (id, r)) e stored in
    rw (there, checkpoints) (Memᴰ.head (ap (λ y. checkpoint id (counters y)) e))
listed counters s (x ∷ ws) w id r stored (Memᴰ.tail m) = elim (Option-cases (lookup x s.wrappers)) [
  | inl absent ↦ rw (absent, checkpoints) (listed counters s ws w id r stored m)
  | inr ((i, q), there) ↦ rw (there, checkpoints) (Memᴰ.tail (listed counters s ws w id r stored m))
]

emit_all :
    (writes : Positions → Bool) (cps : List Positions)
    → ((cp : Positions) → writes cp ≡ true)
    → emit writes cps ≡ cps
unfolding emit
emit_all writes [] fine = refl
emit_all writes (cp ∷ cps) fine = rw (fine cp) (ap (λ rest. cp ∷ rest) (emit_all writes cps fine))

-- While the control stream can be written, a tick writes, for each active stream, a checkpoint with
-- its id and the counters of its wrapper.
pub emit_once-Mem :
    (counters : ℕ → Counters) (writes : Positions → Bool) (s : Registry) (id w : ℕ)
    → IsLive s
    → ((cp : Positions) → writes cp ≡ true)
    → lookup id s.streams ≡ some w
    → Memᴰ (checkpoint id (counters w)) (emit_once counters writes s)
unfolding emit_once active_streams
emit_once-Mem counters writes s id w v fine active =
    let (r, stored, up) = v.live id w active in
    subst (Memᴰ (checkpoint id (counters w)))
      (sym (emit_all writes (checkpoints counters s (active_streams s)) fine))
      (listed counters s (active_streams s) w id r stored (active-Mem id w s.streams active))
