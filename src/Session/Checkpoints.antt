-- ===== src/Session/Checkpoints.antt =====
-- pkg/session/checkpoints.go: emitOnce. The counters of a stream's resume state are given, by its
-- wrapper, and so is whether a frame can be written.
pub mod Emission
mod Tests
use outrelay_agent.Base.{
  ℕ, ◌%◌, ◌^◌, Bool, true, false, if◌then◌else◌, Option, none, some, List, [], ◌∷◌, nat_eq,
}
use outrelay_agent.Base.Map.{lookup}
use outrelay_agent.Orp.{Positions}
use outrelay_agent.Session.Wrapper.{Wrapper}
use outrelay_agent.Session.Registry.{Registry, active_streams}

-- The bytes that are sent and received.
pub record Counters : Type 0 where
  pub sent : ℕ
  pub received : ℕ

unfoldable pub checkpoint : ℕ → Counters → Positions
checkpoint id c = record {
  stream_id = id;
  my_position = c.sent % 2 ^ 64;
  peer_ack_position = c.received % 2 ^ 64;
}

-- The checkpoints of the wrappers that are listed.
unfoldable pub checkpoints : (ℕ → Counters) → Registry → List ℕ → List Positions
unfolding checkpoint
checkpoints counters s [] = []
checkpoints counters s (w ∷ ws) =
    let rest = checkpoints counters s ws in
    elim (lookup w s.wrappers) [ none ↦ rest | some (id, r) ↦ checkpoint id (counters w) ∷ rest ]

-- The frames that are written, up to the first that cannot be.
unfoldable pub emit : (Positions → Bool) → List Positions → List Positions
emit writes [] = []
emit writes (cp ∷ cps) = let rest = emit writes cps in if writes cp then cp ∷ rest else []

unfoldable pub emit_once : (ℕ → Counters) → (Positions → Bool) → Registry → List Positions
unfolding emit checkpoints
emit_once counters writes s = emit writes (checkpoints counters s (active_streams s))
