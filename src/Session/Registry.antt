-- ===== src/Session/Registry.antt =====
-- pkg/session/session.go: the map of a session's active streams, with the wrappers that it refers
-- to. A wrapper is a number; `wrappers` is the store of all that were made, with their ids.
pub mod Store
pub mod Live
pub mod Closing
mod Tests
use outrelay_agent.Base.{ℕ, suc, Option, none, some, List, [], ◌∷◌, map, nat_eq}
use outrelay_agent.Base.Map.{Map, lookup, insert, delete}
use outrelay_agent.Session.Wrapper.{Wrapper, wrap, mark_abandoned}

pub record Registry : Type 0 where
  pub streams : Map ℕ ℕ
  pub wrappers : Map ℕ (ℕ × Wrapper)
  pub next_wrapper : ℕ

unfoldable pub no_streams : Registry
no_streams = record { streams = []; wrappers = []; next_wrapper = 0 }

-- A wrapper that is registered under the id is replaced.
unfoldable pub wrap_stream : Registry → ℕ → ℕ → Registry × ℕ
wrap_stream s id inner = (
  record {
    streams = insert id s.next_wrapper s.streams;
    wrappers = insert s.next_wrapper (id, wrap inner) s.wrappers;
    next_wrapper = suc s.next_wrapper;
  },
  s.next_wrapper,
)

-- markAbandoned on a wrapper of the store.
unfoldable pub abandon_wrapper : Registry → ℕ → Registry
abandon_wrapper s w = elim (lookup w s.wrappers) [
  | none ↦ s
  | some (id, r) ↦ record s { wrappers = insert w (id, mark_abandoned r) s.wrappers }
]

unfoldable pub forget_stream : Registry → ℕ → Registry
forget_stream s id = elim (lookup id s.streams) [
  | none ↦ s
  | some w ↦ abandon_wrapper (record s { streams = delete id s.streams }) w
]

-- Close of a wrapper with an owner, and the inner stream that it closes.
unfoldable pub close : Registry → ℕ → Registry × Option ℕ
close s w = elim (lookup w s.wrappers) [
  | none ↦ (s, none)
  | some (id, r) ↦ (abandon_wrapper (forget_stream s id) w, r.inner)
]

unfoldable pub active_streams : Registry → List ℕ
active_streams s = map (λ e. e.1) s.streams

pub data RegistryOp : Type 0 where
  wraps : ℕ → ℕ → RegistryOp
  forgets closes : ℕ → RegistryOp

unfoldable pub registry_step : Registry → RegistryOp → Registry
registry_step s (wraps id inner) = (wrap_stream s id inner).0
registry_step s (forgets id) = forget_stream s id
registry_step s (closes w) = (close s w).0

unfoldable pub registry_steps : Registry → List RegistryOp → Registry
registry_steps s [] = s
registry_steps s (o ∷ os) = registry_steps (registry_step s o) os
