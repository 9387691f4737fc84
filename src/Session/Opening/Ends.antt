-- ===== src/Session/Opening/Ends.antt =====
-- The ends of Session.Dial.
use outrelay_agent.Base.{
  ℕ, ◌≡◌, refl, subst, Bool, true, false, Option, none, some, Option-cases, inl, inr, ok, err, List,
  [], ◌∷◌, Text, arith, nat_eq,
}
use outrelay_agent.Base.Usage.{opened, shut}
use outrelay_agent.Session.Registry.{wrap_stream}
use outrelay_agent.Session.Incoming.{StreamState}
use outrelay_agent.Session.Opening.{Opened, OpenError, fresh_stream_id, dial_stream, open_as}

-- What a call that ends has opened, closed and registered.
pub data Opens (s : StreamState) (o : Opened) : Type 0 where
  unopened :
      (e : OpenError) → o.result ≡ err e → o.state.registry ≡ s.registry → o.uses ≡ [] → Opens s o
  unsent :
      (e : OpenError) (st : ℕ)
      → o.result ≡ err e
      → o.state.registry ≡ s.registry
      → o.uses ≡ opened st ∷ shut st ∷ []
      → Opens s o
  sent :
      (st id : ℕ)
      → o.result ≡ ok (s.registry.next_wrapper, id)
      → o.state.registry ≡ (wrap_stream s.registry id st).0
      → o.uses ≡ opened st ∷ []
      → Opens s o

open_as-Opens :
    (s : StreamState) (target method : Text) (st id : ℕ) (writes : Bool)
    → Opens s (open_as s target method st id writes)
unfolding open_as
open_as-Opens s target method st id true = sent st id refl refl refl
open_as-Opens s target method st id false = unsent OpenError.send_open st refl refl refl

pub dial_stream-Opens :
    (s : StreamState) (target method : Text) (st : Option ℕ) (ids : List ℕ) (writes : Bool)
    (o : Opened)
    → dial_stream s target method st ids writes ≡ some o
    → Opens s o
unfolding dial_stream
dial_stream-Opens s target method none ids writes o e =
    unopened OpenError.no_stream (ground arith) (ground arith) (ground arith)
dial_stream-Opens s target method (some st) ids writes o e =
    elim (Option-cases (fresh_stream_id ids s.registry.streams)) [
      | inl none_yet ↦ absurd (ground (arith, none_yet))
      | inr (id, found) ↦
          let same : open_as s target method st id writes ≡ o = ground (arith, found) in
          subst (Opens s) same (open_as-Opens s target method st id writes)
    ]
