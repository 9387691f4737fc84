-- ===== src/Session/Registry/Live.antt =====
-- Which streams are live.
use outrelay_agent.Base.{
  Option, ℕ, ◌<◌, ◌≡◌, refl, inl, inr, ◌==◌, ==_iff, false, none, some, Option-cases, Bool-cases,
  List, [], ◌∷◌, nat_eq, arith,
}
use outrelay_agent.Base.Map.{lookup, delete, lookup-insert, lookup-delete, lookup-delete_self}
use outrelay_agent.Session.Wrapper.{Wrapper, wrap, mark_abandoned}
use outrelay_agent.Session.Registry.{
  Registry, no_streams, wrap_stream, abandon_wrapper, forget_stream, close, RegistryOp, wraps,
  forgets, closes, registry_step, registry_steps,
}
use outrelay_agent.Session.Registry.Store.{Kept, abandon-Kept, forget-Kept, forget_unlists}

-- A wrapper that is registered under an id has that id and is not abandoned, and the numbers of
-- wrappers to come are not in use.
pub record IsLive (s : Registry) : Type 0 where
  pub live :
      (id w : ℕ)
      → lookup id s.streams ≡ some w
      → (r : Wrapper) × (lookup w s.wrappers ≡ some (id, r)) × (r.abandoned ≡ false)
  pub fresh : (w : ℕ) (e : ℕ × Wrapper) → lookup w s.wrappers ≡ some e → w < s.next_wrapper

pub wrap-IsLive : (s : Registry) (id inner : ℕ) → IsLive s → IsLive (wrap_stream s id inner).0
unfolding wrap_stream wrap
wrap-IsLive s id inner v = record {
  live = λ i w e. elim (Bool-cases (id == i)) [
    | inl same ↦ (
      wrap inner,
      ground (
        arith,
        lookup-insert id i s.next_wrapper s.streams,
        same,
        e,
        ==_iff id i,
        lookup-insert s.next_wrapper w (id, wrap inner) s.wrappers,
      ),
      refl,
    )
    | inr other ↦
        let older : lookup i s.streams ≡ some w =
          ground (arith, lookup-insert id i s.next_wrapper s.streams, other, e) in
        let (r, at, up) = v.live i w older in
        (
          r,
          ground (
            arith,
            lookup-insert s.next_wrapper w (id, wrap inner) s.wrappers,
            ==_iff s.next_wrapper w,
            v.fresh w (i, r) at,
            at,
          ),
          up,
        )
  ];
  fresh = λ w e h. ground (
    arith,
    lookup-insert s.next_wrapper w (id, wrap inner) s.wrappers,
    ==_iff s.next_wrapper w,
    v.fresh w e,
  );
}

delete-IsLive :
    (s : Registry) (id : ℕ) → IsLive s → IsLive (record s { streams = delete id s.streams })
delete-IsLive s id v = record {
  live = λ i w e. v.live i w (ground (arith, lookup-delete id i s.streams, ==_iff id i, e));
  fresh = v.fresh;
}

-- A wrapper whose id is not registered may be abandoned.
abandon-IsLive :
    (s : Registry) (w id : ℕ) (r : Wrapper)
    → IsLive s
    → lookup w s.wrappers ≡ some (id, r)
    → lookup id s.streams ≡ none
    → IsLive (abandon_wrapper s w)
unfolding abandon_wrapper
abandon-IsLive s w id r v stored gone =
    rw (stored, abandon_wrapper)
      (record {
        live = λ i x e.
            let (q, at, open') = v.live i x e in
            (
              q,
              ground (
                arith,
                lookup-insert w x (id, mark_abandoned r) s.wrappers,
                ==_iff w x,
                at,
                stored,
                gone,
                e,
              ),
              open',
            );
        fresh = λ x e h. ground (
          arith,
          lookup-insert w x (id, mark_abandoned r) s.wrappers,
          ==_iff w x,
          v.fresh x e,
          v.fresh w (id, r) stored,
        );
      })

pub forget-IsLive : (s : Registry) (id : ℕ) → IsLive s → IsLive (forget_stream s id)
unfolding forget_stream
forget-IsLive s id v = elim (Option-cases (lookup id s.streams)) [
  | inl absent ↦ rw (absent, forget_stream) v
  | inr (w, known) ↦
      let (r, stored, up) = v.live id w known in
      rw (known, forget_stream)
        (abandon-IsLive (record s { streams = delete id s.streams }) w id r (delete-IsLive s id v)
          stored (lookup-delete_self id s.streams))
]

pub close-IsLive : (s : Registry) (w : ℕ) → IsLive s → IsLive (close s w).0
unfolding close
close-IsLive s w v = elim (Option-cases (lookup w s.wrappers)) [
  | inl absent ↦ rw (absent, close) v
  | inr ((id, r), stored) ↦
      let (q, kept, inner) = forget-Kept s id w id r.inner (r, stored, refl) in
      rw (stored, close)
        (abandon-IsLive (forget_stream s id) w id q (forget-IsLive s id v) kept
          (forget_unlists s id))
]

step-IsLive : (s : Registry) (o : RegistryOp) → IsLive s → IsLive (registry_step s o)
unfolding registry_step
step-IsLive s (wraps id inner) v = wrap-IsLive s id inner v
step-IsLive s (forgets id) v = forget-IsLive s id v
step-IsLive s (closes w) v = close-IsLive s w v

pub steps-IsLive : (s : Registry) (os : List RegistryOp) → IsLive s → IsLive (registry_steps s os)
unfolding registry_steps
steps-IsLive s [] v = v
steps-IsLive s (o ∷ os) v = steps-IsLive (registry_step s o) os (step-IsLive s o v)

no_streams-IsLive : IsLive no_streams
unfolding no_streams lookup
no_streams-IsLive = record { live = λ id w e. cc; fresh = λ w e h. cc }

-- However streams are wrapped, forgotten and closed on a new session, also with one id for several
-- streams, each active stream is a wrapper of that id that is not abandoned.
pub registry_steps-IsLive : (os : List RegistryOp) → IsLive (registry_steps no_streams os)
registry_steps-IsLive os = steps-IsLive no_streams os no_streams-IsLive

pub close-Kept :
    (s : Registry) (x w id : ℕ) (n : Option ℕ) → Kept s w id n → Kept (close s x).0 w id n
unfolding close
close-Kept s x w id n k = elim (Option-cases (lookup x s.wrappers)) [
  | inl absent ↦ rw (absent, close) k
  | inr ((i, r), there) ↦
      rw (there, close) (abandon-Kept (forget_stream s i) x w id n (forget-Kept s i w id n k))
]

-- A wrapper of the store stays there with its inner stream, whatever happens to streams.
step-Kept :
    (s : Registry) (o : RegistryOp) (w id : ℕ) (n : Option ℕ)
    → IsLive s
    → Kept s w id n
    → Kept (registry_step s o) w id n
unfolding registry_step wrap_stream
step-Kept s (wraps i inner) w id n v (q, stored, same) = (
  q,
  ground (
    arith,
    lookup-insert s.next_wrapper w (i, wrap inner) s.wrappers,
    ==_iff s.next_wrapper w,
    v.fresh w (id, q) stored,
    stored,
  ),
  same,
)
step-Kept s (forgets i) w id n v k = forget-Kept s i w id n k
step-Kept s (closes x) w id n v k = close-Kept s x w id n k

pub steps-Kept :
    (s : Registry) (os : List RegistryOp) (w id : ℕ) (n : Option ℕ)
    → IsLive s
    → Kept s w id n
    → Kept (registry_steps s os) w id n
unfolding registry_steps
steps-Kept s [] w id n v k = k
steps-Kept s (o ∷ os) w id n v k =
    steps-Kept (registry_step s o) os w id n (step-IsLive s o v) (step-Kept s o w id n v k)
