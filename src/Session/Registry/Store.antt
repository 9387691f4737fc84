-- ===== src/Session/Registry/Store.antt =====
-- What the operations leave in the store of wrappers and in the map of streams.
use outrelay_agent.Base.{
  Option, ℕ, ◌≡◌, ◌≢◌, refl, ap, ◌∙◌, subst, inl, inr, ◌==◌, ==_iff, none, some, Option-cases,
  Bool-cases, nat_eq, arith,
}
use outrelay_agent.Base.Map.{lookup, delete, lookup-insert, lookup-insert_self, lookup-delete_self}
use outrelay_agent.Session.Wrapper.{Wrapper, mark_abandoned}
use outrelay_agent.Session.Registry.{Registry, abandon_wrapper, forget_stream}

pub abandon_self :
    (s : Registry) (w id : ℕ) (r : Wrapper)
    → lookup w s.wrappers ≡ some (id, r)
    → lookup w (abandon_wrapper s w).wrappers ≡ some (id, mark_abandoned r)
unfolding abandon_wrapper
abandon_self s w id r stored =
    rw (stored, abandon_wrapper) (lookup-insert_self w (id, mark_abandoned r) s.wrappers)

pub abandon_other :
    (s : Registry) (w x : ℕ) → w ≢ x → lookup x (abandon_wrapper s w).wrappers ≡ lookup x s.wrappers
unfolding abandon_wrapper
abandon_other s w x other = elim (Option-cases (lookup w s.wrappers)) [
  | inl absent ↦ rw (absent, abandon_wrapper) refl
  | inr ((i, q), there) ↦
      rw (there, abandon_wrapper)
        (ground (arith, lookup-insert w x (i, mark_abandoned q) s.wrappers, ==_iff w x, other))
]

pub abandon_streams : (s : Registry) (w : ℕ) → (abandon_wrapper s w).streams ≡ s.streams
unfolding abandon_wrapper
abandon_streams s w = elim (Option-cases (lookup w s.wrappers)) [
  | inl absent ↦ rw (absent, abandon_wrapper) refl
  | inr ((i, q), there) ↦ rw (there, abandon_wrapper) refl
]

-- The wrapper stands in the store under its id, with a given inner stream.
abbrev pub Kept : Registry → ℕ → ℕ → Option ℕ → Type 0
Kept s w id n = (q : Wrapper) × (lookup w s.wrappers ≡ some (id, q)) × (q.inner ≡ n)

mark_abandoned_inner : (r : Wrapper) → (mark_abandoned r).inner ≡ r.inner
unfolding mark_abandoned
mark_abandoned_inner r = ground arith

pub abandon-Kept :
    (s : Registry) (w x id : ℕ) (n : Option ℕ) → Kept s x id n → Kept (abandon_wrapper s w) x id n
abandon-Kept s w x id n (r, stored, inner) = elim (Bool-cases (w == x)) [
  | inl same ↦
      let e : w ≡ x = ground (arith, same, ==_iff w x) in
      subst (λ y. Kept (abandon_wrapper s w) y id n) e
        (
          mark_abandoned r,
          abandon_self s w id r (ground (arith, e, stored)),
          mark_abandoned_inner r ∙ inner,
        )
  | inr other ↦ (r, abandon_other s w x (ground (arith, other, ==_iff w x)) ∙ stored, inner)
]

pub forget-Kept :
    (s : Registry) (i x id : ℕ) (n : Option ℕ) → Kept s x id n → Kept (forget_stream s i) x id n
unfolding forget_stream
forget-Kept s i x id n k = elim (Option-cases (lookup i s.streams)) [
  | inl absent ↦ rw (absent, forget_stream) k
  | inr (w, known) ↦
      rw (known, forget_stream)
        (abandon-Kept (record s { streams = delete i s.streams }) w x id n k)
]

pub forget_unlists : (s : Registry) (id : ℕ) → lookup id (forget_stream s id).streams ≡ none
unfolding forget_stream
forget_unlists s id = elim (Option-cases (lookup id s.streams)) [
  | inl absent ↦ rw (absent, forget_stream) absent
  | inr (w, known) ↦
      let t : Registry = record s { streams = delete id s.streams } in
      rw (known, forget_stream)
        (ap (lookup id) (abandon_streams t w) ∙ lookup-delete_self id s.streams)
]
