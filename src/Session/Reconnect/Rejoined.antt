-- ===== src/Session/Reconnect/Rejoined.antt =====
-- What becomes of one wrapper behind Resume on a new connection.
use outrelay_agent.Base.{
  ℕ, ◌≡◌, ◌≢◌, refl, ap, ◌∙◌, subst, inl, inr, ◌==◌, ==_iff, Bool-cases, Option, none, some,
  Option-cases, nat_eq, arith,
}
use outrelay_agent.Base.Map.{lookup-insert_self, delete, lookup, lookup-insert, lookup-delete}
use outrelay_agent.Session.Wrapper.{Wrapper, swap_inner}
use outrelay_agent.Session.Registry.{Registry, forget_stream}
use outrelay_agent.Session.Registry.Store.{Kept, forget-Kept, forget_unlists, abandon_streams}
use outrelay_agent.Session.Registry.Live.{IsLive, forget-IsLive}
use outrelay_agent.Session.Resume.{Resumed}
use outrelay_agent.Session.Resume.Gap.{Placed}
use outrelay_agent.Session.Reconnect.{set_wrapper, rejoined}

swap_inner_inner : (r : Wrapper) (st : ℕ) → (swap_inner r st).inner ≡ some st
unfolding swap_inner
swap_inner_inner r st = refl

swap_inner_abandoned : (r : Wrapper) (st : ℕ) → (swap_inner r st).abandoned ≡ r.abandoned
unfolding swap_inner
swap_inner_abandoned r st = refl

-- A wrapper of the store may be replaced by one that is abandoned only if it is.
set-IsLive :
    (s : Registry) (w id : ℕ) (r t : Wrapper)
    → IsLive s
    → lookup w s.wrappers ≡ some (id, r)
    → t.abandoned ≡ r.abandoned
    → IsLive (set_wrapper s w id t)
unfolding set_wrapper
set-IsLive s w id r t v stored same = record {
  live = λ i x e.
      let (q, at, up) = v.live i x e in
      elim (Bool-cases (w == x)) [
        | inl this ↦ (
          t,
          ground (arith, lookup-insert w x (id, t) s.wrappers, this, ==_iff w x, at, stored),
          ground (arith, this, ==_iff w x, at, stored, up, same),
        )
        | inr other ↦ (q, ground (arith, lookup-insert w x (id, t) s.wrappers, other, at), up)
      ];
  fresh = λ x e h. ground (
    arith,
    lookup-insert w x (id, t) s.wrappers,
    ==_iff w x,
    v.fresh x e,
    v.fresh w (id, r) stored,
  );
}

-- No id is listed but with the wrapper that it had.
abbrev pub Fewer : Registry → Registry → Type 0
Fewer t s = (id w : ℕ) → lookup id t.streams ≡ some w → lookup id s.streams ≡ some w

forget-Fewer : (s : Registry) (id : ℕ) → Fewer (forget_stream s id) s
unfolding forget_stream
forget-Fewer s id i w e = elim (Option-cases (lookup id s.streams)) [
  | inl absent ↦ rw (absent, forget_stream) at e
  | inr (x, known) ↦
      let t : Registry = record s { streams = delete id s.streams } in
      let left : lookup i (delete id s.streams) ≡ some w =
        subst (λ m. lookup i m ≡ some w) (abandon_streams t x) (rw (known, forget_stream) at e) in
      ground (arith, left, lookup-delete id i s.streams)
]

pub forget_other :
    (s : Registry) (id i : ℕ) → i ≢ id → lookup i (forget_stream s id).streams ≡ lookup i s.streams
unfolding forget_stream
forget_other s id i other = elim (Option-cases (lookup id s.streams)) [
  | inl absent ↦ rw (absent, forget_stream) refl
  | inr (x, known) ↦
      let t : Registry = record s { streams = delete id s.streams } in
      rw (known, forget_stream)
        (ap (lookup i) (abandon_streams t x)
          ∙ ground (arith, other, lookup-delete id i s.streams, ==_iff id i))
]

-- A wrapper, if it is listed under an id, has a new inner stream.
abbrev pub Joined : Registry → ℕ → ℕ → Option ℕ → Type 0
Joined s id w link =
    lookup id s.streams ≡ some w → (st : ℕ) × (link ≡ some st) × Kept s w id (some st)

module _ (s : Registry) (w id : ℕ) (r : Wrapper) (link : Option ℕ) where
  pub rejoined-IsLive :
      (o : Resumed)
      → IsLive s
      → lookup w s.wrappers ≡ some (id, r)
      → Placed r link o
      → IsLive (rejoined s w id o)
  unfolding rejoined
  rejoined-IsLive (t, none, events) v stored (st, up, swapped) =
      set-IsLive s w id r t v stored
        (ap (λ (q : Wrapper). q.abandoned) swapped ∙ swap_inner_abandoned r st)
  rejoined-IsLive (t, some e, events) v stored (same, shut_last) =
      forget-IsLive (set_wrapper s w id t) id
        (set-IsLive s w id r t v stored (ap (λ (q : Wrapper). q.abandoned) same))

  pub rejoined-Fewer : (o : Resumed) → Fewer (rejoined s w id o) s
  unfolding rejoined set_wrapper
  rejoined-Fewer (t, none, events) i x e = e
  rejoined-Fewer (t, some e', events) i x e = forget-Fewer (set_wrapper s w id t) id i x e

  pub rejoined-Joined : (o : Resumed) → Placed r link o → Joined (rejoined s w id o) id w link
  unfolding rejoined set_wrapper
  rejoined-Joined (t, none, events) (st, up, swapped) listed = (
    st,
    up,
    (
      t,
      lookup-insert_self w (id, t) s.wrappers,
      ap (λ (q : Wrapper). q.inner) swapped ∙ swap_inner_inner r st,
    ),
  )
  rejoined-Joined (t, some e, events) placed listed =
      ground (arith, listed, forget_unlists (set_wrapper s w id t) id)

  set-Kept :
      (t : Wrapper) (x i : ℕ) (n : Option ℕ)
      → w ≢ x
      → Kept s x i n
      → Kept (set_wrapper s w id t) x i n
  unfolding set_wrapper
  set-Kept t x i n other (q, stored, inner) =
      (q, ground (arith, stored, other, lookup-insert w x (id, t) s.wrappers, ==_iff w x), inner)

  pub rejoined-Kept :
      (o : Resumed) (x i : ℕ) (n : Option ℕ) → w ≢ x → Kept s x i n → Kept (rejoined s w id o) x i n
  unfolding rejoined
  rejoined-Kept (t, none, events) x i n other k = set-Kept t x i n other k
  rejoined-Kept (t, some e, events) x i n other k =
      forget-Kept (set_wrapper s w id t) id x i n (set-Kept t x i n other k)

  pub rejoined_stays :
      (o : Resumed) (i x : ℕ)
      → (i ≡ id → o.1 ≡ none)
      → lookup i s.streams ≡ some x
      → lookup i (rejoined s w id o).streams ≡ some x
  unfolding rejoined set_wrapper
  rejoined_stays (t, none, events) i x fine listed = listed
  rejoined_stays (t, some e, events) i x fine listed =
      forget_other (set_wrapper s w id t) id i (λ same. ground (arith, fine same)) ∙ listed
