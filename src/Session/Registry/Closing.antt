-- ===== src/Session/Registry/Closing.antt =====
-- What Close leaves behind.
use outrelay_agent.Base.{refl, ℕ, ◌≡◌, ◌≢◌, ap, ◌∙◌, true, none, some, nat_eq, arith}
use outrelay_agent.Base.Map.{lookup, delete, lookup-delete_self}
use outrelay_agent.Session.Wrapper.{Wrapper, mark_abandoned}
use outrelay_agent.Session.Registry.{Registry, abandon_wrapper, forget_stream, close}
use outrelay_agent.Session.Registry.Store.{
  abandon_self, abandon_other, abandon_streams, forget-Kept, forget_unlists,
}

-- What a call of Close does to the wrapper and to its id.
pub record IsClosed (s : Registry) (id w : ℕ) : Type 0 where
  pub unlisted : lookup id s.streams ≡ none
  pub content : Wrapper
  pub kept : lookup w s.wrappers ≡ some (id, content)
  pub abandoned : content.abandoned ≡ true

mark_abandoned_lem : (r : Wrapper) → (mark_abandoned r).abandoned ≡ true
unfolding mark_abandoned
mark_abandoned_lem r = ground arith

-- After Close of a wrapper, its id is not active, and the wrapper is abandoned.
pub close-IsClosed :
    (s : Registry) (w id : ℕ) (r : Wrapper)
    → lookup w s.wrappers ≡ some (id, r)
    → IsClosed (close s w).0 id w
unfolding close
close-IsClosed s w id r stored =
    let (q, kept, inner) = forget-Kept s id w id r.inner (r, stored, refl) in
    let t : Registry = forget_stream s id in
    rw (stored, close)
      (record {
        unlisted = ap (lookup id) (abandon_streams t w) ∙ forget_unlists s id;
        content = mark_abandoned q;
        kept = abandon_self t w id q kept;
        abandoned = mark_abandoned_lem q;
      })

-- Where a wrapper was replaced by another of its id, Close of the replaced one takes the id of the
-- active one off the map and abandons it too.
pub close_replaced :
    (s : Registry) (old new id : ℕ) (r q : Wrapper)
    → old ≢ new
    → lookup old s.wrappers ≡ some (id, r)
    → lookup new s.wrappers ≡ some (id, q)
    → lookup id s.streams ≡ some new
    → IsClosed (close s old).0 id new
unfolding close forget_stream
close_replaced s old new id r q different stored there active =
    let t : Registry = record s { streams = delete id s.streams } in
    let closed = abandon_self t new id q there in
    rw (stored, close, active, forget_stream)
      (record {
        unlisted =
            ap (lookup id) (abandon_streams (abandon_wrapper t new) old)
            ∙ ap (lookup id) (abandon_streams t new)
            ∙ lookup-delete_self id s.streams;
        content = mark_abandoned q;
        kept = abandon_other (abandon_wrapper t new) old new different ∙ closed;
        abandoned = mark_abandoned_lem q;
      })
