-- ===== src/Session/Opening/Ids.antt =====
-- freshStreamID ends, and its id is free.
use outrelay_agent.Base.{
  ℕ, ◌<◌, ◌≤◌, ◌≡◌, ◌≢◌, refl, sym, ◌∙◌, none, some, Option-cases, inl, inr, List, [], ◌∷◌, length,
  All, nat_eq, arith, ==_iff,
}
use outrelay_agent.Base.Map.{Map, lookup, delete, lookup-delete}
use outrelay_agent.Session.Opening.{fresh_stream_id}

-- No id comes twice.
abbrev pub Distinct : List ℕ → Type 0
Distinct [] = Unit {0}
Distinct (id ∷ ids) = All (λ j. id ≢ j) ids × Distinct ids

length-delete-le : (k : ℕ) (m : Map ℕ ℕ) → length (delete k m) ≤ length m
unfolding delete
length-delete-le k [] = omega arith
length-delete-le k ((j, w) ∷ m) = ground (arith, length-delete-le k m)

length-delete-lt : (k w : ℕ) (m : Map ℕ ℕ) → lookup k m ≡ some w → length (delete k m) < length m
unfolding delete lookup
length-delete-lt k w [] h = cc
length-delete-lt k w ((j, v) ∷ m) h = ground (arith, length-delete-le k m, length-delete-lt k w m)

fresh-delete :
    (id : ℕ) (ids : List ℕ) (m : Map ℕ ℕ)
    → All (λ j. id ≢ j) ids
    → fresh_stream_id ids (delete id m) ≡ fresh_stream_id ids m
unfolding fresh_stream_id
fresh-delete id [] m h = refl
fresh-delete id (j ∷ ids) m h =
    ground (arith, lookup-delete id j m, ==_iff id j, fresh-delete id ids m h.1, h.0)

-- While the generator does not repeat an id, the loop needs at most one round more than there are
-- active streams.
fresh_found :
    (ids : List ℕ) (streams : Map ℕ ℕ)
    → Distinct ids
    → length streams < length ids
    → (id : ℕ) × (fresh_stream_id ids streams ≡ some id)
unfolding fresh_stream_id
fresh_found [] streams distinct more = absurd (omega arith)
fresh_found (id ∷ ids) streams distinct more = elim (Option-cases (lookup id streams)) [
  | inl free ↦ (id, rw (free, fresh_stream_id) refl)
  | inr (w, taken) ↦
      let (found, e) =
        fresh_found ids (delete id streams) distinct.1
          (omega (arith, length-delete-lt id w streams taken)) in
      (found, rw (taken, fresh_stream_id) (sym (fresh-delete id ids streams distinct.0) ∙ e))
]

pub fresh_free :
    (ids : List ℕ) (streams : Map ℕ ℕ) (id : ℕ)
    → fresh_stream_id ids streams ≡ some id
    → lookup id streams ≡ none
unfolding fresh_stream_id
fresh_free [] streams id e = cc
fresh_free (j ∷ ids) streams id e = elim (Option-cases (lookup j streams)) [
  | inl free ↦ ground (arith, free)
  | inr (w, taken) ↦ fresh_free ids streams id (ground (arith, taken))
]

-- freshStreamID returns, within one round more than there are active streams, an id that is not
-- active, if the generator makes no id twice.
pub fresh_stream_id_total :
    (ids : List ℕ) (streams : Map ℕ ℕ)
    → Distinct ids
    → length streams < length ids
    → (id : ℕ) × (fresh_stream_id ids streams ≡ some id) × (lookup id streams ≡ none)
fresh_stream_id_total ids streams distinct more =
    let (id, e) = fresh_found ids streams distinct more in (id, e, fresh_free ids streams id e)
