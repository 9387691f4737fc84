-- ===== src/Session/Promotion/Routing.antt =====
-- Which answers come to the channel of a waiter.
use outrelay_agent.Base.{
  ℕ, suc, subst, ◌<◌, ◌≡◌, ==_iff, inl, inr, none, some, Option-cases, List, [], ◌∷◌, nat_eq, arith,
}
use outrelay_agent.Base.Map.{
  Map, lookup, insert, delete, lookup-insert, lookup-delete, lookup-insert_self,
}
use outrelay_agent.Orp.{CandidateList}
use outrelay_agent.Session.Waiters.{
  P2pState, initial, entries, register_answer_waiter, put_answer, deliver_answer,
}
use outrelay_agent.Session.Promotion.{deliver_answers}

-- Every channel for answers that is in use has been made.
pub record IsFresh (s : P2pState) : Type 0 where
  pub waited : (id c : ℕ) → lookup id (entries s.pending_answers) ≡ some c → c < s.next_chan
  pub filled : (c : ℕ) (a : CandidateList) → lookup c s.answers ≡ some a → c < s.next_chan

-- The channel `ch` gets answers for the stream `id` alone, and is waited on until it has one.
pub record Routes (id ch : ℕ) (s : P2pState) : Type 0 where
  pub own : (a : CandidateList) → lookup ch s.answers ≡ some a → a.stream_id ≡ id
  pub alone : (j : ℕ) → lookup j (entries s.pending_answers) ≡ some ch → j ≡ id
  pub waits : lookup ch s.answers ≡ none → lookup id (entries s.pending_answers) ≡ some ch

pub initial-IsFresh : IsFresh initial
unfolding initial entries lookup
initial-IsFresh = record { waited = λ id c e. cc; filled = λ c a e. cc }

abbrev registered : P2pState → ℕ → Map ℕ ℕ → P2pState
registered s id m = record s {
  pending_answers = some (insert id s.next_chan m);
  next_chan = suc s.next_chan;
}

pub register-IsFresh :
    (s t : P2pState) (id ch : ℕ)
    → IsFresh s
    → register_answer_waiter s id ≡ some (t, ch)
    → IsFresh t
unfolding register_answer_waiter entries
register-IsFresh s t id ch v made = elim (Option-cases s.pending_answers) [
  | inl nil ↦ ground (arith, made, nil)
  | inr (m, there) ↦
      let state : registered s id m ≡ t = ground (arith, made, there) in
      subst IsFresh state (record {
        waited = λ j c e. ground (arith, e, there, lookup-insert id j s.next_chan m, v.waited j c);
        filled = λ c a e. ground (arith, v.filled c a e);
      })
]

-- Deliveries fill channels that are in use.
pub deliver-IsFresh : (s : P2pState) (a : CandidateList) → IsFresh s → IsFresh (deliver_answer s a)
unfolding deliver_answer put_answer entries
deliver-IsFresh s a v = elim (Option-cases (lookup a.stream_id (entries s.pending_answers))) [
  | inl nobody ↦ rw (nobody, deliver_answer) v
  | inr (c, known) ↦ elim (Option-cases (lookup c s.answers)) [
    | inl empty ↦
        rw (known, deliver_answer, empty, put_answer)
          (record {
            waited = λ j d e.
                ground
                  (arith, e, lookup-delete a.stream_id j (entries s.pending_answers), v.waited j d);
            filled = λ d b e. ground (
              arith,
              e,
              lookup-insert c d a s.answers,
              ==_iff c d,
              v.filled d b,
              v.waited a.stream_id c known,
            );
          })
    | inr (old, full) ↦
        rw (known, deliver_answer, full, put_answer)
          (record {
            waited = λ j d e.
                ground
                  (arith, e, lookup-delete a.stream_id j (entries s.pending_answers), v.waited j d);
            filled = λ d b e. ground (arith, v.filled d b e);
          })
  ]
]

registered-Routes :
    (s : P2pState) (id : ℕ) (m : Map ℕ ℕ)
    → s.pending_answers ≡ some m
    → IsFresh s
    → Routes id s.next_chan (registered s id m)
unfolding entries
registered-Routes s id m there v = record {
  own = λ a e. ground (arith, e, v.filled s.next_chan a);
  alone = λ j e.
      ground
        (arith, e, there, lookup-insert id j s.next_chan m, ==_iff id j, v.waited j s.next_chan);
  waits = λ e. lookup-insert_self id s.next_chan m;
}

-- A new waiter gets the answers for its stream alone.
pub register-Routes :
    (s t : P2pState) (id ch : ℕ)
    → IsFresh s
    → register_answer_waiter s id ≡ some (t, ch)
    → Routes id ch t
unfolding register_answer_waiter
register-Routes s t id ch v made = elim (Option-cases s.pending_answers) [
  | inl nil ↦ ground (arith, made, nil)
  | inr (m, there) ↦
      let state : registered s id m ≡ t = ground (arith, made, there) in
      let chan : s.next_chan ≡ ch = ground (arith, made, there) in
      subst (λ c. Routes id c t) chan
        (subst (Routes id s.next_chan) state (registered-Routes s id m there v))
]

pub registered_map :
    (s t : P2pState) (id ch : ℕ)
    → register_answer_waiter s id ≡ some (t, ch)
    → (m : Map ℕ ℕ) × (s.pending_answers ≡ some m)
unfolding register_answer_waiter
registered_map s t id ch made = elim (Option-cases s.pending_answers) [
  | inl nil ↦ ground (arith, made, nil)
  | inr found ↦ found
]

pub register_empty :
    (s t : P2pState) (id ch : ℕ)
    → IsFresh s
    → register_answer_waiter s id ≡ some (t, ch)
    → lookup ch t.answers ≡ none
unfolding register_answer_waiter
register_empty s t id ch v made =
    let (m, there) = registered_map s t id ch made in
    elim (Option-cases (lookup s.next_chan s.answers)) [
      | inl empty ↦ ground (arith, made, there, empty)
      | inr (a, full) ↦ ground (arith, v.filled s.next_chan a full)
    ]

module _ (id ch : ℕ) (s : P2pState) (a : CandidateList) (c : ℕ) where
  put-Routes :
      Routes id ch s
      → lookup a.stream_id (entries s.pending_answers) ≡ some c
      → Routes id ch (
          put_answer
            (record s { pending_answers = some (delete a.stream_id (entries s.pending_answers)) })
            c
            a)
  unfolding put_answer entries
  put-Routes v known = elim (Option-cases (lookup c s.answers)) [
    | inl empty ↦
        rw (empty, put_answer)
          (record {
            own = λ b e. ground (
              arith,
              e,
              lookup-insert c ch a s.answers,
              ==_iff c ch,
              v.own b,
              v.alone a.stream_id,
              known,
            );
            alone = λ j e.
                ground
                  (arith, e, lookup-delete a.stream_id j (entries s.pending_answers), v.alone j);
            waits = λ e. ground (
              arith,
              e,
              lookup-insert c ch a s.answers,
              ==_iff c ch,
              ==_iff a.stream_id id,
              lookup-delete a.stream_id id (entries s.pending_answers),
              v.waits,
              known,
            );
          })
    | inr (old, full) ↦
        rw (full, put_answer)
          (record {
            own = λ b e. v.own b e;
            alone = λ j e.
                ground
                  (arith, e, lookup-delete a.stream_id j (entries s.pending_answers), v.alone j);
            waits = λ e. ground (
              arith,
              e,
              full,
              ==_iff a.stream_id id,
              lookup-delete a.stream_id id (entries s.pending_answers),
              v.waits,
              known,
            );
          })
  ]

deliver-Routes :
    (id ch : ℕ) (s : P2pState) (a : CandidateList)
    → Routes id ch s
    → Routes id ch (deliver_answer s a)
unfolding deliver_answer
deliver-Routes id ch s a v = elim (Option-cases (lookup a.stream_id (entries s.pending_answers))) [
  | inl nobody ↦ rw (nobody, deliver_answer) v
  | inr (c, known) ↦ rw (known, deliver_answer) (put-Routes id ch s a c v known)
]

pub deliver_answers-Routes :
    (id ch : ℕ) (s : P2pState) (answers : List CandidateList)
    → Routes id ch s
    → Routes id ch (deliver_answers s answers)
unfolding deliver_answers
deliver_answers-Routes id ch s [] v = v
deliver_answers-Routes id ch s (a ∷ more) v =
    deliver_answers-Routes id ch (deliver_answer s a) more (deliver-Routes id ch s a v)
