-- ===== src/Session/Waiters/Modes.antt =====
-- A stream-mode waiter gets the first notice for its stream that is delivered after it registered,
-- whatever went on before and whatever else is delivered.
use outrelay_agent.Base.{
  ℕ, ◌<◌, ◌≡◌, refl, sym, subst, ◌==◌, ==_iff, Bool, false, Bool-cases, if◌then◌else◌, inl, inr,
  Option, none, some, Option-cases, List, [], ◌∷◌, arith, nat_eq,
}
use outrelay_agent.Base.Map.{lookup, insert, delete, lookup-insert, lookup-delete}
use outrelay_agent.Session.Waiters.{
  P2pState, Notice, initial, entries, register_stream_mode_waiter, cancel_stream_mode_waiter,
  put_notice, deliver_mode, wait_for_stream_mode,
}

-- Every channel in use has been made.
pub record IsFresh (s : P2pState) : Type 0 where
  pub waited : (id c : ℕ) → lookup id (entries s.pending_mode) ≡ some c → c < s.next_chan
  pub filled : (c : ℕ) (n : Notice) → lookup c s.notices ≡ some n → c < s.next_chan

register-IsFresh :
    (s : P2pState) (id : ℕ) → IsFresh s → IsFresh (register_stream_mode_waiter s id).0
unfolding register_stream_mode_waiter
register-IsFresh s id v = record {
  waited = λ j c e.
      ground (arith, lookup-insert id j s.next_chan (entries s.pending_mode), v.waited j c);
  filled = λ c n e. ground (arith, v.filled c n e);
}

pub delete_entry :
    (s : P2pState) (id j : ℕ)
    → lookup j (entries (cancel_stream_mode_waiter s id).pending_mode)
      ≡ (if id == j then none else lookup j (entries s.pending_mode))
unfolding cancel_stream_mode_waiter entries lookup
delete_entry s id j = elim (Option-cases s.pending_mode) [
  | inl e ↦ ground (arith, e)
  | inr (m, e) ↦ ground (arith, e, lookup-delete id j m)
]

cancel-IsFresh : (s : P2pState) (id : ℕ) → IsFresh s → IsFresh (cancel_stream_mode_waiter s id)
cancel-IsFresh s id v = record {
  waited =
      λ j c e. subst (λ n. c < n) (sym same.0) (ground (arith, delete_entry s id j, v.waited j c));
  filled = λ c n e.
      subst (λ m. c < m) (sym same.0) (v.filled c n (subst (λ m. lookup c m ≡ some n) same.1 e));
}
  where
    same :
        ((cancel_stream_mode_waiter s id).next_chan ≡ s.next_chan)
        × ((cancel_stream_mode_waiter s id).notices ≡ s.notices)
    same = unfold cancel_stream_mode_waiter in (ground arith, ground arith)

put_notice-IsFresh :
    (s : P2pState) (ch : ℕ) (n : Notice)
    → ch < s.next_chan
    → IsFresh s
    → IsFresh (put_notice s ch n)
put_notice-IsFresh s ch n h v = elim (Option-cases (lookup ch s.notices)) [
  | inr (old, full) ↦
      let same : put_notice s ch n ≡ s = unfold put_notice in ground (arith, full) in
      subst IsFresh (sym same) v
  | inl empty ↦
      let put : put_notice s ch n ≡ record s { notices = insert ch n s.notices } =
        unfold put_notice in ground (arith, empty) in
      subst IsFresh (sym put) (record {
        waited = v.waited;
        filled = λ c m e. ground (arith, lookup-insert ch c n s.notices, ==_iff ch c, v.filled c m);
      })
]

deliver-IsFresh : (s : P2pState) (id : ℕ) (n : Notice) → IsFresh s → IsFresh (deliver_mode s id n)
deliver-IsFresh s id n v = elim (Option-cases (lookup id (entries s.pending_mode))) [
  | inl nobody ↦
      let same : deliver_mode s id n ≡ s = unfold deliver_mode in ground (arith, nobody) in
      subst IsFresh (sym same) v
  | inr (ch, e) ↦
      let put : deliver_mode s id n ≡ put_notice s ch n =
        unfold deliver_mode in ground (arith, e) in
      subst IsFresh (sym put) (put_notice-IsFresh s ch n (v.waited id ch e) v)
]

-- What a channel with the content `o` holds after the deliveries `ds`, seen by the stream `id`.
abbrev pub first_notice : Option Notice → ℕ → List (ℕ × Notice) → Option Notice
first_notice (some n) id ds = some n
first_notice none id [] = none
first_notice none id ((j, n) ∷ ds) =
    let rest = first_notice none id ds in if j == id then some n else rest

pub deliver_all : P2pState → List (ℕ × Notice) → P2pState
deliver_all s [] = s
deliver_all s ((j, n) ∷ ds) = deliver_all (deliver_mode s j n) ds

-- The waiter of `id` owns the channel `ch`, which holds `o`.
record Holds (s : P2pState) (id ch : ℕ) (o : Option Notice) : Type 0 where
  waits : lookup id (entries s.pending_mode) ≡ some ch
  holds : lookup ch s.notices ≡ o
  alone : (j : ℕ) → lookup j (entries s.pending_mode) ≡ some ch → j ≡ id

register-Holds :
    (s : P2pState) (id : ℕ)
    → IsFresh s
    → Holds (register_stream_mode_waiter s id).0 id s.next_chan none
unfolding register_stream_mode_waiter
register-Holds s id v = record {
  waits = ground (arith, lookup-insert id id s.next_chan (entries s.pending_mode));
  holds = elim (Option-cases (lookup s.next_chan s.notices)) [
    | inl e ↦ e
    | inr (n, e) ↦ absurd (omega (arith, v.filled s.next_chan n e))
  ];
  alone = λ j e.
      ground
        (arith, lookup-insert id j s.next_chan (entries s.pending_mode), v.waited j s.next_chan);
}

put_notice_entries :
    (s : P2pState) (ch : ℕ) (n : Notice)
    → ((put_notice s ch n).pending_mode ≡ s.pending_mode)
      × ((put_notice s ch n).next_chan ≡ s.next_chan)
unfolding put_notice
put_notice_entries s ch n = (ground arith, ground arith)

put_notice_content :
    (s : P2pState) (c ch : ℕ) (n : Notice)
    → lookup ch (put_notice s c n).notices ≡ (
        if c == ch then first_notice (lookup ch s.notices) 0 ((0, n) ∷ []) else lookup ch s.notices)
unfolding put_notice
put_notice_content s c ch n = ground (arith, lookup-insert c ch n s.notices, ==_iff c ch)

deliver-Holds :
    (s : P2pState) (id ch j : ℕ) (o : Option Notice) (n : Notice)
    → Holds s id ch o
    → Holds (deliver_mode s j n) id ch (first_notice o id ((j, n) ∷ []))
deliver-Holds s id ch j o n h = elim (Option-cases (lookup j (entries s.pending_mode))) [
  | inl nobody ↦
      let same : deliver_mode s j n ≡ s = unfold deliver_mode in ground (arith, nobody) in
      let kept : o ≡ first_notice o id ((j, n) ∷ []) = ground (arith, h.waits, nobody) in
      subst (λ t. Holds t id ch (first_notice o id ((j, n) ∷ []))) (sym same)
        (subst (Holds s id ch) kept h)
  | inr (c, e) ↦
      let put : deliver_mode s j n ≡ put_notice s c n = unfold deliver_mode in ground (arith, e) in
      subst (λ t. Holds t id ch (first_notice o id ((j, n) ∷ []))) (sym put)
        (record {
          waits = rw (put_notice_entries s c n).0 h.waits;
          holds = ground (arith, put_notice_content s c ch n, h.holds, h.waits, e, h.alone j);
          alone = λ i q. h.alone i (rw (put_notice_entries s c n).0 at q);
        })
]

first_notice-cons :
    (o : Option Notice) (id j : ℕ) (n : Notice) (ds : List (ℕ × Notice))
    → first_notice (first_notice o id ((j, n) ∷ [])) id ds ≡ first_notice o id ((j, n) ∷ ds)
first_notice-cons (some m) id j n ds = refl
first_notice-cons none id j n ds = elim (Bool-cases (j == id)) [
  | inl same ↦ rw same
  | inr other ↦ rw other
]

deliver_all-Holds :
    (s : P2pState) (id ch : ℕ) (o : Option Notice) (ds : List (ℕ × Notice))
    → Holds s id ch o
    → Holds (deliver_all s ds) id ch (first_notice o id ds)
unfolding deliver_all
deliver_all-Holds s id ch none [] h = h
deliver_all-Holds s id ch (some n) [] h = h
deliver_all-Holds s id ch o ((j, n) ∷ ds) h =
    subst (Holds (deliver_all (deliver_mode s j n) ds) id ch) (first_notice-cons o id j n ds) (
      deliver_all-Holds (deliver_mode s j n) id ch (first_notice o id ((j, n) ∷ [])) ds
        (deliver-Holds s id ch j o n h))

-- What the callers of the waiters do, in any order.
pub data ModeOp : Type 0 where
  registers cancels : ℕ → ModeOp
  delivers : ℕ → Notice → ModeOp

pub mode_step : P2pState → ModeOp → P2pState
mode_step s (registers id) = (register_stream_mode_waiter s id).0
mode_step s (cancels id) = cancel_stream_mode_waiter s id
mode_step s (delivers id n) = deliver_mode s id n

pub mode_steps : P2pState → List ModeOp → P2pState
mode_steps s [] = s
mode_steps s (o ∷ os) = mode_steps (mode_step s o) os

mode_step-IsFresh : (s : P2pState) (o : ModeOp) → IsFresh s → IsFresh (mode_step s o)
unfolding mode_step
mode_step-IsFresh s (registers id) v = register-IsFresh s id v
mode_step-IsFresh s (cancels id) v = cancel-IsFresh s id v
mode_step-IsFresh s (delivers id n) v = deliver-IsFresh s id n v

mode_steps-IsFresh : (s : P2pState) (os : List ModeOp) → IsFresh s → IsFresh (mode_steps s os)
unfolding mode_steps
mode_steps-IsFresh s [] v = v
mode_steps-IsFresh s (o ∷ os) v = mode_steps-IsFresh (mode_step s o) os (mode_step-IsFresh s o v)

initial-IsFresh : IsFresh initial
unfolding initial entries lookup
initial-IsFresh = record { waited = λ id c e. cc; filled = λ c n e. cc }

-- The outcome of the wait: nothing while no notice is there, and else the notice, with the waiter
-- gone.
abbrev pub GotMode : ℕ → Option Notice → Option (P2pState × Notice) → Type 0
GotMode id none r = r ≡ none
GotMode id (some n) r =
    (s : P2pState) × (r ≡ some (s, n)) × (lookup id (entries s.pending_mode) ≡ none)

wait-GotMode :
    (s : P2pState) (id ch : ℕ) (picks : Bool) (o : Option Notice)
    → Holds s id ch o
    → GotMode id o (wait_for_stream_mode s id false picks)
unfolding wait_for_stream_mode
wait-GotMode s id ch picks none h = ground (arith, h.waits, h.holds)
wait-GotMode s id ch picks (some n) h =
    let t = record s { notices = delete ch s.notices } in
    (
      cancel_stream_mode_waiter t id,
      ground (arith, h.waits, h.holds),
      ground (arith, delete_entry t id id),
    )

pub register_then_wait :
    (old : P2pState) (id : ℕ) (ds : List (ℕ × Notice)) (picks : Bool)
    → IsFresh old
    → GotMode id (first_notice none id ds) (
        wait_for_stream_mode (deliver_all (register_stream_mode_waiter old id).0 ds) id false picks)
register_then_wait old id ds picks fresh =
    let s = (register_stream_mode_waiter old id).0 in
    wait-GotMode (deliver_all s ds) id old.next_chan picks (first_notice none id ds)
      (deliver_all-Holds s id old.next_chan none ds (register-Holds old id fresh))

-- After any history, a waiter that registers for a stream and then waits, with its context alive,
-- gets the first notice for that stream that is delivered in between, whatever is delivered for
-- other streams, and its entry is gone then; if there is none, it waits on.
pub first_notice_wins :
    (history : List ModeOp) (id : ℕ) (ds : List (ℕ × Notice)) (picks : Bool)
    → let s = (register_stream_mode_waiter (mode_steps initial history) id).0 in
      GotMode id (first_notice none id ds) (wait_for_stream_mode (deliver_all s ds) id false picks)
first_notice_wins history id ds picks =
    register_then_wait (mode_steps initial history) id ds picks
      (mode_steps-IsFresh initial history initial-IsFresh)
