-- ===== src/Session/Opening/Dialled.antt =====
-- What Session.Dial does to the session's streams and waiters.
use outrelay_agent.Base.{
  subst, ℕ, ◌≡◌, ◌⊎◌, refl, sym, Bool, true, false, Bool-cases, Option, none, some, Option-cases,
  inl, inr, Result, ok, err, List, [], ◌∷◌, Text, nat_eq, arith, ==_iff,
}
use outrelay_agent.Base.Map.{lookup, lookup-insert, lookup-insert_self}
use outrelay_agent.Base.Usage.{left_open}
use outrelay_agent.Session.Waiters.{
  P2pState, Notice, entries, register_stream_mode_waiter, wait_for_stream_mode,
}
use outrelay_agent.Session.Waiters.Modes.{
  IsFresh, GotMode, first_notice, deliver_all, register_then_wait, delete_entry,
}
use outrelay_agent.Session.Registry.{wrap_stream}
use outrelay_agent.Session.Registry.Store.{Kept}
use outrelay_agent.Session.Registry.Live.{IsLive, wrap-IsLive}
use outrelay_agent.Session.Wrapper.{wrap}
use outrelay_agent.Session.Incoming.{StreamState}
use outrelay_agent.Session.Opening.{
  no_stream, Opened, OpenError, dial_stream, open_as, fresh_stream_id, wait_if_enabled, cancel_if,
}
use outrelay_agent.Session.Opening.Ids.{fresh_free}

-- The waiters hold nothing that they did not hold before.
abbrev pub NoNewWaiter : P2pState → P2pState → Type 0
NoNewWaiter before after =
    (j : ℕ)
    → (lookup j (entries after.pending_mode) ≡ none)
      ⊎ (lookup j (entries after.pending_mode) ≡ lookup j (entries before.pending_mode))

-- The new stream is active under an id that was free, and open; or it is closed, the active streams
-- are those from before and no waiter is left behind.
abbrev pub OpensAs : StreamState → Opened → Result OpenError (ℕ × ℕ) → Type 0
OpensAs s o (ok (w, id)) =
    (st : ℕ) × (lookup id s.registry.streams ≡ none)
    × (lookup id o.state.registry.streams ≡ some w)
    × Kept o.state.registry w id (some st)
    × IsLive o.state.registry
    × (left_open [] o.uses ≡ st ∷ [])
OpensAs s o (err e) =
    (o.state.registry ≡ s.registry)
    × NoNewWaiter s.waiters o.state.waiters
    × (left_open [] o.uses ≡ [])
    × (o.sent ≡ none)

unwaited :
    (s : P2pState) (id : ℕ) → NoNewWaiter s (cancel_if s.p2p_enabled (wait_if_enabled s id) id)
unfolding cancel_if wait_if_enabled register_stream_mode_waiter entries
unwaited s id j = elim (Bool-cases s.p2p_enabled) [
  | inl enabled ↦ ground (
    arith,
    enabled,
    delete_entry (register_stream_mode_waiter s id).0 id j,
    lookup-insert id j s.next_chan (entries s.pending_mode),
    ==_iff id j,
  )
  | inr plain ↦ ground (arith, plain)
]

open_as-OpensAs :
    (s : StreamState) (target method : Text) (st id : ℕ) (writes : Bool)
    → IsLive s.registry
    → lookup id s.registry.streams ≡ none
    → OpensAs s (open_as s target method st id writes) (open_as s target method st id writes).result
unfolding open_as left_open
open_as-OpensAs s target method st id true live free = (
  st,
  free,
  unfold wrap_stream in lookup-insert_self id s.registry.next_wrapper s.registry.streams,
  (unfold wrap_stream wrap in
      (
        wrap st,
        lookup-insert_self s.registry.next_wrapper (id, wrap st) s.registry.wrappers,
        refl,
      )),
  wrap-IsLive s.registry id st live,
  refl,
)
open_as-OpensAs s target method st id false live free =
    (refl, unwaited s.waiters id, ground arith, refl)

-- A call of Session.Dial that ends: on success the stream is open and active under an id that was
-- free, so no other stream's wrapper is replaced; on failure the stream is closed, the active streams
-- are unchanged and no waiter is left behind.
pub dial_stream-OpensAs :
    (s : StreamState) (target method : Text) (st : Option ℕ) (ids : List ℕ) (writes : Bool)
    (o : Opened)
    → IsLive s.registry
    → dial_stream s target method st ids writes ≡ some o
    → OpensAs s o o.result
unfolding dial_stream
dial_stream-OpensAs s target method none ids writes o live e =
    let unopened : Opened = record {
      state = s;
      result = err no_stream;
      uses = [];
      sent = none;
      at_write = s.waiters;
    } in
    let same : unopened ≡ o = ground arith in
    subst (λ p. OpensAs s p p.result) same (refl, λ j. inr refl, unfold left_open in refl, refl)
dial_stream-OpensAs s target method (some st) ids writes o live e =
    elim (Option-cases (fresh_stream_id ids s.registry.streams)) [
      | inl none_yet ↦ absurd (ground (arith, none_yet))
      | inr (id, found) ↦
          let same : open_as s target method st id writes ≡ o = ground (arith, found) in
          subst (λ p. OpensAs s p p.result) same
            (open_as-OpensAs s target method st id writes live
              (fresh_free ids s.registry.streams id found))
    ]

-- With P2P enabled, the mode that the relay sends for a dialled stream cannot be missed: whatever
-- the control reader delivers once OPEN_STREAM is written, the wait for the mode of the new stream
-- gets the first notice for it, and goes on while there is none.
pub dial_then_mode :
    (s : StreamState) (target method : Text) (st id w : ℕ) (ids : List ℕ) (o : Opened)
    (ds : List (ℕ × Notice)) (picks : Bool)
    → IsFresh s.waiters
    → s.waiters.p2p_enabled ≡ true
    → dial_stream s target method (some st) ids true ≡ some o
    → o.result ≡ ok (w, id)
    → GotMode id
        (first_notice none id ds)
        (wait_for_stream_mode (deliver_all o.at_write ds) id false picks)
unfolding dial_stream open_as wait_if_enabled
dial_then_mode s target method st id w ids o ds picks fresh enabled e r =
    elim (Option-cases (fresh_stream_id ids s.registry.streams)) [
      | inl none_yet ↦ absurd (ground (arith, none_yet))
      | inr (id', found) ↦
          let ws : o.at_write ≡ (register_stream_mode_waiter s.waiters id).0 =
            ground (arith, found, enabled) in
          subst
            (λ t.
              GotMode id (first_notice none id ds)
                (wait_for_stream_mode (deliver_all t ds) id false picks))
            (sym ws) (register_then_wait s.waiters id ds picks fresh)
    ]
