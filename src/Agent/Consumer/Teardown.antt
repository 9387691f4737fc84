-- ===== src/Agent/Consumer/Teardown.antt =====
-- Nothing that an intercepted connection opens is left open.
use outrelay_agent.Base.{
  ◌⊎◌, ℕ, ◌≡◌, refl, sym, subst, false, Option, none, some, Option-cases, inl, inr, [], ◌∷◌, arith,
  nat_eq,
}
use outrelay_agent.Base.Map.{lookup-insert_self}
use outrelay_agent.Base.Usage.{opened, shut, left_open}
use outrelay_agent.Session.Waiters.{P2pState, Notice}
use outrelay_agent.Session.Wrapper.{wrap}
use outrelay_agent.Session.Registry.{Registry, close, registry_steps, wrap_stream}
use outrelay_agent.Session.Registry.Store.{Kept}
use outrelay_agent.Session.Registry.Live.{
  IsLive, close-IsLive, close-Kept, steps-IsLive, steps-Kept, wrap-IsLive,
}
use outrelay_agent.Session.Forward.{Brought, whole}
use outrelay_agent.Session.Forward.Parts.{part_eq, part_code, close_whole}
use outrelay_agent.Session.Incoming.{Handle, backend, StreamState, arrive_all, close_wrapper}
use outrelay_agent.Session.Incoming.Handles.{handle_beq, handle_eq, ==_refl}
use outrelay_agent.Session.Incoming.Ends.{closes_inner, wait_ends}
use outrelay_agent.Session.Opening.{Opened, dial_stream}
use outrelay_agent.Session.Opening.Ends.{Opens, unopened, unsent, sent, dial_stream-Opens}
use outrelay_agent.Session.Forward.Dials.{
  Dials, refused, unregistered, unmet, silent, brought, dial_forward-Dials,
}
use outrelay_agent.Agent.Consumer.{
  Outgoing, Consumed, agent_bridge, behind_bridge, torn_down, on_relay, on_plane, behind_mode,
  more_uses, with_stream, consume,
}

-- What is left of the session, and of the connection with a stream that is open.
abbrev pub TornDown : ℕ → ℕ → Consumed → Type 0
TornDown local st d =
    IsLive d.state.registry × (left_open (Handle.stream st ∷ backend local ∷ []) d.uses ≡ [])

-- A connection whose handling goes on waits for the mode, with its context alive, or is bridged.
abbrev pub EndsIf : (Consumed → Type 0) → Outgoing → Option Consumed → Type 0
EndsIf P v none = (v.ctx_done ≡ false) ⊎ (agent_bridge v ≡ none)
EndsIf P v (some d) = P d

behind_bridge-EndsIf :
    (P : Consumed → Type 0) (v : Outgoing) (d : Consumed) → P d → EndsIf P v (behind_bridge v d)
unfolding behind_bridge
behind_bridge-EndsIf P v d k = elim (Option-cases (agent_bridge v)) [
  | inl waits ↦ rw (waits, behind_bridge) (inr waits)
  | inr (half_closes, over) ↦ rw (over, behind_bridge) k
]

module _ (v : Outgoing) (local w id st : ℕ) (ws : P2pState) (reg : Registry) (live : IsLive reg)
    (kept : Kept reg w id (some st)) where
  later : Registry
  later = registry_steps reg v.meanwhile

  later-IsLive : IsLive later
  unfolding later
  later-IsLive = steps-IsLive reg v.meanwhile live

  later-Kept : Kept later w id (some st)
  unfolding later
  later-Kept = steps-Kept reg v.meanwhile w id (some st) live kept

  on_relay-EndsIf : EndsIf (TornDown local st) v (on_relay v local w ws reg)
  unfolding on_relay torn_down later left_open handle_beq
  on_relay-EndsIf =
      let first = closes_inner later w id st later-Kept in
      let after = close-Kept later w w id (some st) later-Kept in
      let second = closes_inner (close later w).0 w id st after in
      rw (first, second)
        (behind_bridge-EndsIf (TornDown local st) v _ (
          close-IsLive (close later w).0 w (close-IsLive later w later-IsLive),
          ground (arith, ==_refl st, ==_refl local),
        ))

  later-closed : close_wrapper later w ≡ ((close later w).0, shut (Handle.stream st) ∷ [])
  later-closed = closes_inner later w id st later-Kept

  closed-IsLive : IsLive (close later w).0
  closed-IsLive = close-IsLive later w later-IsLive

  left_alone-TornDown : TornDown local st (torn_down v local w ws later [])
  unfolding torn_down left_open handle_beq
  left_alone-TornDown = rw later-closed (closed-IsLive, ground (arith, ==_refl st, ==_refl local))

  on_plane-EndsIf :
      (r : Brought) → Dials r → EndsIf (TornDown local st) v (on_plane v local w ws reg r)
  unfolding on_plane torn_down later left_open handle_beq part_code whole
  on_plane-EndsIf r (refused e h) =
      rw (h, later-closed) (closed-IsLive, ground (arith, ==_refl st, ==_refl local))
  on_plane-EndsIf r (unregistered e h) =
      rw (h, later-closed) (closed-IsLive, ground (arith, ==_refl st, ==_refl local))
  on_plane-EndsIf r (unmet e h) =
      rw (h, later-closed) (closed-IsLive, ground (arith, ==_refl st, ==_refl local))
  on_plane-EndsIf r (silent e h) =
      rw (h, later-closed) (closed-IsLive, ground (arith, ==_refl st, ==_refl local))
  on_plane-EndsIf r (brought udp h) =
      rw (h, later-closed, close_whole v.part_fails udp)
        (behind_bridge-EndsIf (TornDown local st) v _
          (closed-IsLive, ground (arith, ==_refl st, ==_refl local)))

module _ (v : Outgoing) (local w id st : ℕ) (reg : Registry) (live : IsLive reg)
    (kept : Kept reg w id (some st)) where
  behind_mode-EndsIf :
      (o : Option (P2pState × Notice))
      → (o ≡ none → v.ctx_done ≡ false)
      → EndsIf (TornDown local st) v (behind_mode v local w reg o)
  unfolding behind_mode later
  behind_mode-EndsIf none ends = inl (ends refl)
  behind_mode-EndsIf (some (ws, none)) ends = on_relay-EndsIf v local w id st ws reg live kept
  behind_mode-EndsIf (some (ws, some g)) ends = elim (Option-cases v.peer_tls) [
    | inl unset ↦ rw (unset, behind_mode) (left_alone-TornDown v local w id st ws reg live kept)
    | inr (tls, set) ↦
        rw (set, behind_mode)
          (on_plane-EndsIf v local w id st ws reg live kept _
            (dial_forward-Dials v.parse_addr_port v.plane tls g))
  ]

wrap_stream-Kept :
    (reg : Registry) (id st : ℕ) → Kept (wrap_stream reg id st).0 reg.next_wrapper id (some st)
unfolding wrap_stream wrap
wrap_stream-Kept reg id st =
    (wrap st, lookup-insert_self reg.next_wrapper (id, wrap st) reg.wrappers, refl)

-- What is left behind a connection: live streams, and no handle.
abbrev pub Ended : ℕ → Consumed → Type 0
Ended local d = IsLive d.state.registry × (left_open (backend local ∷ []) d.uses ≡ [])

module _ (v : Outgoing) (local : ℕ) where
  with_uses :
      (st : ℕ) (o : Option Consumed)
      → EndsIf (TornDown local st) v o
      → EndsIf (Ended local) v (more_uses (opened (Handle.stream st) ∷ []) o)
  unfolding more_uses left_open
  with_uses st none ends = ends
  with_uses st (some d) ends = ends

  with_stream-EndsIf :
      (s : StreamState) (o : Opened)
      → IsLive s.registry
      → Opens s o
      → EndsIf (Ended local) v (with_stream v local o o.result)
  unfolding with_stream left_open handle_beq
  with_stream-EndsIf s o live (unopened e r same uses) =
      rw (r, same, uses) (live, ground (arith, ==_refl local))
  with_stream-EndsIf s o live (unsent e st r same uses) =
      rw (r, same, uses) (live, ground (arith, ==_refl local, ==_refl st))
  with_stream-EndsIf s o live (sent st id r same uses) =
      let v' : IsLive o.state.registry =
        subst IsLive (sym same) (wrap-IsLive s.registry id st live) in
      let kept : Kept o.state.registry s.registry.next_wrapper id (some st) =
        subst (λ (t : Registry). Kept t s.registry.next_wrapper id (some st)) (sym same)
          (wrap_stream-Kept s.registry id st) in
      rw (r, uses)
        (with_uses st _ (
          behind_mode-EndsIf v local s.registry.next_wrapper id st o.state.registry v' kept _
            (wait_ends (arrive_all o.state.waiters v.arrivals) id v.ctx_done v.picks_ctx)))

  -- However the dial of the service ends, once it does, for a stream whose wrapper keeps its inner
  -- stream (no Reconnect and no promotion replaces it): what is left of an intercepted connection is a session whose active streams are live wrappers, with the
  -- connection, the stream and each part of a forward session closed, whatever fails and whichever
  -- mode the relay picks. Only a wait for the stream's mode with its context alive, or a bridge
  -- with a copy that goes on, may keep them.
  pub consume-EndsIf :
      (s : StreamState) (o : Opened)
      → IsLive s.registry
      → dial_stream s v.target [] v.stream v.ids v.writes ≡ some o
      → EndsIf (Ended local) v (consume s v local)
  unfolding consume
  consume-EndsIf s o live made =
      rw (made, consume)
        (with_stream-EndsIf s o live
          (dial_stream-Opens s v.target [] v.stream v.ids v.writes o made))
