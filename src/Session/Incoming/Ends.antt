-- ===== src/Session/Incoming/Ends.antt =====
-- The ends of an incoming stream: spliced or over a forward session.
use outrelay_agent.Base.{
  ◌⊎◌, ℕ, ◌≡◌, refl, Bool, false, Option, none, some, Option-cases, inl, inr, [], ◌∷◌, arith,
  nat_eq,
}
use outrelay_agent.Base.Usage.{shut, left_open}
use outrelay_agent.Session.Forward.{Brought, whole}
use outrelay_agent.Session.Forward.Parts.{
  part_eq, part_code, Accepts, refused, unregistered, unheard, unmet, silent, brought,
  accept_forward-Accepts, close_whole,
}
use outrelay_agent.Session.Registry.{Registry, close, registry_steps}
use outrelay_agent.Session.Registry.Store.{Kept}
use outrelay_agent.Session.Registry.Live.{
  IsLive, close-IsLive, close-Kept, steps-IsLive, steps-Kept,
}
use outrelay_agent.Session.Waiters.{P2pState, Notice, wait_for_stream_mode}
use outrelay_agent.Session.Incoming.{
  stream, backend, Served, Visit, close_wrapper, splice, forward, by_mode, bridged, over_bridge,
}
use outrelay_agent.Session.Incoming.Handles.{handle_beq, handle_eq, spliced, unspliced, forwarded}

-- Close of a wrapper whose inner stream is `st`.
pub closes_inner :
    (reg : Registry) (w id st : ℕ)
    → Kept reg w id (some st)
    → close_wrapper reg w ≡ ((close reg w).0, shut (stream st) ∷ [])
unfolding close_wrapper
closes_inner reg w id st (q, stored, inner) =
    let e : (close reg w).1 ≡ some st = unfold close in rw (stored, close) inner in
    rw (e, close_wrapper) refl

-- What is left of the session and of the handles.
abbrev pub Clean : ℕ → Served → Type 0
Clean st d = IsLive d.state.registry × (left_open (stream st ∷ []) d.uses ≡ [])

-- The same, behind the handler that opened the backend.
abbrev pub CleanBehind : ℕ → ℕ → Served → Type 0
CleanBehind b st d = IsLive d.state.registry × (left_open (backend b ∷ stream st ∷ []) d.uses ≡ [])

-- A handler that goes on is still waiting for the mode, with its context alive, or in its bridge.
abbrev pub CleanIf : (Served → Type 0) → Visit → Option Served → Type 0
CleanIf P v none = (v.ctx_done ≡ false) ⊎ (bridged v ≡ none)
CleanIf P v (some d) = P d

over_bridge-CleanIf :
    (P : Served → Type 0) (v : Visit) (d : Served) → P d → CleanIf P v (over_bridge v d)
unfolding over_bridge
over_bridge-CleanIf P v d k = elim (Option-cases (bridged v)) [
  | inl waits ↦ rw (waits, over_bridge) (inr waits)
  | inr (sides, over) ↦ rw (over, over_bridge) k
]

module _ (v : Visit) (id b w st : ℕ) (ws : P2pState) (reg : Registry) (live : IsLive reg)
    (kept : Kept reg w id (some st)) where
  later : Registry
  later = registry_steps reg v.meanwhile

  later-IsLive : IsLive later
  unfolding later
  later-IsLive = steps-IsLive reg v.meanwhile live

  later-Kept : Kept later w id (some st)
  unfolding later
  later-Kept = steps-Kept reg v.meanwhile w id (some st) live kept

  pub splice-CleanIf : CleanIf (CleanBehind b st) v (splice v id b w ws reg)
  unfolding splice later
  splice-CleanIf =
      let first = closes_inner later w id st later-Kept in
      let after = close-Kept later w w id (some st) later-Kept in
      let second = closes_inner (close later w).0 w id st after in
      rw (first, second)
        (over_bridge-CleanIf (CleanBehind b st) v _
          (close-IsLive (close later w).0 w (close-IsLive later w later-IsLive), spliced st b))

  later-closed : close_wrapper later w ≡ ((close later w).0, shut (stream st) ∷ [])
  later-closed = closes_inner later w id st later-Kept

  closed-IsLive : IsLive (close later w).0
  closed-IsLive = close-IsLive later w later-IsLive

  forward-CleanIf :
      (r : Brought) → Accepts r → CleanIf (CleanBehind b st) v (forward v id b w ws reg r)
  unfolding forward later left_open handle_beq part_code whole
  forward-CleanIf r (refused e h) = rw (h, later-closed) (closed-IsLive, unspliced st b)
  forward-CleanIf r (unregistered e h) = rw (h, later-closed) (closed-IsLive, unspliced st b)
  forward-CleanIf r (unheard e h) = rw (h, later-closed) (closed-IsLive, unspliced st b)
  forward-CleanIf r (unmet e h) = rw (h, later-closed) (closed-IsLive, unspliced st b)
  forward-CleanIf r (silent e h) = rw (h, later-closed) (closed-IsLive, unspliced st b)
  forward-CleanIf r (brought udp h) =
      rw (h, later-closed, close_whole v.part_fails udp)
        (over_bridge-CleanIf (CleanBehind b st) v _ (closed-IsLive, forwarded st b))

pub wait_ends :
    (s : P2pState) (id : ℕ) (ctx_done picks : Bool)
    → wait_for_stream_mode s id ctx_done picks ≡ none
    → ctx_done ≡ false
unfolding wait_for_stream_mode
wait_ends s id ctx_done picks h = ground arith

module _ (v : Visit) (id b w st : ℕ) (reg : Registry) (live : IsLive reg)
    (kept : Kept reg w id (some st)) where
  pub by_mode-CleanIf :
      (o : Option (P2pState × Notice))
      → (o ≡ none → v.ctx_done ≡ false)
      → CleanIf (CleanBehind b st) v (by_mode v id b w reg o)
  unfolding by_mode
  by_mode-CleanIf none ends = inl (ends refl)
  by_mode-CleanIf (some (ws, none)) ends = splice-CleanIf v id b w st ws reg live kept
  by_mode-CleanIf (some (ws, some g)) ends = elim (Option-cases v.forward_tls) [
    | inl unset ↦ rw (unset, by_mode) (splice-CleanIf v id b w st ws reg live kept)
    | inr (tls, set) ↦
        rw (set, by_mode)
          (forward-CleanIf v id b w st ws reg live kept _
            (accept_forward-Accepts v.parse_addr_port v.plane tls (some g)))
  ]
