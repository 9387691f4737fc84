-- ===== src/Agent/Main/Held.antt =====
-- What main holds open: the shared socket, the session, the listener and the interceptor; the stages
-- that do not listen.
use outrelay_agent.Base.{
  zero, suc, ◌≡◌, refl, sym, ◌∙◌, Bool, true, false, Option, none, some, ok, err, List, [], ◌∷◌,
  Text,
}
use outrelay_agent.Netip.{AddrPort}
use outrelay_agent.Candidate.{Candidate}
use outrelay_agent.Session.Opening.{ExposeError}
use outrelay_agent.Agent.Main.{
  Flags, Transport, shared, per_dial, tcp, Action, bound_shared, closed_shared, dialled, set_dialer,
  listened, accepting_direct, intercepting, consuming, running, closed_interceptor, closed_listener,
  closed_session, Outcomes, Done, Stage, Connected, and_then, check_flags, dial_quic, first_dial,
  dial_tcp, fall_back, set_server_tls, exit_if, exit_code, expose_one, expose_service, with_address,
  close_rest, tear_down, enable, start_consumer, run_session, is_set,
}
use outrelay_agent.Agent.Main.Stages.{
  after_all, Allowed, Runs, stops, goes_on, and_then-Runs, if-Runs, branch-Runs, doing-Runs,
  Allowed-if,
}

pub record Held : Type 0 where
  pub socket : Bool
  pub session : Option Connected
  pub listener : Bool
  pub interceptor : Bool

unfoldable pub held_after : Held → Action → Held
held_after s bound_shared = record s { socket = true }
held_after s closed_shared = record s { socket = false }
held_after s (dialled t addrs true) = record s {
  session = some (record { transport = t; addrs = addrs });
}
held_after s listened = record s { listener = true }
held_after s intercepting = record s { interceptor = true }
held_after s closed_interceptor = record s { interceptor = false }
held_after s closed_listener = record s { listener = false }
held_after s closed_session = record s { session = none }
held_after s _ = s

-- A transport needs the shared socket open, or gone.
abbrev pub socket_of : Transport → Bool
socket_of shared = true
socket_of per_dial = false
socket_of tcp = false

abbrev pub HasSession : Held → Type 0
HasSession s = (c : Connected) × (s.session ≡ some c)

-- What each call needs to be open, and that nothing is opened twice.
abbrev pub HeldNeeds : Held → Action → Type 0
HeldNeeds s bound_shared = (s.socket ≡ false) × (s.session ≡ none)
HeldNeeds s closed_shared = (s.socket ≡ true) × (s.session ≡ none)
HeldNeeds s (dialled t addrs success) = (s.socket ≡ socket_of t) × (s.session ≡ none)
HeldNeeds s set_dialer = s.socket ≡ true
HeldNeeds s listened = (s.socket ≡ true) × (s.listener ≡ false)
HeldNeeds s accepting_direct = HasSession s × (s.listener ≡ true)
HeldNeeds s intercepting = s.interceptor ≡ false
HeldNeeds s consuming = HasSession s × (s.interceptor ≡ true)
HeldNeeds s (running addrs) =
    (t : Transport) × (s.session ≡ some (record { transport = t; addrs = addrs }))
HeldNeeds s closed_interceptor = s.interceptor ≡ true
HeldNeeds s closed_listener = s.listener ≡ true
HeldNeeds s _ = HasSession s

abbrev pub nothing_held : Held
nothing_held = record { socket = false; session = none; listener = false; interceptor = false }

-- Nothing but perhaps the socket.
abbrev pub Released : Held → Type 0
Released s = (s.session ≡ none) × (s.listener ≡ false) × (s.interceptor ≡ false)

abbrev pub Blank : Held → Type 0
Blank s = Released s × (s.socket ≡ false)

abbrev pub Holds : Connected → (listener interceptor : Bool) → Held → Type 0
Holds c l i s =
    (s.session ≡ some c)
    × (s.socket ≡ socket_of c.transport)
    × (s.listener ≡ l)
    × (s.interceptor ≡ i)

-- Behind the dial over QUIC: without a session the socket is there if --p2p-listen is given.
abbrev pub Dialled : Flags → Option Connected → Held → Type 0
Dialled f none s = Released s × (s.socket ≡ is_set f.p2p_listen)
Dialled f (some c) s = Holds c false false s

abbrev pub Leaves : {A : Type 0} → Held → Stage A → (A → Held → Type 0) → Type 0
Leaves s st post = Runs held_after HeldNeeds s st post

pub holds_then :
    {A B : Type 0} (c : Connected) (l i : Bool) (s : Held) (st : Stage A) (next : A → Stage B)
    (post : B → Held → Type 0)
    → Leaves s st (λ a t. Holds c l i t)
    → ((a : A) (t : Held) → Holds c l i t → Leaves t (next a) post)
    → Leaves s (and_then st next) post
holds_then c l i s st next post first rest = and_then-Runs _ _ s st next _ _ first rest

-- The exit code 0 is that of a run to the end.
pub returns_lem :
    (s : Held) (st : Stage Done) (post : Done → Held → Type 0)
    → Leaves s st post
    → exit_code st.1 ≡ 0
    → post tt (after_all held_after HeldNeeds s st.0)
unfolding exit_code
returns_lem s (acts, ok u) post r e = r.reaches u refl
returns_lem s (acts, err zero) post r e = absurd (cc (r.fails zero refl))
returns_lem s (acts, err (suc code)) post r e = absurd (cc e)

pub ruleset stages = (if-Runs, doing-Runs, stops, goes_on)

module _ (f : Flags) (o : Outcomes) where
  pub check_flags-Leaves : (s : Held) → Blank s → Leaves s (check_flags f o) (λ u t. Blank t)
  unfolding check_flags
  check_flags-Leaves s q = search stages

  dial_quic-Leaves :
      (t : Transport) (s : Held)
      → Released s
      → s.socket ≡ socket_of t
      → s.socket ≡ is_set f.p2p_listen
      → Leaves s (dial_quic f o t) (Dialled f)
  unfolding dial_quic held_after
  dial_quic-Leaves t s q e p = search stages

  dial_tcp-Leaves :
      (s : Held)
      → Released s
      → s.socket ≡ false
      → Leaves s (dial_tcp f o) (λ c t. Holds c false false t)
  unfolding dial_tcp held_after
  dial_tcp-Leaves s q e = search stages

  pub set_server_tls-Leaves :
      (c : Connected) (l i : Bool) (s : Held)
      → Holds c l i s
      → Leaves s (set_server_tls o) (λ u t. Holds c l i t)
  unfolding set_server_tls held_after
  set_server_tls-Leaves c l i s q = search stages

  exit_if-Leaves :
      (e : Option ExposeError) (c : Connected) (l i : Bool) (s : Held)
      → Holds c l i s
      → Leaves s (exit_if e) (λ u t. Holds c l i t)
  unfolding exit_if
  exit_if-Leaves none c l i s q = search stages
  exit_if-Leaves (some e) c l i s q = search stages

  expose_one-Leaves :
      (name target : Text) (c : Connected) (l i : Bool) (s : Held)
      → Holds c l i s
      → Leaves s (expose_one o name target) (λ u t. Holds c l i t)
  unfolding expose_one held_after
  expose_one-Leaves name target c l i s q =
      doing-Runs _ _ _ _ _ _ (c, q.0) (exit_if-Leaves _ c l i s q)

  pub expose_service-Leaves :
      (c : Connected) (l i : Bool) (s : Held)
      → Holds c l i s
      → Leaves s (expose_service f o) (λ u t. Holds c l i t)
  unfolding expose_service
  expose_service-Leaves c l i s q =
      if-Runs _ _ s (is_set f.expose_service) _ _ _
        (if-Runs _ _ s (is_set f.expose_target) _ _ _ (expose_one-Leaves _ _ c l i s q)
          (stops _ _ _ _ _ refl))
        (goes_on _ _ _ _ _ q)

  pub first_dial-Leaves : (s : Held) → Blank s → Leaves s (first_dial f o) (Dialled f)
  unfolding first_dial held_after
  first_dial-Leaves s q =
      branch-Runs _ _ s (is_set f.p2p_listen) _ _ _
        (λ e.
          if-Runs _ _ s o.binds _ _ _
            (doing-Runs _ _ _ _ _ _ (q.1, q.0.0) (dial_quic-Leaves shared _ q.0 refl (sym e)))
            (stops _ _ _ _ _ refl))
        (λ e. dial_quic-Leaves per_dial s q.0 q.1 (q.1 ∙ sym e))

  pub fall_back-Leaves :
      (q : Option Connected) (s : Held)
      → Dialled f q s
      → Leaves s (fall_back f o q) (λ c t. Holds c false false t)
  unfolding fall_back held_after
  fall_back-Leaves (some c) s d = search stages
  fall_back-Leaves none s d =
      branch-Runs _ _ s (is_set f.p2p_listen) _ _ _
        (λ e. doing-Runs _ _ _ _ _ _ (d.1 ∙ e, d.0.0) (dial_tcp-Leaves _ d.0 refl))
        (λ e. dial_tcp-Leaves s d.0 (d.1 ∙ e))

  pub with_address-Leaves :
      (locals : List Candidate) (a : Option AddrPort) (c : Connected) (l i : Bool) (s : Held)
      → Holds c l i s
      → Leaves s (with_address locals a) (λ u t. Holds c l i t)
  unfolding with_address
  with_address-Leaves locals none c l i s q = search stages
  with_address-Leaves locals (some a) c l i s q = search stages

  pub enable-Leaves :
      (c : Connected) (l i : Bool) (s : Held)
      → Holds c l i s
      → Leaves s (enable l) (λ u t. Holds c l i t)
  unfolding enable held_after
  enable-Leaves c true i s q = search stages
  enable-Leaves c false i s q = search stages

  pub start_consumer-Leaves :
      (consumes : List Text) (c : Connected) (l : Bool) (s : Held)
      → Holds c l false s
      → Leaves s (start_consumer o consumes) (λ i t. Holds c l i t)
  unfolding start_consumer held_after
  start_consumer-Leaves [] c l s q = search stages
  start_consumer-Leaves (x ∷ xs) c l s q = search stages

  tear_down-Leaves :
      (c : Connected) (l i : Bool) (s : Held)
      → Holds c l i s
      → Leaves s (tear_down l i) (λ u t. Released t)
  unfolding tear_down close_rest held_after
  tear_down-Leaves c true true s q = search stages
  tear_down-Leaves c true false s q = search stages
  tear_down-Leaves c false true s q = search stages
  tear_down-Leaves c false false s q = search stages

  pub run_session-Leaves :
      (c : Connected) (l i : Bool) (s : Held)
      → Holds c l i s
      → Leaves s (run_session o c.addrs l i) (λ u t. Released t)
  unfolding run_session held_after
  run_session-Leaves c l i s q =
      doing-Runs _ _ _ _ _ _ (c.transport, q.0)
        (if-Runs _ _ s o.runs _ _ _ (tear_down-Leaves c l i s q) (stops _ _ _ _ _ refl))
