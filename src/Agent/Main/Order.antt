-- ===== src/Agent/Main/Order.antt =====
-- The order in which main calls the session, that the waiters of Session/Waiters ask for.
use outrelay_agent.Base.{
  arith, ◌≢◌, Result, ok, err, ℕ, ◌≡◌, refl, Bool, true, false, Option, none, some, ok, List, [],
  ◌∷◌, Text,
}
use outrelay_agent.Base.Map.{Map}
use outrelay_agent.Netip.{Addr, AddrPort}
use outrelay_agent.Candidate.{Candidate}
use outrelay_agent.Session.Opening.{ExposeError}
use outrelay_agent.Candidate.Query.{QueryError}
use outrelay_agent.Session.Waiters.{
  query_before_enable, of_query, after_enable, P2pState, initial, entries, enable_p2p,
  set_local_candidates,
}
use outrelay_agent.Agent.Main.{
  with_address, Flags, Transport, shared, per_dial, tcp, Action, exposed, queried, set_locals,
  enabled_p2p, accepting_direct, consuming, running, Outcomes, Stage, Connected, and_then,
  check_flags, dial_quic, first_dial, dial_tcp, fall_back, set_server_tls, exit_if, expose_one,
  expose_service, advertise, publish, listen, p2p_over, enable, start_consumer, run_session, serve,
  run_agent, exit_with, main, with_address, close_rest, tear_down,
}
use outrelay_agent.Agent.Main.Stages.{
  Allowed, Runs, stops, goes_on, and_then-Runs, if-Runs, doing-Runs, Allowed-if,
}

-- The session's waiters behind a call.
unfoldable pub waiters_after : P2pState → Action → P2pState
waiters_after s (set_locals cs) = set_local_candidates s cs
waiters_after s enabled_p2p = enable_p2p s
waiters_after s _ = s

-- While no reader runs, the acknowledgement of Expose and the answer to the query cannot be taken
-- by one; and QueryServerReflexive refuses when P2P is enabled. The candidates are those that the
-- first offer is answered with. A stream is opened and promoted when the waiters' maps are made.
abbrev pub WaiterNeeds : P2pState → Action → Type 0
WaiterNeeds s (exposed name target) = (s.p2p_enabled ≡ false) × (s.readers ≡ 0)
WaiterNeeds s queried = (s.p2p_enabled ≡ false) × (s.readers ≡ 0)
WaiterNeeds s (set_locals cs) = (s.p2p_enabled ≡ false) × (s.readers ≡ 0)
WaiterNeeds s enabled_p2p = (s.p2p_enabled ≡ false) × (s.readers ≡ 0)
WaiterNeeds s accepting_direct = s.readers ≡ 1
WaiterNeeds s consuming =
    (s.readers ≡ 1)
    × (s.p2p_enabled ≡ true)
    × ((m : Map ℕ ℕ) × (s.pending_answers ≡ some m))
    × ((m : Map ℕ ℕ) × (s.pending_mode ≡ some m))
WaiterNeeds s (running addrs) = (s.readers ≡ 1) × (s.p2p_enabled ≡ true)
WaiterNeeds s _ = Unit {0}

-- Where the query is needed to come, the session does not refuse it.
query_not_refused :
    (s : P2pState) (r : Result QueryError Candidate)
    → WaiterNeeds s queried
    → query_before_enable s r ≢ err after_enable
unfolding query_before_enable of_query
query_not_refused s (ok c) q = ground arith
query_not_refused s (err e) q = ground arith

-- Before EnableP2P, and behind it.
abbrev Quiet : P2pState → Type 0
Quiet s = (s.p2p_enabled ≡ false) × (s.readers ≡ 0)

abbrev Reading : P2pState → Type 0
Reading s =
    (s.readers ≡ 1)
    × (s.p2p_enabled ≡ true)
    × ((m : Map ℕ ℕ) × (s.pending_answers ≡ some m))
    × ((m : Map ℕ ℕ) × (s.pending_mode ≡ some m))

abbrev Ensures : {A : Type 0} → P2pState → Stage A → (P2pState → Type 0) → Type 0
Ensures s st post = Runs waiters_after WaiterNeeds s st (λ a t. post t)

quiet_then :
    {A B : Type 0} (s : P2pState) (st : Stage A) (next : A → Stage B) (post : P2pState → Type 0)
    → Ensures s st Quiet
    → ((a : A) (t : P2pState) → Quiet t → Ensures t (next a) post)
    → Ensures s (and_then st next) post
quiet_then s st next post first rest = and_then-Runs _ _ s st next (λ a t. Quiet t) _ first rest

ruleset stages = (if-Runs, doing-Runs, stops, goes_on)

module _ (f : Flags) (o : Outcomes) where
  check_flags-Quiet : (s : P2pState) → Quiet s → Ensures s (check_flags f o) Quiet
  unfolding check_flags
  check_flags-Quiet s q = search (if-Runs, stops, goes_on)

  dial_quic-Quiet : (t : Transport) (s : P2pState) → Quiet s → Ensures s (dial_quic f o t) Quiet
  unfolding dial_quic waiters_after
  dial_quic-Quiet t s q = search stages

  first_dial-Quiet : (s : P2pState) → Quiet s → Ensures s (first_dial f o) Quiet
  unfolding first_dial waiters_after
  first_dial-Quiet s q = search (stages, dial_quic-Quiet)

  fall_back-Quiet :
      (c : Option Connected) (s : P2pState) → Quiet s → Ensures s (fall_back f o c) Quiet
  unfolding fall_back dial_tcp waiters_after
  fall_back-Quiet (some c) s q = search stages
  fall_back-Quiet none s q = search stages

  set_server_tls-Quiet : (s : P2pState) → Quiet s → Ensures s (set_server_tls o) Quiet
  unfolding set_server_tls waiters_after
  set_server_tls-Quiet s q = search stages

  exit_if-Quiet : (e : Option ExposeError) (s : P2pState) → Quiet s → Ensures s (exit_if e) Quiet
  unfolding exit_if
  exit_if-Quiet none s q = search stages
  exit_if-Quiet (some e) s q = search stages

  expose_service-Quiet : (s : P2pState) → Quiet s → Ensures s (expose_service f o) Quiet
  unfolding expose_service expose_one waiters_after
  expose_service-Quiet s q = search (stages, exit_if-Quiet)

  with_address-Quiet :
      (locals : List Candidate) (a : Option AddrPort) (s : P2pState)
      → Quiet s
      → Ensures s (with_address locals a) Quiet
  unfolding with_address
  with_address-Quiet locals none s q = search stages
  with_address-Quiet locals (some a) s q = search stages

  -- `Addr.String` and `netip.ParseAddrPort`.
  module _ (format_addr : Addr → Text) (parse_addr_port : Text → Option AddrPort) where
    advertise-Quiet :
        (locals : List Candidate) (s : P2pState)
        → Quiet s
        → Ensures s (advertise format_addr parse_addr_port f locals) Quiet
    unfolding advertise
    advertise-Quiet locals s q = search (stages, with_address-Quiet)

    publish-Quiet :
        (p : Option ℕ) (s : P2pState)
        → Quiet s
        → Ensures s (publish format_addr parse_addr_port f o p) Quiet
    unfolding publish waiters_after set_local_candidates
    publish-Quiet none s q = search stages
    publish-Quiet (some p) s q = doing-Runs _ _ _ _ _ _ tt (
        doing-Runs _ _ _ _ _ _ q
          (quiet_then s _ _ _ (advertise-Quiet _ s q) (λ a t r. search stages)))

    listen-Quiet :
        (s : P2pState) → Quiet s → Ensures s (listen format_addr parse_addr_port f o) Quiet
    unfolding listen
    listen-Quiet s q = search (stages, publish-Quiet)

    p2p_over-Quiet :
        (t : Transport) (s : P2pState)
        → Quiet s
        → Ensures s (p2p_over format_addr parse_addr_port f o t) Quiet
    unfolding p2p_over waiters_after
    p2p_over-Quiet shared s q = search (stages, listen-Quiet)
    p2p_over-Quiet per_dial s q = search stages
    p2p_over-Quiet tcp s q = search stages

  enable_p2p-Reading : (s : P2pState) → Quiet s → Reading (enable_p2p s)
  unfolding enable_p2p
  enable_p2p-Reading s q =
      (rw (q.0, q.1) refl, refl, (entries s.pending_answers, refl), (entries s.pending_mode, refl))

  -- EnableP2P starts the one reader.
  enable-Reading : (listener : Bool) (s : P2pState) → Quiet s → Ensures s (enable listener) Reading
  unfolding enable waiters_after
  enable-Reading true s q =
      let r = enable_p2p-Reading s q in
      doing-Runs _ _ _ _ _ _ q (doing-Runs _ _ _ _ _ _ r.0 (goes_on _ _ _ tt _ r))
  enable-Reading false s q = search (stages, enable_p2p-Reading)

  start_consumer-Reading :
      (consumes : List Text) (s : P2pState)
      → Reading s
      → Ensures s (start_consumer o consumes) Reading
  unfolding start_consumer waiters_after
  start_consumer-Reading [] s r = search stages
  start_consumer-Reading (c ∷ cs) s r = search stages

  tear_down-Reading :
      (listener interceptor : Bool) (s : P2pState)
      → Reading s
      → Ensures s (tear_down listener interceptor) Reading
  unfolding tear_down close_rest waiters_after
  tear_down-Reading true true s r = search stages
  tear_down-Reading true false s r = search stages
  tear_down-Reading false true s r = search stages
  tear_down-Reading false false s r = search stages

  run_session-Reading :
      (addrs : List Text) (listener interceptor : Bool) (s : P2pState)
      → Reading s
      → Ensures s (run_session o addrs listener interceptor) Reading
  unfolding run_session waiters_after
  run_session-Reading addrs listener interceptor s r = search (stages, tear_down-Reading)

  reading_then :
      {A B : Type 0} (s : P2pState) (st : Stage A) (next : A → Stage B) (post : P2pState → Type 0)
      → Ensures s st Reading
      → ((a : A) (t : P2pState) → Reading t → Ensures t (next a) post)
      → Ensures s (and_then st next) post
  reading_then s st next post first rest =
      and_then-Runs _ _ s st next (λ a t. Reading t) _ first rest

  module _ (format_addr : Addr → Text) (parse_addr_port : Text → Option AddrPort) where
    serve-Reading :
        (c : Connected) (s : P2pState)
        → Quiet s
        → Ensures s (serve format_addr parse_addr_port f o c) Reading
    unfolding serve
    serve-Reading c s q0 = quiet_then _ _ _ _ (set_server_tls-Quiet s q0) (λ u s1 q1.
        quiet_then _ _ _ _ (expose_service-Quiet s1 q1) (λ v s2 q2.
          quiet_then _ _ _ _ (p2p_over-Quiet format_addr parse_addr_port c.transport s2 q2)
            (λ l s3 q3. reading_then _ _ _ _ (enable-Reading l s3 q3) (λ w s4 r4.
              reading_then _ _ _ _ (start_consumer-Reading f.consumes s4 r4)
                (λ i s5 r5. run_session-Reading c.addrs l i s5 r5)))))

    run_agent-Reading :
        (s : P2pState) → Quiet s → Ensures s (run_agent format_addr parse_addr_port f o) Reading
    unfolding run_agent
    run_agent-Reading s q0 = quiet_then _ _ _ _ (check_flags-Quiet s q0) (λ u s1 q1.
        quiet_then _ _ _ _ (first_dial-Quiet s1 q1) (λ quic s2 q2.
          quiet_then _ _ _ _ (fall_back-Quiet quic s2 q2) (λ c s3 q3. serve-Reading c s3 q3)))

    -- For any flags and outcomes, each call in main's trace finds the session's waiters as it needs
    -- them: Expose, the query of the address and SetLocalCandidates come while no reader runs and
    -- P2P is not enabled, EnableP2P is called once, and AcceptDirect, the consumer and
    -- RunWithReconnect come when just one reader runs, the consumer with the maps made of those
    -- who wait for an answer and for a stream's mode.
    pub main-IsOrdered :
        Allowed waiters_after WaiterNeeds initial (main format_addr parse_addr_port f o).0
    unfolding main exit_with initial
    main-IsOrdered =
        let quiet : Quiet initial = (refl, refl) in
        Allowed-if _ _ _ f.show_version ([], ok tt) (run_agent format_addr parse_addr_port f o) tt
          (run_agent-Reading initial quiet).allowed
