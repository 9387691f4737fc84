-- ===== src/Agent/Main/Sockets.antt =====
-- What main holds open, from its start to its end.
use outrelay_agent.Base.{
  ap, ℕ, ◌≡◌, refl, ◌∙◌, Bool, true, false, Option, none, some, ok, List, [], Text,
}
use outrelay_agent.Netip.{Addr, AddrPort}
use outrelay_agent.Candidate.{Candidate}
use outrelay_agent.Agent.Main.{
  Flags, Transport, shared, per_dial, tcp, Outcomes, Connected, exit_with, advertise, publish,
  listen, p2p_over, serve, run_agent, main, is_set,
}
use outrelay_agent.Agent.Main.Stages.{
  after_all, Allowed, goes_on, and_then-Runs, if-Runs, doing-Runs,
}
use outrelay_agent.Agent.Main.Held.{
  Held, held_after, socket_of, HeldNeeds, nothing_held, Released, Blank, Holds, Leaves, holds_then,
  stages, check_flags-Leaves, first_dial-Leaves, fall_back-Leaves, set_server_tls-Leaves,
  expose_service-Leaves, with_address-Leaves, enable-Leaves, start_consumer-Leaves,
  run_session-Leaves, returns_lem,
}

module _ (f : Flags) (o : Outcomes) where
  -- `Addr.String` and `netip.ParseAddrPort`.
  module _ (format_addr : Addr → Text) (parse_addr_port : Text → Option AddrPort) where
    advertise-Leaves :
        (locals : List Candidate) (c : Connected) (l i : Bool) (s : Held)
        → Holds c l i s
        → Leaves s (advertise format_addr parse_addr_port f locals) (λ u t. Holds c l i t)
    unfolding advertise
    advertise-Leaves locals c l i s q =
        if-Runs _ _ s (is_set f.p2p_advertise) _ _ _ (with_address-Leaves f o _ _ c l i s q)
          (goes_on _ _ _ _ _ q)

    publish-Leaves :
        (p : Option ℕ) (c : Connected) (s : Held)
        → Holds c false false s
        → c.transport ≡ shared
        → Leaves s (publish format_addr parse_addr_port f o p) (λ l t. Holds c l false t)
    unfolding publish held_after
    publish-Leaves none c s q e = search stages
    publish-Leaves (some p) c s q e =
        doing-Runs _ _ _ _ _ _ (q.1 ∙ ap socket_of e, q.2)
          (doing-Runs _ _ _ _ _ _ (c, q.0)
            (and_then-Runs _ _ _ _ _ (λ locals t. Holds c true false t) _
              (advertise-Leaves _ c true false _ (q.0, q.1, refl, q.3))
              (λ locals t h. doing-Runs _ _ _ _ _ _ (c, h.0) (goes_on _ _ _ _ _ h))))

    listen-Leaves :
        (c : Connected) (s : Held)
        → Holds c false false s
        → c.transport ≡ shared
        → Leaves s (listen format_addr parse_addr_port f o) (λ l t. Holds c l false t)
    unfolding listen
    listen-Leaves c s q e = search (stages, publish-Leaves)

    p2p_over-Leaves :
        (t : Transport) (c : Connected) (s : Held)
        → Holds c false false s
        → c.transport ≡ t
        → Leaves s (p2p_over format_addr parse_addr_port f o t) (λ l t. Holds c l false t)
    unfolding p2p_over held_after
    p2p_over-Leaves shared c s q e =
        doing-Runs _ _ _ _ _ _ (q.1 ∙ ap socket_of e) (listen-Leaves c s q e)
    p2p_over-Leaves per_dial c s q e = goes_on _ _ _ _ _ q
    p2p_over-Leaves tcp c s q e = goes_on _ _ _ _ _ q

    serve-Leaves :
        (c : Connected) (s : Held)
        → Holds c false false s
        → Leaves s (serve format_addr parse_addr_port f o c) (λ u t. Released t)
    unfolding serve
    serve-Leaves c s q0 =
        holds_then _ _ _ _ _ _ _ (set_server_tls-Leaves f o c false false s q0) (λ u s1 q1.
          holds_then _ _ _ _ _ _ _ (expose_service-Leaves f o c false false s1 q1) (λ v s2 q2.
            and_then-Runs _ _ _ _ _ _ _ (p2p_over-Leaves c.transport c s2 q2 refl) (λ l s3 q3.
              holds_then _ _ _ _ _ _ _ (enable-Leaves f o c l false s3 q3) (λ w s4 q4.
                and_then-Runs _ _ _ _ _ _ _ (start_consumer-Leaves f o f.consumes c l s4 q4)
                  (λ i s5 q5. run_session-Leaves f o c l i s5 q5)))))

    run_agent-Leaves :
        (s : Held)
        → Blank s
        → Leaves s (run_agent format_addr parse_addr_port f o) (λ u t. Released t)
    unfolding run_agent
    run_agent-Leaves s q0 = and_then-Runs _ _ _ _ _ _ _ (check_flags-Leaves f o s q0) (λ u s1 q1.
        and_then-Runs _ _ _ _ _ _ _ (first_dial-Leaves f o s1 q1) (λ quic s2 q2.
          and_then-Runs _ _ _ _ _ _ _ (fall_back-Leaves f o quic s2 q2)
            (λ c s3 q3. serve-Leaves c s3 q3)))

    -- For any flags and outcomes, each call in main's trace finds open what it uses: a dial over
    -- the shared socket and the listener on it find it open, the fallback over TCP finds it closed
    -- again, RunWithReconnect is given the addresses of the dial that made the session, and nothing
    -- is opened or dialled twice or closed when it is not open.
    pub main-IsAllowed :
        Allowed held_after HeldNeeds nothing_held (main format_addr parse_addr_port f o).0
    unfolding main exit_with
    main-IsAllowed =
        (if-Runs _ _ _ f.show_version ([], ok tt) (run_agent format_addr parse_addr_port f o) _
          (goes_on _ _ _ _ _ (refl, refl, refl))
          (run_agent-Leaves nothing_held ((refl, refl, refl), refl))).allowed

    -- When main ends with exit code 0, it has closed the session, the listener and the interceptor
    -- again, if it had made them.
    pub main-releases :
        (main format_addr parse_addr_port f o).1 ≡ 0
        → Released
            (after_all held_after HeldNeeds nothing_held (main format_addr parse_addr_port f o).0)
    unfolding main exit_with
    main-releases e =
        returns_lem _ _ _
          (if-Runs _ _ _ f.show_version ([], ok tt) (run_agent format_addr parse_addr_port f o) _
            (goes_on _ _ _ _ _ (refl, refl, refl))
            (run_agent-Leaves nothing_held ((refl, refl, refl), refl)))
          e
