-- ===== src/Agent/Main/Published.antt =====
-- What a peer makes of the candidates that main gives to SetLocalCandidates.
use outrelay_agent.Base.{
  ℕ, ◌<◌, ◌^◌, ◌≡◌, refl, sym, subst, ap, ◌∙◌, Bool, true, false, Option, none, some, ok, List, [],
  ◌∷◌, ◌++◌, All, Text, arith,
}
use outrelay_agent.Netip.{Addr, AddrPort, is_valid}
use outrelay_agent.Candidate.{Candidate, srflx_priority, host_candidates, sort}
use outrelay_agent.Candidate.Ranking.{IsHost, host_candidates-IsHost}
use outrelay_agent.Session.Opening.{ExposeError}
use outrelay_agent.P2p.Promoter.{from_pb}
use outrelay_agent.P2p.Promoter.Wire.{IsSendable, from_pb-to_pb}
use outrelay_agent.Agent.Main.{
  Flags, Transport, shared, per_dial, tcp, Action, listened, queried, set_locals, accepting_direct,
  Outcomes, Stage, Connected, and_then, is_set, advertised, discovered, with_address, check_flags,
  dial_quic, first_dial, dial_tcp, fall_back, set_server_tls, exit_if, expose_one, expose_service,
  advertise, publish, listen, p2p_over, enable, start_consumer, run_session, serve, run_agent,
  exit_with, main, close_rest, tear_down, to_pb_candidates,
}
use outrelay_agent.Agent.Main.Advertised.{to_pb_candidates-agrees, advertised_order}
use outrelay_agent.Agent.Main.Stages.{
  Allowed, Runs, stops, goes_on, and_then-Runs, if-Runs, doing-Runs, Allowed-if,
}

-- Whether the candidates are published.
unfoldable pub published_after : Bool → Action → Bool
published_after s (set_locals cs) = true
published_after s _ = s

-- FromPB and Sort make `ranked` of what is published, and a direct connection is accepted only
-- behind it.
abbrev pub PeerNeeds :
    (Addr → Text) → (Text → Option Addr) → List Candidate → Bool → Action → Type 0
PeerNeeds format_addr parse_addr ranked s (set_locals cs) =
    sort (from_pb format_addr parse_addr cs) ≡ ranked
PeerNeeds format_addr parse_addr ranked s accepting_direct = s ≡ true
PeerNeeds format_addr parse_addr ranked s _ = Unit {0}

ruleset stages = (if-Runs, doing-Runs, stops, goes_on)

module _ (format_addr : Addr → Text) (parse_addr : Text → Option Addr)
    (parse_addr_port : Text → Option AddrPort) (f : Flags) (o : Outcomes) (port : ℕ) (a : AddrPort)
    (c : Candidate) where
  abbrev hosts : List Candidate
  hosts = host_candidates o.interface_addrs port

  abbrev ranked : List Candidate
  ranked = advertised a ∷ sort hosts ++ c ∷ []

  abbrev Ensures : {A : Type 0} → Bool → Stage A → (A → Bool → Type 0) → Type 0
  Ensures s st post = Runs published_after (PeerNeeds format_addr parse_addr ranked) s st post

  -- A stage that publishes nothing and accepts nothing.
  abbrev RunsOn : {A : Type 0} → Stage A → Type 0
  RunsOn {A} st = (s : Bool) → Ensures s st (λ (x : A) (t : Bool). Unit {0})

  publish_trace :
      is_set f.p2p_advertise ≡ true
      → parse_addr_port f.p2p_advertise ≡ some a
      → publish format_addr parse_addr_port f o (some port) ≡ (
        listened
            ∷ queried
            ∷ set_locals (to_pb_candidates format_addr (advertised a ∷ discovered o port))
            ∷ [],
        ok true,
      )
  unfolding publish advertise with_address
  publish_trace set parsed = rw (set, advertise, parsed) refl

  hosts-AreSendable :
      port < 2 ^ 16
      → ((x : Addr) → is_valid x ≡ true → parse_addr (format_addr x) ≡ some x)
      → (cs : List Candidate) → All (IsHost port) cs
      → All (IsSendable format_addr parse_addr) cs
  hosts-AreSendable low reads [] h = tt
  hosts-AreSendable low reads (d ∷ cs) h = (
    (reads d.addr.addr h.0.valid, omega (arith, low, h.0.at_port)),
    hosts-AreSendable low reads cs h.1,
  )

  any_then :
      {A B : Type 0} (st : Stage A) (next : A → Stage B)
      → RunsOn st
      → ((x : A) → RunsOn (next x))
      → RunsOn (and_then st next)
  any_then st next first rest s =
      and_then-Runs _ _ s st next (λ x t. Unit {0}) _ (first s) (λ x t q. rest x t)

  check_flags-Runs : RunsOn (check_flags f o)
  unfolding check_flags
  check_flags-Runs s = search stages

  dial_quic-Runs : (t : Transport) → RunsOn (dial_quic f o t)
  unfolding dial_quic published_after
  dial_quic-Runs t s = search stages

  first_dial-Runs : RunsOn (first_dial f o)
  unfolding first_dial published_after
  first_dial-Runs s = search (stages, dial_quic-Runs)

  dial_tcp-Runs : RunsOn (dial_tcp f o)
  unfolding dial_tcp published_after
  dial_tcp-Runs s = search stages

  fall_back-Runs : (q : Option Connected) → RunsOn (fall_back f o q)
  unfolding fall_back published_after
  fall_back-Runs (some q) s = search stages
  fall_back-Runs none s = search (stages, dial_tcp-Runs)

  set_server_tls-Runs : RunsOn (set_server_tls o)
  unfolding set_server_tls published_after
  set_server_tls-Runs s = search stages

  exit_if-Runs : (e : Option ExposeError) → RunsOn (exit_if e)
  unfolding exit_if
  exit_if-Runs (some e) s = search stages
  exit_if-Runs none s = search stages

  expose_service-Runs : RunsOn (expose_service f o)
  unfolding expose_service expose_one published_after
  expose_service-Runs s = search (stages, exit_if-Runs)

  start_consumer-Runs : (cs : List Text) → RunsOn (start_consumer o cs)
  unfolding start_consumer published_after
  start_consumer-Runs [] s = search stages
  start_consumer-Runs (x ∷ cs) s = search stages

  tear_down-Runs : (l i : Bool) → RunsOn (tear_down l i)
  unfolding tear_down close_rest published_after
  tear_down-Runs true true s = search stages
  tear_down-Runs true false s = search stages
  tear_down-Runs false true s = search stages
  tear_down-Runs false false s = search stages

  run_session-Runs : (addrs : List Text) (l i : Bool) → RunsOn (run_session o addrs l i)
  unfolding run_session published_after
  run_session-Runs addrs l i s = search (stages, tear_down-Runs)

  -- With a listener the candidates are published.
  abbrev Listens : Bool → Bool → Type 0
  Listens l t = l ≡ true → t ≡ true

  enable-Runs : (l s : Bool) → Listens l s → Ensures s (enable l) (λ x t. Unit {0})
  unfolding enable published_after
  enable-Runs true s h = doing-Runs _ _ _ _ _ _ tt (doing-Runs _ _ _ _ _ _ (h refl) (search stages))
  enable-Runs false s h = search stages

  module _ (set : is_set f.p2p_advertise ≡ true) (parsed : parse_addr_port f.p2p_advertise ≡ some a)
      (heard : o.listens ≡ some port) (seen : o.srflx ≡ some c) (low : c.priority ≡ srflx_priority)
      (reads : (x : Addr) → is_valid x ≡ true → parse_addr (format_addr x) ≡ some x)
      (port16 : port < 2 ^ 16)
      (valid : All
        (λ d. (is_valid d.addr.addr ≡ true) × (d.addr.port < 2 ^ 16))
        (advertised a ∷ c ∷ [])) where
    published_ranked :
        sort (
          from_pb format_addr parse_addr
            (to_pb_candidates format_addr (advertised a ∷ discovered o port)))
        ≡ ranked
    unfolding discovered
    published_ranked =
        let sendable : All (IsSendable format_addr parse_addr) (advertised a ∷ c ∷ hosts) = (
          (reads a.addr valid.0.0, valid.0.1),
          (
            (reads c.addr.addr valid.1.0.0, valid.1.0.1),
            hosts-AreSendable port16 reads hosts (host_candidates-IsHost o.interface_addrs port),
          ),
        ) in
        ap (λ ps. sort (from_pb format_addr parse_addr ps))
          (to_pb_candidates-agrees format_addr parse_addr (advertised a ∷ discovered o port))
        ∙ ap sort (
            from_pb-to_pb format_addr parse_addr (advertised a ∷ discovered o port)
              (rw seen sendable))
        ∙ advertised_order o port a c seen low

    publish-Listens :
        (s : Bool) → Ensures s (publish format_addr parse_addr_port f o o.listens) Listens
    unfolding published_after
    publish-Listens s =
        subst (λ (st : Stage Bool). Ensures s st Listens)
          (sym (ap (publish format_addr parse_addr_port f o) heard ∙ publish_trace set parsed))
          (record {
            allowed = (tt, (tt, (published_ranked, tt)));
            reaches = λ l e q. refl;
            fails = λ code e. cc;
          })

    p2p_over-Listens :
        (t : Transport) (s : Bool) → Ensures s (p2p_over format_addr parse_addr_port f o t) Listens
    unfolding p2p_over listen published_after
    p2p_over-Listens shared s = search (stages, publish-Listens)
    p2p_over-Listens per_dial s = goes_on _ _ _ _ _ (λ e. cc)
    p2p_over-Listens tcp s = goes_on _ _ _ _ _ (λ e. cc)

    serve-Runs : (q : Connected) → RunsOn (serve format_addr parse_addr_port f o q)
    unfolding serve
    serve-Runs q = any_then _ _ set_server_tls-Runs (λ u. any_then _ _ expose_service-Runs (λ v s.
        and_then-Runs _ _ s _ _ Listens _ (p2p_over-Listens q.transport s) (λ l s' h.
          and_then-Runs _ _ s' _ _ (λ x t. Unit {0}) _ (enable-Runs l s' h)
            (λ w t r.
              any_then _ _ (start_consumer-Runs f.consumes) (λ i. run_session-Runs q.addrs l i)
                t))))

    run_agent-Runs : RunsOn (run_agent format_addr parse_addr_port f o)
    unfolding run_agent
    run_agent-Runs =
        any_then _ _ check_flags-Runs (λ u.
          any_then _ _ first_dial-Runs (λ quic. any_then _ _ (fall_back-Runs quic) serve-Runs))

    -- With an address in --p2p-advertise, a listener's port and the relay's view of the agent (of the
    -- server-reflexive priority), valid addresses that read back, and ports of 16 bits: what FromPB
    -- and Sort make of each list that main gives to SetLocalCandidates is the advertised address
    -- first, the host candidates next, in their own order, and the relay's view last; and
    -- AcceptDirect is called only behind such a call.
    pub main-Publishes :
        Allowed published_after
          (PeerNeeds format_addr parse_addr ranked)
          false
          (main format_addr parse_addr_port f o).0
    unfolding main exit_with
    main-Publishes =
        Allowed-if _ _ _ f.show_version ([], ok tt) (run_agent format_addr parse_addr_port f o) tt
          (run_agent-Runs false).allowed
