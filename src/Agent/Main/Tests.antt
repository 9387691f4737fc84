-- ===== src/Agent/Main/Tests.antt =====
-- main on concrete flags and outcomes.
use outrelay_agent.Base.{
  arith, if◌then◌else◌, ◌==◌, ◌≡◌, refl, true, false, Bool, Option, some, none, List, [], ◌∷◌, ◌++◌,
  Text,
}
use outrelay_agent.Strings.{split, trim_space}
use outrelay_agent.Netip.{Addr, AddrPort, zero_addr, v4, v6, is_valid}
use outrelay_agent.Orp.{register_ack_frame}
use outrelay_agent.Candidate.{Candidate, ip_net, srflx_kind, host_candidates, sort}
use outrelay_agent.Session.Opening.{await_ack}
use outrelay_agent.Session.Waiters.{initial}
use outrelay_agent.P2p.Promoter.{to_pb}
use outrelay_agent.Agent.Main.{
  Flags, Transport, shared, per_dial, tcp, bound_shared, closed_shared, dialled, set_forward_tls,
  exposed, enabled_p2p, intercepting, consuming, running, closed_interceptor, closed_session,
  Outcomes, is_set, main, addresses, advertised, to_pb_candidates,
}
use outrelay_agent.Agent.Main.Stages.{Allowed, after_all}
use outrelay_agent.Agent.Main.Order.{waiters_after, WaiterNeeds, main-IsOrdered}
use outrelay_agent.Agent.Main.Held.{held_after, HeldNeeds, Released, nothing_held}
use outrelay_agent.Agent.Main.Sockets.{main-IsAllowed, main-releases}
use outrelay_agent.Agent.Main.Advertised.{to_pb_candidates-agrees}
use outrelay_agent.Agent.Main.Published.{published_after, PeerNeeds, main-Publishes}

-- Stand for `Addr.String` and `netip.ParseAddrPort`.
abbrev format_test : Addr → Text
format_test a = b'8' ∷ []

abbrev test_port : AddrPort
test_port = record { addr = v4 0x08080808; port = 7445 }

abbrev parse_test : Text → Option AddrPort
parse_test t = some test_port

abbrev test_flags : (relay p2p_listen relay_tcp : Text) → Flags
test_flags relay p2p_listen relay_tcp = record {
  relay = relay;
  cert = b'c' ∷ [];
  key = b'k' ∷ [];
  ca = b'a' ∷ [];
  uri = b'u' ∷ [];
  expose_service = b's' ∷ [];
  expose_target = b't' ∷ [];
  p2p_listen = p2p_listen;
  p2p_advertise = [];
  relay_tcp = relay_tcp;
  consumes = (b's' ∷ []) ∷ [];
  show_version = false;
}

abbrev test_outcomes : (Transport → List Text → Bool) → Outcomes
test_outcomes dials = record {
  parses_uri = true;
  loads_client_tls = true;
  binds = true;
  dials = dials;
  loads_forward_tls = true;
  register_written = true;
  register_reply = some register_ack_frame;
  loads_listener_tls = true;
  listens = some 7445;
  interface_addrs = some (ip_net (some (10 ∷ 0 ∷ 0 ∷ 1 ∷ [])) ∷ []);
  srflx = some (record { kind = srflx_kind; addr = test_port; priority = 20 });
  intercepts = true;
  runs = true;
}

abbrev all_dial : Transport → List Text → Bool
all_dial t addrs = true

-- UDP is blocked.
abbrev only_tcp : Transport → List Text → Bool
only_tcp shared addrs = false
only_tcp per_dial addrs = false
only_tcp tcp addrs = true

abbrev direct : Flags
direct = test_flags (b'r' ∷ []) (b'0' ∷ []) []

abbrev fallen_back : Flags
fallen_back = test_flags (b'r' ∷ []) (b'0' ∷ []) (b'q' ∷ [])

main-IsOrdered_example :
    Allowed waiters_after WaiterNeeds initial
      (main format_test parse_test direct (test_outcomes all_dial)).0
main-IsOrdered_example = main-IsOrdered direct (test_outcomes all_dial) format_test parse_test

main-IsAllowed_example :
    Allowed held_after HeldNeeds nothing_held
      (main format_test parse_test fallen_back (test_outcomes only_tcp)).0
main-IsAllowed_example = main-IsAllowed fallen_back (test_outcomes only_tcp) format_test parse_test

fallback_trace : main format_test parse_test fallen_back (test_outcomes only_tcp) ≡ (
  bound_shared
      ∷ dialled shared ((b'r' ∷ []) ∷ []) false
      ∷ closed_shared
      ∷ dialled tcp ((b'q' ∷ []) ∷ []) true
      ∷ set_forward_tls
      ∷ exposed (b's' ∷ []) (b't' ∷ [])
      ∷ enabled_p2p
      ∷ intercepting
      ∷ consuming
      ∷ running ((b'q' ∷ []) ∷ [])
      ∷ closed_interceptor
      ∷ closed_session
      ∷ [],
  0,
)
unfolding main addresses split trim_space await_ack
fallback_trace = refl

main-releases_example : Released (
    after_all held_after HeldNeeds nothing_held
      (main format_test parse_test direct (test_outcomes all_dial)).0)
unfolding main await_ack
main-releases_example = main-releases direct (test_outcomes all_dial) format_test parse_test refl

to_pb_candidates-agrees_example :
    to_pb_candidates format_test (advertised test_port ∷ [])
    ≡ to_pb format_test (λ t. none) (advertised test_port ∷ [])
to_pb_candidates-agrees_example =
    to_pb_candidates-agrees format_test (λ t. none) (advertised test_port ∷ [])

-- Any two functions that read back what they write.
write_addr : Addr → Text
write_addr zero_addr = []
write_addr (v4 n) = 4 ∷ n ∷ []
write_addr (v6 n) = 6 ∷ n ∷ []

read_addr : Text → Option Addr
read_addr (k ∷ n ∷ []) = if k == 4 then some (v4 n) else some (v6 n)
read_addr _ = none

reads_back : (x : Addr) → is_valid x ≡ true → read_addr (write_addr x) ≡ some x
unfolding read_addr write_addr is_valid
reads_back zero_addr e = cc
reads_back (v4 n) e = refl
reads_back (v6 n) e = refl

abbrev advertising : Flags
advertising = record direct { p2p_advertise = b'8' ∷ [] }

abbrev seen : Candidate
seen = record { kind = srflx_kind; addr = test_port; priority = 20 }

main-Publishes_example :
    Allowed published_after
      (PeerNeeds write_addr read_addr (
        advertised test_port
          ∷ sort (host_candidates (some (ip_net (some (10 ∷ 0 ∷ 0 ∷ 1 ∷ [])) ∷ [])) 7445)
        ++ seen ∷ []))
      false
      (main write_addr parse_test advertising (test_outcomes all_dial)).0
unfolding is_valid is_set
main-Publishes_example =
    main-Publishes write_addr read_addr parse_test advertising (test_outcomes all_dial) 7445
      test_port seen refl refl refl refl refl reads_back (omega arith)
      ((refl, omega arith), ((refl, omega arith), tt))
