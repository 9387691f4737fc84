-- ===== src/Agent/Main.antt =====
-- cmd/outrelay-agent/main.go: main, as the trace of its calls and its exit code. The flags are given,
-- and so are the outcomes of the calls: DialAnyHappy's are those of Session/Dialing.
pub mod Stages
pub mod Order
pub mod Held
pub mod Sockets
pub mod Advertised
pub mod Published
mod Tests
use outrelay_agent.Base.{
  ℕ, Bool, true, false, ◌||◌, ◌&&◌, not, if◌then◌else◌, Option, none, some, Result, ok, err, List,
  [], ◌∷◌, ◌++◌, Text, text_beq, map,
}
use outrelay_agent.Strings.{split, trim_space}
use outrelay_agent.Netip.{Addr, AddrPort}
use outrelay_agent.Orp.{Frame, PbCandidate}
use outrelay_agent.Candidate.{Candidate, InterfaceAddr, host_kind, host_candidates}
use outrelay_agent.Session.Opening.{ExposeError, await_ack}

pub record Flags : Type 0 where
  pub relay : Text
  pub cert : Text
  pub key : Text
  pub ca : Text
  pub uri : Text
  pub expose_service : Text
  pub expose_target : Text
  pub p2p_listen : Text
  pub p2p_advertise : Text
  pub relay_tcp : Text
  pub consumes : List Text
  pub show_version : Bool

-- The shared UDP socket, a socket for each dial, or TCP.
pub data Transport : Type 0 where
  shared per_dial tcp : Transport

-- Each call that main makes and that changes something outside of it. A dial has succeeded or not.
pub data Action : Type 0 where
  bound_shared closed_shared : Action
  dialled : Transport → List Text → Bool → Action
  set_forward_tls : Action
  exposed : (name target : Text) → Action
  set_dialer : Action
  listened queried : Action
  set_locals : List PbCandidate → Action
  enabled_p2p accepting_direct : Action
  intercepting consuming : Action
  running : List Text → Action
  closed_interceptor closed_listener closed_session : Action

-- The outcomes of the calls; the key files are read anew for each listener. `register_written` and
-- `register_reply` are those of Expose, `listens` is the listener's port, and `runs` is whether
-- RunWithReconnect returns no error but that of a cancelled context.
pub record Outcomes : Type 0 where
  pub parses_uri : Bool
  pub loads_client_tls : Bool
  pub binds : Bool
  pub dials : Transport → List Text → Bool
  pub loads_forward_tls : Bool
  pub register_written : Bool
  pub register_reply : Option Frame
  pub loads_listener_tls : Bool
  pub listens : Option ℕ
  pub interface_addrs : Option (List InterfaceAddr)
  pub srflx : Option Candidate
  pub intercepts : Bool
  pub runs : Bool

abbrev pub Done : Type 0
Done = Unit {0}

-- What is done, and then the exit code or the value to go on with.
abbrev pub Stage : Type 0 → Type 0
Stage A = List Action × Result ℕ A

pub and_then : {A B : Type 0} → Stage A → (A → Stage B) → Stage B
and_then (acts, err code) next = (acts, err code)
and_then (acts, ok a) next = (acts ++ (next a).0, (next a).1)

pub doing : {A : Type 0} → Action → Stage A → Stage A
doing a st = (a ∷ st.0, st.1)

pub is_set : Text → Bool
is_set t = not (text_beq t [])

-- The addresses of a list that is separated by commas.
unfoldable pub addresses : Text → List Text
addresses t = map trim_space (split t b',')

pub check_flags : Flags → Outcomes → Stage Done
unfolding is_set
check_flags f o =
    if not (is_set f.cert && is_set f.key && is_set f.ca && is_set f.uri)
    then ([], err 2)
    else if not o.parses_uri
    then ([], err 2)
    else if not o.loads_client_tls
    then ([], err 1)
    else ([], ok tt)

-- What the dial leaves: the transport, and the addresses for Reconnect.
pub record Connected : Type 0 where
  pub transport : Transport
  pub addrs : List Text

-- The first dial, over QUIC; `none` goes on to TCP.
pub dial_quic : Flags → Outcomes → Transport → Stage (Option Connected)
unfolding is_set addresses doing
dial_quic f o t =
    if o.dials t (addresses f.relay)
    then doing (dialled t (addresses f.relay) true)
        ([], ok (some (record { transport = t; addrs = addresses f.relay })))
    else doing (dialled t (addresses f.relay) false)
        (if is_set f.relay_tcp then ([], ok none) else ([], err 1))

pub first_dial : Flags → Outcomes → Stage (Option Connected)
unfolding dial_quic is_set doing
first_dial f o =
    if is_set f.p2p_listen
    then (if o.binds then doing bound_shared (dial_quic f o shared) else ([], err 1))
    else dial_quic f o per_dial

pub dial_tcp : Flags → Outcomes → Stage Connected
unfolding addresses doing
dial_tcp f o =
    if o.dials tcp (addresses f.relay_tcp)
    then doing (dialled tcp (addresses f.relay_tcp) true)
        ([], ok (record { transport = tcp; addrs = addresses f.relay_tcp }))
    else doing (dialled tcp (addresses f.relay_tcp) false) ([], err 1)

-- The fallback to TCP lets go of the shared socket first.
pub fall_back : Flags → Outcomes → Option Connected → Stage Connected
unfolding dial_tcp is_set doing
fall_back f o (some c) = ([], ok c)
fall_back f o none =
    if is_set f.p2p_listen then doing closed_shared (dial_tcp f o) else dial_tcp f o

pub set_server_tls : Outcomes → Stage Done
unfolding doing
set_server_tls o = if o.loads_forward_tls then doing set_forward_tls ([], ok tt) else ([], err 1)

pub exit_if : Option ExposeError → Stage Done
exit_if none = ([], ok tt)
exit_if (some e) = ([], err 1)

pub expose_one : Outcomes → (name target : Text) → Stage Done
unfolding doing exit_if
expose_one o name target =
    doing (exposed name target) (exit_if (await_ack o.register_written o.register_reply))

pub expose_service : Flags → Outcomes → Stage Done
unfolding expose_one is_set
expose_service f o =
    if is_set f.expose_service
    then (if is_set f.expose_target
        then expose_one o f.expose_service f.expose_target
        else ([], err 2))
    else ([], ok tt)

-- The address of --p2p-advertise, as a candidate.
abbrev pub advertised : AddrPort → Candidate
advertised a = record { kind = host_kind; addr = a; priority = 100 }

-- The host candidates, with the relay's view of the agent in front of them if there is one.
unfoldable pub discovered : Outcomes → ℕ → List Candidate
discovered o port = elim o.srflx [
  | none ↦ host_candidates o.interface_addrs port
  | some c ↦ c ∷ host_candidates o.interface_addrs port
]

pub with_address : List Candidate → Option AddrPort → Stage (List Candidate)
with_address locals none = ([], err 2)
with_address locals (some a) = ([], ok (advertised a ∷ locals))

-- EnableP2P, and AcceptDirect if there is a listener.
pub enable : Bool → Stage Done
unfolding doing
enable true = doing enabled_p2p (doing accepting_direct ([], ok tt))
enable false = doing enabled_p2p ([], ok tt)

-- The result is whether there is an interceptor.
pub start_consumer : Outcomes → List Text → Stage Bool
unfolding doing
start_consumer o [] = ([], ok false)
start_consumer o (c ∷ cs) =
    if o.intercepts then doing intercepting (doing consuming ([], ok true)) else ([], err 1)

-- The deferred calls, the last one first.
pub close_rest : (listener : Bool) → Stage Done
unfolding doing
close_rest true = doing closed_listener (doing closed_session ([], ok tt))
close_rest false = doing closed_session ([], ok tt)

pub tear_down : (listener interceptor : Bool) → Stage Done
unfolding close_rest doing
tear_down listener true = doing closed_interceptor (close_rest listener)
tear_down listener false = close_rest listener

-- RunWithReconnect; os.Exit makes no deferred call.
pub run_session : Outcomes → List Text → (listener interceptor : Bool) → Stage Done
unfolding tear_down doing
run_session o addrs listener interceptor =
    doing (running addrs) (if o.runs then tear_down listener interceptor else ([], err 1))

pub exit_code : Result ℕ Done → ℕ
exit_code (ok u) = 0
exit_code (err code) = code

pub exit_with : Stage Done → List Action × ℕ
unfolding exit_code
exit_with st = (st.0, exit_code st.1)

-- `Addr.String`.
module _ (format_addr : Addr → Text) where
  unfoldable pub to_pb_loop : List Candidate → List PbCandidate → List PbCandidate
  to_pb_loop [] out = out
  to_pb_loop (c ∷ cs) out = to_pb_loop cs (
      out
      ++ record {
        kind = c.kind;
        ip = format_addr c.addr.addr;
        port = c.addr.port;
        priority = c.priority;
      }
        ∷ [])

  unfoldable pub to_pb_candidates : List Candidate → List PbCandidate
  unfolding to_pb_loop
  to_pb_candidates cs = to_pb_loop cs []

-- `Addr.String` and `netip.ParseAddrPort`.
module _ (format_addr : Addr → Text) (parse_addr_port : Text → Option AddrPort) where
  advertise : Flags → List Candidate → Stage (List Candidate)
  unfolding is_set with_address
  advertise f locals =
      if is_set f.p2p_advertise
      then with_address locals (parse_addr_port f.p2p_advertise)
      else ([], ok locals)

  -- Behind Listen: the query and the candidates. The result is that there is a listener.
  publish : Flags → Outcomes → Option ℕ → Stage Bool
  unfolding discovered advertise to_pb_candidates and_then doing
  publish f o none = ([], err 1)
  publish f o (some port) = doing listened (
      doing queried (
        and_then (advertise f (discovered o port))
          (λ locals. doing (set_locals (to_pb_candidates format_addr locals)) ([], ok true))))

  listen : Flags → Outcomes → Stage Bool
  unfolding publish
  listen f o = if o.loads_listener_tls then publish f o o.listens else ([], err 1)

  -- The engine dials from the shared socket, and the listener is on it.
  p2p_over : Flags → Outcomes → Transport → Stage Bool
  unfolding listen doing
  p2p_over f o shared = doing set_dialer (listen f o)
  p2p_over f o per_dial = ([], ok false)
  p2p_over f o tcp = ([], ok false)

  -- Behind the dial.
  serve : Flags → Outcomes → Connected → Stage Done
  unfolding set_server_tls expose_service p2p_over enable start_consumer run_session and_then doing
  serve f o c = and_then (set_server_tls o) (λ (u : Done).
      and_then (expose_service f o) (λ (v : Done). and_then (p2p_over f o c.transport) (λ listener.
        and_then (enable listener) (λ (w : Done).
          and_then (start_consumer o f.consumes)
            (λ interceptor. run_session o c.addrs listener interceptor)))))

  run_agent : Flags → Outcomes → Stage Done
  unfolding check_flags first_dial fall_back serve and_then
  run_agent f o = and_then (check_flags f o) (λ (u : Done).
      and_then (first_dial f o) (λ quic. and_then (fall_back f o quic) (λ c. serve f o c)))

  -- The trace, and the exit code.
  unfoldable pub main : Flags → Outcomes → List Action × ℕ
  unfolding run_agent exit_with
  main f o = exit_with (if f.show_version then ([], ok tt) else run_agent f o)
