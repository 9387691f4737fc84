-- ===== src/Lib.antt =====
-- A model of the agent of OutRelay (module github.com/boanlab/OutRelay-agent): it holds a QUIC
-- session to a relay, hands local traffic to streams on that session, and moves a stream to a
-- direct connection where it can.
--
-- How the parts interact. The interceptors name a service by a virtual address, from the allocator
-- that the DNS server reads. A session is dialled (one relay, or a race of several), reads its
-- control stream, and wraps each stream so that a Read or a Write waits while the transport is
-- replaced. A stream is opened by Dial or accepted by Run, and bridged to a local connection; where
-- the relay grants an allocation, the bridge runs over the forwarding plane instead. When the relay
-- is lost, Reconnect dials again and resumes the streams. To promote a stream, candidates are
-- gathered and exchanged on the control stream, the check dials the peer's, and the wrapper's inner
-- stream is swapped. The demoter watches the direct connection. Where UDP between the peers is
-- relayed, forward carries the packets.
--
-- Files and the code they are about (paths from the repository's root):
--   Base            shared names, maps as association lists, results, tests on the numbers
--   Netip           net/netip's addresses, as numbers, and their classes
--   Orp             the frames of lib/orp, without their wire format
--   Strings         the functions of Go's strings that the DNS server calls
--   Intercept/Vip   pkg/intercept/vip.go: VIPAllocator as a record of its two maps, prefix and
--                   cursor; Allocate, LookupName, Lookup, Len
--   Intercept/Dns   pkg/intercept/dns.go: NewDNSServer, respond, lookup; Serving has Run
--   Intercept/Explicit pkg/intercept/explicit.go: NewExplicit, acceptLoop, Close
--   Intercept/Tproxy pkg/intercept/tproxy_linux.go: origDst4 and acceptLoop
--   Candidate       pkg/candidate/candidate.go: HostCandidates, hostPriority, Sort; Query has
--                   QueryServerReflexive
--   Forward         pkg/forward/conn.go: Dial, register, WriteTo, ReadFrom
--   P2p/Check       pkg/p2p/check.go: Engine.Check
--   P2p/Promoter    pkg/p2p/promoter.go: Promoter.Run, toPB, FromPB
--   P2p/Demoter     pkg/p2p/demoter.go: Demoter.Run
--   Session/Stream  pkg/session/session.go: Read, Write and waitForResume of ResumableStream
--   Session/Wrapper pkg/session/session.go: wrapStream, SwapInner and markAbandoned
--   Session/Waiters pkg/session/promote.go: EnableP2P, the waiters for answers and stream modes;
--                   Reader has controlReader and warmupPunch, and applyCheckpoint of
--                   pkg/session/checkpoints.go
--   Session/Registry pkg/session/session.go: wrapStream, forgetStream, Close, ActiveStreams on the map
--                   of active streams and the store of their wrappers
--   Session/Opening pkg/session/session.go: Session.Dial, freshStreamID, Expose
--   Session/Incoming pkg/session/session.go: Run and handleIncoming, over the waiters, the active
--                   streams and the forward session
--   Session/Bridge  pkg/session/session.go: bridge, copyAndDone; bridge and halfCloseWrite of
--                   cmd/outrelay-agent/main.go; CloseWrite
--   Session/Forward pkg/session/forward.go: DialForward, AcceptForward, ForwardSession.Close
--   Session/Resume  pkg/session/session.go: Resume and completeResume; MigrateToDirect and
--                   handleDirectStream of pkg/session/promote.go; Direct has acceptDirectStreams
--   Session/Promotion pkg/session/promote.go: Promote, over the waiters for answers and P2p/Promoter
--   Session/Checkpoints pkg/session/checkpoints.go: emitOnce
--   Session/Dialing pkg/session/session.go: DialWithDialer, DialAny, DialAnyHappy, and the loops of
--                   RunWithReconnect
--   Session/Reconnect pkg/session/session.go: Reconnect, over Session/Resume and Session/Registry
--   Agent/Startup   cmd/outrelay-agent/main.go: startInterceptor, over the allocator and the name server
--   Agent/Consumer  cmd/outrelay-agent/main.go: runConsumer on one connection, over Session.Dial, the
--                   waiters and DialForward
--   Agent/Promoting cmd/outrelay-agent/main.go: tryPromote, over Session/Promotion and Session/Resume
--   Agent/Tls       cmd/outrelay-agent/main.go: loadClientTLS, loadServerTLS
--   Agent/Main      cmd/outrelay-agent/main.go: main, as the trace of its calls and its exit code, and
--                   toPBCandidates
-- In each, the file has the definitions, the modules below it the theorems, and Tests runs them on
-- concrete data.
--
-- How the code is read. Where a lock is held for the whole of an operation, the operation is one
-- function on the state. What the outside decides (the outcome of a dial, of a read, the clock, the
-- order of arrivals) is an argument: a list of rounds, a function that passes a world on, or an
-- order of events. A channel is a number, and the events say when it is closed. Text is a list of
-- code points. Times are milliseconds. Machine integers keep their wrap-around.
--
-- Fuel and bounds. The loop of Allocate runs on fuel 2^32 + 1, one more than there are IPv4
-- addresses: each round moves the cursor by one, so it leaves the prefix first. Read, Write and the
-- reconnect loop are structural in the list of their rounds, and give `none` where the list ends
-- before they do; the control reader waits at the end of its list of frames, and freshStreamID at
-- the end of the ids that are drawn. A trace of uses records what is opened and closed; Base/Usage
-- says what it leaves open.
--
-- Not modelled: AcceptDirect's loop over connections and the ticker of the checkpoints in
-- pkg/session, the selects of Accept in pkg/intercept, and in cmd/outrelay-agent the logger and the
-- signals. QUIC, TLS, protobuf, the resume buffer of lib/resume and the DNS message format are
-- outside the repository and are parameters. A connection in Incoming and Consumer is followed while
-- its wrapper keeps its inner stream; Resume and Reconnect have what replaces it. Its bridge may
-- wait for ever. Logging is left out throughout.
mod Base
pub mod Netip
pub mod Orp
pub mod Strings
pub mod Intercept
pub mod Candidate
pub mod Forward
pub mod P2p
pub mod Session
pub mod Agent
