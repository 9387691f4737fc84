-- ===== src/Intercept/Dns/Serving.antt =====
-- pkg/intercept/dns.go: Run, over what ReadFrom returns call by call. The allocator is the one that
-- the server reads at that time; a sender is a number.
pub mod Replies
use outrelay_agent.Base.{ℕ, Bool, true, false, Option, none, some, List, [], ◌∷◌, if◌then◌else◌}
use outrelay_agent.Intercept.Vip.{VipAllocator}
use outrelay_agent.Intercept.Dns.{DnsServer, Wire, respond}

-- A datagram and its sender; or an error: the deadline of a second, the closed socket, another one.
pub data Received : Type 0 where
  datagram : (alloc : VipAllocator) → (query : List ℕ) → (sender : ℕ) → Received
  timed_out closed_socket read_failed : Received

pub data RunResult : Type 0 where
  serving stopped listen_error read_error : RunResult

-- The datagrams that are sent, each with its receiver, and how Run has ended, if it has.
pub record Replied : Type 0 where
  pub sent : List (List ℕ × ℕ)
  pub result : RunResult

module _ (fold : ℕ → ℕ) (wire : Wire) where
  reply_to : ℕ → Option (List ℕ) → Replied → Replied
  reply_to sender none rest = rest
  reply_to sender (some resp) rest = record rest { sent = (resp, sender) ∷ rest.sent }

  -- The list ends where ReadFrom waits.
  serve_loop : DnsServer → List Received → Replied
  unfolding reply_to
  serve_loop s [] = record { sent = []; result = serving }
  serve_loop s (datagram alloc query sender ∷ more) =
      reply_to sender (respond fold (record s { alloc = alloc }) wire query) (serve_loop s more)
  serve_loop s (timed_out ∷ more) = serve_loop s more
  serve_loop s (closed_socket ∷ more) = record { sent = []; result = stopped }
  serve_loop s (read_failed ∷ more) = record { sent = []; result = read_error }

  -- `binds` is whether ListenPacket succeeds.
  unfoldable pub run : DnsServer → Bool → List Received → Replied
  unfolding serve_loop
  run s false reads = record { sent = []; result = listen_error }
  run s true reads = serve_loop s reads
