-- ===== src/Intercept/Dns/Tests.antt =====
-- A server with the suffix ".outrelay" in front of the pool of 10.0.0.0/30.
use outrelay_agent.Base.{
  ℕ, Bool, ◌≡◌, ◌≢◌, refl, none, some, ok, Text, [], ◌∷◌, ◌++◌, arith, nat_eq, text_eq,
}
use outrelay_agent.Base.Map.{lookup as map_lookup, insert}
use outrelay_agent.Netip.{contains_v4, next_v4}
use outrelay_agent.Strings.{lower_code, to_lower, has_prefix, trim_space, is_space, skip_space}
use outrelay_agent.Strings.Laws.{IsLowerTable}
use outrelay_agent.Intercept.Vip.{
  VipAllocator, allocate, allocate_loop, advance, install, is_taken, is_usable, empty_pool,
  lookup_name,
}
use outrelay_agent.Intercept.Vip.Invariant.{IsWf, empty_pool-IsWf, allocate-IsWf}
use outrelay_agent.Intercept.Dns.{
  DnsServer, Header, Question, Message, Wire, lookup, new_dns_server, dotted, normal_suffix,
  respond,
}
use outrelay_agent.Intercept.Dns.Names.{
  IsNormal, new_dns_server-IsNormal, lookup_case, lookup_qualified, mixed_case_unreachable,
  bare_name_unresolved,
}
use outrelay_agent.Intercept.Dns.Answers.{Answers, respond-Answers, as4_value, be_value}
use outrelay_agent.Intercept.Dns.{as4}
use outrelay_agent.Intercept.Dns.Serving.{Received, datagram, timed_out, closed_socket, run}
use outrelay_agent.Intercept.Dns.Serving.Replies.{
  sent_for, reply, run-replies, none_yet, and_timeout,
}

abbrev ascii : ℕ → ℕ
ascii c = c

ascii-IsLowerTable : IsLowerTable ascii
unfolding lower_code
ascii-IsLowerTable = record { stable = λ c h. ground arith; no_dot = λ c h e. omega arith }

abbrev pay : Text
pay = b'p' ∷ b'a' ∷ b'y' ∷ []

abbrev shouted : Text
shouted = b'P' ∷ b'A' ∷ b'Y' ∷ []

abbrev outrelay : Text
outrelay = b'.' ∷ b'o' ∷ b'r' ∷ []

abbrev first_vip : ℕ
first_vip = 0x0a000001

abbrev pool : VipAllocator
pool = empty_pool 0x0a000000 30

abbrev pool_with : Text → VipAllocator
pool_with name = install (advance pool first_vip) name first_vip

abbrev server : Text → DnsServer
server name = record { listen_addr = []; suffix = outrelay; alloc = pool_with name }

shouted_allocation : allocate pool shouted ≡ some (pool_with shouted, ok first_vip)
unfolding allocate allocate_loop advance install is_taken map_lookup insert is_usable contains_v4
    next_v4 empty_pool
shouted_allocation = refl

shouted-IsWf : IsWf (pool_with shouted)
shouted-IsWf =
    allocate-IsWf pool shouted (pool_with shouted) (ok first_vip)
      (empty_pool-IsWf 0x0a000000 30 (omega arith)) shouted_allocation

built : new_dns_server ascii [] (b' ' ∷ b'O' ∷ b'r' ∷ []) (some (pool_with pay)) ≡ ok (server pay)
unfolding new_dns_server normal_suffix dotted to_lower lower_code trim_space skip_space is_space
    has_prefix
built = refl

server-IsNormal : IsNormal ascii (server pay)
server-IsNormal =
    (new_dns_server-IsNormal ascii ascii-IsLowerTable [] (b' ' ∷ b'O' ∷ b'r' ∷ []) (pool_with pay)
      (server pay) built).0

applied_new_dns_server_isnormal : IsNormal ascii (server pay) × ((server pay).alloc ≡ pool_with pay)
applied_new_dns_server_isnormal =
    new_dns_server-IsNormal ascii ascii-IsLowerTable [] (b' ' ∷ b'O' ∷ b'r' ∷ []) (pool_with pay)
      (server pay) built

applied_lookup_case :
    lookup ascii (server pay) (shouted ++ outrelay) ≡ lookup ascii (server pay) (pay ++ outrelay)
unfolding to_lower lower_code
applied_lookup_case =
    lookup_case ascii ascii-IsLowerTable (server pay) (shouted ++ outrelay) (pay ++ outrelay) refl

applied_lookup_qualified :
    lookup ascii (server pay) ((pay ++ outrelay) ++ b'.' ∷ []) ≡ lookup_name (pool_with pay) pay
unfolding to_lower lower_code
applied_lookup_qualified =
    lookup_qualified ascii ascii-IsLowerTable (server pay) pay server-IsNormal (λ e. cc) refl

mixed_case_unreachable_example :
    lookup ascii (server shouted) (shouted ++ outrelay) ≢ some first_vip
unfolding to_lower lower_code lookup_name install advance insert map_lookup empty_pool
mixed_case_unreachable_example =
    mixed_case_unreachable ascii ascii-IsLowerTable (server shouted) shouted first_vip shouted-IsWf
      (λ e. ground arith) refl (shouted ++ outrelay)

applied_bare_name_unresolved : lookup ascii (server pay) pay ≡ none
applied_bare_name_unresolved =
    bare_name_unresolved ascii ascii-IsLowerTable (server pay) pay server-IsNormal (λ e. cc)
      (omega arith, (omega arith, (omega arith, tt)))

abbrev request : Header
request = record { id = 7; recursion_desired = Bool.true }

abbrev a_question : Question
a_question = record { name = pay; qtype = 1; qclass = 1 }

-- Stands for a parser that reads every query as that question, and a packer that sends the id.
abbrev fixed_wire : Wire
fixed_wire = record {
  start = λ q. some request;
  question = λ q. some a_question;
  pack = λ m. some (m.id ∷ []);
}

applied_respond-Answers :
    (m : Message) × Answers ascii (server pay) request a_question m
    × (respond ascii (server pay) fixed_wire [] ≡ some (m.id ∷ []))
applied_respond-Answers =
    respond-Answers ascii (server pay) fixed_wire [] request a_question refl refl

applied_as4_value : be_value (as4 first_vip) 0 ≡ first_vip
applied_as4_value = as4_value first_vip (omega arith)

abbrev asked : Received
asked = datagram (pool_with pay) [] 9

run-replies_example :
    (m : Message) × Answers ascii (server pay) request a_question m
    × (sent_for ascii fixed_wire (server pay) (timed_out ∷ asked ∷ closed_socket ∷ [])
        ≡ sent_for ascii fixed_wire (server pay) (timed_out ∷ [])
          ++ (reply 9 (some (m.id ∷ []))
              ++ sent_for ascii fixed_wire (server pay) (closed_socket ∷ [])))
run-replies_example =
    run-replies ascii fixed_wire (server pay) (timed_out ∷ []) (closed_socket ∷ []) (pool_with pay)
      [] 9 request a_question (and_timeout none_yet) refl refl

not_bound : (run ascii fixed_wire (server pay) Bool.false (asked ∷ [])).sent ≡ []
unfolding run
not_bound = refl
