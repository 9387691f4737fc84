-- ===== src/Candidate/Tests.antt =====
-- Candidates at concrete addresses.
use mathlib.Core.List.{Perm}
use outrelay_agent.Base.{
  arith, ℕ, ◌+◌, ◌-◌, ◌*◌, ◌%◌, ◌^◌, ◌<◌, ◌≡◌, ◌≢◌, refl, true, Option, some, List, [], ◌∷◌, All,
  Text,
}
use outrelay_agent.Netip.{Addr, v4, v6, is6, is_private, is_global_unicast}
use outrelay_agent.Orp.{ObservedAddr, addr_resp_frame}
use outrelay_agent.Candidate.{
  Candidate, ip_net, other_addr, host_kind, srflx_kind, srflx_priority, host_priority,
  host_candidates, sink, sort_loop, sort,
}
use outrelay_agent.Candidate.Ranking.{
  private_lowest, ipv6_preferred, IsHost, host_candidates-IsHost,
}
use outrelay_agent.Candidate.Sorting.{IsRanked, of_priority, sort-IsRanked, sort-perm, sort-stable}
use outrelay_agent.Candidate.Unique.{by_priority, sort-by_priority}
use outrelay_agent.Candidate.Query.{
  arrived, request_id, request_id_nonzero, query_server_reflexive, query_server_reflexive_ok,
}

abbrev at : ℕ → ℕ → Candidate
at n priority = record {
  kind = host_kind;
  addr = record { addr = v4 n; port = 7445 };
  priority = priority;
}

abbrev three : List Candidate
three = at 1 30 ∷ at 2 70 ∷ at 3 30 ∷ []

sorted_three : sort three ≡ at 2 70 ∷ at 1 30 ∷ at 3 30 ∷ []
unfolding sort sort_loop sink
sorted_three = refl

sort-by_priority_example : sort three ≡ by_priority 100 three
sort-by_priority_example =
    sort-by_priority 100 three (omega arith, (omega arith, (omega arith, tt)))

applied_sort-IsRanked : IsRanked (sort three)
applied_sort-IsRanked = sort-IsRanked three

applied_sort_perm : Perm (sort three) three
applied_sort_perm = sort-perm three

applied_sort-stable : of_priority 30 (sort three) ≡ of_priority 30 three
applied_sort-stable = sort-stable three 30

applied_private_lowest : host_priority (v4 0x0a000001) < host_priority (v4 0x08080808)
unfolding is6 is_private
applied_private_lowest = private_lowest (v4 0x0a000001) (v4 0x08080808) refl refl refl

applied_ipv6_preferred : host_priority (v6 (0x2001 * 2 ^ 112)) ≡ host_priority (v4 0x08080808) + 10
unfolding is6 is_private is_global_unicast
applied_ipv6_preferred = ipv6_preferred (v4 0x08080808) (v6 (0x2001 * 2 ^ 112)) refl refl refl refl

applied_host_candidates : All (IsHost 7445) (
    host_candidates
      (some (
        other_addr
        ∷ ip_net (some (127 ∷ 0 ∷ 0 ∷ 1 ∷ []))
        ∷ ip_net (some (8 ∷ 8 ∷ 8 ∷ 8 ∷ []))
        ∷ []))
      7445)
applied_host_candidates =
    host_candidates-IsHost
      (some (
        other_addr
        ∷ ip_net (some (127 ∷ 0 ∷ 0 ∷ 1 ∷ []))
        ∷ ip_net (some (8 ∷ 8 ∷ 8 ∷ 8 ∷ []))
        ∷ []))
      7445

-- Stands for a parser that reads every text as 8.8.8.8.
abbrev parse_test : Text → Option Addr
parse_test s = some (v4 0x08080808)

abbrev response : ObservedAddr
response = record { request_id = 5; ip = []; port = 40000 }

abbrev observed : Candidate
observed = record {
  kind = srflx_kind;
  addr = record { addr = v4 0x08080808; port = 40000 };
  priority = srflx_priority;
}

applied_request_id_nonzero : request_id (2 ^ 64 - 1) 6 ≢ 0
applied_request_id_nonzero = request_id_nonzero (2 ^ 64 - 1) 6

applied_query_server_reflexive_ok :
    (r : ObservedAddr) × (arrived (some (addr_resp_frame response))
      ≡ arrived (some (addr_resp_frame r)))
    × (r.request_id ≡ request_id 4 0)
    × (parse_test r.ip ≡ some (v4 0x08080808))
    × (40000 ≡ r.port % 2 ^ 16)
    × (srflx_kind ≡ srflx_kind)
    × (srflx_priority ≡ srflx_priority)
unfolding query_server_reflexive request_id
applied_query_server_reflexive_ok =
    query_server_reflexive_ok parse_test 4 0 true (arrived (some (addr_resp_frame response)))
      observed refl
