-- ===== src/Agent/Main/Advertised.antt =====
-- The candidates that main publishes: --p2p-advertise, toPBCandidates.
use outrelay_agent.Candidate.Sorting.Kept.{sort-All}
use outrelay_agent.Base.{
  All-append, ℕ, ◌≤◌, ◌<◌, ◌≡◌, refl, sym, ap, ◌∙◌, List, [], ◌∷◌, ◌++◌, All, arith, ◌==◌,
  if◌then◌else◌, Option, some, Text,
}
use outrelay_agent.Netip.{Addr, AddrPort}
use outrelay_agent.Orp.{PbCandidate}
use outrelay_agent.Candidate.{Candidate, srflx_priority, host_candidates, sort}
use outrelay_agent.Candidate.Ranking.{IsHost, host_candidates-IsHost}
use outrelay_agent.Candidate.Sorting.{IsRanked, of_priority, sort-IsRanked, sort-stable}
use outrelay_agent.Candidate.Unique.{ranked_unique}
use outrelay_agent.P2p.Promoter
use outrelay_agent.P2p.Promoter.{to_pb, to_pb_one}
use outrelay_agent.Agent.Main.{Outcomes, advertised, discovered, to_pb_candidates, to_pb_loop}

module _ (format_addr : Addr → Text) (parse_addr : Text → Option Addr) where
  to_pb_loop-agrees :
      (cs : List Candidate) (out : List PbCandidate)
      → to_pb_loop format_addr cs out ≡ Promoter.to_pb_loop format_addr parse_addr cs out
  unfolding to_pb_loop Promoter.to_pb_loop to_pb_one
  to_pb_loop-agrees [] out = refl
  to_pb_loop-agrees (c ∷ cs) out =
      to_pb_loop-agrees cs (out ++ to_pb_one format_addr parse_addr c ∷ [])

  -- The candidates that main gives to SetLocalCandidates are those that a promoter's offer would
  -- carry: toPBCandidates and toPB are the same function.
  pub to_pb_candidates-agrees :
      (cs : List Candidate) → to_pb_candidates format_addr cs ≡ to_pb format_addr parse_addr cs
  unfolding to_pb_candidates to_pb
  to_pb_candidates-agrees cs = to_pb_loop-agrees cs []

-- Between the priorities of an advertised and of a server-reflexive candidate.
abbrev Between : Candidate → Type 0
Between c = (srflx_priority < c.priority) × (c.priority < 100)

host_candidates-Between : (port : ℕ) (cs : List Candidate) → All (IsHost port) cs → All Between cs
host_candidates-Between port [] h = tt
host_candidates-Between port (c ∷ cs) h =
    ((h.0.above_srflx, omega (arith, h.0.within)), host_candidates-Between port cs h.1)

below_advertised :
    (cs : List Candidate) (c : Candidate)
    → c.priority ≡ srflx_priority
    → All Between cs
    → All (λ d. d.priority ≤ 100) (cs ++ c ∷ [])
below_advertised [] c e h = (omega arith, tt)
below_advertised (d ∷ cs) c e h = (omega (arith, h.0.1), below_advertised cs c e h.1)

last-IsRanked :
    (cs : List Candidate) (c : Candidate)
    → c.priority ≡ srflx_priority
    → All Between cs
    → IsRanked cs
    → IsRanked (cs ++ c ∷ [])
last-IsRanked [] c e h r = (tt, tt)
last-IsRanked (d ∷ cs) c e h r = (
  All-append (λ x. x.priority ≤ d.priority) cs (c ∷ []) r.0 (omega (arith, e, h.0.0), tt),
  last-IsRanked cs c e h.1 r.1,
)

same_rest :
    (p : ℕ) (x : Candidate) (cs ds : List Candidate)
    → of_priority p cs ≡ of_priority p ds
    → of_priority p (x ∷ cs) ≡ of_priority p (x ∷ ds)
unfolding of_priority
same_rest p x cs ds e = ap (λ r. if x.priority == p then x ∷ r else r) e

last_in_order :
    (p : ℕ) (cs : List Candidate) (c : Candidate)
    → c.priority ≡ srflx_priority
    → All Between cs
    → of_priority p (cs ++ c ∷ []) ≡ of_priority p (c ∷ cs)
unfolding of_priority
last_in_order p [] c e h = refl
last_in_order p (d ∷ cs) c e h =
    let rest = last_in_order p cs c e h.1 in
    let above : c.priority < d.priority = omega (arith, h.0.0) in ground (arith)

-- Sort, on the candidates that main collects, puts the address of --p2p-advertise first, the host
-- candidates next, in their own order, and the relay's view of the agent, which has the
-- server-reflexive priority, last.
pub advertised_order :
    (o : Outcomes) (port : ℕ) (a : AddrPort) (c : Candidate)
    → o.srflx ≡ some c
    → c.priority ≡ srflx_priority
    → sort (advertised a ∷ discovered o port)
      ≡ advertised a ∷ sort (host_candidates o.interface_addrs port) ++ c ∷ []
unfolding discovered
advertised_order o port a c e s =
    let hosts = host_candidates o.interface_addrs port in
    let between : All Between (sort hosts) =
      sort-All Between hosts
        (host_candidates-Between port hosts (host_candidates-IsHost o.interface_addrs port)) in
    rw e (
      ranked_unique (sort (advertised a ∷ c ∷ hosts)) (advertised a ∷ sort hosts ++ c ∷ [])
        (sort-IsRanked _)
        (
          below_advertised (sort hosts) c s between,
          last-IsRanked (sort hosts) c s between (sort-IsRanked hosts),
        )
        (λ p.
          sort-stable (advertised a ∷ c ∷ hosts) p
          ∙ same_rest p (advertised a) (c ∷ hosts) (sort hosts ++ c ∷ []) (
              same_rest p c hosts (sort hosts) (sym (sort-stable hosts p))
              ∙ sym (last_in_order p (sort hosts) c s between))))
