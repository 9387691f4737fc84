-- ===== src/P2p/Promoter/Wire.antt =====
-- Candidates on the wire and back.
use mathlib.Core.List.{append-nil, append_assoc}
use outrelay_agent.Base.{
  ◌^◌, ◌<◌, ◌≡◌, sym, ap, ◌∙◌, Option, some, List, [], ◌∷◌, ◌++◌, map, All, Text, arith,
}
use outrelay_agent.Netip.{Addr}
use outrelay_agent.Orp.{PbCandidate}
use outrelay_agent.Candidate.{Candidate}
use outrelay_agent.P2p.Promoter.{to_pb_one, to_pb_loop, to_pb, from_pb_one, from_pb_loop, from_pb}

module _ (format_addr : Addr → Text) (parse_addr : Text → Option Addr) where
  to_pb_loop-map :
      (cs : List Candidate) (out : List PbCandidate)
      → to_pb_loop format_addr parse_addr cs out ≡ out ++ map (to_pb_one format_addr parse_addr) cs
  unfolding to_pb_loop
  to_pb_loop-map [] out = sym (append-nil out)
  to_pb_loop-map (c ∷ cs) out =
      to_pb_loop-map cs (out ++ to_pb_one format_addr parse_addr c ∷ [])
      ∙ append_assoc out (to_pb_one format_addr parse_addr c ∷ [])
          (map (to_pb_one format_addr parse_addr) cs)

  to_pb-map :
      (cs : List Candidate)
      → to_pb format_addr parse_addr cs ≡ map (to_pb_one format_addr parse_addr) cs
  unfolding to_pb
  to_pb-map cs = to_pb_loop-map cs []

  -- A candidate whose address reads back and whose port is a uint16.
  abbrev pub IsSendable : Candidate → Type 0
  IsSendable c = (parse_addr (format_addr c.addr.addr) ≡ some c.addr.addr) × (c.addr.port < 2 ^ 16)

  from_pb_one-to_pb_one :
      (c : Candidate)
      → c.addr.port < 2 ^ 16
      → from_pb_one format_addr parse_addr (to_pb_one format_addr parse_addr c) c.addr.addr ≡ c
  unfolding from_pb_one to_pb_one
  from_pb_one-to_pb_one c h = ground arith

  from_pb_loop-map :
      (cs out : List Candidate)
      → All IsSendable cs
      → from_pb_loop format_addr parse_addr (map (to_pb_one format_addr parse_addr) cs) out
        ≡ out ++ cs
  unfolding from_pb_loop to_pb_one
  from_pb_loop-map [] out h = sym (append-nil out)
  from_pb_loop-map (c ∷ cs) out h =
      rw (h.0.0, from_pb_loop)
        (from_pb_loop-map cs
            (out
              ++ from_pb_one format_addr parse_addr (to_pb_one format_addr parse_addr c) c.addr.addr
                ∷ [])
            h.1
          ∙ ap (λ d. (out ++ d ∷ []) ++ cs) (from_pb_one-to_pb_one c h.0.1)
          ∙ append_assoc out (c ∷ []) cs)

  -- What FromPB makes of toPB's result is the same candidates in the same order, if each address
  -- reads back and each port is a uint16.
  pub from_pb-to_pb :
      (cs : List Candidate)
      → All IsSendable cs
      → from_pb format_addr parse_addr (to_pb format_addr parse_addr cs) ≡ cs
  unfolding from_pb
  from_pb-to_pb cs h =
      ap (λ ps. from_pb_loop format_addr parse_addr ps []) (to_pb-map cs) ∙ from_pb_loop-map cs [] h
