-- ===== src/Intercept/Dns/Answers.antt =====
-- What the server says in its answers.
use outrelay_agent.Base.{
  ℕ, ◌+◌, ◌*◌, ◌<◌, ◌≡◌, ◌≢◌, inl, inr, true, none, some, Option-cases, [], ◌∷◌, List, Text,
  ℕ_discrete, arith,
}
use outrelay_agent.Netip.{v4_space}
use outrelay_agent.Intercept.Dns.{
  DnsServer, Header, Question, Message, Wire, Resource, lookup, answer, as4, type_a, type_aaaa,
  class_inet, rcode_success, rcode_name_error, rcode_not_implemented, respond,
}

-- The number that four bytes in network order stand for.
abbrev pub be_value : List ℕ → ℕ → ℕ
be_value [] acc = acc
be_value (b ∷ bs) acc = be_value bs (acc * 256 + b)

abbrev a_resource : Text → ℕ → Resource
a_resource name vip = record {
  name = name;
  rtype = type_a;
  rclass = class_inet;
  ttl = 60;
  body = as4 vip;
}

-- The code and the records of an answer: one A record for a name that resolves, NXDOMAIN for any
-- other name and for AAAA, and NOTIMP for the other types.
pub data Outcome (fold : ℕ → ℕ) (s : DnsServer) (q : Question) (m : Message) : Type 0 where
  resolved :
      (vip : ℕ)
      → q.qtype ≡ type_a
      → lookup fold s q.name ≡ some vip
      → m.rcode ≡ rcode_success
      → m.answers ≡ a_resource q.name vip ∷ []
      → Outcome fold s q m
  unknown :
      q.qtype ≡ type_a
      → lookup fold s q.name ≡ none
      → m.rcode ≡ rcode_name_error
      → m.answers ≡ []
      → Outcome fold s q m
  no_ipv6 : q.qtype ≡ type_aaaa → m.rcode ≡ rcode_name_error → m.answers ≡ [] → Outcome fold s q m
  not_implemented :
      q.qtype ≢ type_a
      → q.qtype ≢ type_aaaa
      → m.rcode ≡ rcode_not_implemented
      → m.answers ≡ []
      → Outcome fold s q m

-- An answer to one question carries the request's id, its question and its recursion flag.
pub record Answers (fold : ℕ → ℕ) (s : DnsServer) (hdr : Header) (q : Question) (m : Message)
    : Type 0 where
  pub same_id : m.id ≡ hdr.id
  pub is_response : m.response ≡ true
  pub same_recursion : m.recursion_desired ≡ hdr.recursion_desired
  pub same_question : m.questions ≡ q ∷ []
  pub outcome : Outcome fold s q m

module _ (fold : ℕ → ℕ) where
  answer-Outcome :
      (s : DnsServer) (hdr : Header) (q : Question) → Outcome fold s q (answer fold s hdr q)
  unfolding answer
  answer-Outcome s hdr q = elim (ℕ_discrete q.qtype type_a) [
    | yes a ↦ elim (Option-cases (lookup fold s q.name)) [
      | inl e ↦ unknown a e (ground arith) (ground arith)
      | inr (vip, e) ↦ resolved vip a e (ground arith) (ground arith)
    ]
    | no not_a ↦ elim (ℕ_discrete q.qtype type_aaaa) [
      | yes aaaa ↦ no_ipv6 aaaa (ground arith) (ground arith)
      | no other ↦ not_implemented not_a other (ground arith) (ground arith)
    ]
  ]

  answer-Answers :
      (s : DnsServer) (hdr : Header) (q : Question) → Answers fold s hdr q (answer fold s hdr q)
  unfolding answer
  answer-Answers s hdr q = record {
    same_id = ground arith;
    is_response = ground arith;
    same_recursion = ground arith;
    same_question = ground arith;
    outcome = answer-Outcome s hdr q;
  }

  -- To a query that parses, what is sent is the packing of a message that answers it: one A record
  -- if the question is of type A and the name resolves, NXDOMAIN for another name or type AAAA,
  -- NOTIMP for the other types, under the request's id and question.
  pub respond-Answers :
      (s : DnsServer) (wire : Wire) (query : List ℕ) (hdr : Header) (q : Question)
      → wire.start query ≡ some hdr
      → wire.question query ≡ some q
      → (m : Message) × Answers fold s hdr q m × (respond fold s wire query ≡ wire.pack m)
  unfolding respond
  respond-Answers s wire query hdr q e f =
      (answer fold s hdr q, answer-Answers s hdr q, ground arith)

-- The bytes of an A record stand for the address.
pub as4_value : (vip : ℕ) → vip < v4_space → be_value (as4 vip) 0 ≡ vip
unfolding as4
as4_value vip h = omega arith
