-- ===== src/Intercept/Dns.antt =====
-- pkg/intercept/dns.go: the DNS server in front of the VIP allocator. The wire format is that of
-- golang.org/x/net/dns/dnsmessage, a parameter; Serving has Run.
pub mod Names
pub mod Answers
pub mod Serving
mod Tests
use outrelay_agent.Base.{
  ℕ, ◌+◌, ◌*◌, ◌/◌, ◌%◌, ◌^◌, not, Bool, true, false, ◌==◌, if◌then◌else◌, Option, none, some,
  Result, ok, err, List, [], ◌∷◌, ◌++◌, Text, text_beq,
}
use outrelay_agent.Strings.{to_lower, trim_space, has_prefix, has_suffix, trim_suffix}
use outrelay_agent.Intercept.Vip.{VipAllocator, lookup_name}

pub record DnsServer : Type 0 where
  pub listen_addr : Text
  pub suffix : Text
  pub alloc : VipAllocator

pub data DnsError : Type 0 where
  nil_allocator : DnsError

pub record Header : Type 0 where
  pub id : ℕ
  pub recursion_desired : Bool

pub record Question : Type 0 where
  pub name : Text
  pub qtype : ℕ
  pub qclass : ℕ

pub record Resource : Type 0 where
  pub name : Text
  pub rtype : ℕ
  pub rclass : ℕ
  pub ttl : ℕ
  pub body : List ℕ

pub record Message : Type 0 where
  pub id : ℕ
  pub response : Bool
  pub recursion_desired : Bool
  pub rcode : ℕ
  pub questions : List Question
  pub answers : List Resource

-- The parser and the packer of dnsmessage.
pub record Wire : Type 0 where
  pub start : List ℕ → Option Header
  pub question : List ℕ → Option Question
  pub pack : Message → Option (List ℕ)

abbrev pub type_a : ℕ
type_a = 1

abbrev pub type_aaaa : ℕ
type_aaaa = 28

abbrev pub class_inet : ℕ
class_inet = 1

abbrev pub rcode_success : ℕ
rcode_success = 0

abbrev pub rcode_name_error : ℕ
rcode_name_error = 3

abbrev pub rcode_not_implemented : ℕ
rcode_not_implemented = 4

-- `Addr.As4`.
pub as4 : ℕ → List ℕ
as4 n = n / 2 ^ 24 % 256 ∷ n / 2 ^ 16 % 256 ∷ n / 2 ^ 8 % 256 ∷ n % 256 ∷ []

module _ (fold : ℕ → ℕ) where
  -- The suffix with a dot in front of it, unless it is empty or has one.
  dotted : Text → Text
  unfolding has_prefix
  dotted s =
      if not (text_beq s []) then (if not (has_prefix s (b'.' ∷ [])) then b'.' ∷ s else s) else s

  normal_suffix : Text → Text
  unfolding dotted
  normal_suffix suffix = dotted (to_lower fold (trim_space suffix))

  unfoldable pub new_dns_server : Text → Text → Option VipAllocator → Result DnsError DnsServer
  unfolding normal_suffix
  new_dns_server listen_addr suffix none = err nil_allocator
  new_dns_server listen_addr suffix (some alloc) =
      ok (record { listen_addr = listen_addr; suffix = normal_suffix suffix; alloc = alloc })

  -- The end of lookup: the empty name is unknown.
  lookup_bare : DnsServer → Text → Option ℕ
  lookup_bare s name = if text_beq name [] then none else lookup_name s.alloc name

  pub lookup : DnsServer → Text → Option ℕ
  unfolding lookup_bare
  lookup s qname =
      let name = to_lower fold (trim_suffix qname (b'.' ∷ [])) in
      if not (text_beq s.suffix [])
      then (if not (has_suffix name s.suffix)
          then none
          else lookup_bare s (trim_suffix name s.suffix))
      else lookup_bare s name

  base_answer : Header → Question → Message
  base_answer hdr q = record {
    id = hdr.id;
    response = true;
    recursion_desired = hdr.recursion_desired;
    rcode = rcode_success;
    questions = q ∷ [];
    answers = [];
  }

  a_record : Question → ℕ → Resource
  unfolding as4
  a_record q vip = record {
    name = q.name;
    rtype = type_a;
    rclass = class_inet;
    ttl = 60;
    body = as4 vip;
  }

  -- The `switch` on the type of the question.
  pub answer : DnsServer → Header → Question → Message
  unfolding base_answer a_record
  answer s hdr q =
      let base = base_answer hdr q in
      if q.qtype == type_a
      then elim (lookup s q.name) [
        | some vip ↦ record base { answers = a_record q vip ∷ [] }
        | none ↦ record base { rcode = rcode_name_error }
      ]
      else if q.qtype == type_aaaa
      then record base { rcode = rcode_name_error }
      else record base { rcode = rcode_not_implemented }

  -- `none` is ok=false: nothing is sent.
  pub respond : DnsServer → Wire → List ℕ → Option (List ℕ)
  respond s wire query = elim (wire.start query) [
    | none ↦ none
    | some hdr ↦ elim (wire.question query) [ none ↦ none | some q ↦ wire.pack (answer s hdr q) ]
  ]
