-- ===== src/Intercept/Dns/Names.antt =====
-- Which names the server resolves.
use outrelay_agent.Base.{
  ℕ, ◌-◌, ◌≡◌, ◌≢◌, refl, sym, ap, subst, ◌⊎◌, inl, inr, ◌==◌, true, Bool-cases, none, some, ok, [],
  ◌∷◌, ◌++◌, Text, text_beq, text_beq_iff, text_eq, All, All-take, All-append_right, length, take,
  arith,
}
use mathlib.Core.List.{append-nil}
use outrelay_agent.Strings.{lower_code, to_lower, trim_space, has_prefix, has_suffix, trim_suffix}
use outrelay_agent.Strings.Laws.{
  IsLowerTable, has_suffix-append, trim_suffix-append, has_suffix_split, to_lower-to_lower,
  to_lower-take, to_lower-trim_dot, to_lower-append, lower_after_dot,
}
use outrelay_agent.Intercept.Vip.{VipAllocator, lookup_name}
use outrelay_agent.Intercept.Vip.Invariant.{IsWf}
use outrelay_agent.Intercept.Vip.Directory.{lookup_name-injective}
use outrelay_agent.Intercept.Dns.{
  DnsServer, new_dns_server, normal_suffix, lookup, lookup_bare, dotted,
}

abbrev server : Text → Text → VipAllocator → DnsServer
server listen suffix a = record { listen_addr = listen; suffix = suffix; alloc = a }

-- The suffix of a server is empty, or it starts with a dot; and it is in lower case.
pub record IsNormal (fold : ℕ → ℕ) (s : DnsServer) : Type 0 where
  pub dotted : (s.suffix ≡ []) ⊎ ((rest : Text) × (s.suffix ≡ b'.' ∷ rest))
  pub lower : to_lower fold s.suffix ≡ s.suffix

module _ (fold : ℕ → ℕ) (table : IsLowerTable fold) where
  dotted_cases : (s : Text) → (dotted fold s ≡ []) ⊎ ((rest : Text) × (dotted fold s ≡ b'.' ∷ rest))
  unfolding dotted
  dotted_cases [] = inl refl
  dotted_cases (c ∷ s) = elim (Bool-cases (c == b'.')) [
    | inl dot ↦ inr (s, ground arith)
    | inr other ↦ inr (c ∷ s, ground arith)
  ]

  dotted_lower : (s : Text) → to_lower fold s ≡ s → to_lower fold (dotted fold s) ≡ dotted fold s
  unfolding dotted
  dotted_lower s e = elim (Bool-cases (text_beq s [])) [
    | inl empty ↦ rw empty e
    | inr some_text ↦ elim (Bool-cases (has_prefix s (b'.' ∷ []))) [
      | inl dot ↦ rw (some_text, dot) e
      | inr bare ↦ rw (some_text, bare) (lower_after_dot fold s e)
    ]
  ]

  -- NewDNSServer makes of any text a suffix in lower case that is empty or starts with a dot.
  pub new_dns_server-IsNormal :
      (listen suffix : Text) (a : VipAllocator) (s : DnsServer)
      → new_dns_server fold listen suffix (some a) ≡ ok s
      → IsNormal fold s × (s.alloc ≡ a)
  unfolding new_dns_server normal_suffix
  new_dns_server-IsNormal listen suffix a s e =
      let low = to_lower-to_lower fold table (trim_space suffix) in
      let t = to_lower fold (trim_space suffix) in
      let made : server listen (dotted fold t) a ≡ s = ground arith in
      (
        subst (IsNormal fold) made (record { dotted = dotted_cases t; lower = dotted_lower t low }),
        ap (λ x. x.alloc) (sym made),
      )

  -- Two query names that differ in the case of letters only have the same outcome.
  pub lookup_case :
      (s : DnsServer) (p q : Text)
      → to_lower fold p ≡ to_lower fold q
      → lookup fold s p ≡ lookup fold s q
  unfolding lookup
  lookup_case s p q e = rw (to_lower-trim_dot fold table p, to_lower-trim_dot fold table q, e)

  -- A lower-case service name under the suffix, as a fully qualified name, has the VIP that the
  -- allocator has for it.
  pub lookup_qualified :
      (s : DnsServer) (name : Text)
      → IsNormal fold s
      → name ≢ []
      → to_lower fold name ≡ name
      → lookup fold s ((name ++ s.suffix) ++ b'.' ∷ []) ≡ lookup_name s.alloc name
  unfolding lookup lookup_bare
  lookup_qualified s name n some_name low =
      rw
        (
          trim_suffix-append (name ++ s.suffix) (b'.' ∷ []),
          to_lower-append fold name s.suffix,
          low,
          n.lower,
        )
        (ground (
          arith,
          has_suffix-append name s.suffix,
          trim_suffix-append name s.suffix,
          text_beq_iff name [],
          text_beq_iff s.suffix [],
          append-nil name,
        ))

  resolved_bare :
      (s : DnsServer) (n : Text) (ip : ℕ)
      → to_lower fold n ≡ n
      → lookup_bare fold s n ≡ some ip
      → (m : Text) × (to_lower fold m ≡ m) × (lookup_name s.alloc m ≡ some ip)
  unfolding lookup_bare
  resolved_bare s n ip low e = (n, low, ground arith)

  -- What the server resolves is a lower-case name of the allocator.
  resolved_name :
      (s : DnsServer) (q : Text) (ip : ℕ)
      → lookup fold s q ≡ some ip
      → (m : Text) × (to_lower fold m ≡ m) × (lookup_name s.alloc m ≡ some ip)
  unfolding lookup trim_suffix
  resolved_name s q ip e =
      let name = to_lower fold (trim_suffix q (b'.' ∷ [])) in
      let low = to_lower-to_lower fold table (trim_suffix q (b'.' ∷ [])) in
      elim (Bool-cases (text_beq s.suffix [])) [
        | inl empty ↦ resolved_bare s name ip low (ground arith)
        | inr suffixed ↦ elim (Bool-cases (has_suffix name s.suffix)) [
          | inl under ↦
              let n = take (length name - length s.suffix) name in
              resolved_bare s n ip (to_lower-take fold table _ name low) (ground arith)
          | inr elsewhere ↦ absurd (ground arith)
        ]
      ]

  -- A service whose name has an upper-case letter is allocated a VIP that no query resolves to.
  pub mixed_case_unreachable :
      (s : DnsServer) (name : Text) (ip : ℕ)
      → IsWf s.alloc
      → to_lower fold name ≢ name
      → lookup_name s.alloc name ≡ some ip
      → (q : Text) → lookup fold s q ≢ some ip
  mixed_case_unreachable s name ip w mixed known q e =
      let (m, low, found) = resolved_name s q ip e in
      let same : m ≡ name = lookup_name-injective s.alloc m name ip w found known in
      mixed (subst (λ n. to_lower fold n ≡ n) same low)

  All-lower : (s : Text) → All (λ c. c ≢ b'.') s → All (λ c. c ≢ b'.') (to_lower fold s)
  unfolding to_lower lower_code
  All-lower [] h = tt
  All-lower (c ∷ s) h = (λ e. ground (arith, h.0, table.no_dot c), All-lower s h.1)

  NoDot-trim_suffix : (q t : Text) → All (λ c. c ≢ b'.') q → All (λ c. c ≢ b'.') (trim_suffix q t)
  unfolding trim_suffix
  NoDot-trim_suffix q t h = elim (Bool-cases (has_suffix q t)) [
    | inl e ↦ rw e (All-take (λ c. c ≢ b'.') (length q - length t) q h)
    | inr e ↦ rw e h
  ]

  not-under_suffix :
      (s : DnsServer) (name : Text)
      → IsNormal fold s
      → s.suffix ≢ []
      → All (λ c. c ≢ b'.') name
      → ¬ (has_suffix name s.suffix ≡ true)
  not-under_suffix s name n suffixed plain under = elim n.dotted [
    | inl empty ↦ suffixed empty
    | inr (rest, e) ↦
        let split = has_suffix_split name s.suffix under in
        let parts = subst (All (λ c. c ≢ b'.')) (sym split) plain in
        let tail = All-append_right (λ c. c ≢ b'.') _ s.suffix parts in
        (subst (All (λ c. c ≢ b'.')) e tail).0 refl
  ]

  -- With a suffix configured, a name without a dot in it is not resolved.
  pub bare_name_unresolved :
      (s : DnsServer) (q : Text)
      → IsNormal fold s
      → s.suffix ≢ []
      → All (λ c. c ≢ b'.') q
      → lookup fold s q ≡ none
  unfolding lookup
  bare_name_unresolved s q n suffixed plain =
      let trimmed = trim_suffix q (b'.' ∷ []) in
      ground (
        arith,
        text_beq_iff s.suffix [],
        not-under_suffix s (to_lower fold trimmed) n suffixed
            (All-lower trimmed (NoDot-trim_suffix q (b'.' ∷ []) plain)),
      )
