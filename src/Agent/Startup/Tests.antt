-- ===== src/Agent/Startup/Tests.antt =====
-- The tproxy mode with two services, and an explicit mapping.
use outrelay_agent.Base.{
  ℕ, ◌≡◌, refl, true, Option, some, ok, err, [], ◌∷◌, Text, arith, nat_eq, text_eq,
}
use outrelay_agent.Netip.{Prefix, v4}
use outrelay_agent.Strings.{cut}
use outrelay_agent.Agent.Startup.{explicit_mappings, bad_mapping, start_tproxy}
use outrelay_agent.Agent.Startup.Served.{Started, start_tproxy-Started}

abbrev pay : Text
pay = b'p' ∷ b'a' ∷ b'y' ∷ []

abbrev mail : Text
mail = b'm' ∷ b'a' ∷ b'i' ∷ b'l' ∷ []

-- Stands for a parser that reads every text as 100.64.0.0/10.
abbrev parse_test : Text → Option Prefix
parse_test s = some (record { addr = v4 0x64400000; bits = 10 })

abbrev fold_test : ℕ → ℕ
fold_test c = c

mapped : explicit_mappings ((b'p' ∷ b'@' ∷ b'1' ∷ []) ∷ []) ≡ ok ((b'1' ∷ [], b'p' ∷ []) ∷ [])
unfolding explicit_mappings cut
mapped = refl

unmapped : explicit_mappings (pay ∷ []) ≡ err (bad_mapping pay)
unfolding explicit_mappings cut
unmapped = refl

start_tproxy-Started_example :
    Started (pay ∷ mail ∷ []) (start_tproxy fold_test parse_test [] [] [] true (pay ∷ mail ∷ []))
start_tproxy-Started_example =
    start_tproxy-Started fold_test parse_test [] [] [] true 0x64400000 10 (pay ∷ mail ∷ []) refl
      (omega arith)
