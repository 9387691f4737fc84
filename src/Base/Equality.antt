-- ===== src/Base/Equality.antt =====
-- Types with a Boolean equality, as Go's `==` on map keys.
use Prim.Native.Nat.{ℕ}
use mathlib.Core.Path.{◌≡◌, refl, ap, sym, ◌∙◌}
use mathlib.Core.Logic.{◌↔◌}
use mathlib.Core.Bool.{Bool, true, false, ◌&&◌}
use mathlib.Core.List.{List, [], ◌∷◌}
use native.Mathlib.Omega.{arith}
use outrelay_agent.Base.Tests.{◌==◌, ==_iff}

pub record Eq {ℓ} (A : Type ℓ) : Type ℓ where
  pub beq : A → A → Bool
  pub beq_iff : (a b : A) → (beq a b ≡ true) ↔ (a ≡ b)

instance abbrev pub nat_eq : Eq ℕ
nat_eq = record { beq = ◌==◌; beq_iff = ==_iff }

abbrev pub text_beq : List ℕ → List ℕ → Bool
text_beq [] [] = true
text_beq (a ∷ s) (b ∷ t) = (a == b) && text_beq s t
text_beq _ _ = false

pub text_beq_iff : (s t : List ℕ) → (text_beq s t ≡ true) ↔ (s ≡ t)
text_beq_iff [] [] = (λ _. refl, λ _. refl)
text_beq_iff [] (b ∷ t) = (λ e. cc, λ e. cc)
text_beq_iff (a ∷ s) [] = (λ e. cc, λ e. cc)
text_beq_iff (a ∷ s) (b ∷ t) = ground (arith, text_beq_iff s t)

instance abbrev pub text_eq : Eq (List ℕ)
text_eq = record { beq = text_beq; beq_iff = text_beq_iff }

-- A type whose values have numbers of their own.
module _ {ℓ} {A : Type ℓ} (code : A → ℕ) (decode : ℕ → A)
    (decodes : (a : A) → decode (code a) ≡ a) where
  pub coded_iff : (a b : A) → ((code a == code b) ≡ true) ↔ (a ≡ b)
  coded_iff a b = (
    λ e. sym (decodes a) ∙ ap decode ((==_iff (code a) (code b)).0 e) ∙ decodes b,
    λ e. (==_iff (code a) (code b)).1 (ap code e),
  )

  abbrev pub coded_eq : Eq A
  coded_eq = record { beq = λ a b. code a == code b; beq_iff = coded_iff }
