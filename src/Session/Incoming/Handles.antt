-- ===== src/Session/Incoming/Handles.antt =====
-- The handles of an incoming stream, and what its traces of uses leave open.
use outrelay_agent.Base.{
  ℕ, ◌≡◌, ◌↔◌, ap, Bool, true, false, ◌==◌, ==_iff, [], ◌∷◌, Eq, arith, nat_eq,
}
use outrelay_agent.Base.Usage.{opened, shut, left_open}
use outrelay_agent.Session.Forward.{Part}
use outrelay_agent.Session.Forward.Parts.{part_eq, part_code}
use outrelay_agent.Session.Incoming.{Handle, stream, backend, part}

unfoldable pub handle_beq : Handle → Handle → Bool
handle_beq (stream a) (stream b) = a == b
handle_beq (backend a) (backend b) = a == b
handle_beq (part p) (part q) = part_code p == part_code q
handle_beq _ _ = false

pub handle_beq_iff : (a b : Handle) → (handle_beq a b ≡ true) ↔ (a ≡ b)
unfolding handle_beq
handle_beq_iff (stream a) (stream b) = ground (arith, ==_iff a b)
handle_beq_iff (stream a) (backend b) = ground arith
handle_beq_iff (stream a) (part q) = ground arith
handle_beq_iff (backend a) (stream b) = ground arith
handle_beq_iff (backend a) (backend b) = ground (arith, ==_iff a b)
handle_beq_iff (backend a) (part q) = ground arith
handle_beq_iff (part p) (stream b) = ground arith
handle_beq_iff (part p) (backend b) = ground arith
handle_beq_iff (part p) (part q) =
    let i : (handle_beq (part p) (part q) ≡ true) ↔ (p ≡ q) = part_eq.beq_iff p q in
    (λ e. ap part (i.0 e), λ e. i.1 (cc e))

instance abbrev pub handle_eq : Eq Handle
handle_eq = record { beq = handle_beq; beq_iff = handle_beq_iff }

pub ==_refl : (n : ℕ) → (n == n) ≡ true
==_refl n = ground arith

module _ (st b : ℕ) where
  pub spliced :
      left_open
        (backend b ∷ stream st ∷ [])
        (shut (stream st) ∷ shut (backend b) ∷ shut (stream st) ∷ [])
      ≡ []
  unfolding left_open handle_beq
  spliced = ground (arith, ==_refl st, ==_refl b)

  -- The uses behind a forward session that is not brought up.
  pub unspliced :
      left_open (backend b ∷ stream st ∷ []) (shut (backend b) ∷ shut (stream st) ∷ []) ≡ []
  unfolding left_open handle_beq
  unspliced = ground (arith, ==_refl st, ==_refl b)

  -- The uses behind a bridged forward session.
  pub forwarded :
      left_open
        (part Part.stream
          ∷ part Part.conn
          ∷ part Part.quic
          ∷ part Part.socket
          ∷ backend b
          ∷ stream st
          ∷ [])
        (shut (part Part.stream)
          ∷ shut (backend b)
          ∷ shut (part Part.stream)
          ∷ shut (part Part.conn)
          ∷ shut (part Part.quic)
          ∷ shut (part Part.socket)
          ∷ shut (stream st)
          ∷ [])
      ≡ []
  unfolding left_open handle_beq part_code
  forwarded = ground (arith, ==_refl st, ==_refl b)

pub dropped : (st : ℕ) → left_open (stream st ∷ []) (shut (stream st) ∷ []) ≡ []
unfolding left_open handle_beq
dropped st = ground (arith, ==_refl st)

pub unaccepted :
    (st b : ℕ)
    → left_open (stream st ∷ []) (opened (backend b) ∷ shut (backend b) ∷ shut (stream st) ∷ [])
      ≡ []
unfolding left_open handle_beq
unaccepted st b = ground (arith, ==_refl st, ==_refl b)
