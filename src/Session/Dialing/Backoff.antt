-- ===== src/Session/Dialing/Backoff.antt =====
-- The waits between attempts to reconnect.
use Prim.Native.Nat.{min}
use native.Mathlib.Nat.{pow-suc}
use outrelay_agent.Base.{ℕ, zero, suc, ◌*◌, ◌^◌, ◌≡◌, refl, true, false, some, List, [], ◌∷◌, arith}
use outrelay_agent.Session.Dialing.{
  next_backoff, first_backoff, Retry, reconnected, refused, retry_loop,
}

pub failures : ℕ → List Retry → List Retry
failures zero rs = rs
failures (suc n) rs = refused false ∷ failures n rs

-- min (2^k s, 30 s) for k = i, i + 1, ... (n of them).
unfoldable pub waits : ℕ → ℕ → List ℕ
waits i zero = []
waits i (suc n) = min (1000 * 2 ^ i) 30000 ∷ waits (suc i) n

next_backoff_lem : (i : ℕ) → next_backoff (min (1000 * 2 ^ i) 30000) ≡ min (1000 * 2 ^ suc i) 30000
unfolding next_backoff
next_backoff_lem i = ground (arith, pow-suc 2 i)

retry_loop-failures :
    (n i : ℕ) (rs : List Retry)
    → retry_loop (min (1000 * 2 ^ i) 30000) (failures n (reconnected ∷ rs)) ≡ (some true, waits i n)
unfolding retry_loop failures waits
retry_loop-failures zero i rs = refl
retry_loop-failures (suc n) i rs = rw (next_backoff_lem i, retry_loop-failures n (suc i) rs) refl

-- The k-th wait, from 0, is 2^k seconds or 30 seconds, whichever is less, for as many failed
-- attempts as there are before one succeeds.
pub retry_loop_waits :
    (n : ℕ) (rs : List Retry)
    → retry_loop first_backoff (failures n (reconnected ∷ rs)) ≡ (some true, waits 0 n)
retry_loop_waits n rs = retry_loop-failures n 0 rs
