-- ===== src/Base/Numbers.antt =====
-- Division and powers of the native numbers.
use Prim.Native.Nat.{ℕ, zero, suc, ◌/◌, ◌≤◌}
use native.Mathlib.Nat.{le-div_iff_mul-le, div-mul-le_self, div-zero, le_trans}
use native.Mathlib.Omega.{arith}

pub div_mono : (d a b : ℕ) → a ≤ b → a / d ≤ b / d
div_mono zero a b h = rw (div-zero a, div-zero b) (omega arith)
div_mono (suc d) a b h =
    (le-div_iff_mul-le (omega arith)).1 (le_trans (div-mul-le_self a (suc d)) h)
