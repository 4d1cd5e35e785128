-- ===== src/Common/Bits.antt =====
-- Facts about `bit_and` and `bit_or` over a small range, by evaluating every value.
use mathlib.Core.Bool.{Bool, true, ◌&&◌}
use mathlib.Core.Path.{◌≡◌}
use Prim.Native.Nat.{ℕ, zero, suc, ◌<◌}
use native.Mathlib.Omega.{arith}

-- The test passes at every number below the bound.
unfoldable pub every_below : ℕ → (ℕ → Bool) → Bool
every_below zero test = true
every_below (suc bound) test = every_below bound test && test bound

pub every_below-test :
    (bound : ℕ) (test : ℕ → Bool) (at : ℕ)
    → every_below bound test ≡ true
    → at < bound
    → test at ≡ true
unfolding every_below
every_below-test zero test at passed small = absurd (omega arith)
every_below-test (suc bound) test at passed small = ground (every_below-test bound test at, arith)
