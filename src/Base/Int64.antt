-- ===== src/Base/Int64.antt =====
-- Go's int64 by its bit pattern, a number below 2^64: `negative` is the sign bit.
use Prim.Native.Nat.{ℕ, ◌+◌, ◌%◌, ◌^◌, ◌<◌}
use mathlib.Core.Path.{◌≡◌}
use mathlib.Core.Bool.{Bool}
use native.Mathlib.Omega.{arith}
use etre.Base.Tests.{ltb}

-- a + b, which wraps around.
abbrev pub add64 : ℕ → ℕ → ℕ
add64 a b = (a + b) % 2 ^ 64

-- a < b of the signed values.
abbrev pub lt64 : ℕ → ℕ → Bool
lt64 a b = ltb ((a + 2 ^ 63) % 2 ^ 64) ((b + 2 ^ 63) % 2 ^ 64)

-- Below 2^63, where the patterns of the numbers that are not negative lie, it is the order of ℕ.
pub lt64_nonneg : (a b : ℕ) → a < 2 ^ 63 → b < 2 ^ 63 → lt64 a b ≡ ltb a b
lt64_nonneg a b h k = ground arith
