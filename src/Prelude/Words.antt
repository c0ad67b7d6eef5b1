-- ===== src/Prelude/Words.antt =====
-- `long` and `long long` values as bit patterns below 2 ^ 64; sums and differences wrap.
use Prim.Native.Nat.{ℕ, ◌+◌, ◌-◌, ◌*◌, ◌%◌, ◌^◌, ◌<◌}
use mathlib.Core.Path.{◌≡◌}
use native.Mathlib.Omega.{arith}
use java_ubench_agent.Prelude.Tests.{ltb, if◌then◌else◌}

abbrev pub add64 : ℕ → ℕ → ℕ
add64 a b = (a + b) % 2 ^ 64

abbrev pub sub64 : ℕ → ℕ → ℕ
sub64 a b = (a % 2 ^ 64 + (2 ^ 64 - b % 2 ^ 64)) % 2 ^ 64

-- The product with a constant of the source, such as `* 1000`.
abbrev pub mul64 : ℕ → ℕ → ℕ
mul64 a k = (a * k) % 2 ^ 64

-- An `int` in a `long`: the sign is copied.
abbrev pub sign_extend : ℕ → ℕ
sign_extend n = if ltb n (2 ^ 31) then n else n + (2 ^ 64 - 2 ^ 32)

pub sub64-lt : (a b : ℕ) → sub64 a b < 2 ^ 64
sub64-lt a b = omega arith

pub add64-sub64 : (a b : ℕ) → b < 2 ^ 64 → add64 a (sub64 b a) ≡ b
add64-sub64 a b h = omega arith
