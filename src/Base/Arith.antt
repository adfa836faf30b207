-- ===== src/Base/Arith.antt =====
-- Facts of arithmetic on machine words that the components share.
use Prim.Native.Nat.{ℕ, ◌+◌, ◌-◌, ◌*◌, ◌/◌, ◌%◌, ◌^◌, ◌≤◌, ◌<◌}
use mathlib.Core.Path.{◌≡◌}
use native.Mathlib.Omega.{arith}

-- UINT64_MAX, which is also `(ngx_uint_t) -1` and `(ngx_msec_t) -1` on a 64-bit platform.
abbrev pub u64_max : ℕ
u64_max = 2 ^ 64 - 1

-- The value that a uint64_t holds after a sum or product.
abbrev pub u64 : ℕ → ℕ
u64 n = n % 2 ^ 64

-- `a <= m / b` is the test that the product `a * b` does not exceed `m`.
pub mul-le_of_le-div : (a b m : ℕ) → 0 < b → a ≤ m / b → a * b ≤ m
mul-le_of_le-div a b m hb h = grind arith

pub lt-mul_of_div-lt : (a b m : ℕ) → 0 < b → m / b < a → m < a * b
lt-mul_of_div-lt a b m hb h = grind arith

pub div-mul-le : (a b : ℕ) → (a / b) * b ≤ a
div-mul-le a b = grind arith

pub u64-of_le : (n : ℕ) → n ≤ u64_max → u64 n ≡ n
u64-of_le n h = omega arith

pub mul_mono : (a b c d : ℕ) → a ≤ c → b ≤ d → a * b ≤ c * d
mul_mono a b c d h k = grind arith

-- A mean lies between the bounds of what it is the mean of.
pub le-div : (m n t : ℕ) → 0 < n → m * n ≤ t → m ≤ t / n
le-div m n t h k = grind arith

pub div-le : (m n t : ℕ) → 0 < n → t ≤ m * n → t / n ≤ m
div-le m n t h k = grind arith

pub div-le_self : (a b : ℕ) → a / b ≤ a
div-le_self a b = grind arith

pub div-pos : (a b : ℕ) → 0 < b → b ≤ a → 0 < a / b
div-pos a b h k = grind arith

-- One more summand at least `m` keeps a sum of `n` summands at least `m` each, and dually.
pub sum_above : (m n t d : ℕ) → m * n ≤ t → m ≤ d → m * (n + 1) ≤ t + d
sum_above m n t d h k = grind arith

pub sum_below : (m n t d : ℕ) → t ≤ m * n → d ≤ m → t + d ≤ m * (n + 1)
sum_below m n t d h k = grind arith
