-- ===== src/Base/Words.antt =====
-- Arithmetic of `size_t` (64 bits) and of the atomic counters of type `int` (32 bits), which wrap.
use Prim.Native.Nat.{ℕ, ◌+◌, ◌-◌, ◌%◌, ◌^◌, ◌≤◌, ◌<◌}
use mathlib.Core.Path.{◌≡◌}
use native.Mathlib.Omega.{arith}

-- `a + b` and `a - b` on 64-bit words
abbrev pub add64 : ℕ → ℕ → ℕ
add64 a b = (a + b) % 2 ^ 64

abbrev pub sub64 : ℕ → ℕ → ℕ
sub64 a b = (a + (2 ^ 64 - b % 2 ^ 64)) % 2 ^ 64

-- `n + 1` and `n - 1` on a 32-bit counter, read as the unsigned word that holds it
abbrev pub inc32 : ℕ → ℕ
inc32 n = (n + 1) % 2 ^ 32

abbrev pub dec32 : ℕ → ℕ
dec32 n = (n + (2 ^ 32 - 1)) % 2 ^ 32

pub sub64-add64 : (a b : ℕ) → a < 2 ^ 64 → b < 2 ^ 64 → sub64 (add64 a b) b ≡ a
sub64-add64 a b h k = omega arith

pub sub64_exact : (a b : ℕ) → a < 2 ^ 64 → b ≤ a → sub64 a b ≡ a - b
sub64_exact a b h k = omega arith

pub dec32_exact : (n : ℕ) → 0 < n → n < 2 ^ 32 → dec32 n ≡ n - 1
dec32_exact n h k = omega arith

pub inc32_exact : (n : ℕ) → n + 1 < 2 ^ 32 → inc32 n ≡ n + 1
inc32_exact n h = omega arith
