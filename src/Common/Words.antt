-- ===== src/Common/Words.antt =====
-- `std::size_t` and `std::uint64_t`: numbers below 2 ^ 64 with the wrap written out.
use Prim.Native.Nat.{ℕ, ◌+◌, ◌-◌, ◌%◌, ◌^◌, ◌≤◌, ◌<◌}
use mathlib.Core.Path.{◌≡◌}
use native.Mathlib.Omega.{arith}

abbrev pub word_mod : ℕ
word_mod = 2 ^ 64

abbrev pub add64 : ℕ → ℕ → ℕ
add64 a b = (a + b) % word_mod

abbrev pub sub64 : ℕ → ℕ → ℕ
sub64 a b = (a + word_mod - b) % word_mod

pub add64_exact : (a b : ℕ) → a + b < word_mod → add64 a b ≡ a + b
add64_exact a b h = omega arith

pub sub64_exact : (a b : ℕ) → a < word_mod → b ≤ a → sub64 a b ≡ a - b
sub64_exact a b h k = omega arith
