-- ===== src/Base/Words.antt =====
-- Machine words as native numbers: a w-bit value is below 2 ^ w and wraps by `%`.
use Prim.Native.Nat.{ℕ, ◌+◌, ◌-◌, ◌/◌, ◌%◌, ◌^◌}

-- `std::numeric_limits<std::uint64_t>::max()` and the modulus that it comes from.
abbrev pub u32_mod : ℕ
u32_mod = 2 ^ 32

abbrev pub u64_mod : ℕ
u64_mod = 2 ^ 64

abbrev pub u64_max : ℕ
u64_max = 2 ^ 64 - 1

abbrev pub add32 : ℕ → ℕ → ℕ
add32 a b = (a + b) % u32_mod

abbrev pub sub32 : ℕ → ℕ → ℕ
sub32 a b = (a + u32_mod - b) % u32_mod

abbrev pub sub64 : ℕ → ℕ → ℕ
sub64 a b = (a + u64_mod - b) % u64_mod

-- `(word >> low) & (2 ^ width - 1)`.
abbrev pub field : ℕ → ℕ → ℕ → ℕ
field word low width = word / 2 ^ low % 2 ^ width
