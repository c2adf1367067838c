-- ===== src/Isa/SignExtend.antt =====
-- `sign_extend` against the number that the low bits stand for in two's complement.
use native.Mathlib.Nat.{pow-suc, pow-le-pow_right, mod-lt, one-le-pow}
use qsbit_sim.Isa.Defs.{sign_extend}
use qsbit_sim.Base.Int.{signed}
use qsbit_sim.Base.Bits.{bit_xor_top}
use qsbit_sim.Base.{
  ltb, if◌then◌else◌, u32_mod, invalid_operand, ok, fault, ℕ, zero, suc, ◌+◌, ◌-◌, ◌%◌, ◌^◌, ◌≤◌,
  ◌<◌, ◌≡◌, ◌⊎◌, arith,
}

-- The low bits, with the sign bit copied into the higher ones.
abbrev pub extended : ℕ → ℕ → ℕ
extended value k =
    let low = value % 2 ^ suc k in if ltb low (2 ^ k) then low else low + u32_mod - 2 ^ suc k

pow_bound : (k : ℕ) → k < 31 → 2 ^ suc k ≤ 2 ^ 31
pow_bound k h = pow-le-pow_right (omega arith) h

pub sign_extend-extended :
    (value k : ℕ) → k < 31 → sign_extend value (suc k) ≡ ok (extended value k)
unfolding sign_extend
sign_extend-extended value k h =
    let low = value % 2 ^ suc k in
    let less : suc k - 1 ≡ k = omega arith in
    let bound = pow_bound k h in
    let double = pow-suc 2 k in
    let small : low < 2 ^ suc k = mod-lt value (one-le-pow (suc k) 2 (omega arith)) in
    rw less (ground (arith, bit_xor_top k low))

-- For a width of 1 to 31 bits, `sign_extend` returns the 32-bit word that stands for the same number
-- in two's complement as the low bits of the value, and this word is a `uint32_t`.
pub sign_extend-signed :
    (value bits : ℕ)
    → 0 < bits
    → bits < 32
    → (r : ℕ) × (sign_extend value bits ≡ ok r)
      × (signed 32 r ≡ signed bits (value % 2 ^ bits))
      × (r < u32_mod)
sign_extend-signed value zero p h = absurd (omega arith)
sign_extend-signed value (suc k) p h =
    let low = value % 2 ^ suc k in
    let less : suc k - 1 ≡ k = omega arith in
    let bound = pow_bound k (omega arith) in
    let double = pow-suc 2 k in
    let small : low < 2 ^ suc k = mod-lt value (one-le-pow (suc k) 2 (omega arith)) in
    (
      extended value k,
      sign_extend-extended value k (omega arith),
      rw less (ground arith),
      ground arith,
    )

-- A width of zero, or of more than 32 bits, is refused, and a width of 32 changes nothing.
pub sign_extend_edges :
    (value bits : ℕ)
    → ((bits ≡ 0) ⊎ (32 < bits) → sign_extend value bits ≡ fault invalid_operand)
      × (bits ≡ 32 → sign_extend value bits ≡ ok value)
unfolding sign_extend
sign_extend_edges value bits = ((λ h. ground arith), λ h. ground arith)

pub extended-lt : (value k : ℕ) → k < 31 → extended value k < u32_mod
extended-lt value k h =
    let low = value % 2 ^ suc k in
    let bound = pow_bound k h in
    let double = pow-suc 2 k in
    let small : low < 2 ^ suc k = mod-lt value (one-le-pow (suc k) 2 (omega arith)) in ground arith
