-- ===== src/Isa/Evaluate.antt =====
-- `evaluate`: the effect of one decoded instruction on given operands.
use qsbit_sim.Base.Int.{signed, ltb_ℤ}
use qsbit_sim.Isa.Defs.{
  Op, lui, auipc, jal, jalr, beq, bne, blt, bge, bltu, bgeu, lb, lh, lw, lbu, lhu, sb, sh, sw, addi,
  slti, sltiu, xori, ori, andi, slli, srli, srai, add, sub, sll, slt, sltu, xor, srl, sra, or, and,
  fence, ecall, ebreak, quantum, Decoded, no_memory, load, store, Effect,
}
use qsbit_sim.Base.{
  ltb, leb, ◌==◌, if◌then◌else◌, u32_mod, add32, sub32, ◌>>=◌, ◌>>◌, require, Result,
  instruction_misaligned, environment_call, breakpoint, ok, fault, ℕ, ◌-◌, ◌*◌, ◌/◌, ◌%◌, ◌^◌,
  bit_and, bit_or, bit_xor, Bool, true, false, not,
}

-- `std::bit_cast<std::int32_t>(a) < std::bit_cast<std::int32_t>(b)`.
abbrev pub signed_less : ℕ → ℕ → Bool
signed_less a b = ltb_ℤ (signed 32 a) (signed 32 b)

-- A word shifted left, and a word shifted right with zeros or with copies of the sign bit.
abbrev pub shift_left : ℕ → ℕ → ℕ
shift_left x amount = x * 2 ^ (amount % 32) % u32_mod

abbrev pub shift_right : ℕ → ℕ → ℕ
shift_right x amount = x / 2 ^ (amount % 32)

abbrev pub sar : ℕ → ℕ → ℕ
sar x amount =
    if ltb x (2 ^ 31)
    then x / 2 ^ (amount % 32)
    else u32_mod - 1 - (u32_mod - 1 - x) / 2 ^ (amount % 32)

abbrev pub flag_word : Bool → ℕ
flag_word b = if b then 1 else 0

-- `Effect e` with the next instruction and the destination register of `d`.
abbrev pub plain : Decoded → ℕ → Effect
plain d pc = record {
  next_pc = add32 pc 4;
  value = 0;
  address = 0;
  store_value = 0;
  writes_rd = d.writes_rd;
  branch_taken = false;
  sign_extend_load = false;
  memory = no_memory;
  width = 0;
}

abbrev pub computes : Decoded → ℕ → ℕ → Result Effect
computes d pc value = ok (record (plain d pc) { value = value })

abbrev pub jumps : Decoded → ℕ → ℕ → Result Effect
jumps d pc target =
    ok (record (plain d pc) { value = add32 pc 4; next_pc = target; branch_taken = true })

abbrev pub branches : Decoded → ℕ → Bool → Result Effect
branches d pc taken = ok (record (plain d pc) {
  branch_taken = taken;
  next_pc = if taken then add32 pc d.immediate else add32 pc 4;
})

abbrev pub loads : Decoded → ℕ → ℕ → ℕ → Bool → Result Effect
loads d pc base width extend = ok (record (plain d pc) {
  memory = load;
  address = add32 base d.immediate;
  width = width;
  sign_extend_load = extend;
})

abbrev pub stores : Decoded → ℕ → ℕ → ℕ → ℕ → Result Effect
stores d pc base value width = ok (record (plain d pc) {
  memory = store;
  address = add32 base d.immediate;
  store_value = value;
  width = width;
})

-- The `switch` of `evaluate`, with the target of a taken branch, by the operation.
unfoldable pub effect_of : Op → Decoded → ℕ → ℕ → ℕ → Result Effect
effect_of lui d pc a b = computes d pc d.immediate
effect_of auipc d pc a b = computes d pc (add32 pc d.immediate)
effect_of jal d pc a b = jumps d pc (add32 pc d.immediate)
effect_of jalr d pc a b = jumps d pc (add32 a d.immediate / 2 * 2)
effect_of beq d pc a b = branches d pc (a == b)
effect_of bne d pc a b = branches d pc (not (a == b))
effect_of blt d pc a b = branches d pc (signed_less a b)
effect_of bge d pc a b = branches d pc (not (signed_less a b))
effect_of bltu d pc a b = branches d pc (ltb a b)
effect_of bgeu d pc a b = branches d pc (leb b a)
effect_of lb d pc a b = loads d pc a 1 true
effect_of lh d pc a b = loads d pc a 2 true
effect_of lw d pc a b = loads d pc a 4 false
effect_of lbu d pc a b = loads d pc a 1 false
effect_of lhu d pc a b = loads d pc a 2 false
effect_of sb d pc a b = stores d pc a b 1
effect_of sh d pc a b = stores d pc a b 2
effect_of sw d pc a b = stores d pc a b 4
effect_of addi d pc a b = computes d pc (add32 a d.immediate)
effect_of slti d pc a b = computes d pc (flag_word (signed_less a d.immediate))
effect_of sltiu d pc a b = computes d pc (flag_word (ltb a d.immediate))
effect_of xori d pc a b = computes d pc (bit_xor a d.immediate)
effect_of ori d pc a b = computes d pc (bit_or a d.immediate)
effect_of andi d pc a b = computes d pc (bit_and a d.immediate)
effect_of slli d pc a b = computes d pc (shift_left a d.immediate)
effect_of srli d pc a b = computes d pc (shift_right a d.immediate)
effect_of srai d pc a b = computes d pc (sar a d.immediate)
effect_of add d pc a b = computes d pc (add32 a b)
effect_of sub d pc a b = computes d pc (sub32 a b)
effect_of sll d pc a b = computes d pc (shift_left a b)
effect_of slt d pc a b = computes d pc (flag_word (signed_less a b))
effect_of sltu d pc a b = computes d pc (flag_word (ltb a b))
effect_of xor d pc a b = computes d pc (bit_xor a b)
effect_of srl d pc a b = computes d pc (shift_right a b)
effect_of sra d pc a b = computes d pc (sar a b)
effect_of or d pc a b = computes d pc (bit_or a b)
effect_of and d pc a b = computes d pc (bit_and a b)
effect_of fence d pc a b = ok (plain d pc)
effect_of ecall d pc a b = fault environment_call
effect_of ebreak d pc a b = fault breakpoint
effect_of quantum d pc a b = ok (plain d pc)

unfoldable pub evaluate : Decoded → ℕ → ℕ → ℕ → Result Effect
evaluate d pc a b = do
  require (pc % 4 == 0) instruction_misaligned
  e ← effect_of d.op d pc a b
  require (e.next_pc % 4 == 0) instruction_misaligned
  ok e
