-- ===== src/Isa/Decode.antt =====
-- `decode`: an RV32I word, a control word of the quantum extension, or an illegal instruction. The
-- bit fields that the source joins with `|` do not overlap, and are summed here.
pub mod Bounds
pub mod Fields
use qsbit_sim.Isa.Defs.{
  Op, lui, auipc, jal, jalr, beq, bne, blt, bge, bltu, bgeu, lb, lh, lw, lbu, lhu, sb, sh, sw, addi,
  slti, sltiu, xori, ori, andi, slli, srli, srai, add, sub, sll, slt, sltu, xor, srl, sra, or, and,
  fence, ecall, ebreak, quantum, Decoded, control_opcode, valid_control_word, sign_extend,
}
use qsbit_sim.Base.{
  ◌==◌, if◌then◌else◌, field, ◌>>=◌, ◌>>◌, require, Result, illegal_instruction, ok, fault, before,
  ℕ, ◌+◌, ◌*◌, ◌/◌, ◌%◌, ◌^◌, true, false, not, ◌&&◌, ◌||◌,
}

-- `Decoded d{Op::Fence, w}` with the register fields filled in.
abbrev pub blank : ℕ → Decoded
blank w = record {
  op = fence;
  word = w;
  immediate = 0;
  rd = field w 7 5;
  rs1 = field w 15 5;
  rs2 = field w 20 5;
  reads_rs1 = false;
  reads_rs2 = false;
  writes_rd = false;
}

abbrev pub funct3 : ℕ → ℕ
funct3 w = field w 12 3

abbrev pub funct7 : ℕ → ℕ
funct7 w = w / 2 ^ 25

-- The immediates, before sign extension.
abbrev pub upper_immediate : ℕ → ℕ
upper_immediate w = w / 2 ^ 12 * 2 ^ 12

abbrev pub jump_immediate : ℕ → ℕ
jump_immediate w =
    w / 2 ^ 31 * 2 ^ 20 + field w 12 8 * 2 ^ 12 + field w 20 1 * 2 ^ 11 + field w 21 10 * 2

abbrev pub branch_immediate : ℕ → ℕ
branch_immediate w =
    w / 2 ^ 31 * 2 ^ 12 + field w 7 1 * 2 ^ 11 + field w 25 6 * 2 ^ 5 + field w 8 4 * 2

abbrev pub store_immediate : ℕ → ℕ
store_immediate w = w / 2 ^ 25 * 2 ^ 5 + field w 7 5

unfoldable pub branch_op : ℕ → Result Op
branch_op f3 =
    if f3 == 0
    then ok beq
    else if f3 == 1
    then ok bne
    else if f3 == 4
    then ok blt
    else if f3 == 5
    then ok bge
    else if f3 == 6
    then ok bltu
    else if f3 == 7
    then ok bgeu
    else fault illegal_instruction

unfoldable pub load_op : ℕ → Result Op
load_op f3 =
    if f3 == 0
    then ok lb
    else if f3 == 1
    then ok lh
    else if f3 == 2
    then ok lw
    else if f3 == 4
    then ok lbu
    else if f3 == 5
    then ok lhu
    else fault illegal_instruction

unfoldable pub store_op : ℕ → Result Op
store_op f3 =
    if f3 == 0
    then ok sb
    else if f3 == 1
    then ok sh
    else if f3 == 2
    then ok sw
    else fault illegal_instruction

-- Opcode 0x13: the operation, and the immediate that the shifts replace by the shift amount.
unfoldable pub immediate_op : ℕ → ℕ → ℕ → ℕ → Result (Op × ℕ)
immediate_op f3 f7 rs2 immediate =
    if f3 == 0
    then ok (addi, immediate)
    else if f3 == 2
    then ok (slti, immediate)
    else if f3 == 3
    then ok (sltiu, immediate)
    else if f3 == 4
    then ok (xori, immediate)
    else if f3 == 6
    then ok (ori, immediate)
    else if f3 == 7
    then ok (andi, immediate)
    else if f3 == 1
    then if not (f7 == 0) then fault illegal_instruction else ok (slli, rs2)
    else if f3 == 5
    then if not (f7 == 0) && not (f7 == 32)
      then fault illegal_instruction
      else ok ((if f7 == 0 then srli else srai), rs2)
    else fault illegal_instruction

-- Opcode 0x33. The source's `switch` has a case for each of the eight values of `f3`.
unfoldable pub register_op : ℕ → ℕ → Result Op
register_op f3 f7 =
    if not (f7 == 0) && not ((f3 == 0 || f3 == 5) && f7 == 32)
    then fault illegal_instruction
    else if f3 == 0
    then ok (if f7 == 0 then add else sub)
    else if f3 == 1
    then ok sll
    else if f3 == 2
    then ok slt
    else if f3 == 3
    then ok sltu
    else if f3 == 4
    then ok xor
    else if f3 == 5
    then ok (if f7 == 0 then srl else sra)
    else if f3 == 6
    then ok or
    else ok and

unfoldable pub decode_upper : Op → ℕ → Decoded
decode_upper op w = record (blank w) { op = op; immediate = upper_immediate w; writes_rd = true }

unfoldable pub decode_jal : ℕ → Result Decoded
decode_jal w = do
  immediate ← sign_extend (jump_immediate w) 21
  ok (record (blank w) { op = jal; immediate = immediate; writes_rd = true })

unfoldable pub decode_jalr : ℕ → Result Decoded
decode_jalr w = do
  require (funct3 w == 0) illegal_instruction
  immediate ← sign_extend (w / 2 ^ 20) 12
  ok (record (blank w) { op = jalr; immediate = immediate; reads_rs1 = true; writes_rd = true })

unfoldable pub decode_branch : ℕ → Result Decoded
decode_branch w = do
  op ← branch_op (funct3 w)
  immediate ← sign_extend (branch_immediate w) 13
  ok (record (blank w) { op = op; immediate = immediate; reads_rs1 = true; reads_rs2 = true })

unfoldable pub decode_load : ℕ → Result Decoded
decode_load w = do
  op ← load_op (funct3 w)
  immediate ← sign_extend (w / 2 ^ 20) 12
  ok (record (blank w) { op = op; immediate = immediate; reads_rs1 = true; writes_rd = true })

unfoldable pub decode_store : ℕ → Result Decoded
decode_store w = do
  op ← store_op (funct3 w)
  immediate ← sign_extend (store_immediate w) 12
  ok (record (blank w) { op = op; immediate = immediate; reads_rs1 = true; reads_rs2 = true })

unfoldable pub decode_immediate : ℕ → Result Decoded
decode_immediate w = do
  extended ← sign_extend (w / 2 ^ 20) 12
  (op, immediate) ← immediate_op (funct3 w) (funct7 w) (field w 20 5) extended
  ok (record (blank w) { op = op; immediate = immediate; reads_rs1 = true; writes_rd = true })

unfoldable pub decode_register : ℕ → Result Decoded
decode_register w = do
  op ← register_op (funct3 w) (funct7 w)
  ok (record (blank w) { op = op; reads_rs1 = true; reads_rs2 = true; writes_rd = true })

unfoldable pub decode_fence : ℕ → Result Decoded
decode_fence w = do require (funct3 w == 0) illegal_instruction; ok (blank w)

unfoldable pub decode_system : ℕ → Result Decoded
decode_system w =
    if w == 0x00000073
    then ok (record (blank w) { op = ecall })
    else if w == 0x00100073
    then ok (record (blank w) { op = ebreak })
    else fault illegal_instruction

unfoldable pub decode_control : ℕ → Result Decoded
decode_control w = do
  require (valid_control_word w) illegal_instruction
  ok (record (blank w) {
    op = quantum;
    reads_rs1 = funct3 w == 0 && funct7 w % 2 == 0 || funct3 w == 1;
    reads_rs2 = funct3 w == 0 && funct7 w / 2 % 2 == 0;
    writes_rd = funct3 w == 3;
  })

unfoldable pub decode : ℕ → Result Decoded
decode w =
    let opcode = w % 128 in
    if opcode == 0x37
    then ok (decode_upper lui w)
    else if opcode == 0x17
    then ok (decode_upper auipc w)
    else if opcode == 0x6f
    then decode_jal w
    else if opcode == 0x67
    then decode_jalr w
    else if opcode == 0x63
    then decode_branch w
    else if opcode == 0x03
    then decode_load w
    else if opcode == 0x23
    then decode_store w
    else if opcode == 0x13
    then decode_immediate w
    else if opcode == 0x33
    then decode_register w
    else if opcode == 0x0f
    then decode_fence w
    else if opcode == 0x73
    then decode_system w
    else if opcode == control_opcode
    then decode_control w
    else fault illegal_instruction
