-- ===== src/Isa/Defs.antt =====
-- The data of the instruction set, the control words of the contract, and sign extension.
use qsbit_sim.Base.{
  ltb, leb, ◌==◌, if◌then◌else◌, sub32, field, ◌>>◌, require, Result, invalid_operand, ok, ℕ, ◌-◌,
  ◌/◌, ◌%◌, ◌^◌, bit_xor, Bool, false, not, ◌&&◌,
}

pub data Op : Type 0 where
  lui auipc jal jalr beq bne blt bge bltu bgeu lb lh lw lbu lhu sb sh sw : Op
  addi slti sltiu xori ori andi slli srli srai : Op
  add sub sll slt sltu xor srl sra or and : Op
  fence ecall ebreak quantum : Op

pub record Decoded : Type 0 where
  pub op : Op
  pub word : ℕ
  pub immediate : ℕ
  pub rd : ℕ
  pub rs1 : ℕ
  pub rs2 : ℕ
  pub reads_rs1 : Bool
  pub reads_rs2 : Bool
  pub writes_rd : Bool

pub data MemoryKind : Type 0 where
  no_memory load store : MemoryKind

pub record Effect : Type 0 where
  pub next_pc : ℕ
  pub value : ℕ
  pub address : ℕ
  pub store_value : ℕ
  pub writes_rd : Bool
  pub branch_taken : Bool
  pub sign_extend_load : Bool
  pub memory : MemoryKind
  pub width : ℕ

abbrev pub control_opcode : ℕ
control_opcode = 0x0b

abbrev pub bundle_opcode : ℕ
bundle_opcode = 0x2b

-- The functions of `ControlFunction` are the numbers 0, 1, 2, 3 and 6; every other one is refused.
unfoldable pub valid_control_word : ℕ → Bool
valid_control_word word =
    let rd = field word 7 5 in
    let rs2 = field word 20 5 in
    let mode = word / 2 ^ 25 in
    let function = field word 12 3 in
    if not (word % 128 == control_opcode)
    then false
    else if function == 0
    then leb mode 3 && rd == 0
    else if function == 1
    then mode == 0 && (rd == 0 && rs2 == 0)
    else if function == 2
    then rd == 0
    else if function == 6
    then rd == 0
    else if function == 3
    then mode == 0 && rs2 == 0
    else false

-- `((value & mask) ^ sign) - sign` with the mask `2 ^ bits - 1` and the sign bit `2 ^ (bits - 1)`.
unfoldable pub sign_extend : ℕ → ℕ → Result ℕ
sign_extend value bits = do
  require (ltb 0 bits && leb bits 32) invalid_operand
  let sign = 2 ^ (bits - 1)
  ok (if bits == 32 then value else sub32 (bit_xor (value % 2 ^ bits) sign) sign)
