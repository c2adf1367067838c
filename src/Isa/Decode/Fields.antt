-- ===== src/Isa/Decode/Fields.antt =====
-- Decoding against the instruction formats of the RISC-V manual: the fields of a word that was
-- assembled from them come back, with the immediates put together and sign-extended.
use qsbit_sim.Base.Int.{signed}
use qsbit_sim.Isa.Defs.{Op, jal, beq, bne, blt, bge, bltu, bgeu, Decoded, sign_extend}
use qsbit_sim.Isa.SignExtend.{sign_extend-signed, extended}
use qsbit_sim.Isa.Decode.{
  blank, funct3, jump_immediate, branch_immediate, store_immediate, branch_op, store_op, decode_jal,
  decode_branch, decode_load, decode_store, decode_immediate, decode,
}
use qsbit_sim.Base.{field, ok, ℕ, ◌+◌, ◌*◌, ◌%◌, ◌^◌, ◌<◌, ◌≡◌, refl, ◌∙◌, true, false, arith}

-- The B format: a branch with the even offset's bits 12, 10 to 5, 4 to 1 and 11 in four places.
abbrev pub branch_word : ℕ → ℕ → ℕ → ℕ → ℕ
branch_word f3 rs1 rs2 offset =
    0x63
    + field offset 11 1 * 2 ^ 7
    + field offset 1 4 * 2 ^ 8
    + f3 * 2 ^ 12
    + rs1 * 2 ^ 15
    + rs2 * 2 ^ 20
    + field offset 5 6 * 2 ^ 25
    + field offset 12 1 * 2 ^ 31

-- The J format: a jump with the even offset's bits 20, 10 to 1, 11 and 19 to 12.
abbrev pub jump_word : ℕ → ℕ → ℕ
jump_word rd offset =
    0x6f
    + rd * 2 ^ 7
    + field offset 12 8 * 2 ^ 12
    + field offset 11 1 * 2 ^ 20
    + field offset 1 10 * 2 ^ 21
    + field offset 20 1 * 2 ^ 31

-- The S format: a store with the offset's bits 11 to 5 and 4 to 0.
abbrev pub store_word : ℕ → ℕ → ℕ → ℕ → ℕ
store_word f3 rs1 rs2 offset =
    0x23
    + field offset 0 5 * 2 ^ 7
    + f3 * 2 ^ 12
    + rs1 * 2 ^ 15
    + rs2 * 2 ^ 20
    + field offset 5 7 * 2 ^ 25

-- The I format.
abbrev pub immediate_word : ℕ → ℕ → ℕ → ℕ → ℕ → ℕ
immediate_word opcode f3 rd rs1 immediate =
    opcode + rd * 2 ^ 7 + f3 * 2 ^ 12 + rs1 * 2 ^ 15 + immediate * 2 ^ 20

branch_word-fields :
    (f3 rs1 rs2 offset : ℕ)
    → f3 < 8
    → rs1 < 32
    → rs2 < 32
    → offset < 2 ^ 13
    → offset % 2 ≡ 0
    → let w = branch_word f3 rs1 rs2 offset in
      (w % 128 ≡ 0x63)
      × (funct3 w ≡ f3)
      × (field w 15 5 ≡ rs1)
      × (field w 20 5 ≡ rs2)
      × (branch_immediate w ≡ offset)
branch_word-fields f3 rs1 rs2 offset a b c d e = omega arith

jump_word-fields :
    (rd offset : ℕ)
    → rd < 32
    → offset < 2 ^ 21
    → offset % 2 ≡ 0
    → let w = jump_word rd offset in
      (w % 128 ≡ 0x6f) × (field w 7 5 ≡ rd) × (jump_immediate w ≡ offset)
jump_word-fields rd offset a b c = omega arith

store_word-fields :
    (f3 rs1 rs2 offset : ℕ)
    → f3 < 8
    → rs1 < 32
    → rs2 < 32
    → offset < 2 ^ 12
    → let w = store_word f3 rs1 rs2 offset in
      (w % 128 ≡ 0x23)
      × (funct3 w ≡ f3)
      × (field w 15 5 ≡ rs1)
      × (field w 20 5 ≡ rs2)
      × (store_immediate w ≡ offset)
store_word-fields f3 rs1 rs2 offset a b c d = omega arith

decode_at :
    (w : ℕ)
    → (w % 128 ≡ 0x63 → decode w ≡ decode_branch w)
      × (w % 128 ≡ 0x6f → decode w ≡ decode_jal w)
      × (w % 128 ≡ 0x23 → decode w ≡ decode_store w)
      × (w % 128 ≡ 0x03 → decode w ≡ decode_load w)
      × (w % 128 ≡ 0x13 → decode w ≡ decode_immediate w)
unfolding decode
decode_at w =
    ((λ h. rw h refl), (λ h. rw h refl), (λ h. rw h refl), (λ h. rw h refl), (λ h. rw h refl))

module _ (w f3 offset extended : ℕ) {op : Op} (f : funct3 w ≡ f3) where
  decode_branch-ok :
      branch_op f3 ≡ ok op
      → branch_immediate w ≡ offset
      → sign_extend offset 13 ≡ ok extended
      → decode_branch w
        ≡ ok
            (record (blank w) { op = op; immediate = extended; reads_rs1 = true; reads_rs2 = true })
  unfolding decode_branch
  decode_branch-ok o imm e = rw (f, o, imm, e) refl

  decode_store-ok :
      store_op f3 ≡ ok op
      → store_immediate w ≡ offset
      → sign_extend offset 12 ≡ ok extended
      → decode_store w
        ≡ ok
            (record (blank w) { op = op; immediate = extended; reads_rs1 = true; reads_rs2 = true })
  unfolding decode_store
  decode_store-ok o imm e = rw (f, o, imm, e) refl

-- The branches and their `funct3`, as the RISC-V manual lists them.
pub data BranchCode : ℕ → Op → Type 0 where
  beq_code : BranchCode 0 beq
  bne_code : BranchCode 1 bne
  blt_code : BranchCode 4 blt
  bge_code : BranchCode 5 bge
  bltu_code : BranchCode 6 bltu
  bgeu_code : BranchCode 7 bgeu

branch_op_lem : {f3 : ℕ} {op : Op} → BranchCode f3 op → (branch_op f3 ≡ ok op) × (f3 < 8)
unfolding branch_op
branch_op_lem beq_code = (refl, omega arith)
branch_op_lem bne_code = (refl, omega arith)
branch_op_lem blt_code = (refl, omega arith)
branch_op_lem bge_code = (refl, omega arith)
branch_op_lem bltu_code = (refl, omega arith)
branch_op_lem bgeu_code = (refl, omega arith)

-- A branch that is assembled in the B format, with the `funct3` of the manual, decodes to its operation and registers, with an
-- immediate that stands for the same signed offset, for every even offset of 13 bits.
pub decode-branch_word :
    (f3 rs1 rs2 offset : ℕ) {op : Op}
    → BranchCode f3 op
    → rs1 < 32
    → rs2 < 32
    → offset < 2 ^ 13
    → offset % 2 ≡ 0
    → (d : Decoded) × (decode (branch_word f3 rs1 rs2 offset) ≡ ok d)
      × (d.op ≡ op)
      × (d.rs1 ≡ rs1)
      × (d.rs2 ≡ rs2)
      × (signed 32 d.immediate ≡ signed 13 offset)
      × (d.writes_rd ≡ false)
decode-branch_word f3 rs1 rs2 offset {op} branch b c l even =
    let (o, a) = branch_op_lem branch in
    let w = branch_word f3 rs1 rs2 offset in
    let (code, f, r1, r2, imm) = branch_word-fields f3 rs1 rs2 offset a b c l even in
    let (extended, ok_eq, value, small) =
      sign_extend-signed offset 13 (omega arith) (omega arith) in
    let same : offset % 2 ^ 13 ≡ offset = omega arith in
    let d : Decoded = record (blank w) {
      op = op;
      immediate = extended;
      reads_rs1 = true;
      reads_rs2 = true;
    } in
    (
      d,
      (decode_at w).0 code ∙ decode_branch-ok w f3 offset extended f o imm ok_eq,
      refl,
      r1,
      r2,
      rw same at value,
      refl,
    )

-- A jump that is assembled in the J format decodes to its register, with an immediate that stands
-- for the same signed offset, for every even offset of 21 bits.
pub decode-jump_word :
    (rd offset : ℕ)
    → rd < 32
    → offset < 2 ^ 21
    → offset % 2 ≡ 0
    → (d : Decoded) × (decode (jump_word rd offset) ≡ ok d)
      × (d.op ≡ jal)
      × (d.rd ≡ rd)
      × (signed 32 d.immediate ≡ signed 21 offset)
      × (d.writes_rd ≡ true)
unfolding decode_jal
decode-jump_word rd offset a l even =
    let w = jump_word rd offset in
    let (code, r, imm) = jump_word-fields rd offset a l even in
    let (extended, ok_eq, value, small) =
      sign_extend-signed offset 21 (omega arith) (omega arith) in
    let same : offset % 2 ^ 21 ≡ offset = omega arith in
    let d : Decoded = record (blank w) { op = jal; immediate = extended; writes_rd = true } in
    (d, (decode_at w).1 code ∙ rw (imm, ok_eq) refl, refl, r, rw same at value, refl)

-- A store that is assembled in the S format decodes to its operation and registers, with an
-- immediate that stands for the same signed offset, for every offset of 12 bits.
pub decode-store_word :
    (f3 rs1 rs2 offset : ℕ) {op : Op}
    → f3 < 8
    → rs1 < 32
    → rs2 < 32
    → offset < 2 ^ 12
    → store_op f3 ≡ ok op
    → (d : Decoded) × (decode (store_word f3 rs1 rs2 offset) ≡ ok d)
      × (d.op ≡ op)
      × (d.rs1 ≡ rs1)
      × (d.rs2 ≡ rs2)
      × (signed 32 d.immediate ≡ signed 12 offset)
      × (d.writes_rd ≡ false)
decode-store_word f3 rs1 rs2 offset {op} a b c l o =
    let w = store_word f3 rs1 rs2 offset in
    let (code, f, r1, r2, imm) = store_word-fields f3 rs1 rs2 offset a b c l in
    let (extended, ok_eq, value, small) =
      sign_extend-signed offset 12 (omega arith) (omega arith) in
    let same : offset % 2 ^ 12 ≡ offset = omega arith in
    let d : Decoded = record (blank w) {
      op = op;
      immediate = extended;
      reads_rs1 = true;
      reads_rs2 = true;
    } in
    (
      d,
      (decode_at w).2 code ∙ decode_store-ok w f3 offset extended f o imm ok_eq,
      refl,
      r1,
      r2,
      rw same at value,
      refl,
    )
