-- ===== src/Tests/Instructions.antt =====
-- src/isa.cpp, src/cpu/vliw.cpp and src/image.cpp at concrete inputs.
use qsbit_sim.Isa.{beq, addi, Decoded, sign_extend}
use qsbit_sim.Isa.SignExtend.{sign_extend-signed}
use qsbit_sim.Isa.Decode.{immediate_op, decode_immediate, decode}
use qsbit_sim.Isa.Decode.Fields.{beq_code, branch_word, decode-branch_word}
use qsbit_sim.Isa.Decode.Bounds.{IsBounded, decode-IsBounded}
use qsbit_sim.Command.{decode_cw_bundle}
use qsbit_sim.Command.Bundle.{slot, bundle_word, lane_operation, decode-bundle_word}
use qsbit_sim.Base.Int.{signed}
use qsbit_sim.Base.{u32_mod, ok, ℕ, ◌%◌, ◌^◌, ◌<◌, ◌≡◌, refl, true, false, [], ◌∷◌, arith}

sign_extend-signed_example :
    (r : ℕ) × (sign_extend 0x1ff 8 ≡ ok r)
    × (signed 32 r ≡ signed 8 (0x1ff % 2 ^ 8))
    × (r < u32_mod)
sign_extend-signed_example = sign_extend-signed 0x1ff 8 (omega arith) (omega arith)

decode-branch_word_example :
    (d : Decoded) × (decode (branch_word 0 1 2 0x1ffc) ≡ ok d)
    × (d.op ≡ beq)
    × (d.rs1 ≡ 1)
    × (d.rs2 ≡ 2)
    × (signed 32 d.immediate ≡ signed 13 0x1ffc)
    × (d.writes_rd ≡ false)
decode-branch_word_example =
    decode-branch_word 0 1 2 0x1ffc beq_code (omega arith) (omega arith) (omega arith) refl

-- `addi x1, x0, 5`.
abbrev add_five : Decoded
add_five = record {
  op = addi;
  word = 0x00500093;
  immediate = 5;
  rd = 1;
  rs1 = 0;
  rs2 = 5;
  reads_rs1 = true;
  reads_rs2 = false;
  writes_rd = true;
}

decode-IsBounded_example : IsBounded 0x00500093 add_five
unfolding decode decode_immediate sign_extend immediate_op
decode-IsBounded_example = decode-IsBounded 0x00500093 (omega arith) refl

decode-bundle_word_example :
    decode_cw_bundle (bundle_word (slot 3 17 0) (slot 4 5 2)) 9 (10 ∷ 11 ∷ 12 ∷ 13 ∷ 14 ∷ 15 ∷ [])
    ≡ ok (
      lane_operation 9 (10 ∷ 11 ∷ 12 ∷ 13 ∷ 14 ∷ 15 ∷ []) 3 17 0,
      lane_operation 9 (10 ∷ 11 ∷ 12 ∷ 13 ∷ 14 ∷ 15 ∷ []) 4 5 2,
    )
decode-bundle_word_example =
    decode-bundle_word 9 (10 ∷ 11 ∷ 12 ∷ 13 ∷ 14 ∷ 15 ∷ []) 3 17 0 4 5 2 (omega arith) (omega arith)
      (omega arith) (omega arith) (omega arith) (omega arith)
