-- ===== src/Isa/Decode/Bounds.antt =====
-- src/isa.cpp: what every decoded instruction satisfies.
use qsbit_sim.Isa.Defs.{Op, lui, auipc, control_opcode, Decoded}
use qsbit_sim.Isa.SignExtend.{sign_extend-extended, extended-lt}
use qsbit_sim.Isa.Decode.{
  jump_immediate, branch_immediate, store_immediate, immediate_op, decode_upper, decode_jal,
  decode_jalr, decode_branch, decode_load, decode_store, decode_immediate, decode_register,
  decode_fence, decode_system, decode_control, decode,
}
use qsbit_sim.Base.{
  ◌==◌, if_cases, u32_mod, Result, ok, ℕ, ◌/◌, ◌%◌, ◌^◌, ◌<◌, ◌≡◌, refl, true, arith,
}

-- The registers of a decoded instruction are indices of the register file, its immediate is a word,
-- and its word ends in the bits 11 of an uncompressed instruction.
pub record IsBounded (w : ℕ) (d : Decoded) : Type 0 where
  pub same_word : d.word ≡ w
  pub rd_bound : d.rd < 32
  pub rs1_bound : d.rs1 < 32
  pub rs2_bound : d.rs2 < 32
  pub immediate_word : d.immediate < u32_mod
  pub uncompressed : w % 4 ≡ 3

-- What `r` returns, if it returns an instruction, is well formed.
abbrev Good : ℕ → Result Decoded → Type 0
Good w r = (d : Decoded) → r ≡ ok d → IsBounded w d

module _ (w : ℕ) (small : w < u32_mod) (low : w % 4 ≡ 3) where
  Good-upper : (op : Op) → Good w (ok (decode_upper op w))
  unfolding decode_upper
  Good-upper op d e = ground arith

  Good-jal : Good w (decode_jal w)
  unfolding decode_jal
  Good-jal d e = ground (
    arith,
    sign_extend-extended (jump_immediate w) 20 (omega arith),
    extended-lt (jump_immediate w) 20,
  )

  Good-jalr : Good w (decode_jalr w)
  unfolding decode_jalr
  Good-jalr d e =
      ground
        (arith, sign_extend-extended (w / 2 ^ 20) 11 (omega arith), extended-lt (w / 2 ^ 20) 11)

  Good-branch : Good w (decode_branch w)
  unfolding decode_branch
  Good-branch d e = ground (
    arith,
    sign_extend-extended (branch_immediate w) 12 (omega arith),
    extended-lt (branch_immediate w) 12,
  )

  Good-load : Good w (decode_load w)
  unfolding decode_load
  Good-load d e =
      ground
        (arith, sign_extend-extended (w / 2 ^ 20) 11 (omega arith), extended-lt (w / 2 ^ 20) 11)

  Good-store : Good w (decode_store w)
  unfolding decode_store
  Good-store d e = ground (
    arith,
    sign_extend-extended (store_immediate w) 11 (omega arith),
    extended-lt (store_immediate w) 11,
  )

  Good-immediate : Good w (decode_immediate w)
  unfolding decode_immediate immediate_op
  Good-immediate d e =
      ground
        (arith, sign_extend-extended (w / 2 ^ 20) 11 (omega arith), extended-lt (w / 2 ^ 20) 11)

  Good-register : Good w (decode_register w)
  unfolding decode_register
  Good-register d e = ground arith

  Good-fence : Good w (decode_fence w)
  unfolding decode_fence
  Good-fence d e = ground arith

  Good-system : Good w (decode_system w)
  unfolding decode_system
  Good-system d e = ground arith

  Good-control : Good w (decode_control w)
  unfolding decode_control
  Good-control d e = ground arith

low_bits : (w code : ℕ) → code % 4 ≡ 3 → (w % 128 == code) ≡ true → w % 4 ≡ 3
low_bits w code c h = ground arith

-- What `decode` accepts is well formed: `IsBounded`.
pub decode-IsBounded : (w : ℕ) {d : Decoded} → w < u32_mod → decode w ≡ ok d → IsBounded w d
unfolding decode
decode-IsBounded w {d} s e =
    let P = Good w in
    let o = w % 128 in
    (if_cases P (o == 0x37) (λ h. Good-upper w s (low_bits w 0x37 refl h) lui)
        λ _.
          if_cases P (o == 0x17) (λ h. Good-upper w s (low_bits w 0x17 refl h) auipc)
            λ _.
              if_cases P (o == 0x6f) (λ h. Good-jal w s (low_bits w 0x6f refl h))
                λ _.
                  if_cases P (o == 0x67) (λ h. Good-jalr w s (low_bits w 0x67 refl h))
                    λ _.
                      if_cases P (o == 0x63) (λ h. Good-branch w s (low_bits w 0x63 refl h))
                        λ _.
                          if_cases P (o == 0x03) (λ h. Good-load w s (low_bits w 0x03 refl h))
                            λ _.
                              if_cases P (o == 0x23) (λ h. Good-store w s (low_bits w 0x23 refl h))
                                λ _.
                                  if_cases P (o == 0x13)
                                    (λ h. Good-immediate w s (low_bits w 0x13 refl h))
                                    λ _.
                                      if_cases P (o == 0x33)
                                        (λ h. Good-register w s (low_bits w 0x33 refl h))
                                        λ _.
                                          if_cases P (o == 0x0f)
                                            (λ h. Good-fence w s (low_bits w 0x0f refl h))
                                            λ _.
                                              if_cases P (o == 0x73)
                                                (λ h. Good-system w s (low_bits w 0x73 refl h))
                                                λ _.
                                                  if_cases P (o == control_opcode)
                                                    (λ h.
                                                      Good-control w s
                                                        (low_bits w control_opcode refl h))
                                                    λ _. λ d bad. cc)
      d e
