-- ===== src/Command.antt =====
-- include/qsbit/control_command.hpp, src/control_command.cpp and src/cpu/vliw.cpp: the commands that
-- a CPU hands to the timing control, from one control word or from a bundle of two codewords.
pub mod Bundle
use qsbit_sim.Isa.{Op, quantum, Decoded}
use qsbit_sim.Isa.Decode.{decode}
use qsbit_sim.Base.{
  ◌==◌, if◌then◌else◌, get_or, field, ◌>>=◌, ◌>>◌, require, Result, illegal_instruction, protocol,
  ok, fault, ℕ, ◌+◌, ◌*◌, ◌/◌, ◌%◌, ◌^◌, Bool, true, false, ◌&&◌, List,
}

pub data Command : Type 0 where
  codeword_command : ℕ → ℕ → Command
  wait_command : ℕ → Command
  fetch_measurement_command : ℕ → Command
  halt_command : Command
  synchronize_command : ℕ → Command

pub record ControlOperation : Type 0 where
  pub instruction : ℕ
  pub command : Command

abbrev pub same_command : Command → Command → Bool
same_command (codeword_command p c) (codeword_command p' c') = p == p' && c == c'
same_command (wait_command n) (wait_command n') = n == n'
same_command (fetch_measurement_command q) (fetch_measurement_command q') = q == q'
same_command halt_command halt_command = true
same_command (synchronize_command t) (synchronize_command t') = t == t'
same_command _ _ = false

abbrev pub same_operation : ControlOperation → ControlOperation → Bool
same_operation a b = a.instruction == b.instruction && same_command a.command b.command

abbrev pub is_quantum : Op → Bool
is_quantum quantum = true
is_quantum _ = false

abbrev pub codeword_mode : ℕ → ℕ → ℕ → ℕ → ℕ → Command
codeword_mode mode rs1 rs2 lhs rhs =
    codeword_command (if mode % 2 == 0 then lhs else rs1) (if mode / 2 % 2 == 0 then rhs else rs2)

abbrev pub operation_of : ℕ → Command → Result ControlOperation
operation_of id c = ok (record { instruction = id; command = c })

unfoldable pub adapt_quantum : Decoded → ℕ → ℕ → ℕ → Result ControlOperation
adapt_quantum d id lhs rhs = do
  require (is_quantum d.op) protocol
  let function = field d.word 12 3
  if function == 0
      then operation_of id (codeword_mode (d.word / 2 ^ 25) d.rs1 d.rs2 lhs rhs)
      else if function == 1
      then operation_of id (wait_command lhs)
      else if function == 2
      then operation_of id (wait_command (d.word / 2 ^ 15))
      else if function == 3
      then operation_of id (fetch_measurement_command d.rs1)
      else if function == 6
      then operation_of id (synchronize_command (d.word / 2 ^ 15))
      else fault illegal_instruction

-- The loop's body: the slot of a lane as a scalar control word, decoded and adapted.
unfoldable pub bundle_lane : ℕ → ℕ → List ℕ → ℕ → Result ControlOperation
unfolding adapt_quantum
bundle_lane word instruction registers lane = do
  let slot = field word (7 + 12 * lane) 12
  let port = slot % 2 ^ 5
  let codeword = slot / 2 ^ 5 % 2 ^ 5
  let modes = slot / 2 ^ 10
  let scalar = 0x0b + port * 2 ^ 15 + codeword * 2 ^ 20 + modes * 2 ^ 25
  d ← decode scalar
  adapt_quantum d instruction (get_or registers port 0) (get_or registers codeword 0)

-- `(word & 0x8000007f) == 0x2b`, then the two lanes.
unfoldable pub decode_cw_bundle : ℕ → ℕ → List ℕ → Result (ControlOperation × ControlOperation)
unfolding bundle_lane
decode_cw_bundle word instruction registers = do
  require (word % 2 ^ 7 == 0x2b && word / 2 ^ 31 == 0) illegal_instruction
  first ← bundle_lane word instruction registers 0
  second ← bundle_lane word instruction registers 1
  ok (first, second)
