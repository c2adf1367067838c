-- ===== src/Cpu.antt =====
-- include/qsbit/cpu/pipeline.hpp and src/cpu/pipeline.cpp: the in-order pipeline, with a fetch in
-- flight and a latch before each of the stages decode and execute. The samples for the pipeline trace
-- are left out.
pub mod Execute
pub mod Step
pub mod Sequence
pub mod Runs
pub mod Registers
pub mod Flow
use qsbit_sim.Time.{Clock}
use qsbit_sim.Isa.{Decoded, Effect}
use qsbit_sim.Command.{ControlOperation}
use qsbit_sim.Memory.{MemoryPort}
use qsbit_sim.Trace.{TraceEvent, event, Events}
use qsbit_sim.Base.{
  ◌==◌, if◌then◌else◌, set, replicate, ErrorCode, Result, ℕ, ◌-◌, ◌/◌, Bool, false, not, ◌&&◌,
  Option, none, List, [], ◌∷◌, ◌++◌,
}

pub data ControlIssue : Type 0 where
  scalar dual_codeword : ControlIssue

pub record Fetch : Type 0 where
  pub id : ℕ
  pub pc : ℕ
  pub generation : ℕ

-- `operations` is empty up to the decoding of a bundle.
pub record Frame : Type 0 where
  pub id : ℕ
  pub pc : ℕ
  pub word : ℕ
  pub lhs : ℕ
  pub rhs : ℕ
  pub failure : Option ErrorCode
  pub decoded : Option Decoded
  pub effect : Option Effect
  pub memory_request : ℕ
  pub bundle : Bool
  pub operations : List ControlOperation
  pub completed_lanes : ℕ

abbrev pub frame_of : (id pc word : ℕ) → Option ErrorCode → Frame
frame_of id pc word failure = record {
  id = id;
  pc = pc;
  word = word;
  lhs = 0;
  rhs = 0;
  failure = failure;
  decoded = none;
  effect = none;
  memory_request = 0;
  bundle = false;
  operations = [];
  completed_lanes = 0;
}

-- `decoding` and `executing` are the members `decode_` and `execute_`.
pub record Pipeline : Type 0 where
  pub issue : ControlIssue
  pub clock : Clock
  pub registers : List ℕ
  pub pc : ℕ
  pub fetch_pc : ℕ
  pub fetch_request : Option Fetch
  pub fetched : Option Frame
  pub decoding : Option Frame
  pub executing : Option Frame
  pub next_fetch : ℕ
  pub next_data : ℕ
  pub generation : ℕ
  pub halted : Bool

unfoldable pub init : ControlIssue → Clock → (entry : ℕ) → Pipeline
init issue clock entry = record {
  issue = issue;
  clock = clock;
  registers = replicate 32 0;
  pc = entry;
  fetch_pc = entry;
  fetch_request = none;
  fetched = none;
  decoding = none;
  executing = none;
  next_fetch = 1;
  next_data = 1;
  generation = 0;
  halted = false;
}

unfoldable pub reset : (entry : ℕ) → Pipeline → Pipeline
unfolding init
reset entry p = init p.issue p.clock entry

-- What `step` works on: the pipeline, its ports with the state behind `control`, and the trace.
pub record Machine {ℓ} (C : Type ℓ) : Type ℓ where
  pub pipeline : Pipeline
  pub fetch_port : MemoryPort
  pub data_port : MemoryPort
  pub control : C
  pub events : Events

-- `CpuPorts::control`: the reply where the operation is done, and the trace events of the call.
abbrev pub Control {ℓ} : Type ℓ → Type ℓ
Control C = ControlOperation → C → Result (Option ℕ × C × Events)

abbrev pub writes_register : Decoded → Bool
writes_register d = d.writes_rd && not (d.rd == 0)

-- `registers_[rd] = value` where the instruction writes, then `registers_[0] = 0`.
abbrev pub written : Decoded → ℕ → List ℕ → List ℕ
written d value registers =
    set (if writes_register d then set registers d.rd value else registers) 0 0

module _ {ℓ} {C : Type ℓ} where
  abbrev pub emit : TraceEvent → Machine C → Machine C
  emit e m = record m { events = m.events ++ e ∷ [] }

  unfoldable pub retire : Frame → Decoded → (value next_pc now epoch : ℕ) → Machine C → Machine C
  retire f d value next_pc now epoch m =
      let p = m.pipeline in
      emit (event now epoch "InstructionRetired" f.id 0 ((now - p.clock.phase) / p.clock.period))
        (record m { pipeline = record p { registers = written d value p.registers; pc = next_pc } })
