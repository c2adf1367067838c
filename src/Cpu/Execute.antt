-- ===== src/Cpu/Execute.antt =====
-- The execute stage of `InOrderPipeline::step` in src/cpu/pipeline.cpp, for each sort of instruction.
use qsbit_sim.Time.{checked_add}
use qsbit_sim.Isa.{Op, ecall, Decoded, Effect, MemoryKind, no_memory, store, sign_extend}
use qsbit_sim.Isa.Evaluate.{evaluate}
use qsbit_sim.Command.{ControlOperation, halt_command, adapt_quantum, is_quantum}
use qsbit_sim.Mailbox.{Envelope, Mailbox, publish, is_full}
use qsbit_sim.Mailbox as Mailbox
use qsbit_sim.Trace.{event}
use qsbit_sim.Cpu.{Frame, Machine, Control, emit, retire}
use qsbit_sim.Base.{
  ◌==◌, if◌then◌else◌, length, get_or, drop, add32, require, ◌>>=◌, ◌>>◌, Result, protocol, ok,
  fault, ℕ, suc, ◌*◌, String, Bool, true, false, ◌&&◌, ◌||◌, Option, none, some, List, [], ◌∷◌,
  ◌++◌,
}

-- What the stage leaves of an instruction: `completed`, `value`, `next_pc` and `flush`.
pub record Outcome : Type 0 where
  pub frame : Frame
  pub completed : Bool
  pub value : ℕ
  pub next_pc : ℕ
  pub flush : Bool

abbrev pub stalled : Frame → Outcome
stalled f = record {
  frame = f;
  completed = false;
  value = 0;
  next_pc = add32 f.pc 4;
  flush = false;
}

abbrev pub completes : Frame → (value : ℕ) → Outcome
completes f value = record (stalled f) { completed = true; value = value }

abbrev pub is_ecall : Op → Bool
is_ecall ecall = true
is_ecall _ = false

abbrev pub is_no_memory : MemoryKind → Bool
is_no_memory no_memory = true
is_no_memory _ = false

abbrev pub is_store : MemoryKind → Bool
is_store store = true
is_store _ = false

abbrev pub stall_detail : Op → String
stall_detail op =
    if is_quantum op || is_ecall op
    then "timing control or measurement register"
    else "memory response"

module _ {ℓ} {C : Type ℓ} (control : Control C) where
  -- The call of `ports.control`.
  unfoldable pub call_control : ControlOperation → Machine C → Result (Option ℕ × Machine C)
  call_control operation m = do
    (reply, c, events) ← control operation m.control
    ok (reply, record m { control = c; events = m.events ++ events })

  -- The loop over the lanes that are left, with the number of those that are done.
  unfoldable pub run_lanes : List ControlOperation → (done : ℕ) → Machine C → Result (ℕ × Machine C)
  unfolding call_control
  run_lanes [] done m = ok (done, m)
  run_lanes (operation ∷ rest) done m = do
    (reply, m') ← call_control operation m
    elim reply [ none ↦ ok (done, m') | some value ↦ run_lanes rest (suc done) m' ]

  unfoldable pub run_bundle : Frame → Machine C → Result (Outcome × Machine C)
  unfolding run_lanes
  run_bundle f m = do
    (done, m') ← run_lanes (drop f.completed_lanes f.operations) f.completed_lanes m
    let outcome = stalled (record f { completed_lanes = done })
    ok (record outcome { completed = done == length f.operations }, m')

  unfoldable pub run_quantum : Frame → Decoded → Machine C → Result (Outcome × Machine C)
  unfolding call_control
  run_quantum f d m = do
    operation ← adapt_quantum d f.id f.lhs f.rhs
    (reply, m') ← call_control operation m
    ok (elim reply [ none ↦ stalled f | some value ↦ completes f value ], m')

  unfoldable pub run_halt : Frame → Machine C → Result (Outcome × Machine C)
  unfolding call_control
  run_halt f m = do
    (reply, m') ← call_control (record { instruction = f.id; command = halt_command }) m
    elim reply [
      | none ↦ ok (stalled f, m')
      | some value ↦ ok (
        record (completes f 0) { flush = true },
        record m' { pipeline = record m'.pipeline { halted = true } },
      )
    ]

module _ {ℓ} {C : Type ℓ} where
  -- The request of a load or a store, where the port has room for it.
  unfoldable pub request_data :
      Frame → Effect → (now epoch : ℕ) → Machine C → Result (Outcome × Machine C)
  request_data f e now epoch m =
      if is_full m.data_port.requests
      then ok (record (stalled f) { value = e.value; next_pc = e.next_pc }, m)
      else do
        let p = m.pipeline
        next ← checked_add p.next_data 1
        requests ← publish m.data_port.requests now epoch (record {
          id = p.next_data;
          address = e.address;
          value = e.store_value;
          width = e.width;
          write = is_store e.memory;
          instruction = false;
        })
        ok (
          record (stalled (record f { memory_request = p.next_data })) {
            value = e.value;
            next_pc = e.next_pc;
          },
          record m {
            pipeline = record p { next_data = next };
            data_port = record m.data_port { requests = requests };
          },
        )

  -- The answer of the memory, none where it has not come.
  unfoldable pub receive_data :
      Frame → Effect → (now epoch : ℕ) → Machine C → Result (Outcome × Machine C)
  receive_data f e now epoch m =
      let (message, responses) = Mailbox.take m.data_port.responses now in
      elim message [
        | none ↦ ok (record (stalled f) { value = e.value; next_pc = e.next_pc }, m)
        | some response ↦ do
          require (response.epoch == epoch && response.value.id == f.memory_request) protocol
          elim response.value.fault [
            | some code ↦ fault code
            | none ↦ do
              value ←
                  if e.sign_extend_load
                  then sign_extend response.value.value (e.width * 8)
                  else ok response.value.value
              ok (
                record (completes f value) { next_pc = e.next_pc },
                record m { data_port = record m.data_port { responses = responses } },
              )
          ]
      ]

  unfoldable pub run_effect :
      Frame → Decoded → (now epoch : ℕ) → Machine C → Result (Outcome × Machine C)
  unfolding request_data receive_data
  run_effect f d now epoch m = do
    e ← elim f.effect [ none ↦ evaluate d f.pc f.lhs f.rhs | some e ↦ ok e ]
    let f' : Frame = record f { effect = some e }
    if is_no_memory e.memory
        then ok (record (completes f' e.value) { next_pc = e.next_pc; flush = e.branch_taken }, m)
        else if f.memory_request == 0
        then request_data f' e now epoch m
        else receive_data f' e now epoch m

module _ {ℓ} {C : Type ℓ} where
  abbrev pub settle : Decoded → (now epoch : ℕ) → Outcome × Machine C → Bool × Machine C
  settle d now epoch (o, m) =
      if o.completed
      then (let retired = retire o.frame d o.value o.next_pc now epoch m in
          (o.flush, record retired { pipeline = record retired.pipeline { executing = none } }))
      else (
        o.flush,
        emit (record (event now epoch "CpuStalled" o.frame.id 0 0) { detail = stall_detail d.op })
            (record m { pipeline = record m.pipeline { executing = some o.frame } }),
      )

module _ {ℓ} {C : Type ℓ} (control : Control C) where
  unfoldable pub run : Frame → Decoded → (now epoch : ℕ) → Machine C → Result (Outcome × Machine C)
  unfolding run_bundle run_quantum run_halt run_effect
  run f d now epoch m =
      if f.bundle
      then run_bundle control f m
      else if is_quantum d.op
      then run_quantum control f d m
      else if is_ecall d.op && get_or m.pipeline.registers 17 0 == 93
      then run_halt control f m
      else run_effect f d now epoch m

  -- What follows the checks; the Boolean is `flush`.
  unfoldable pub execute_frame :
      Frame → Decoded → (now epoch : ℕ) → Machine C → Result (Bool × Machine C)
  unfolding run
  execute_frame f d now epoch m = do done ← run f d now epoch m; ok (settle d now epoch done)

  -- The stage as a whole.
  unfoldable pub execute : (now epoch : ℕ) → Machine C → Result (Bool × Machine C)
  unfolding execute_frame
  execute now epoch m = elim m.pipeline.executing [
    | none ↦ ok (false, m)
    | some f ↦ elim f.failure [
      | some code ↦ fault code
      | none ↦ elim f.decoded [ none ↦ fault protocol | some d ↦ execute_frame f d now epoch m ]
    ]
  ]
