-- ===== src/Cpu/Step.antt =====
-- The step of `InOrderPipeline` in src/cpu/pipeline.cpp: a response of the fetch port, the execute
-- stage, a flush, and then the stages move on, from the last to the first.
use qsbit_sim.Time.{edge, checked_add}
use qsbit_sim.Isa.{quantum, bundle_opcode}
use qsbit_sim.Isa.Decode.{decode, blank}
use qsbit_sim.Command.{decode_cw_bundle}
use qsbit_sim.Mailbox.{Envelope, Mailbox, publish, is_full}
use qsbit_sim.Mailbox as Mailbox
use qsbit_sim.Memory.{MemoryResponse}
use qsbit_sim.Trace.{event}
use qsbit_sim.Cpu.{
  ControlIssue, scalar, dual_codeword, Fetch, Frame, frame_of, Pipeline, Machine, Control, emit,
}
use qsbit_sim.Cpu.Execute.{execute}
use qsbit_sim.Base.{
  ◌==◌, if◌then◌else◌, is_some, get_or, add32, require, ◌>>=◌, ◌>>◌, Result, protocol, ok, fault, ℕ,
  ◌%◌, ◌^◌, Bool, true, false, not, ◌&&◌, ◌||◌, none, some, List, [], ◌∷◌,
}

-- A response to the request in flight fills the latch, unless a flush has come since the request.
abbrev pub latch : Fetch → MemoryResponse → Pipeline → Result Pipeline
latch r response p =
    if r.generation == p.generation && not p.halted
    then (do
      require (not (is_some p.fetched)) protocol
      ok (record p {
        fetched = some (frame_of r.id r.pc response.value response.fault);
        fetch_request = none;
      }))
    else ok (record p { fetch_request = none })

unfoldable pub accept_fetch : (epoch : ℕ) → Envelope MemoryResponse → Pipeline → Result Pipeline
accept_fetch epoch response p =
    if not (response.epoch == epoch) then ok p else elim p.fetch_request [
      | none ↦ fault protocol
      | some r ↦ do require (response.value.id == r.id) protocol; latch r response.value p
    ]

-- `registers_` is an array of 32, and the registers of an instruction are below 32.
unfoldable pub decode_frame : ControlIssue → (registers : List ℕ) → Frame → Frame
decode_frame issue registers f =
    let bundled : Frame = elim (decode_cw_bundle f.word f.id registers) [
      | fault code ↦ record f { failure = some code }
      | ok (first, second) ↦ record f {
        operations = first ∷ second ∷ [];
        bundle = true;
        decoded = some (record (blank f.word) { op = quantum; rd = 0; rs1 = 0; rs2 = 0 });
      }
    ] in
    let single : Frame = elim (decode f.word) [
      | fault code ↦ record f { failure = some code }
      | ok d ↦ record f {
        decoded = some d;
        lhs = get_or registers d.rs1 0;
        rhs = get_or registers d.rs2 0;
      }
    ] in
    let bundles : Bool = elim issue [
      | scalar ↦ false
      | dual_codeword ↦ f.word % 2 ^ 7 == bundle_opcode
    ] in
    elim f.failure [ some code ↦ f | none ↦ if bundles then bundled else single ]

unfoldable pub issue_frame : Pipeline → Pipeline
unfolding decode_frame
issue_frame p = elim p.executing [
  | some f ↦ p
  | none ↦ elim p.decoding [
    | none ↦ p
    | some f ↦ record p { executing = some (decode_frame p.issue p.registers f); decoding = none }
  ]
]

unfoldable pub move_frame : Pipeline → Pipeline
move_frame p = elim p.decoding [
  | some f ↦ p
  | none ↦ elim p.fetched [ none ↦ p | some f ↦ record p { decoding = some f; fetched = none } ]
]

module _ {ℓ} {C : Type ℓ} where
  unfoldable pub receive_fetch : (now epoch : ℕ) → Machine C → Result (Machine C)
  unfolding accept_fetch
  receive_fetch now epoch m =
      let (message, responses) = Mailbox.take m.fetch_port.responses now in
      elim message [
        | none ↦ ok m
        | some response ↦ do
          p ← accept_fetch epoch response m.pipeline
          ok (record m { pipeline = p; fetch_port = record m.fetch_port { responses = responses } })
      ]

  unfoldable pub flush : (now epoch : ℕ) → Machine C → Result (Machine C)
  flush now epoch m = do
    let p = m.pipeline
    generation ← checked_add p.generation 1
    ok (
        emit (event now epoch "PipelineFlushed" 0 0 0) (record m {
          pipeline = record p {
            decoding = none;
            fetched = none;
            generation = generation;
            fetch_pc = p.pc;
          };
        }))

  unfoldable pub request_fetch : (now epoch : ℕ) → Machine C → Result (Machine C)
  request_fetch now epoch m =
      let p = m.pipeline in
      if is_some p.fetch_request || (is_some p.fetched || is_full m.fetch_port.requests)
      then ok m
      else do
        next ← checked_add p.next_fetch 1
        requests ← publish m.fetch_port.requests now epoch (record {
          id = p.next_fetch;
          address = p.fetch_pc;
          value = 0;
          width = 4;
          write = false;
          instruction = true;
        })
        ok (record m {
          pipeline = record p {
            next_fetch = next;
            fetch_request =
                some (record { id = p.next_fetch; pc = p.fetch_pc; generation = p.generation });
            fetch_pc = add32 p.fetch_pc 4;
          };
          fetch_port = record m.fetch_port { requests = requests };
        })

  -- The part of the step after the flush.
  unfoldable pub advance : (now epoch : ℕ) → Machine C → Result (Machine C)
  unfolding issue_frame move_frame request_fetch
  advance now epoch m =
      if m.pipeline.halted
      then ok m
      else request_fetch now epoch (record m { pipeline = move_frame (issue_frame m.pipeline) })

module _ {ℓ} {C : Type ℓ} (control : Control C) where
  unfoldable pub run_stages : (now epoch : ℕ) → Machine C → Result (Machine C)
  unfolding execute flush advance
  run_stages now epoch m = do
    (flushes, executed) ← execute control now epoch m
    flushed ← if flushes then flush now epoch executed else ok executed
    advance now epoch flushed

  unfoldable pub step : (now epoch : ℕ) → Machine C → Result (Machine C)
  unfolding receive_fetch run_stages
  step now epoch m = do
    require (edge m.pipeline.clock now) protocol
    received ← receive_fetch now epoch m
    if received.pipeline.halted then ok received else run_stages now epoch received
