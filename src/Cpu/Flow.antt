-- ===== src/Cpu/Flow.antt =====
-- What an instruction does when it leaves the pipeline of src/cpu/pipeline.cpp: where the program goes
-- on, and what is written to the registers.
pub mod Step
pub mod Runs
use qsbit_sim.Time.{edge, checked_add}
use mathlib.Core.Path.{subst}
use qsbit_sim.Isa.{Decoded, Effect}
use qsbit_sim.Isa.Decode.{decode}
use qsbit_sim.Isa.Evaluate.{evaluate}
use qsbit_sim.Command.{is_quantum, decode_cw_bundle, halt_command, adapt_quantum, ControlOperation}
use qsbit_sim.Mailbox as Mailbox
use qsbit_sim.Cpu.{ControlIssue, Frame, Pipeline, Machine, Control, retire, written, init, reset}
use qsbit_sim.Cpu.Execute.{
  is_ecall, is_no_memory, Outcome, call_control, run_lanes, run_bundle, run_quantum, run_halt,
  request_data, receive_data, run_effect, run, settle, execute_frame, execute,
}
use qsbit_sim.Cpu.Step.{
  accept_fetch, decode_frame, issue_frame, move_frame, receive_fetch, flush, request_fetch, advance,
  run_stages, step,
}
use qsbit_sim.Cpu.Registers.{run-registers}
use qsbit_sim.Base.{
  ◌==◌, if_cases, get_or, add32, ok-injective, >>=-eq-ok, Result, ok, ℕ, ◌≡◌, refl, sym, ◌⊎◌, inr,
  Bool, true, false, ◌&&◌, ◌||◌, Option, none, some, List, arith,
}

-- The operands and the effect of a decoded instruction are those of its word and of the registers.
abbrev pub Matches : List ℕ → Frame → Option Decoded → (bundle : Bool) → Type 0
Matches registers f none b = Unit
Matches registers f (some d) true = Unit
Matches registers f (some d) false =
    (decode f.word ≡ ok d)
    × (f.lhs ≡ get_or registers d.rs1 0)
    × (f.rhs ≡ get_or registers d.rs2 0)
    × elim f.effect [ none ↦ Unit | some e ↦ evaluate d f.pc f.lhs f.rhs ≡ ok e ]

abbrev pub Reads : List ℕ → Option Frame → Type 0
Reads registers none = Unit
Reads registers (some f) = Matches registers f f.decoded f.bundle

-- A frame that is not decoded yet.
abbrev pub IsRaw : Option Frame → Type 0
IsRaw none = Unit
IsRaw (some f) = (f.decoded ≡ none) × (f.effect ≡ none) × (f.bundle ≡ false)

unfoldable pub IsCurrent : Pipeline → Type 0
IsCurrent p = Reads p.registers p.executing × IsRaw p.decoding × IsRaw p.fetched

-- What the timing control or the exit call takes: codewords and the other control instructions.
abbrev pub is_control : List ℕ → Frame → Decoded → Bool
is_control registers f d =
    f.bundle || (is_quantum d.op || (is_ecall d.op && get_or registers 17 0 == 93))

-- Where the program goes on after an instruction, and the value that it leaves: the evaluation of
-- its word on the registers, save for what a load reads from the memory; a control instruction goes
-- on to the next one.
abbrev pub Lands : List ℕ → (pc : ℕ) → Frame → Decoded → (next value : ℕ) → Type 0
Lands registers pc f d next value =
    (is_control registers f d ≡ true) × (next ≡ add32 pc 4)
    ⊎ (is_control registers f d ≡ false)
      × (decode f.word ≡ ok d)
      × ((e : Effect) × (evaluate d pc (get_or registers d.rs1 0) (get_or registers d.rs2 0) ≡ ok e)
          × (next ≡ e.next_pc)
          × (is_no_memory e.memory ≡ true → value ≡ e.value))

-- What the execute stage makes of an instruction.
abbrev pub Ends : List ℕ → Frame → Decoded → Outcome → Type 0
Ends registers f d o =
    (o.frame.id ≡ f.id)
    × (o.frame.pc ≡ f.pc)
    × Reads registers (some o.frame)
    × (o.completed ≡ true → Lands registers f.pc f d o.next_pc o.value)

pub decode_frame-Reads :
    (issue : ControlIssue) (registers : List ℕ) (f : Frame)
    → IsRaw (some f)
    → Reads registers (some (decode_frame issue registers f))
unfolding decode_frame
decode_frame-Reads issue registers f h = ground arith

module _ {ℓ} {C : Type ℓ} (control : Control C) where
  run_bundle-Ends :
      (registers : List ℕ) (f : Frame) (d : Decoded) (m m' : Machine C) (o : Outcome)
      → run_bundle control f m ≡ ok (o, m')
      → f.bundle ≡ true
      → f.decoded ≡ some d
      → Ends registers f d o
  unfolding run_bundle
  run_bundle-Ends registers f d m m' o e b h = ground arith

  run_quantum-Ends :
      (registers : List ℕ) (f : Frame) (d : Decoded) (m m' : Machine C) (o : Outcome)
      → run_quantum control f d m ≡ ok (o, m')
      → is_control registers f d ≡ true
      → Reads registers (some f)
      → Ends registers f d o
  unfolding run_quantum
  run_quantum-Ends registers f d m m' o e b h = ground arith

  run_halt-Ends :
      (registers : List ℕ) (f : Frame) (d : Decoded) (m m' : Machine C) (o : Outcome)
      → run_halt control f m ≡ ok (o, m')
      → is_control registers f d ≡ true
      → Reads registers (some f)
      → Ends registers f d o
  unfolding run_halt
  run_halt-Ends registers f d m m' o e b h = ground arith

effect-Lands :
    (registers : List ℕ) (f : Frame) (d : Decoded) (e : Effect) (next value : ℕ)
    → is_control registers f d ≡ false
    → f.decoded ≡ some d
    → f.effect ≡ some e
    → Reads registers (some f)
    → next ≡ e.next_pc
    → (is_no_memory e.memory ≡ true → value ≡ e.value)
    → Lands registers f.pc f d next value
effect-Lands registers f d e next value b q r k n v =
    let single : f.bundle ≡ false = ground arith in
    let (word, lhs, rhs, evaluated) : Matches registers f (some d) false =
      subst (λ b. Matches registers f (some d) b) single
        (subst (λ o. Matches registers f o f.bundle) q k) in
    let same : evaluate d f.pc f.lhs f.rhs ≡ ok e =
      subst (λ o. elim o [ none ↦ Unit | some e ↦ evaluate d f.pc f.lhs f.rhs ≡ ok e ]) r
        evaluated in
    inr (b, word, (e, rw (← lhs, ← rhs) same, n, v))

module _ {ℓ} {C : Type ℓ} where
  -- The effect that the stage works with is the evaluation of the instruction.
  request_data-Ends :
      (registers : List ℕ) (f : Frame) (d : Decoded) (e : Effect) (now epoch : ℕ) (m m' : Machine C)
      (o : Outcome)
      → request_data f e now epoch m ≡ ok (o, m')
      → Reads registers (some f)
      → Ends registers f d o
  unfolding request_data
  request_data-Ends registers f d e now epoch m m' o h k = ground arith

  receive_data-completes :
      (f : Frame) (e : Effect) (now epoch : ℕ) (m m' : Machine C) (o : Outcome)
      → receive_data f e now epoch m ≡ ok (o, m')
      → (o.frame ≡ f) × (o.next_pc ≡ e.next_pc)
  unfolding receive_data
  receive_data-completes f e now epoch m m' o h = ground arith

  receive_data-Ends :
      (registers : List ℕ) (f : Frame) (d : Decoded) (e : Effect) (now epoch : ℕ) (m m' : Machine C)
      (o : Outcome)
      → receive_data f e now epoch m ≡ ok (o, m')
      → is_no_memory e.memory ≡ false
      → is_control registers f d ≡ false
      → f.decoded ≡ some d
      → f.effect ≡ some e
      → Reads registers (some f)
      → Ends registers f d o
  receive_data-Ends registers f d e now epoch m m' o h n b q r k =
      let (same, next) = receive_data-completes f e now epoch m m' o h in
      (
        ground arith,
        ground arith,
        subst (λ f. Reads registers (some f)) (sym same) k,
        λ c. effect-Lands registers f d e o.next_pc o.value b q r k next (λ y. absurd (cc)),
      )

  run_effect-Ends :
      (registers : List ℕ) (f : Frame) (d : Decoded) (now epoch : ℕ) (m m' : Machine C)
      (o : Outcome)
      → run_effect f d now epoch m ≡ ok (o, m')
      → is_control registers f d ≡ false
      → f.decoded ≡ some d
      → Reads registers (some f)
      → Ends registers f d o
  unfolding run_effect
  run_effect-Ends registers f d now epoch m m' o h b q k =
      let (e, a, h') =
        >>=-eq-ok (elim f.effect [ none ↦ evaluate d f.pc f.lhs f.rhs | some e ↦ ok e ]) _ h in
      let f' : Frame = record f { effect = some e } in
      let k' : Reads registers (some f') = ground arith in
      let P : Result (Outcome × Machine C) → Type _ = λ r. r ≡ ok (o, m') → Ends registers f d o in
      if_cases P (is_no_memory e.memory)
        (λ n i.
          let same = ok-injective i in
          subst (λ (x : Outcome × Machine C). Ends registers f d x.0) same
            (
              refl,
              refl,
              k',
              λ c. effect-Lands registers f' d e e.next_pc e.value b q refl k' refl (λ y. refl),
            ))
        (λ n.
          if_cases P (f.memory_request == 0)
            (λ z i. request_data-Ends registers f' d e now epoch m m' o i k')
            (λ z i. receive_data-Ends registers f' d e now epoch m m' o i n b q refl k'))
        h'

module _ {ℓ} {C : Type ℓ} (control : Control C) where
  pub run-Ends :
      (f : Frame) (d : Decoded) (now epoch : ℕ) (m m' : Machine C) (o : Outcome)
      → run control f d now epoch m ≡ ok (o, m')
      → f.decoded ≡ some d
      → Reads m.pipeline.registers (some f)
      → Ends m.pipeline.registers f d o
  unfolding run
  run-Ends f d now epoch m m' o h q k =
      let registers = m.pipeline.registers in
      let P : Result (Outcome × Machine C) → Type _ = λ r. r ≡ ok (o, m') → Ends registers f d o in
      if_cases P f.bundle (λ b i. run_bundle-Ends control registers f d m m' o i b q)
        (λ b.
          if_cases P (is_quantum d.op)
            (λ b' i. run_quantum-Ends control registers f d m m' o i (ground arith) k)
            (λ b'.
              if_cases P (is_ecall d.op && get_or registers 17 0 == 93)
                (λ b'' i. run_halt-Ends control registers f d m m' o i (ground arith) k)
                (λ b'' i. run_effect-Ends registers f d now epoch m m' o i (ground arith) q k)))
        h
