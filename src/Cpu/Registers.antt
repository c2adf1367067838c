-- ===== src/Cpu/Registers.antt =====
-- The register file of `InOrderPipeline` in src/cpu/pipeline.cpp.
use mathlib.Core.Path.{subst}
use qsbit_sim.Time.{Clock, edge, checked_add}
use qsbit_sim.Isa.{Decoded, Effect}
use qsbit_sim.Isa.Evaluate.{evaluate}
use qsbit_sim.Command.{is_quantum, halt_command, adapt_quantum, ControlOperation}
use qsbit_sim.Cpu.{
  writes_register, Frame, Pipeline, Machine, Control, ControlIssue, retire, init, reset, written,
}
use qsbit_sim.Cpu.Execute.{
  is_ecall, Outcome, run_bundle, run_quantum, run_halt, run_lanes, call_control, request_data,
  receive_data, run_effect, run, settle, execute_frame, execute,
}
use qsbit_sim.Cpu.Step.{
  issue_frame, move_frame, receive_fetch, accept_fetch, flush, request_fetch, advance, run_stages,
  step,
}
use qsbit_sim.Cpu.Sequence.Execute.{call_control-pipeline, run_lanes-pipeline}
use qsbit_sim.Cpu.Runs.{CpuStep, runs, resets, waits, Reachable, starts, steps}
use qsbit_sim.Base.{
  ◌==◌, if◌then◌else◌, Bool-cases, Option-cases, if_cases, length, get_or, set, drop, length-set,
  get_or-set_self, require, ok-injective, >>=-eq-ok, Result, protocol, ok, ℕ, ◌≡◌, refl, sym, ◌∙◌,
  inl, inr, Bool, ◌&&◌, none, some, List, arith,
}

-- There are 32 registers, and `x0` holds zero.
abbrev pub HasZero : List ℕ → Type 0
HasZero registers = (length registers ≡ 32) × (get_or registers 0 0 ≡ 0)

written-HasZero :
    (d : Decoded) (value : ℕ) (registers : List ℕ)
    → HasZero registers
    → HasZero (written d value registers)
written-HasZero d value registers h =
    let middle = if writes_register d then set registers d.rd value else registers in
    let size : length middle ≡ 32 = ground (arith, length-set registers d.rd value) in
    (length-set middle 0 0 ∙ size, get_or-set_self middle 0 0 0 (omega (arith, size)))

module _ {ℓ} {C : Type ℓ} where
  request_data-registers :
      (f : Frame) (e : Effect) (now epoch : ℕ) (m m' : Machine C) (o : Outcome)
      → request_data f e now epoch m ≡ ok (o, m')
      → m'.pipeline.registers ≡ m.pipeline.registers
  unfolding request_data
  request_data-registers f e now epoch m m' o h = ground arith

  receive_data-registers :
      (f : Frame) (e : Effect) (now epoch : ℕ) (m m' : Machine C) (o : Outcome)
      → receive_data f e now epoch m ≡ ok (o, m')
      → m'.pipeline.registers ≡ m.pipeline.registers
  unfolding receive_data
  receive_data-registers f e now epoch m m' o h = ground arith

  run_effect-registers :
      (f : Frame) (d : Decoded) (now epoch : ℕ) (m m' : Machine C) (o : Outcome)
      → run_effect f d now epoch m ≡ ok (o, m')
      → m'.pipeline.registers ≡ m.pipeline.registers
  unfolding run_effect
  run_effect-registers f d now epoch m m' o h =
      let (e, a, h') =
        >>=-eq-ok (elim f.effect [ none ↦ evaluate d f.pc f.lhs f.rhs | some e ↦ ok e ]) _ h in
      let f' : Frame = record f { effect = some e } in
      ground (
        arith,
        request_data-registers f' e now epoch m m' o,
        receive_data-registers f' e now epoch m m' o,
      )

  settle-HasZero :
      (d : Decoded) (now epoch : ℕ) (m : Machine C) (o : Outcome)
      → HasZero m.pipeline.registers
      → HasZero (settle d now epoch (o, m)).1.pipeline.registers
  unfolding retire
  settle-HasZero d now epoch m o h = elim (Bool-cases o.completed) [
    | inl r ↦ let w = written-HasZero d o.value m.pipeline.registers h in ground arith
    | inr r ↦ ground arith
  ]

  pub receive_fetch-registers :
      (now epoch : ℕ) (m m' : Machine C)
      → receive_fetch now epoch m ≡ ok m'
      → m'.pipeline.registers ≡ m.pipeline.registers
  unfolding receive_fetch accept_fetch
  receive_fetch-registers now epoch m m' e = ground arith

  pub flush-registers :
      (now epoch : ℕ) (m m' : Machine C)
      → flush now epoch m ≡ ok m'
      → m'.pipeline.registers ≡ m.pipeline.registers
  unfolding flush checked_add
  flush-registers now epoch m m' e = ground arith

  pub advance-registers :
      (now epoch : ℕ) (m m' : Machine C)
      → advance now epoch m ≡ ok m'
      → m'.pipeline.registers ≡ m.pipeline.registers
  unfolding advance request_fetch issue_frame move_frame checked_add
  advance-registers now epoch m m' e = ground arith

module _ {ℓ} {C : Type ℓ} (control : Control C) where
  run_bundle-registers :
      (f : Frame) (m m' : Machine C) (o : Outcome)
      → run_bundle control f m ≡ ok (o, m')
      → m'.pipeline.registers ≡ m.pipeline.registers
  unfolding run_bundle
  run_bundle-registers f m m' o e =
      let lanes = drop f.completed_lanes f.operations in
      let ((done, m1), k, e') = >>=-eq-ok (run_lanes control lanes f.completed_lanes m) _ e in
      let same = run_lanes-pipeline control lanes f.completed_lanes done m m1 k in ground arith

  run_quantum-registers :
      (f : Frame) (d : Decoded) (m m' : Machine C) (o : Outcome)
      → run_quantum control f d m ≡ ok (o, m')
      → m'.pipeline.registers ≡ m.pipeline.registers
  unfolding run_quantum
  run_quantum-registers f d m m' o e =
      let (operation, k, e1) = >>=-eq-ok (adapt_quantum d f.id f.lhs f.rhs) _ e in
      let ((reply, m1), k', e2) = >>=-eq-ok (call_control control operation m) _ e1 in
      let same = call_control-pipeline control operation m m1 reply k' in ground arith

  run_halt-registers :
      (f : Frame) (m m' : Machine C) (o : Outcome)
      → run_halt control f m ≡ ok (o, m')
      → m'.pipeline.registers ≡ m.pipeline.registers
  unfolding run_halt
  run_halt-registers f m m' o e =
      let operation : ControlOperation = record { instruction = f.id; command = halt_command } in
      let ((reply, m1), k', e2) = >>=-eq-ok (call_control control operation m) _ e in
      let same = call_control-pipeline control operation m m1 reply k' in ground arith

  pub run-registers :
      (f : Frame) (d : Decoded) (now epoch : ℕ) (m m' : Machine C) (o : Outcome)
      → run control f d now epoch m ≡ ok (o, m')
      → m'.pipeline.registers ≡ m.pipeline.registers
  unfolding run
  run-registers f d now epoch m m' o e =
      let P : Result (Outcome × Machine C) → Type _ =
        λ r. r ≡ ok (o, m') → m'.pipeline.registers ≡ m.pipeline.registers in
      if_cases P f.bundle (λ b. run_bundle-registers f m m' o)
        (λ b.
          if_cases P (is_quantum d.op) (λ b'. run_quantum-registers f d m m' o)
            (λ b'.
              if_cases P (is_ecall d.op && get_or m.pipeline.registers 17 0 == 93)
                (λ b''. run_halt-registers f m m' o)
                (λ b''. run_effect-registers f d now epoch m m' o)))
        e

  execute-HasZero :
      (now epoch : ℕ) (m m' : Machine C) (flushes : Bool)
      → execute control now epoch m ≡ ok (flushes, m')
      → HasZero m.pipeline.registers
      → HasZero m'.pipeline.registers
  unfolding execute execute_frame
  execute-HasZero now epoch m m' flushes e h = elim (Option-cases m.pipeline.executing) [
    | inl r ↦ ground arith
    | inr (f, r) ↦ elim (Option-cases f.decoded) [
      | inl q ↦ ground arith
      | inr (d, q) ↦
          let e' : execute_frame control f d now epoch m ≡ ok (flushes, m') = ground arith in
          let ((o, m1), k, e'') = >>=-eq-ok (run control f d now epoch m) _ e' in
          let kept : HasZero m1.pipeline.registers =
            subst HasZero (sym (run-registers f d now epoch m m1 o k)) h in
          subst (λ (x : Bool × Machine C). HasZero x.1.pipeline.registers) (ok-injective e'')
            (settle-HasZero d now epoch m1 o kept)
    ]
  ]

  run_stages-HasZero :
      (now epoch : ℕ) (m m' : Machine C)
      → run_stages control now epoch m ≡ ok m'
      → HasZero m.pipeline.registers
      → HasZero m'.pipeline.registers
  unfolding run_stages
  run_stages-HasZero now epoch m m' e h =
      let ((flushes, m1), k, e') = >>=-eq-ok (execute control now epoch m) _ e in
      let executed = execute-HasZero now epoch m m1 flushes k h in
      let (m2, k', e'') = >>=-eq-ok (if flushes then flush now epoch m1 else ok m1) _ e' in
      let flushed : m2.pipeline.registers ≡ m1.pipeline.registers =
        ground (arith, flush-registers now epoch m1 m2) in
      subst HasZero (sym (advance-registers now epoch m2 m' e'' ∙ flushed)) executed

  step-HasZero :
      (now epoch : ℕ) (m m' : Machine C)
      → step control now epoch m ≡ ok m'
      → HasZero m.pipeline.registers
      → HasZero m'.pipeline.registers
  unfolding step
  step-HasZero now epoch m m' e h =
      let (u, k, e') = >>=-eq-ok (require (edge m.pipeline.clock now) protocol) _ e in
      let (m1, k', e'') = >>=-eq-ok (receive_fetch now epoch m) _ e' in
      let received : HasZero m1.pipeline.registers =
        subst HasZero (sym (receive_fetch-registers now epoch m m1 k')) h in
      elim (Bool-cases m1.pipeline.halted) [
        | inl r ↦ ground arith
        | inr r ↦ run_stages-HasZero now epoch m1 m' (ground arith) received
      ]

init-HasZero :
    (issue : ControlIssue) (clock : Clock) (entry : ℕ) → HasZero (init issue clock entry).registers
unfolding init
init-HasZero issue clock entry = (refl, refl)

module _ {ℓ} {C : Type ℓ} {control : Control C} where
  CpuStep-HasZero :
      {m m' : Machine C}
      → CpuStep control m m'
      → HasZero m.pipeline.registers
      → HasZero m'.pipeline.registers
  unfolding reset
  CpuStep-HasZero (runs {m = m} {m' = m'} now epoch e) h = step-HasZero control now epoch m m' e h
  CpuStep-HasZero (resets {m = m} entry) h = init-HasZero m.pipeline.issue m.pipeline.clock entry
  CpuStep-HasZero (waits e) h = subst (λ (p : Pipeline). HasZero p.registers) (sym e) h

  -- In every state that steps and resets of the pipeline reach, whatever the memory and the control
  -- answer in between, the register file has its 32 registers, and `x0` holds zero.
  pub Reachable-HasZero : {m : Machine C} → Reachable control m → HasZero m.pipeline.registers
  Reachable-HasZero (starts issue clock entry e) =
      subst (λ (p : Pipeline). HasZero p.registers) (sym e) (init-HasZero issue clock entry)
  Reachable-HasZero (steps r step) = CpuStep-HasZero step (Reachable-HasZero r)
