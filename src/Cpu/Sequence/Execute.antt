-- ===== src/Cpu/Sequence/Execute.antt =====
-- The execute stage: an instruction that does not flush goes on to the next one.
use qsbit_sim.Isa.{Decoded, Effect}
use qsbit_sim.Isa.Evaluate.{evaluate}
use qsbit_sim.Command.{is_quantum, halt_command, adapt_quantum, ControlOperation}
use qsbit_sim.Cpu.{Fetch, Frame, Pipeline, Machine, Control, retire}
use qsbit_sim.Cpu.Execute.{
  is_ecall, is_no_memory, Outcome, call_control, run_lanes, run_bundle, run_quantum, run_halt,
  request_data, receive_data, run_effect, run, settle,
}
use qsbit_sim.Base.{
  ◌==◌, Option-cases, if_cases, get_or, drop, add32, >>=-eq-ok, Result, ok, ℕ, suc, ◌≤◌, ◌≡◌, inl,
  inr, Bool, true, false, ◌&&◌, Option, none, some, List, [], ◌∷◌, arith,
}
use qsbit_sim.Cpu.Sequence.{IsSequential, IsAt, InSequence, evaluate-IsSequential}

-- What the execute stage leaves as it was.
abbrev pub IsSamePlace : (p p' : Pipeline) → Type 0
IsSamePlace p p' =
    (p'.pc ≡ p.pc)
    × (p'.fetch_pc ≡ p.fetch_pc)
    × (p'.fetch_request ≡ p.fetch_request)
    × (p'.fetched ≡ p.fetched)
    × (p'.decoding ≡ p.decoding)
    × (p'.generation ≡ p.generation)

-- An instruction that does not flush goes on to the next one.
abbrev pub GoesOn : (pc : ℕ) → Outcome → (p p' : Pipeline) → Type 0
GoesOn pc o p p' =
    IsAt pc (some o.frame)
    × (o.completed ≡ false → o.flush ≡ false)
    × (o.completed ≡ true → o.flush ≡ false → o.next_pc ≡ add32 pc 4)
    × (o.flush ≡ false → p'.halted ≡ p.halted)
    × IsSamePlace p p'

module _ {ℓ} {C : Type ℓ} (control : Control C) where
  pub call_control-pipeline :
      (operation : ControlOperation) (m m' : Machine C) (reply : Option ℕ)
      → call_control control operation m ≡ ok (reply, m')
      → m'.pipeline ≡ m.pipeline
  unfolding call_control
  call_control-pipeline operation m m' reply e = ground arith

  pub run_lanes-pipeline :
      (operations : List ControlOperation) (done done' : ℕ) (m m' : Machine C)
      → run_lanes control operations done m ≡ ok (done', m')
      → m'.pipeline ≡ m.pipeline
  unfolding run_lanes
  run_lanes-pipeline [] done done' m m' e = ground arith
  run_lanes-pipeline (operation ∷ rest) done done' m m' e =
      let ((reply, m1), h, e') = >>=-eq-ok (call_control control operation m) _ e in
      let same = call_control-pipeline operation m m1 reply h in
      elim (Option-cases reply) [
        | inl r ↦ ground arith
        | inr (value, r) ↦ ground (arith, run_lanes-pipeline rest (suc done) done' m1 m')
      ]

  run_bundle-GoesOn :
      (f : Frame) (m m' : Machine C) (o : Outcome) (pc : ℕ)
      → run_bundle control f m ≡ ok (o, m')
      → IsAt pc (some f)
      → GoesOn pc o m.pipeline m'.pipeline
  unfolding run_bundle
  run_bundle-GoesOn f m m' o pc e h =
      let ((done, m1), k, e') =
        >>=-eq-ok (run_lanes control (drop f.completed_lanes f.operations) f.completed_lanes m) _
          e in
      let same =
        run_lanes-pipeline (drop f.completed_lanes f.operations) f.completed_lanes done m m1 k in
      ground arith

  run_quantum-GoesOn :
      (f : Frame) (d : Decoded) (m m' : Machine C) (o : Outcome) (pc : ℕ)
      → run_quantum control f d m ≡ ok (o, m')
      → IsAt pc (some f)
      → GoesOn pc o m.pipeline m'.pipeline
  unfolding run_quantum
  run_quantum-GoesOn f d m m' o pc e h =
      let (operation, k, e1) = >>=-eq-ok (adapt_quantum d f.id f.lhs f.rhs) _ e in
      let ((reply, m1), k', e2) = >>=-eq-ok (call_control control operation m) _ e1 in
      let same = call_control-pipeline operation m m1 reply k' in ground arith

  run_halt-GoesOn :
      (f : Frame) (m m' : Machine C) (o : Outcome) (pc : ℕ)
      → run_halt control f m ≡ ok (o, m')
      → IsAt pc (some f)
      → GoesOn pc o m.pipeline m'.pipeline
  unfolding run_halt
  run_halt-GoesOn f m m' o pc e h =
      let ((reply, m1), k', e2) =
        >>=-eq-ok (call_control control (record { instruction = f.id; command = halt_command }) m) _
          e in
      let same = call_control-pipeline _ m m1 reply k' in ground arith

module _ {ℓ} {C : Type ℓ} where
  request_data-GoesOn :
      (f : Frame) (e : Effect) (now epoch : ℕ) (m m' : Machine C) (o : Outcome) (pc : ℕ)
      → request_data f e now epoch m ≡ ok (o, m')
      → IsAt pc (some f)
      → GoesOn pc o m.pipeline m'.pipeline
  unfolding request_data
  request_data-GoesOn f e now epoch m m' o pc h k = ground arith

  receive_data-GoesOn :
      (f : Frame) (e : Effect) (now epoch : ℕ) (m m' : Machine C) (o : Outcome) (pc : ℕ)
      → receive_data f e now epoch m ≡ ok (o, m')
      → is_no_memory e.memory ≡ false
      → IsSequential pc e
      → IsAt pc (some f)
      → GoesOn pc o m.pipeline m'.pipeline
  unfolding receive_data
  receive_data-GoesOn f e now epoch m m' o pc h n s k = ground arith

  run_effect-GoesOn :
      (f : Frame) (d : Decoded) (now epoch : ℕ) (m m' : Machine C) (o : Outcome) (pc : ℕ)
      → run_effect f d now epoch m ≡ ok (o, m')
      → IsAt pc (some f)
      → GoesOn pc o m.pipeline m'.pipeline
  unfolding run_effect
  run_effect-GoesOn f d now epoch m m' o pc h k =
      let (e, a, h') =
        >>=-eq-ok (elim f.effect [ none ↦ evaluate d f.pc f.lhs f.rhs | some e ↦ ok e ]) _ h in
      let s : IsSequential pc e = ground (arith, evaluate-IsSequential d f.pc f.lhs f.rhs e) in
      let f' : Frame = record f { effect = some e } in
      ground (
        arith,
        request_data-GoesOn f' e now epoch m m' o pc,
        receive_data-GoesOn f' e now epoch m m' o pc,
      )

module _ {ℓ} {C : Type ℓ} (control : Control C) where
  pub run-GoesOn :
      (f : Frame) (d : Decoded) (now epoch : ℕ) (m m' : Machine C) (o : Outcome) (pc : ℕ)
      → run control f d now epoch m ≡ ok (o, m')
      → IsAt pc (some f)
      → GoesOn pc o m.pipeline m'.pipeline
  unfolding run
  run-GoesOn f d now epoch m m' o pc e h =
      let P : Result (Outcome × Machine C) → Type _ =
        λ r. r ≡ ok (o, m') → GoesOn pc o m.pipeline m'.pipeline in
      if_cases P f.bundle (λ b e. run_bundle-GoesOn control f m m' o pc e h)
        (λ b.
          if_cases P (is_quantum d.op) (λ b' e. run_quantum-GoesOn control f d m m' o pc e h)
            (λ b'.
              if_cases P (is_ecall d.op && get_or m.pipeline.registers 17 0 == 93)
                (λ b'' e. run_halt-GoesOn control f m m' o pc e h)
                (λ b'' e. run_effect-GoesOn f d now epoch m m' o pc e h)))
        e

abbrev pub IsRequested : (generation : ℕ) → Option Fetch → Type 0
IsRequested generation none = Unit
IsRequested generation (some r) = r.generation ≤ generation

-- After the execute stage: in sequence, or with a flush to come and nothing left in the stage.
abbrev pub AfterExecute : (flush : Bool) → Pipeline → Type 0
AfterExecute false p = InSequence p
AfterExecute true p = (p.executing ≡ none) × IsRequested p.generation p.fetch_request

module _ {ℓ} {C : Type ℓ} where
  pub settle-AfterExecute :
      (f : Frame) (d : Decoded) (now epoch : ℕ) (m m' : Machine C) (o : Outcome)
      → m.pipeline.executing ≡ some f
      → InSequence m.pipeline
      → GoesOn m.pipeline.pc o m.pipeline m'.pipeline
      → AfterExecute (settle d now epoch (o, m')).0 (settle d now epoch (o, m')).1.pipeline
  unfolding InSequence retire
  settle-AfterExecute f d now epoch m m' o e h g = ground arith
