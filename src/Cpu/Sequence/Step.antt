-- ===== src/Cpu/Sequence/Step.antt =====
-- The step of `InOrderPipeline` in src/cpu/pipeline.cpp keeps the pipeline in sequence.
use qsbit_sim.Time.{edge, checked_add}
use mathlib.Core.Path.{subst}
use qsbit_sim.Isa.{Decoded}
use qsbit_sim.Mailbox as Mailbox
use qsbit_sim.Cpu.{Frame, Machine, Control}
use qsbit_sim.Cpu.Execute.{run, execute_frame, execute}
use qsbit_sim.Cpu.Step.{
  issue_frame, move_frame, receive_fetch, flush, request_fetch, advance, run_stages, step,
}
use qsbit_sim.Base.{
  if◌then◌else◌, Bool-cases, Option-cases, require, ok-injective, >>=-eq-ok, protocol, ok, ℕ, ◌≡◌,
  inl, inr, Bool, true, false, some, arith,
}
use qsbit_sim.Cpu.Sequence.{
  InSequence, issue_frame-InSequence, move_frame-InSequence, halted-advance, IsAt-executing,
  accept_fetch-InSequence,
}
use qsbit_sim.Cpu.Sequence.Execute.{run-GoesOn, settle-AfterExecute, AfterExecute}

module _ {ℓ} {C : Type ℓ} where
  flush-InSequence :
      (now epoch : ℕ) (m m' : Machine C)
      → flush now epoch m ≡ ok m'
      → AfterExecute true m.pipeline
      → InSequence m'.pipeline
  unfolding flush InSequence checked_add
  flush-InSequence now epoch m m' e h = ground arith

  pub receive_fetch-InSequence :
      (now epoch : ℕ) (m m' : Machine C)
      → receive_fetch now epoch m ≡ ok m'
      → InSequence m.pipeline
      → InSequence m'.pipeline
  unfolding receive_fetch
  receive_fetch-InSequence now epoch m m' e h =
      let (message, responses) = Mailbox.take m.fetch_port.responses now in
      elim (Option-cases message) [
        | inl r ↦ ground arith
        | inr (response, r) ↦
            ground (arith, accept_fetch-InSequence epoch response m.pipeline m'.pipeline)
      ]

  request_fetch-InSequence :
      (now epoch : ℕ) (m m' : Machine C)
      → request_fetch now epoch m ≡ ok m'
      → m.pipeline.halted ≡ false
      → InSequence m.pipeline
      → InSequence m'.pipeline
  unfolding request_fetch InSequence
  request_fetch-InSequence now epoch m m' e n h = ground arith

  advance-InSequence :
      (now epoch : ℕ) (m m' : Machine C)
      → advance now epoch m ≡ ok m'
      → InSequence m.pipeline
      → InSequence m'.pipeline
  unfolding advance
  advance-InSequence now epoch m m' e h =
      let p = move_frame (issue_frame m.pipeline) in
      let k =
        move_frame-InSequence (issue_frame m.pipeline) (issue_frame-InSequence m.pipeline h) in
      elim (Bool-cases m.pipeline.halted) [
        | inl r ↦ ground arith
        | inr r ↦
            let e' : request_fetch now epoch (record m { pipeline = p }) ≡ ok m' = ground arith in
            let r' : p.halted ≡ false = halted-advance m.pipeline r in
            request_fetch-InSequence now epoch (record m { pipeline = p }) m' e' r' k
      ]

module _ {ℓ} {C : Type ℓ} (control : Control C) where
  execute_frame-AfterExecute :
      (f : Frame) (d : Decoded) (now epoch : ℕ) (m m' : Machine C) (flushes : Bool)
      → execute_frame control f d now epoch m ≡ ok (flushes, m')
      → m.pipeline.executing ≡ some f
      → InSequence m.pipeline
      → AfterExecute flushes m'.pipeline
  unfolding execute_frame
  execute_frame-AfterExecute f d now epoch m m' flushes e r h =
      let ((o, m1), k, e') = >>=-eq-ok (run control f d now epoch m) _ e in
      let after = settle-AfterExecute f d now epoch m m1 o r h (
        run-GoesOn control f d now epoch m m1 o m.pipeline.pc k
          (IsAt-executing m.pipeline f r h)) in
      subst (λ (x : Bool × Machine C). AfterExecute x.0 x.1.pipeline) (ok-injective e') after

  execute-AfterExecute :
      (now epoch : ℕ) (m m' : Machine C) (flushes : Bool)
      → execute control now epoch m ≡ ok (flushes, m')
      → InSequence m.pipeline
      → AfterExecute flushes m'.pipeline
  unfolding execute
  execute-AfterExecute now epoch m m' flushes e h = elim (Option-cases m.pipeline.executing) [
    | inl r ↦ ground arith
    | inr (f, r) ↦ elim (Option-cases f.decoded) [
      | inl q ↦ ground arith
      | inr (d, q) ↦
          let e' : execute_frame control f d now epoch m ≡ ok (flushes, m') = ground arith in
          execute_frame-AfterExecute f d now epoch m m' flushes e' r h
    ]
  ]

  run_stages-InSequence :
      (now epoch : ℕ) (m m' : Machine C)
      → run_stages control now epoch m ≡ ok m'
      → InSequence m.pipeline
      → InSequence m'.pipeline
  unfolding run_stages
  run_stages-InSequence now epoch m m' e h =
      let ((flushes, m1), k, e') = >>=-eq-ok (execute control now epoch m) _ e in
      let after = execute-AfterExecute now epoch m m1 flushes k h in
      let (m2, k', e'') = >>=-eq-ok (if flushes then flush now epoch m1 else ok m1) _ e' in
      let before_advance : InSequence m2.pipeline = elim (Bool-cases flushes) [
        | inl b ↦
            flush-InSequence now epoch m1 m2 (ground arith)
              (subst (λ b. AfterExecute b m1.pipeline) b after)
        | inr b ↦ ground arith
      ] in
      advance-InSequence now epoch m2 m' e'' before_advance

  -- A step keeps the pipeline in sequence: its stages hold the instruction at the architectural
  -- program counter and those that follow it, whatever the responses of the ports and of the
  -- control are. So an instruction that a taken branch skips is never executed.
  pub step-InSequence :
      (now epoch : ℕ) (m m' : Machine C)
      → step control now epoch m ≡ ok m'
      → InSequence m.pipeline
      → InSequence m'.pipeline
  unfolding step
  step-InSequence now epoch m m' e h =
      let (u, k, e') = >>=-eq-ok (require (edge m.pipeline.clock now) protocol) _ e in
      let (m1, k', e'') = >>=-eq-ok (receive_fetch now epoch m) _ e' in
      let received = receive_fetch-InSequence now epoch m m1 k' h in
      elim (Bool-cases m1.pipeline.halted) [
        | inl r ↦ ground arith
        | inr r ↦ run_stages-InSequence now epoch m1 m' (ground arith) received
      ]
