-- ===== src/Cpu/Flow/Runs.antt =====
-- The runs of src/cpu/pipeline.cpp follow the control flow of the program.
use qsbit_sim.Time.{Clock, edge}
use mathlib.Core.Path.{subst}
use qsbit_sim.Cpu.{ControlIssue, Frame, written, Pipeline, Machine, Control, init, reset}
use qsbit_sim.Cpu.Step.{receive_fetch, step}
use qsbit_sim.Cpu.Flow.{Lands, IsCurrent}
use qsbit_sim.Cpu.Flow.Step.{Follows, receive_fetch-IsCurrent, run_stages-Follows}
use qsbit_sim.Cpu.Sequence.{InSequence}
use qsbit_sim.Cpu.Sequence.Step.{step-InSequence, receive_fetch-InSequence}
use qsbit_sim.Cpu.Runs.{runs, resets, waits, Reachable, starts, steps, Reachable-InSequence}
use qsbit_sim.Base.{
  Option-cases, if_cases, require, ok-injective, >>=-eq-ok, Result, protocol, ok, ℕ, ◌≡◌, refl, sym,
  ap, ◌∙◌, inl, inr, Option, none, some,
}

init-IsCurrent :
    (issue : ControlIssue) (clock : Clock) (entry : ℕ) → IsCurrent (init issue clock entry)
unfolding init IsCurrent
init-IsCurrent issue clock entry = (tt, tt, tt)

-- What is followed depends on the program counter and the registers alone.
Follows-from :
    (o : Option Frame) (p p' p'' : Pipeline)
    → p'.pc ≡ p.pc
    → p'.registers ≡ p.registers
    → Follows o p' p''
    → Follows o p p''
Follows-from none p p' p'' pc registers h = (h.0 ∙ pc, h.1 ∙ registers)
Follows-from (some f) p p' p'' pc registers h = elim h [
  | inl (a, b, rest) ↦ inl (a ∙ pc, b ∙ registers, rest)
  | inr (d, value, q, w, l) ↦
      let l' = subst (λ x. Lands p'.registers x f d p''.pc value) pc l in
      inr (
        d,
        value,
        q,
        w ∙ ap (written d value) registers,
        subst (λ x. Lands x p.pc f d p''.pc value) registers l',
      )
]

Follows-self : (p : Pipeline) → Follows p.executing p p
Follows-self p = elim (Option-cases p.executing) [
  | inl e ↦ subst (λ o. Follows o p p) (sym e) (refl, refl)
  | inr (f, e) ↦ subst (λ o. Follows o p p) (sym e) (inl (refl, refl, (f, e, refl, refl)))
]

module _ {ℓ} {C : Type ℓ} (control : Control C) where
  step-Follows :
      (now epoch : ℕ) (m m' : Machine C)
      → step control now epoch m ≡ ok m'
      → InSequence m.pipeline
      → IsCurrent m.pipeline
      → IsCurrent m'.pipeline × Follows m.pipeline.executing m.pipeline m'.pipeline
  unfolding step
  step-Follows now epoch m m' e v h =
      let (u, k, e') = >>=-eq-ok (require (edge m.pipeline.clock now) protocol) _ e in
      let (m1, k', e'') = >>=-eq-ok (receive_fetch now epoch m) _ e' in
      let received = receive_fetch-InSequence now epoch m m1 k' v in
      let (current, pc, registers, executing) = receive_fetch-IsCurrent now epoch m m1 k' h in
      let P : Result (Machine C) → Type _ = λ r.
        r ≡ ok m' → IsCurrent m'.pipeline × Follows m1.pipeline.executing m1.pipeline m'.pipeline in
      let (after, follows) =
        if_cases P m1.pipeline.halted
          (λ b i.
            subst
              (λ (x : Machine C).
                IsCurrent x.pipeline × Follows m1.pipeline.executing m1.pipeline x.pipeline)
              (ok-injective i) (current, Follows-self m1.pipeline))
          (λ b i. run_stages-Follows control now epoch m1 m' i received current) e'' in
      let follows' = subst (λ o. Follows o m1.pipeline m'.pipeline) executing follows in
      (
        after,
        Follows-from m.pipeline.executing m.pipeline m1.pipeline m'.pipeline pc registers follows',
      )

module _ {ℓ} {C : Type ℓ} {control : Control C} where
  Reachable-IsCurrent : {m : Machine C} → Reachable control m → IsCurrent m.pipeline
  unfolding reset
  Reachable-IsCurrent (starts issue clock entry e) =
      subst IsCurrent (sym e) (init-IsCurrent issue clock entry)
  Reachable-IsCurrent (steps r (runs {m = m} {m' = m'} now epoch e)) =
      (step-Follows control now epoch m m' e (Reachable-InSequence r) (Reachable-IsCurrent r)).0
  Reachable-IsCurrent (steps r (resets {m = m} entry)) =
      init-IsCurrent m.pipeline.issue m.pipeline.clock entry
  Reachable-IsCurrent (steps r (waits e)) = subst IsCurrent (sym e) (Reachable-IsCurrent r)

  -- A step from a state that steps and resets of the pipeline reach, whatever the memory and the
  -- control answer, either keeps the program counter and the registers, with the instruction of the
  -- execute stage still there, or retires that instruction. The program then goes on where the
  -- evaluation of the instruction's word on the registers says, and the instruction's register is
  -- written, with the value of the evaluation where no memory is accessed; a control instruction goes
  -- on to the next one. In the state after the step the stages hold the instruction at the program
  -- counter and those that follow it, oldest first: so none that a taken branch skips is executed.
  pub Reachable-Follows :
      {m : Machine C} (now epoch : ℕ) (m' : Machine C)
      → Reachable control m
      → step control now epoch m ≡ ok m'
      → Follows m.pipeline.executing m.pipeline m'.pipeline × InSequence m'.pipeline
  Reachable-Follows {m} now epoch m' r e = (
    (step-Follows control now epoch m m' e (Reachable-InSequence r) (Reachable-IsCurrent r)).1,
    step-InSequence control now epoch m m' e (Reachable-InSequence r),
  )
