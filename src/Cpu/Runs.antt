-- ===== src/Cpu/Runs.antt =====
-- The runs of the pipeline: steps, resets, and whatever else changes its ports in between.
use mathlib.Core.Path.{subst}
use qsbit_sim.Time.{Clock}
use qsbit_sim.Cpu.{ControlIssue, Machine, Control, init, reset}
use qsbit_sim.Cpu.Step.{step}
use qsbit_sim.Cpu.Sequence.{InSequence}
use qsbit_sim.Cpu.Sequence.Step.{step-InSequence}
use qsbit_sim.Base.{ok, ℕ, ◌≡◌, sym, arith}

-- The memory and the timing control change the ports and the state behind `control`, never the
-- pipeline.
pub data CpuStep {ℓ} {C : Type ℓ} (control : Control C) : Machine C → Machine C → Type ℓ where
  runs :
      {m m' : Machine C} (now epoch : ℕ) → step control now epoch m ≡ ok m' → CpuStep control m m'
  resets :
      {m : Machine C} (entry : ℕ)
      → CpuStep control m (record m { pipeline = reset entry m.pipeline })
  waits : {m m' : Machine C} → m'.pipeline ≡ m.pipeline → CpuStep control m m'

pub data Reachable {ℓ} {C : Type ℓ} (control : Control C) : Machine C → Type ℓ where
  starts :
      {m : Machine C} (issue : ControlIssue) (clock : Clock) (entry : ℕ)
      → m.pipeline ≡ init issue clock entry
      → Reachable control m
  steps : {m m' : Machine C} → Reachable control m → CpuStep control m m' → Reachable control m'

init-InSequence :
    (issue : ControlIssue) (clock : Clock) (entry : ℕ) → InSequence (init issue clock entry)
unfolding init InSequence
init-InSequence issue clock entry = ground arith

module _ {ℓ} {C : Type ℓ} {control : Control C} where
  CpuStep-InSequence :
      {m m' : Machine C} → CpuStep control m m' → InSequence m.pipeline → InSequence m'.pipeline
  unfolding reset
  CpuStep-InSequence (runs {m = m} {m' = m'} now epoch e) h =
      step-InSequence control now epoch m m' e h
  CpuStep-InSequence (resets {m = m} entry) h =
      init-InSequence m.pipeline.issue m.pipeline.clock entry
  CpuStep-InSequence (waits e) h = subst InSequence (sym e) h

  -- In every reachable state the stages of the pipeline hold the instruction at the architectural
  -- program counter and those that follow it in memory, oldest first, and the next fetch is of the
  -- one after them; a fetch that a flush has cancelled counts for nothing.
  pub Reachable-InSequence : {m : Machine C} → Reachable control m → InSequence m.pipeline
  Reachable-InSequence (starts issue clock entry e) =
      subst InSequence (sym e) (init-InSequence issue clock entry)
  Reachable-InSequence (steps r step) = CpuStep-InSequence step (Reachable-InSequence r)
