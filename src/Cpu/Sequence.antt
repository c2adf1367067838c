-- ===== src/Cpu/Sequence.antt =====
-- src/cpu/pipeline.cpp: what the stages hold, from the oldest on, are the instructions that follow
-- the architectural program counter in memory.
pub mod Execute
pub mod Step
use qsbit_sim.Time.{edge, checked_add}
use mathlib.Core.Path.{subst}
use qsbit_sim.Isa.{Op, Decoded, Effect}
use qsbit_sim.Isa.Evaluate.{effect_of, evaluate}
use qsbit_sim.Command.{is_quantum, halt_command, adapt_quantum, ControlOperation}
use qsbit_sim.Mailbox as Mailbox
use qsbit_sim.Memory.{MemoryResponse}
use qsbit_sim.Cpu.{Fetch, Frame, Pipeline, Machine, Control, retire}
use qsbit_sim.Cpu.Execute.{
  is_ecall, is_no_memory, Outcome, call_control, run_lanes, run_bundle, run_quantum, run_halt,
  request_data, receive_data, run_effect, run, settle, execute_frame, execute,
}
use qsbit_sim.Cpu.Step.{
  accept_fetch, decode_frame, issue_frame, move_frame, receive_fetch, flush, request_fetch, advance,
  run_stages, step,
}
use qsbit_sim.Base.{
  ◌==◌, if◌then◌else◌, Bool-cases, Option-cases, if_cases, get_or, drop, add32, require,
  ok-injective, >>=-eq-ok, Result, protocol, ok, ℕ, suc, ◌≤◌, ◌≡◌, ◌≢◌, inl, inr, Bool, true, false,
  ◌&&◌, Option, none, some, List, [], ◌∷◌, arith,
}

-- Only a taken branch, which touches no memory, leaves the next instruction.
abbrev pub IsSequential : (pc : ℕ) → Effect → Type 0
IsSequential pc e = (is_no_memory e.memory && e.branch_taken) ≡ false → e.next_pc ≡ add32 pc 4

-- A stage is empty or holds the instruction at `pc`.
abbrev pub IsAt : (pc : ℕ) → Option Frame → Type 0
IsAt pc none = Unit
IsAt pc (some f) = (f.pc ≡ pc) × elim f.effect [ none ↦ Unit | some e ↦ IsSequential pc e ]

abbrev pub past : (pc : ℕ) → Option Frame → ℕ
past pc none = pc
past pc (some f) = add32 pc 4

-- A fetch in flight that a flush has not cancelled is that of the instruction at `pc`.
abbrev pub IsFetching : (pc generation fetch_pc : ℕ) → Option Fetch → Type 0
IsFetching pc generation fetch_pc none = fetch_pc ≡ pc
IsFetching pc generation fetch_pc (some r) =
    (r.generation ≤ generation)
    × (r.generation ≡ generation → (r.pc ≡ pc) × (fetch_pc ≡ add32 pc 4))
    × (r.generation ≢ generation → fetch_pc ≡ pc)

abbrev pub IsStale : (generation : ℕ) → Option Fetch → Type 0
IsStale generation none = Unit
IsStale generation (some r) = r.generation ≢ generation

unfoldable pub InSequence : Pipeline → Type 0
InSequence p =
    IsAt p.pc p.executing
    × IsAt (past p.pc p.executing) p.decoding
    × IsAt (past (past p.pc p.executing) p.decoding) p.fetched
    × IsFetching (past (past (past p.pc p.executing) p.decoding) p.fetched) p.generation p.fetch_pc
        p.fetch_request
    × (p.halted ≡ true → IsStale p.generation p.fetch_request)

effect_of-IsSequential :
    (op : Op) (d : Decoded) (pc a b : ℕ) (e : Effect)
    → effect_of op d pc a b ≡ ok e
    → IsSequential pc e
unfolding effect_of
effect_of-IsSequential _ d pc a b e h = ground arith

evaluate-IsSequential :
    (d : Decoded) (pc a b : ℕ) (e : Effect) → evaluate d pc a b ≡ ok e → IsSequential pc e
unfolding evaluate
evaluate-IsSequential d pc a b e h = ground (arith, effect_of-IsSequential d.op d pc a b e)

issue_frame-InSequence : (p : Pipeline) → InSequence p → InSequence (issue_frame p)
unfolding InSequence issue_frame decode_frame
issue_frame-InSequence p h = ground arith

move_frame-InSequence : (p : Pipeline) → InSequence p → InSequence (move_frame p)
unfolding InSequence move_frame
move_frame-InSequence p h = ground arith

halted-advance : (p : Pipeline) → p.halted ≡ false → (move_frame (issue_frame p)).halted ≡ false
unfolding move_frame issue_frame
halted-advance p h = ground arith

pub IsAt-executing :
    (p : Pipeline) (f : Frame) → p.executing ≡ some f → InSequence p → IsAt p.pc (some f)
unfolding InSequence
IsAt-executing p f r h = ground arith

accept_fetch-InSequence :
    (epoch : ℕ) (r : Mailbox.Envelope MemoryResponse) (p p' : Pipeline)
    → accept_fetch epoch r p ≡ ok p'
    → InSequence p
    → InSequence p'
unfolding InSequence accept_fetch
accept_fetch-InSequence epoch r p p' e h = ground arith
