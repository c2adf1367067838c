-- ===== src/Tcu/Ports/Step.antt =====
-- src/tcu.cpp, `step`: no port queue ever holds more events than its capacity.
use mathlib.Core.Path.{subst}
use qsbit_sim.Feedback.{Completion, ExecutionFlags}
use qsbit_sim.Protocol.{TimingEvents}
use qsbit_sim.Trace.{Events}
use qsbit_sim.Tcu.{Tcu, TcuOutput, TimingState, PauseState, Trigger, current_timing_state}
use qsbit_sim.Tcu.Triggering.{commit_trigger, Preflight, SyncPreflight}
use qsbit_sim.Tcu.Step.{apply_trigger, apply_admission, prepare_candidate, update_pause_state, step}
use qsbit_sim.Tcu.Ports.{Bounded, commit_trigger-shorter, admission-Bounded}
use qsbit_sim.Tcu.Queues.Step.{step-parts, prepare_candidate-eq-some}
use qsbit_sim.Base.{ok, ℕ, ◌≡◌, refl, Bool, Option, none, some, List, arith}

apply_trigger-Bounded :
    (t : Tcu) (now epoch cycle : ℕ) (trigger : Option Trigger)
    → Bounded t
    → Bounded (apply_trigger t now epoch cycle trigger).0
unfolding Bounded
apply_trigger-Bounded t now epoch cycle none bounded = bounded
apply_trigger-Bounded t now epoch cycle (some r) bounded = λ port inside.
    let (less, same, profile) = commit_trigger-shorter t now epoch cycle r port in
    let before = bounded port (omega (arith, inside, same)) in
    rw profile (omega (arith, less, before))

apply_admission-Bounded :
    (t : Tcu) (now epoch cycle : ℕ) (candidate : Option TimingEvents) (pause : PauseState)
    (trigger : Option Trigger) (admission : Option (TimingEvents × ℕ))
    → Bounded t
    → prepare_candidate t now epoch candidate pause ≡ ok admission
    → Bounded
        (apply_admission (apply_trigger t now epoch cycle trigger).0 now epoch cycle admission).0
apply_admission-Bounded t now epoch cycle candidate pause trigger none bounded h =
    apply_trigger-Bounded t now epoch cycle trigger bounded
apply_admission-Bounded t now epoch cycle candidate pause none (some (c, due)) bounded h =
    let admitted = prepare_candidate-eq-some t now epoch candidate pause (c, due) h in
    admission-Bounded t t now epoch cycle c pause due (λ port. (omega arith, refl, refl)) admitted
apply_admission-Bounded t now epoch cycle candidate pause (some r) (some (c, due)) bounded h =
    let admitted = prepare_candidate-eq-some t now epoch candidate pause (c, due) h in
    admission-Bounded t (commit_trigger t now epoch cycle r).0 now epoch cycle c pause due
      (commit_trigger-shorter t now epoch cycle r) admitted

update-Bounded :
    (t : Tcu) (flags : ExecutionFlags) (now epoch : ℕ) (state : TimingState) (ticks : ℕ)
    → Bounded t
    → Bounded (update_pause_state (record t { execution_flags = flags }) now epoch state ticks).0
unfolding update_pause_state Bounded
update-Bounded t flags now epoch state ticks bounded = bounded

-- A step of a unit whose port queues are within their capacity leaves them so, whatever is triggered
-- and admitted in it.
pub step-Bounded :
    (t t' : Tcu) (now epoch : ℕ) (candidate : Option TimingEvents) (results : List Completion)
    (preflight : Preflight) (synchronization_paused : Bool) (sync_preflight : SyncPreflight)
    (out : TcuOutput) (events : Events)
    → Bounded t
    → step t now epoch candidate results preflight synchronization_paused sync_preflight
      ≡ ok (out, t', events)
    → Bounded t'
step-Bounded t t' now epoch candidate results preflight synchronization_paused sync_preflight out
      events bounded h =
    let state = current_timing_state t now synchronization_paused in
    let (trigger, admission, flags, ticks, admitted, same) =
      step-parts t t' now epoch candidate results preflight synchronization_paused sync_preflight
        out events h in
    let u =
      (apply_admission (apply_trigger t now epoch state.cycle trigger).0 now epoch state.cycle
        admission).0 in
    subst Bounded same (
      update-Bounded u flags now epoch state ticks (
        apply_admission-Bounded t now epoch state.cycle candidate state.pause trigger admission
          bounded admitted))
