-- ===== src/Tcu/Queues/Step.antt =====
-- src/tcu.cpp, `step`: the timing queue and the count of synchronizations stay within their capacities, and
-- the queued points are in the order of the cycles where they are due.
use qsbit_sim.Protocol.{TimingEvents}
use qsbit_sim.Feedback.{ExecutionFlags, Completion}
use qsbit_sim.Time.{edge, checked_add}
use qsbit_sim.Trace.{Events}
use qsbit_sim.Tcu.{Tcu, TcuOutput, PauseState, TimingState, Trigger, paused, current_timing_state}
use qsbit_sim.Tcu.Triggering.{prepare_trigger, Preflight, SyncPreflight}
use qsbit_sim.Tcu.Admission.{prepare_admission}
use qsbit_sim.Tcu.Step.{
  prepare_candidate, apply_trigger, apply_admission, commit_all, update_pause_state, step,
}
use mathlib.Core.Path.{subst}
use qsbit_sim.Tcu.Queues.{
  IsValid, Admissible, prepare_admission-Admissible, commit_trigger-IsValid,
  commit_admission-IsValid, Admissible-after,
}
use qsbit_sim.Base.{
  if◌then◌else◌, require, Result-cases, >>=-eq-ok, Result, protocol, ok, fault, ℕ, ◌≡◌, ap, inl,
  inr, Bool, Option, none, some, List,
}

apply_trigger-IsValid :
    (t : Tcu) (now epoch cycle : ℕ) (trigger : Option Trigger)
    → IsValid t
    → IsValid (apply_trigger t now epoch cycle trigger).0
apply_trigger-IsValid t now epoch cycle none v = v
apply_trigger-IsValid t now epoch cycle (some r) v = commit_trigger-IsValid t now epoch cycle r v

apply_trigger-Admissible :
    (t : Tcu) (now epoch cycle : ℕ) (trigger : Option Trigger) (candidate : TimingEvents) (due : ℕ)
    → IsValid t
    → Admissible t candidate due
    → Admissible (apply_trigger t now epoch cycle trigger).0 candidate due
apply_trigger-Admissible t now epoch cycle none candidate due v a = a
apply_trigger-Admissible t now epoch cycle (some r) candidate due v a =
    Admissible-after t now epoch cycle r candidate due v a

pub prepare_candidate-eq-some :
    (t : Tcu) (now epoch : ℕ) (candidate : Option TimingEvents) (pause : PauseState)
    (admission : TimingEvents × ℕ)
    → prepare_candidate t now epoch candidate pause ≡ ok (some admission)
    → prepare_admission t now epoch admission.0 pause ≡ ok (some admission.1)
prepare_candidate-eq-some t now epoch none pause admission h = cc
prepare_candidate-eq-some t now epoch (some c) pause admission h =
    elim (Result-cases (prepare_admission t now epoch c pause)) [
      | inr (code, e) ↦ let h' = rw e at h in cc
      | inl (none, e) ↦ let h' = rw e at h in cc
      | inl (some due, e) ↦
          let h' = rw e at h in
          let same : (c, due) ≡ admission = cc in
          subst (λ a. prepare_admission t now epoch a.0 pause ≡ ok (some a.1)) same e
    ]

apply_admission-IsValid :
    (t : Tcu) (now epoch cycle : ℕ) (candidate : Option TimingEvents) (pause : PauseState)
    (trigger : Option Trigger) (admission : Option (TimingEvents × ℕ))
    → IsValid t
    → prepare_candidate t now epoch candidate pause ≡ ok admission
    → IsValid
        (apply_admission (apply_trigger t now epoch cycle trigger).0 now epoch cycle admission).0
apply_admission-IsValid t now epoch cycle candidate pause trigger none v h =
    apply_trigger-IsValid t now epoch cycle trigger v
apply_admission-IsValid t now epoch cycle candidate pause trigger (some (c, due)) v h =
    let admitted = prepare_candidate-eq-some t now epoch candidate pause (c, due) h in
    commit_admission-IsValid (apply_trigger t now epoch cycle trigger).0 now epoch cycle c due
      (apply_trigger-IsValid t now epoch cycle trigger v)
      (apply_trigger-Admissible t now epoch cycle trigger c due v
        (prepare_admission-Admissible t now epoch c pause due v admitted))

update-IsValid :
    (t : Tcu) (flags : ExecutionFlags) (now epoch : ℕ) (state : TimingState) (ticks : ℕ)
    → IsValid t
    → IsValid (update_pause_state (record t { execution_flags = flags }) now epoch state ticks).0
unfolding update_pause_state
update-IsValid t flags now epoch state ticks v = record {
  within = v.within;
  synchronizations = v.synchronizations;
  reserved = v.reserved;
  machine = v.machine;
  rising = v.rising;
  unlabelled = v.unlabelled;
}

-- The unit that a step returns, or the one given.
state_of : Tcu → Result (TcuOutput × Tcu × Events) → Tcu
state_of t (ok r) = r.1
state_of t (fault code) = t

-- The unit that a step returns, by the trigger and the admission that the step prepared.
pub step-parts :
    (t t' : Tcu) (now epoch : ℕ) (candidate : Option TimingEvents) (results : List Completion)
    (preflight : Preflight) (synchronization_paused : Bool) (sync_preflight : SyncPreflight)
    (out : TcuOutput) (events : Events)
    → step t now epoch candidate results preflight synchronization_paused sync_preflight
      ≡ ok (out, t', events)
    → let state = current_timing_state t now synchronization_paused in
      (trigger : Option Trigger) × (admission : Option (TimingEvents × ℕ))
      × (flags : ExecutionFlags) × (ticks : ℕ) × (prepare_candidate t now epoch candidate
            state.pause
          ≡ ok admission)
      × ((update_pause_state
            (record (apply_admission
              (apply_trigger t now epoch state.cycle trigger).0
              now
              epoch
              state.cycle
              admission).0 { execution_flags = flags })
            now
            epoch
            state
            ticks).0
          ≡ t')
unfolding step state_of
step-parts t t' now epoch candidate results preflight synchronization_paused sync_preflight out
      events h =
    let state = current_timing_state t now synchronization_paused in
    let (_, _, h1) = >>=-eq-ok (require (edge t.profile.clock now) protocol) _ h in
    let (trigger, _, h2) =
      >>=-eq-ok (prepare_trigger t now epoch state preflight sync_preflight) _ h1 in
    let (admission, admitted, h3) =
      >>=-eq-ok (prepare_candidate t now epoch candidate state.pause) _ h2 in
    let (flags, _, h4) = >>=-eq-ok (commit_all t.execution_flags results epoch) _ h3 in
    let (ticks, _, h5) =
      >>=-eq-ok
        (if paused state.pause
          then checked_add t.paused_ticks t.profile.clock.period
          else ok t.paused_ticks)
        _ h4 in
    (trigger, admission, flags, ticks, admitted, ap (state_of t) h5)

-- A step of a unit whose queues are within their bounds, with the synchronizations counted right and
-- the due cycles rising, leaves them so, whatever is triggered and admitted in it.
pub step-IsValid :
    (t t' : Tcu) (now epoch : ℕ) (candidate : Option TimingEvents) (results : List Completion)
    (preflight : Preflight) (synchronization_paused : Bool) (sync_preflight : SyncPreflight)
    (out : TcuOutput) (events : Events)
    → IsValid t
    → step t now epoch candidate results preflight synchronization_paused sync_preflight
      ≡ ok (out, t', events)
    → IsValid t'
step-IsValid t t' now epoch candidate results preflight synchronization_paused sync_preflight out
      events v h =
    let state = current_timing_state t now synchronization_paused in
    let (trigger, admission, flags, ticks, admitted, same) =
      step-parts t t' now epoch candidate results preflight synchronization_paused sync_preflight
        out events h in
    let valid =
      apply_admission-IsValid t now epoch state.cycle candidate state.pause trigger admission v
        admitted in
    subst IsValid same (
      update-IsValid
        (apply_admission (apply_trigger t now epoch state.cycle trigger).0 now epoch state.cycle
          admission).0
        flags now epoch state ticks valid)
