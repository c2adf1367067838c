-- ===== src/Tcu/Step.antt =====
-- src/tcu.cpp: the step of the TCU on a tick.
use qsbit_sim.Tcu.{PauseState, paused, TimingState, Trigger, Tcu, TcuOutput, current_timing_state}
use qsbit_sim.Tcu.Triggering.{Preflight, SyncPreflight, prepare_trigger, commit_trigger}
use qsbit_sim.Tcu.Admission.{prepare_admission, commit_admission}
use qsbit_sim.Time.{edge, checked_add}
use qsbit_sim.Feedback.{MeasurementReference, Completion, ExecutionFlags, commit}
use qsbit_sim.Protocol.{TimingEvents}
use qsbit_sim.Trace.{TraceEvent, event, Events}
use qsbit_sim.Base.{
  ◌==◌, if◌then◌else◌, is_some, keep, ◌>>=◌, ◌>>◌, require, Result, protocol, ok, ℕ, String, Bool,
  ◌&&◌, Option, none, some, List, [], ◌∷◌, ◌++◌, map,
}

abbrev pub of_epoch : ℕ → List Completion → List Completion
of_epoch epoch results = keep (λ (r : Completion). r.reference.epoch == epoch) results

abbrev pub flags_event : (now epoch cycle : ℕ) → Completion → TraceEvent
flags_event now epoch cycle r =
    record (event now epoch "ExecutionFlagsUpdated" r.reference.measurement 0 cycle) {
      targets = r.reference.target ∷ [];
      value = if r.value then 1 else 0;
    }

-- The references delivered and the events of `commit_fast_results`.
unfoldable pub commit_fast_results :
    (now epoch cycle : ℕ) → List Completion → List MeasurementReference × Events
commit_fast_results now epoch cycle results =
    let current = of_epoch epoch results in
    (map (λ (r : Completion). r.reference) current, map (flags_event now epoch cycle) current)

-- `next_flags.commit(result, epoch)` for each result.
unfoldable pub commit_all : ExecutionFlags → List Completion → ℕ → Result ExecutionFlags
commit_all flags [] epoch = ok flags
commit_all flags (r ∷ rest) epoch = do next ← commit flags r epoch; commit_all next rest epoch

abbrev pub pause_detail : PauseState → String
pause_detail p =
    if p.synchronization && p.instruction_supply
    then "synchronization and instruction supply"
    else if p.synchronization
    then "synchronization"
    else if p.instruction_supply
    then "instruction supply"
    else ""

unfoldable pub update_pause_state : Tcu → (now epoch : ℕ) → TimingState → ℕ → Tcu × Events
update_pause_state t now epoch state paused_ticks =
    let record_of = λ (kind : String). record (event now epoch kind 0 0 state.cycle) {
      detail = pause_detail state.pause;
    } in
    (
      record t { pause = state.pause; paused_ticks = paused_ticks },
      if paused state.pause
          then (if paused t.pause then [] else record_of "TimerPaused" ∷ [])
          else (if paused t.pause then record_of "TimerResumed" ∷ [] else []),
    )

abbrev pub apply_trigger : Tcu → (now epoch cycle : ℕ) → Option Trigger → Tcu × Events
apply_trigger t now epoch cycle none = (t, [])
apply_trigger t now epoch cycle (some trigger) = commit_trigger t now epoch cycle trigger

abbrev pub prepare_candidate :
    Tcu → (now epoch : ℕ) → Option TimingEvents → PauseState → Result (Option (TimingEvents × ℕ))
prepare_candidate t now epoch none pause = ok none
prepare_candidate t now epoch (some candidate) pause = do
  due ← prepare_admission t now epoch candidate pause
  ok (elim due [ none ↦ none | some d ↦ some (candidate, d) ])

abbrev pub apply_admission : Tcu → (now epoch cycle : ℕ) → Option (TimingEvents × ℕ) → Tcu × Events
apply_admission t now epoch cycle none = (t, [])
apply_admission t now epoch cycle (some (candidate, due)) =
    commit_admission t now epoch cycle candidate due

-- Everything that can fault is prepared first; the commits cannot fault.
unfoldable pub step :
    Tcu
    → (now epoch : ℕ) → Option TimingEvents
    → List Completion
    → Preflight
    → Bool
    → SyncPreflight
    → Result (TcuOutput × Tcu × Events)
step t now epoch candidate results preflight synchronization_paused sync_preflight = do
  require (edge t.profile.clock now) protocol
  let state = current_timing_state t now synchronization_paused
  trigger ← prepare_trigger t now epoch state preflight sync_preflight
  admission ← prepare_candidate t now epoch candidate state.pause
  flags ← commit_all t.execution_flags results epoch
  paused_ticks ←
      if paused state.pause
      then checked_add t.paused_ticks t.profile.clock.period
      else ok t.paused_ticks
  let (triggered, events) = apply_trigger t now epoch state.cycle trigger
  let (admitted, events') = apply_admission triggered now epoch state.cycle admission
  let (delivered, events'') = commit_fast_results now epoch state.cycle results
  let (updated, events''') =
      update_pause_state (record admitted { execution_flags = flags }) now epoch state paused_ticks
  ok (
    record {
      admitted = is_some admission;
      launch = elim trigger [ none ↦ none | some r ↦ some r.batch ];
      fast_delivered = delivered;
      synchronizations = elim trigger [ none ↦ [] | some r ↦ r.synchronizations ];
    },
    updated,
    events ++ events' ++ events'' ++ events''',
  )
