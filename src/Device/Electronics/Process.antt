-- ===== src/Device/Electronics/Process.antt =====
-- `ControlElectronics::process` and what follows it in src/device/control_electronics.cpp: a boundary
-- is checked in full, then handed to the backend, and then the device's own state changes.
use qsbit_sim.Event.{EventSpec, targets, operation}
use qsbit_sim.Feedback.{MeasurementReference, Completion}
use qsbit_sim.Protocol.{ScheduledEvent}
use qsbit_sim.Trace.{TraceEvent, event, Events}
use qsbit_sim.Backend.{BackendExecution, QuantumBackend, evolve, measure, apply, flush}
use qsbit_sim.Backend as Backend
use qsbit_sim.Device.Gates.{DeviceProfile, gate, GateOutputs, resolve_gate_outputs}
use qsbit_sim.Device.Resources.{discard_before}
use qsbit_sim.Device.Readouts.{Readout, Readouts, at, sample, result_of, erase_one, is_empty}
use qsbit_sim.Device.Readouts as Readouts
use qsbit_sim.Device.Electronics.{
  Boundary, ControlElectronics, fresh_reservations, drives_of, acquisitions_of, samples_of,
  check_samples, sampled_targets, no_gates, start_gates, is_after,
}
use qsbit_sim.Base.{
  ltb, leb, if◌then◌else◌, is_some, null, require, ◌>>=◌, ◌>>◌, Result, protocol, ok, fault, find,
  emplace, erase, ℕ, ◌-◌, Bool, not, ◌&&◌, Option, none, some, List, [], ◌∷◌, ◌++◌,
}

-- The loop over the samples; `measure` gives an outcome for each of them.
unfoldable pub sample_all :
    (now epoch : ℕ)
    → List MeasurementReference
    → (outcomes : List Bool) → Readouts
    → Result (Readouts × Events)
sample_all now epoch [] outcomes p = ok (p, [])
sample_all now epoch (r ∷ rest) [] p = fault protocol
sample_all now epoch (r ∷ rest) (outcome ∷ more) p = do
  p' ← sample p r.measurement outcome
  readout ← at p' r.measurement
  let sampled : TraceEvent = record (event now epoch "MeasurementSampled" r.measurement 0 0) {
    core = readout.core;
    targets = r.target ∷ [];
    value = if outcome then 1 else 0;
  }
  (p'', events) ← sample_all now epoch rest more p'
  ok (p'', sampled ∷ events)

-- An event that is not active makes `std::map::at` throw.
unfoldable pub end_all :
    (now epoch : ℕ)
    → (ends : List ℕ) → List (ℕ × ScheduledEvent)
    → Result (List (ℕ × ScheduledEvent) × Events)
end_all now epoch [] active = ok (active, [])
end_all now epoch (id ∷ rest) active = elim (find id active) [
  | none ↦ fault protocol
  | some a ↦ do
    let ended : TraceEvent = record (event now epoch "OperationEnd" id a.event.label 0) {
      core = a.event.core;
      port = a.event.action.port;
      targets = targets a.resolved;
      operation = operation a.resolved;
    }
    (active', events) ← end_all now epoch rest (erase id active)
    ok (active', ended ∷ events)
]

unfoldable pub applied_events : DeviceProfile → (now epoch : ℕ) → GateOutputs → Result Events
applied_events profile now epoch [] = ok []
applied_events profile now epoch ((name, outputs) ∷ rest) = do
  g ← gate profile name
  let applied : TraceEvent = record (event now epoch "GateApplied" 0 0 0) {
    operation = g.operation;
    targets = g.targets;
    value = g.duration;
    detail = name;
  }
  more ← applied_events profile now epoch rest
  ok (applied ∷ more)

unfoldable pub start_all :
    (now epoch : ℕ)
    → (starts : List ScheduledEvent) → List (ℕ × ScheduledEvent)
    → Result (List (ℕ × ScheduledEvent) × Events)
start_all now epoch [] active = ok (active, [])
start_all now epoch (a ∷ rest) active = do
  require (not (is_some (find a.event.id active))) protocol
  let started : TraceEvent = record (event now epoch "OperationStart" a.event.id a.event.label 0) {
    core = a.event.core;
    port = a.event.action.port;
    codeword = a.event.codeword;
    targets = targets a.resolved;
    operation = operation a.resolved;
    value = a.end_tick - a.start;
  }
  (active', events) ← start_all now epoch rest (emplace a.event.id a active)
  ok (active', started ∷ events)

-- The function `deliver` is a parameter, with the state that it changes.
unfoldable pub deliver_all {κ} :
    {D : Type κ}
    → (deliver : Completion → D → Result D) → (now epoch : ℕ) → (ready : List ℕ) → Readouts × D
    → Result ((Readouts × D) × Events)
deliver_all deliver now epoch [] s = ok (s, [])
deliver_all deliver now epoch (id ∷ rest) (p, d) = do
  readout ← at p id
  result ← result_of p id
  d' ← deliver result d
  let ready : TraceEvent = record (event now epoch "ResultReady" id 0 0) {
    core = readout.core;
    targets = readout.reference.target ∷ [];
    value = if result.value then 1 else 0;
  }
  (s, events) ← deliver_all deliver now epoch rest (erase_one p id, d')
  ok (s, ready ∷ events)

module _ {ℓ} {B : Type ℓ} (q : QuantumBackend B) where
  unfoldable pub evolve_to : (now : ℕ) → ControlElectronics B → Result (BackendExecution B)
  evolve_to now c =
      if ltb c.last_tick now
      then evolve q c.last_tick now (drives_of c.active) (acquisitions_of c.active) c.backend
      else ok c.backend

  -- The checks: the measurements, and the gates by themselves and in pairs.
  unfoldable pub check_boundary :
      ControlElectronics B
      → (now epoch : ℕ) → Boundary
      → Result (List MeasurementReference × List EventSpec × GateOutputs)
  check_boundary c now epoch b = do
    samples ← samples_of c.active b.ends
    check_samples [] samples
    started ← start_gates q c.profile epoch (sampled_targets samples) b.starts no_gates
    paired ← resolve_gate_outputs c.profile now started.outputs
    ok (samples, started.gates ++ paired, started.outputs)

module _ {ℓ κ} {B : Type ℓ} {D : Type κ} (q : QuantumBackend B) where
  -- What follows the lookup of the boundary.
  unfoldable pub process_boundary :
      (deliver : Completion → D → Result D)
      → (now epoch : ℕ) → Boundary
      → ControlElectronics B × D
      → Result ((ControlElectronics B × D) × Events)
  unfolding check_boundary evolve_to
  process_boundary deliver now epoch b (c, d) = do
    (samples, gates, outputs) ← check_boundary q c now epoch b
    evolved ← evolve_to q now c
    (outcomes, measured) ← measure q now samples evolved
    (sampled, sample_events) ← sample_all now epoch samples outcomes c.readouts
    (ended, end_events) ← end_all now epoch b.ends c.active
    applied ← apply q now gates measured
    gate_events ← applied_events c.profile now epoch outputs
    (active, start_events) ← start_all now epoch b.starts ended
    ((readouts, d'), ready_events) ← deliver_all deliver now epoch b.ready (sampled, d)
    ok (
      (
        record c {
          backend = applied;
          active = active;
          readouts = readouts;
          last_tick = now;
          processed_tick = some now;
          boundaries = erase now c.boundaries;
          reservations = discard_before c.reservations now;
        },
        d',
      ),
      sample_events ++ (end_events ++ (gate_events ++ (start_events ++ ready_events))),
    )

  unfoldable pub process :
      (deliver : Completion → D → Result D)
      → (now epoch : ℕ) → ControlElectronics B × D
      → Result ((ControlElectronics B × D) × Events)
  unfolding process_boundary
  process deliver now epoch (c, d) = do
    require (leb c.last_tick now && is_after c.processed_tick now) protocol
    elim (find now c.boundaries) [
      | none ↦ ok ((c, d), [])
      | some b ↦ process_boundary deliver now epoch b (c, d)
    ]

module _ {ℓ} {B : Type ℓ} where
  unfoldable pub next_boundary : ControlElectronics B → Option ℕ
  next_boundary c = elim c.boundaries [ [] ↦ none | (t, b) ∷ rest ↦ some t ]

  unfoldable pub is_drained : ControlElectronics B → Bool
  is_drained c = null c.boundaries && (null c.active && is_empty c.readouts)

module _ {ℓ} {B : Type ℓ} (q : QuantumBackend B) where
  unfoldable pub finalize : (now : ℕ) → ControlElectronics B → Result (ControlElectronics B)
  finalize now c = do
    require (is_drained c) protocol
    require (leb c.last_tick now) protocol
    evolved ← if ltb c.last_tick now then evolve q c.last_tick now [] [] c.backend else ok c.backend
    flushed ← flush q evolved
    ok (record c { backend = flushed; last_tick = now })

  abbrev pub aborted_events : (now epoch : ℕ) → List ScheduledEvent → Events
  aborted_events now epoch [] = []
  aborted_events now epoch (a ∷ rest) =
      let more = aborted_events now epoch rest in
      if leb now a.end_tick
      then event now epoch "ResetAborted" a.event.id a.event.label 0 ∷ more
      else more

  unfoldable pub reset : (now epoch : ℕ) → ControlElectronics B → ControlElectronics B × Events
  reset now epoch c = (
    record c {
      boundaries = [];
      active = [];
      readouts = Readouts.reset c.readouts;
      reservations = fresh_reservations;
      backend = Backend.reset q c.profile.qubits c.profile.seed epoch now c.backend;
      last_tick = now;
      processed_tick = none;
    },
    aborted_events now epoch c.reservations.reservations,
  )
