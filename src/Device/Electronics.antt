-- ===== src/Device/Electronics.antt =====
-- include/qsbit/device.hpp and src/device/control_electronics.cpp: the physical side of a launch. The
-- device keeps the boundaries where its actions start, end and have results, and processes them in
-- the order of time, with the backend in step.
pub mod Process
pub mod Timely
pub mod Runs
use qsbit_sim.Time.{checked_add}
use qsbit_sim.Event.{
  EventSpec, Spec, GateSpec, GateOutputSpec, output_spec, TwoQubitGate, GateInput, same_input,
  targets, operation, is_acquire, is_gate,
}
use qsbit_sim.Feedback.{MeasurementReference, Completion}
use qsbit_sim.Protocol.{OperationEvent, ScheduledEvent, TriggeredEvents}
use qsbit_sim.Trace.{TraceEvent, event, Events}
use qsbit_sim.Backend.{BackendActivity, BackendExecution, QuantumBackend}
use qsbit_sim.Backend as Backend
use qsbit_sim.Device.Gates.{DeviceProfile, gate, gate_action, GateOutputs, add_output, input_of}
use qsbit_sim.Device.Resources.{ResourceReservations, check, reserve, is_pulse}
use qsbit_sim.Device.Readouts.{Readout, Readouts, insert_all}
use qsbit_sim.Device.Readouts as Readouts
use qsbit_sim.Base.{
  ltb, ◌==◌, if◌then◌else◌, all, any, member, require, ◌>>=◌, ◌>>◌, Result, protocol,
  resource_conflict, gate_input_mismatch, ok, fault, find, assign, ℕ, Bool, true, false, not, ◌&&◌,
  ◌||◌, Option, none, some, List, [], ◌∷◌, ◌++◌, map,
}

pub record Boundary : Type 0 where
  pub starts : List ScheduledEvent
  pub ends : List ℕ
  pub ready : List ℕ

abbrev pub no_boundary : Boundary
no_boundary = record { starts = []; ends = []; ready = [] }

pub record PreparedEvents : Type 0 where
  pub actions : List ScheduledEvent
  pub readouts : List Readout

-- The maps `boundaries_` from a tick and `active_` from an event are in the order of their keys.
pub record ControlElectronics {ℓ} (B : Type ℓ) : Type ℓ where
  pub profile : DeviceProfile
  pub backend : BackendExecution B
  pub reservations : ResourceReservations
  pub boundaries : List (ℕ × Boundary)
  pub active : List (ℕ × ScheduledEvent)
  pub readouts : Readouts
  pub last_tick : ℕ
  pub processed_tick : Option ℕ

abbrev pub fresh_readouts : Readouts
fresh_readouts = record { pending = [] }

abbrev pub fresh_reservations : ResourceReservations
fresh_reservations = record { reservations = [] }

-- `boundaries_[at]`, a fresh one where there is none.
abbrev pub boundary_at : ℕ → List (ℕ × Boundary) → Boundary
boundary_at at m = elim (find at m) [ none ↦ no_boundary | some b ↦ b ]

abbrev pub add_ready : List Readout → List (ℕ × Boundary) → List (ℕ × Boundary)
add_ready [] m = m
add_ready (r ∷ rest) m =
    let b = boundary_at r.ready m in
    add_ready rest (assign r.ready (record b { ready = b.ready ++ r.reference.measurement ∷ [] }) m)

abbrev pub add_start : ScheduledEvent → List (ℕ × Boundary) → List (ℕ × Boundary)
add_start a m =
    let b = boundary_at a.start m in assign a.start (record b { starts = b.starts ++ a ∷ [] }) m

abbrev pub add_end : ScheduledEvent → List (ℕ × Boundary) → List (ℕ × Boundary)
add_end a m =
    let b = boundary_at a.end_tick m in
    assign a.end_tick (record b { ends = b.ends ++ a.event.id ∷ [] }) m

abbrev pub add_actions : List ScheduledEvent → List (ℕ × Boundary) → List (ℕ × Boundary)
add_actions [] m = m
add_actions (a ∷ rest) m = add_actions rest (add_end a (add_start a m))

abbrev pub codeword_triggered : TriggeredEvents → ScheduledEvent → TraceEvent
codeword_triggered batch a =
    record (event batch.fire_tick batch.epoch "CodewordTriggered" a.event.id batch.label 0) {
      core = a.event.core;
      port = a.event.action.port;
      codeword = a.event.codeword;
      targets = targets a.resolved;
      operation = operation a.resolved;
    }

-- The pulses and the acquisitions in progress.
abbrev pub drives_of : List (ℕ × ScheduledEvent) → List BackendActivity
drives_of [] = []
drives_of ((id, a) ∷ rest) =
    let more = drives_of rest in
    let activity : BackendActivity = record {
      id = id;
      start = a.start;
      end_tick = a.end_tick;
      action = a.event.action;
      reference = none;
    } in
    if is_pulse a.event.action then activity ∷ more else more

abbrev pub acquisitions_of : List (ℕ × ScheduledEvent) → List BackendActivity
acquisitions_of [] = []
acquisitions_of ((id, a) ∷ rest) =
    let more = acquisitions_of rest in
    let activity : BackendActivity = record {
      id = id;
      start = a.start;
      end_tick = a.end_tick;
      action = a.event.action;
      reference = a.event.reference;
    } in
    if is_acquire a.event.action then activity ∷ more else more

-- The loop over the ends. An acquisition without a reference, which `Readouts::prepare` refuses,
-- is a fault here.
unfoldable pub samples_of :
    List (ℕ × ScheduledEvent) → (ends : List ℕ) → Result (List MeasurementReference)
samples_of active [] = ok []
samples_of active (id ∷ rest) = do
  more ← elim (find id active) [
    | none ↦ fault protocol
    | some a ↦ elim (is_acquire a.event.action) [
      | false ↦ ok []
      | true ↦ elim a.event.reference [ none ↦ fault protocol | some r ↦ ok (r ∷ []) ]
    ]
  ]
  others ← samples_of active rest
  ok (more ++ others)

abbrev pub sampled_targets : List MeasurementReference → List ℕ
sampled_targets samples = map (λ (r : MeasurementReference). r.target) samples

-- The loop that inserts the targets.
unfoldable pub check_samples : (seen : List ℕ) → List MeasurementReference → Result (Unit {0})
check_samples seen [] = ok tt
check_samples seen (r ∷ rest) = do
  require (not (member r.target seen)) resource_conflict
  check_samples (r.target ∷ seen) rest

-- The gates of a boundary: those that act by themselves, and the outputs of two-qubit gates.
pub record StartedGates : Type 0 where
  pub gates : List EventSpec
  pub outputs : GateOutputs

abbrev pub no_gates : StartedGates
no_gates = record { gates = []; outputs = [] }

abbrev pub start_gate : ScheduledEvent → StartedGates → StartedGates
start_gate a g = elim a.event.action.spec [
  | output_spec o ↦ record g { outputs = add_output o.gate a g.outputs }
  | _ ↦ record g { gates = g.gates ++ a.event.action ∷ [] }
]

abbrev pub is_after : Option ℕ → ℕ → Bool
is_after none t = true
is_after (some p) t = ltb p t

-- The action that a codeword's action stands for.
unfoldable pub resolve_action : DeviceProfile → OperationEvent → Result EventSpec
resolve_action profile e = elim e.action.spec [
  | output_spec o ↦ do
    g ← gate profile o.gate
    require (any (same_input (input_of e)) g.inputs && e.action.duration == g.duration)
        gate_input_mismatch
    resolved ← gate_action profile g.name
    ok (record e.action { spec = resolved.spec })
  | _ ↦ ok e.action
]

module _ {ℓ} {B : Type ℓ} (q : QuantumBackend B) where
  -- The constructor, with the batch size of its configuration.
  unfoldable pub init :
      DeviceProfile → B → (max_batch_operations : ℕ) → Result (ControlElectronics B)
  init profile backend max_batch = do
    execution ← Backend.init backend max_batch
    ok (record {
      profile = profile;
      backend = Backend.reset q profile.qubits profile.seed 1 0 execution;
      reservations = fresh_reservations;
      boundaries = [];
      active = [];
      readouts = fresh_readouts;
      last_tick = 0;
      processed_tick = none;
    })

  unfoldable pub validate : DeviceProfile → EventSpec → Result (Unit {0})
  validate profile action = elim action.spec [
    | output_spec o ↦ do gate ← gate_action profile o.gate; q.validate gate
    | _ ↦ q.validate action
  ]

  unfoldable pub resolve_all :
      DeviceProfile → TriggeredEvents → List OperationEvent → Result (List ScheduledEvent)
  unfolding resolve_action validate
  resolve_all profile batch [] = ok []
  resolve_all profile batch (e ∷ rest) = do
    require (e.epoch == batch.epoch && e.label == batch.label) protocol
    validate profile e.action
    start ← checked_add batch.fire_tick e.action.delay
    resolved ← resolve_action profile e
    end_tick ← checked_add start e.action.duration
    more ← resolve_all profile batch rest
    ok (record { event = e; start = start; end_tick = end_tick; resolved = resolved } ∷ more)

  unfoldable pub resolve : DeviceProfile → TriggeredEvents → Result (List ScheduledEvent)
  unfolding resolve_all
  resolve profile batch = resolve_all profile batch batch.events

  unfoldable pub prepare : ControlElectronics B → TriggeredEvents → Result PreparedEvents
  unfolding resolve
  prepare c batch = do
    actions ← resolve c.profile batch
    check c.reservations actions
    readouts ← Readouts.prepare c.readouts actions batch.epoch
    require (is_after c.processed_tick batch.fire_tick) protocol
    ok (record { actions = actions; readouts = readouts })

  unfoldable pub preflight : ControlElectronics B → TriggeredEvents → Result (Unit {0})
  unfolding prepare
  preflight c batch = do prepared ← prepare c batch; ok tt

  unfoldable pub accept :
      ControlElectronics B → TriggeredEvents → Result (ControlElectronics B × Events)
  unfolding prepare
  accept c batch = do
    prepared ← prepare c batch
    reservations ← reserve c.reservations prepared.actions
    readouts ← insert_all c.readouts prepared.readouts
    let boundaries = add_actions prepared.actions (add_ready prepared.readouts c.boundaries)
    ok (
      record c { reservations = reservations; readouts = readouts; boundaries = boundaries },
      map (codeword_triggered batch) prepared.actions,
    )

  -- The loop over the starts, before the backend is changed.
  unfoldable pub start_gates :
      DeviceProfile
      → (epoch : ℕ) → (sampled : List ℕ) → List ScheduledEvent
      → StartedGates
      → Result StartedGates
  unfolding validate
  start_gates profile epoch sampled [] g = ok g
  start_gates profile epoch sampled (a ∷ rest) g = do
    require (a.event.epoch == epoch) protocol
    validate profile a.event.action
    require
        (not (is_gate a.event.action)
          || all (λ (t : ℕ). not (member t sampled)) (targets a.resolved))
        resource_conflict
    start_gates profile epoch sampled rest (if is_gate a.event.action then start_gate a g else g)
