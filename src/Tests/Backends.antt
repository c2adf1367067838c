-- ===== src/Tests/Backends.antt =====
-- src/backend.cpp, src/device/control_electronics.cpp and src/cpu/pipeline.cpp at concrete inputs.
use qsbit_sim.Time.{checked_add}
use qsbit_sim.Event.{EventSpec, gate_spec}
use qsbit_sim.Feedback.{MeasurementReference, Completion, always}
use qsbit_sim.Protocol.{OperationEvent, TriggeredEvents}
use qsbit_sim.Trace.{Events}
use qsbit_sim.Backend.{
  measure, evolve, apply, BackendOperation, backend_evolution, backend_gates, backend_measurement,
  QuantumBackend, BackendExecution, MockBackend, mock, mock_values,
}
use qsbit_sim.Backend as Backend
use qsbit_sim.Backend.{evolve, measure, apply, commit, flush}
use qsbit_sim.Device.Readouts as Readouts
use qsbit_sim.Device.Readouts.{insert_all}
use qsbit_sim.Device.Resources.{reserve, check, discard_before}
use qsbit_sim.Device.Gates.{resolve_gate_outputs}
use qsbit_sim.Device.Electronics.{prepare, resolve, samples_of, check_samples, start_gates}
use qsbit_sim.Device.Electronics.Process.{
  process_boundary, check_boundary, evolve_to, sample_all, end_all, applied_events, start_all,
  deliver_all,
}
use qsbit_sim.Backend.Batches.{
  Call, evolve_call, apply_call, measure_call, perform_all, operations_of_all, IsBatched, view,
  perform_all-view,
}
use qsbit_sim.Device.Gates.{DeviceProfile}
use qsbit_sim.Device.Electronics.{ControlElectronics, init, accept}
use qsbit_sim.Device.Electronics.Process.{process, next_boundary}
use qsbit_sim.Device.Electronics.Timely.{Ascends, IsTimely}
use qsbit_sim.Device.Electronics.Timely.Process.{process-IsTimely}
use qsbit_sim.Device.Electronics.Runs.{starts, steps, accepts, processes, Reachable-IsTimely}
use qsbit_sim.Base.{
  Result, ok, fault, ℕ, ◌+◌, ◌≡◌, refl, true, none, some, List, [], ◌∷◌, ◌++◌, arith,
}

abbrev pub value_or {ℓ} : {A : Type ℓ} → A → Result A → A
value_or default (fault code) = default
value_or default (ok value) = value

abbrev pub gate : (target : ℕ) → EventSpec
gate target = record {
  port = 0;
  delay = 0;
  duration = 4;
  spec = gate_spec (record {
    operation = "x";
    operands = record { targets = target ∷ []; resources = [] };
    amplitude = 0;
    execution_flag = always;
  });
}

abbrev simulated : MockBackend
simulated = record { outcomes = (7, true) ∷ []; qubits = 2; calls = 0 }

-- A backend that keeps what it has executed.
abbrev recorder : QuantumBackend (List BackendOperation)
recorder = record {
  validate = λ action. ok tt;
  reset = λ qubits seed log. [];
  execute = λ log epoch operations. (log ++ operations, mock_values simulated epoch operations);
}

abbrev empty_batch : BackendExecution (List BackendOperation)
empty_batch = record {
  backend = [];
  max_batch_operations = 2;
  pending = [];
  epoch = 1;
  committed_tick = 0;
}

abbrev reference : MeasurementReference
reference = record { epoch = 1; measurement = 7; target = 0 }

abbrev calls : List Call
calls =
    evolve_call 0 5 [] []
    ∷ apply_call 5 (gate 0 ∷ [])
    ∷ measure_call 6 (reference ∷ [])
    ∷ apply_call 8 (gate 1 ∷ [])
    ∷ []

abbrev batched : BackendExecution (List BackendOperation)
batched = record {
  backend =
      backend_evolution 0 5 [] []
      ∷ backend_gates 5 (gate 0 ∷ [])
      ∷ backend_measurement 6 (reference ∷ [])
      ∷ [];
  max_batch_operations = 2;
  pending = backend_gates 8 (gate 1 ∷ []) ∷ [];
  epoch = 1;
  committed_tick = 8;
}

perform_all-view_example :
    (view recorder (λ log. log) batched
      ≡ view recorder (λ log. log) empty_batch ++ operations_of_all calls)
    × IsBatched batched
unfolding perform_all evolve apply mock_values measure
perform_all-view_example =
    perform_all-view recorder (λ log. log) (λ log epoch operations results h. refl) calls
      empty_batch batched refl (omega arith)

abbrev device_profile : DeviceProfile
device_profile = record { qubits = 2; seed = 1; gates = [] }

abbrev pub device : ControlElectronics MockBackend
device = record {
  profile = device_profile;
  backend = record {
    backend = simulated;
    max_batch_operations = 4;
    pending = [];
    epoch = 1;
    committed_tick = 0;
  };
  reservations = record { reservations = [] };
  boundaries = [];
  active = [];
  readouts = record { pending = [] };
  last_tick = 0;
  processed_tick = none;
}

abbrev operation : OperationEvent
operation = record {
  epoch = 1;
  id = 3;
  instruction = 0;
  label = 1;
  source_port = 0;
  codeword = 2;
  action = gate 0;
  reference = none;
  core = none;
}

abbrev launch : TriggeredEvents
launch = record { epoch = 1; label = 1; fire_tick = 10; events = operation ∷ [] }

abbrev keeps : Completion → ℕ → Result ℕ
keeps completion n = ok (n + 1)

abbrev accepted : ControlElectronics MockBackend × Events
accepted = value_or (device, []) (accept mock device launch)

abbrev processed : (ControlElectronics MockBackend × ℕ) × Events
processed = value_or ((device, 0), []) (process mock keeps 10 1 (accepted.0, 0))

Reachable-IsTimely_example : IsTimely processed.0.0
unfolding init Backend.init Backend.reset mock accept prepare resolve reserve check insert_all
    Readouts.prepare checked_add process process_boundary check_boundary evolve_to samples_of
    check_samples start_gates resolve_gate_outputs evolve measure apply commit flush sample_all
    end_all applied_events start_all deliver_all next_boundary discard_before
Reachable-IsTimely_example = Reachable-IsTimely {q = mock} {deliver = keeps} {s = processed.0} (
    steps
      (steps {s' = (accepted.0, 0)} (starts {c = device} {d = 0} device_profile simulated 4 refl)
        (accepts launch accepted.1 refl))
      (processes 10 1 processed.1 refl refl))

process-IsTimely_example :
    IsTimely processed.0.0
    × (processed.0.0.last_tick ≡ 10)
    × Ascends (some 10) processed.0.0.boundaries
unfolding init Backend.init Backend.reset mock accept prepare resolve reserve check insert_all
    Readouts.prepare checked_add process process_boundary check_boundary evolve_to samples_of
    check_samples start_gates resolve_gate_outputs evolve measure apply commit flush sample_all
    end_all applied_events start_all deliver_all next_boundary discard_before
process-IsTimely_example =
    process-IsTimely mock keeps 10 1 accepted.0 processed.0.0 0 processed.0.1 processed.1 refl refl
      (Reachable-IsTimely {q = mock} {deliver = keeps} {s = (accepted.0, 0)} (
        steps (starts {c = device} {d = 0} device_profile simulated 4 refl)
          (accepts launch accepted.1 refl)))
