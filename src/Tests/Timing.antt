-- ===== src/Tests/Timing.antt =====
-- src/control_protocol.cpp, src/timing_control.cpp and src/tcu.cpp at concrete inputs.
use qsbit_sim.Time.{edge, checked_mul, checked_add, Clock}
use qsbit_sim.Mailbox.{take, Envelope, Mailbox}
use qsbit_sim.Event.{same_event, EventSpec, gate_spec, Mapping}
use qsbit_sim.Feedback.{Completion, always, fresh_register, MeasurementRegisters, fresh_flags}
use qsbit_sim.Protocol.{
  TimingConfig, strict, mapping, OperationEvent, TimingPoint, TimingEvents, decode_codeword,
  validate_timing_events,
}
use qsbit_sim.Protocol.Decoding.{
  Follow, Distinct, identities, Checked, decode_codeword-Follow, validate_timing_events-All,
}
use qsbit_sim.TimingControl.{ControlLinks, Effects, receive_results}
use qsbit_sim.TimingControl as TimingControl
use qsbit_sim.TimingControl.Draining.{receive_results-drained}
use qsbit_sim.Tcu.Step.{update_pause_state, commit_fast_results, commit_all, step}
use qsbit_sim.Tcu.Admission.{prepare_admission, commit_admission}
use qsbit_sim.Tcu.{Tcu, Point, not_paused, TimingState, Trigger, current_timing_state, paused}
use qsbit_sim.Tcu.Triggering.{prepare_trigger}
use qsbit_sim.Tcu.Queues.{sync_total, Rising, IsValid}
use qsbit_sim.Tcu.Queues.Step.{step-IsValid}
use qsbit_sim.Tcu.Ports.{Bounded}
use qsbit_sim.Tcu.Ports.Step.{step-Bounded}
use qsbit_sim.Tcu.Firing.{Merges, prepare_trigger-due}
use qsbit_sim.Trace.{Events, event}
use qsbit_sim.Base.{
  All, ok, ℕ, zero, suc, ◌≤◌, ◌≡◌, refl, true, false, none, some, List, [], ◌∷◌, arith,
}

abbrev clock : Clock
clock = record { period = 1; phase = 0 }

-- An X gate on qubit 0, at the output port 0.
abbrev gate : EventSpec
gate = record {
  port = 0;
  delay = 0;
  duration = 2;
  spec = gate_spec (record {
    operation = "x";
    operands = record { targets = 0 ∷ []; resources = [] };
    amplitude = 0;
    execution_flag = always;
  });
}

abbrev gate_mapping : Mapping
gate_mapping = record { port = 0; codeword = 3; actions = gate ∷ gate ∷ [] }

abbrev config : TimingConfig
config = record {
  event_capacity = 4;
  staging_capacity = 4;
  ports = 1;
  qubits = 1;
  firing_width = 2;
  fast_feedback = false;
  configuration = "c";
  mappings = gate_mapping ∷ [];
}

abbrev operation_event : (label id : ℕ) → OperationEvent
operation_event label id = record {
  epoch = 1;
  id = id;
  instruction = 9;
  label = label;
  source_port = 0;
  codeword = 3;
  action = gate;
  reference = none;
  core = none;
}

decode_codeword-Follow_example :
    (m : Mapping) × (mapping config 0 3 ≡ ok m)
    × Follow (operation_event 0 7 ∷ operation_event 0 8 ∷ []) m.actions 7 0
unfolding decode_codeword checked_add
decode_codeword-Follow_example =
    decode_codeword-Follow config 0 3 1 9 7 [] (operation_event 0 7 ∷ operation_event 0 8 ∷ []) refl

abbrev point : TimingPoint
point = record {
  epoch = 1;
  label = 1;
  interval = 5;
  manifest = 7 ∷ 8 ∷ [];
  synchronizations = [];
  underflow_policy = strict;
}

abbrev request : TimingEvents
request = record {
  point = point;
  events = operation_event 1 7 ∷ operation_event 1 8 ∷ [];
  configuration = "c";
}

validate_timing_events-All_example :
    (0 ≤ 1)
    × (identities request.events ≡ request.point.manifest)
    × Distinct request.point.manifest
    × (2 ≤ 4)
    × All (Checked config point) request.events
unfolding validate_timing_events same_event
validate_timing_events-All_example = validate_timing_events-All request config refl

abbrev empty_tcu : Tcu
empty_tcu = record {
  profile = record { timing = config; clock = clock; start = 0; timing_capacity = 4 };
  timing = [];
  events = [] ∷ [];
  execution_flags = fresh_flags ∷ [];
  last_due = 0;
  start = 0;
  paused_ticks = 0;
  sync_capacity = 8;
  sync_size = 0;
  last_label = 0;
  closed = false;
  admitted_policy = strict;
  triggered_policy = strict;
  pause = not_paused;
}

empty_tcu-IsValid : IsValid empty_tcu
unfolding sync_total Rising
empty_tcu-IsValid = record {
  within = omega arith;
  synchronizations = refl;
  reserved = omega arith;
  machine = omega arith;
  rising = tt;
  unlabelled = λ h. refl;
}

-- The unit with the point queued, due on cycle 5.
abbrev queued_tcu : Tcu
queued_tcu = record empty_tcu {
  timing = record { point = point; due = 5 } ∷ [];
  events = (operation_event 1 7 ∷ operation_event 1 8 ∷ []) ∷ [];
  last_due = 5;
  last_label = 1;
}

step-IsValid_example : IsValid queued_tcu
unfolding step edge prepare_trigger prepare_admission validate_timing_events same_event checked_add
    checked_mul commit_all current_timing_state commit_fast_results update_pause_state
    commit_admission
step-IsValid_example =
    step-IsValid empty_tcu queued_tcu 2 1 (some request) [] (λ _. ok tt) false none
      (record { admitted = true; launch = none; fast_delivered = []; synchronizations = [] })
      (record (event 2 1 "TimingPointEnqueued" 0 1 2) { value = 1 } ∷ []) empty_tcu-IsValid refl

empty_tcu-Bounded : Bounded empty_tcu
unfolding Bounded
empty_tcu-Bounded zero inside = omega arith
empty_tcu-Bounded (suc port) inside = omega arith

step-Bounded_example : Bounded queued_tcu
unfolding step edge prepare_trigger prepare_admission validate_timing_events same_event checked_add
    checked_mul commit_all current_timing_state commit_fast_results update_pause_state
    commit_admission
step-Bounded_example =
    step-Bounded empty_tcu queued_tcu 2 1 (some request) [] (λ _. ok tt) false none
      (record { admitted = true; launch = none; fast_delivered = []; synchronizations = [] })
      (record (event 2 1 "TimingPointEnqueued" 0 1 2) { value = 1 } ∷ []) empty_tcu-Bounded refl

abbrev running : TimingState
running = record { running = true; cycle = 5; pause = not_paused }

abbrev trigger : Trigger
trigger = record {
  batch = record { epoch = 1; label = 1; fire_tick = 5; events = request.events };
  cancelled = [];
  synchronizations = [];
}

prepare_trigger-due_example :
    (p : Point) × (rest : List Point) × (queued_tcu.timing ≡ p ∷ rest)
    × (running.running ≡ true)
    × (paused running.pause ≡ false)
    × (p.due ≡ running.cycle)
    × (trigger.synchronizations ≡ p.point.synchronizations)
    × (trigger.batch.label ≡ p.point.label)
    × Merges queued_tcu.execution_flags 1 p.point.label p.point.manifest trigger.batch.events
        trigger.cancelled
unfolding prepare_trigger
prepare_trigger-due_example =
    prepare_trigger-due queued_tcu 5 1 running (λ _. ok tt) none trigger refl

abbrev mailbox : {A : Type 0} → List (Envelope A) → Mailbox A
mailbox entries = record { capacity = 4; receiver = clock; latency = 1; entries = entries }

abbrev completion : Completion
completion = record { reference = record { epoch = 1; measurement = 1; target = 0 }; value = true }

abbrev results : List (Envelope Completion) → ControlLinks
results entries = record {
  timing_events = mailbox [];
  replies = mailbox [];
  closure = mailbox [];
  cpu_results = mailbox entries;
  fast_results = mailbox [];
  fast_credits = mailbox [];
}

abbrev registers : MeasurementRegisters
registers = record {
  config = record { qubits = 1; result_capacity = 4; fast_feedback = false };
  registers = fresh_register ∷ [];
  pending = [];
  fast_pending = [];
  next_measurement = 1;
}

abbrev effects : List (Envelope Completion) → Events → Effects
effects entries events = record {
  control = TimingControl.init config;
  registers = registers;
  links = results entries;
  events = events;
}

-- A result of epoch 1 that arrives in epoch 2.
abbrev stale : Envelope Completion
stale = record { published = 3; eligible = 4; epoch = 1; value = completion }

receive_results-drained_example : (take (mailbox {A = Completion} []) 4).0 ≡ none
unfolding receive_results take
receive_results-drained_example =
    receive_results-drained 1 4 2 (effects (stale ∷ []) [])
      (effects [] (event 4 2 "StaleCompletionDiscarded" 0 0 0 ∷ [])) (omega arith) refl
