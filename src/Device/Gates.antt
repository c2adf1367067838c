-- ===== src/Device/Gates.antt =====
-- include/qsbit/device/gates.hpp and src/device/gates.cpp: the two-qubit gates, which need an output
-- from each of their inputs at the same tick.
use text.Mathlib.Text.{◌==◌ as str_eq}
use Prim.Native.String.{compare as str_compare}
use Prim.Native.Nat.{Ordering}
use qsbit_sim.Time.{checked_add}
use qsbit_sim.Event.{EventSpec, gate_spec, GateInput, TwoQubitGate, same_input}
use qsbit_sim.Feedback.{always}
use qsbit_sim.Protocol.{OperationEvent, ScheduledEvent}
use qsbit_sim.Base.{
  ◌==◌, if◌then◌else◌, is_some, length, require, ◌>>=◌, ◌>>◌, Result, invalid_profile,
  gate_input_mismatch, ok, fault, ℕ, ◌+◌, String, not, Option, none, some, List, [], ◌∷◌, ◌++◌,
}

-- `gates` is the map from a name; each gate holds its name.
pub record DeviceProfile : Type 0 where
  pub qubits : ℕ
  pub seed : ℕ
  pub gates : List TwoQubitGate

abbrev pub find_gate : String → List TwoQubitGate → Option TwoQubitGate
find_gate name [] = none
find_gate name (g ∷ rest) = if str_eq g.name name then some g else find_gate name rest

-- The loop of `device_profile` over the gates of the profile.
unfoldable pub add_gates : List TwoQubitGate → List TwoQubitGate → Result (List TwoQubitGate)
add_gates [] table = ok table
add_gates (g ∷ rest) table = do
  require (not (is_some (find_gate g.name table))) invalid_profile
  add_gates rest (table ++ g ∷ [])

unfoldable pub gate : DeviceProfile → String → Result TwoQubitGate
gate p name = elim (find_gate name p.gates) [ none ↦ fault invalid_profile | some g ↦ ok g ]

-- The fields that `gate_action` leaves keep their defaults: the first amplitude is `0.0`.
unfoldable pub gate_action : DeviceProfile → String → Result EventSpec
unfolding gate
gate_action p name = do
  g ← gate p name
  ok (record {
    port = 0;
    delay = 0;
    duration = g.duration;
    spec = gate_spec (record {
      operation = g.operation;
      operands = record { targets = g.targets; resources = g.resources };
      amplitude = 0;
      execution_flag = always;
    });
  })

-- The outputs of a tick by the name of their gate, in the order of the names.
abbrev pub GateOutputs : Type 0
GateOutputs = List (String × List ScheduledEvent)

-- `gate_outputs[name].push_back(&action)`.
abbrev pub add_output : String → ScheduledEvent → GateOutputs → GateOutputs
add_output name a [] = (name, a ∷ []) ∷ []
add_output name a ((n, outputs) ∷ rest) =
    let more = add_output name a rest in
    elim (str_compare name n) [
      | Ordering.eq ↦ (n, outputs ++ a ∷ []) ∷ rest
      | Ordering.lt ↦ (name, a ∷ []) ∷ (n, outputs) ∷ rest
      | Ordering.gt ↦ (n, outputs) ∷ more
    ]

-- `event.core.value_or(0)`.
abbrev pub core_of : OperationEvent → ℕ
core_of e = elim e.core [ none ↦ 0 | some c ↦ c ]

abbrev pub input_of : OperationEvent → GateInput
input_of e = record { core = core_of e; port = e.source_port; codeword = e.codeword }

-- `std::count_if`, which adds up the end only for an output of the input.
unfoldable pub count_driving : (now : ℕ) → TwoQubitGate → GateInput → List ScheduledEvent → Result ℕ
count_driving now g input [] = ok 0
count_driving now g input (output ∷ rest) =
    if not (same_input input (input_of output.event)) then count_driving now g input rest else do
      end_tick ← checked_add now g.duration
      n ← count_driving now g input rest
      ok ((if output.end_tick == end_tick then 1 else 0) + n)

-- The loop over the inputs of a gate.
unfoldable pub check_inputs :
    (now : ℕ) → TwoQubitGate → List ScheduledEvent → List GateInput → Result (Unit {0})
unfolding count_driving
check_inputs now g outputs [] = ok tt
check_inputs now g outputs (input ∷ rest) = do
  n ← count_driving now g input outputs
  require (n == 1) gate_input_mismatch
  check_inputs now g outputs rest

unfoldable pub resolve_gate_outputs :
    DeviceProfile → (now : ℕ) → GateOutputs → Result (List EventSpec)
unfolding gate gate_action check_inputs
resolve_gate_outputs p now [] = ok []
resolve_gate_outputs p now ((name, outputs) ∷ rest) = do
  g ← gate p name
  require (length outputs == length g.inputs) gate_input_mismatch
  check_inputs now g outputs g.inputs
  action ← gate_action p name
  more ← resolve_gate_outputs p now rest
  ok (action ∷ more)
