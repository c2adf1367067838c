-- ===== src/Profile.antt =====
-- include/qsbit/profile.hpp, src/profile.cpp and src/timing_config.cpp: the profile of a core, its
-- checks, and the configurations of the components that are read off it. The fingerprint, which the
-- source computes from the text of the profile, is an argument.
pub mod Components
use text.Mathlib.Text.{◌==◌ as str_eq}
use qsbit_sim.Time.{Clock, edge}
use qsbit_sim.Time as Time
use qsbit_sim.Event.{
  ActionKind, ideal_gate, pulse, acquire, discriminator_arm, gate_output, ResourceUse, EventSpec,
  Spec, acquire_spec, pulse_spec, gate_spec, arm_spec, output_spec, AcquireSpec, PulseSpec,
  GateSpec, GateOutputSpec, Mapping, GateInput, TwoQubitGate, same_input, targets, resources,
  operation, execution_flag, is_always, is_arm, is_acquire,
}
use qsbit_sim.Protocol.{TimingConfig, TcuConfig, is_mapping, find_mapping, add_mappings}
use qsbit_sim.Device.Gates.{DeviceProfile, find_gate, add_gates}
use qsbit_sim.Base.{
  ltb, leb, ◌==◌, if◌then◌else◌, is_some, length, get_or, all, any, null, member, require, ◌>>=◌,
  ◌>>◌, Result, invalid_profile, invalid_port, invalid_codeword, ok, fault, find, emplace, assign,
  ℕ, ◌+◌, String, Bool, true, false, not, ◌&&◌, ◌||◌, none, some, List, [], ◌∷◌, ◌++◌,
}

pub record Profile : Type 0 where
  pub cpu : Clock
  pub tcu : Clock
  pub start : ℕ
  pub watchdog : ℕ
  pub memory_latency : ℕ
  pub command_latency : ℕ
  pub reply_latency : ℕ
  pub cpu_result_latency : ℕ
  pub fast_result_latency : ℕ
  pub timing_capacity : ℕ
  pub event_capacity : ℕ
  pub staging_capacity : ℕ
  pub result_capacity : ℕ
  pub ports : ℕ
  pub qubits : ℕ
  pub firing_width : ℕ
  pub seed : ℕ
  pub fast_feedback : Bool
  pub mappings : List Mapping
  pub two_qubit_gates : List TwoQubitGate

-- The capacities and latencies that have to be positive.
abbrev pub sizes : Profile → List ℕ
sizes p =
    p.memory_latency ∷ p.command_latency ∷ p.reply_latency ∷ p.cpu_result_latency
    ∷ p.fast_result_latency ∷ p.timing_capacity ∷ p.event_capacity ∷ p.staging_capacity
    ∷ p.result_capacity ∷ p.ports ∷ p.qubits ∷ p.firing_width ∷ []

unfoldable pub gate : Profile → String → Result TwoQubitGate
gate p name = elim (find_gate name p.two_qubit_gates) [
  | none ↦ fault invalid_profile
  | some g ↦ ok g
]

unfoldable pub mapping : Profile → (port codeword : ℕ) → Result Mapping
mapping p port codeword = do
  require (ltb port p.ports) invalid_port
  elim (find_mapping port codeword p.mappings) [ none ↦ fault invalid_codeword | some m ↦ ok m ]

-- A loop over resources, with the identities that it has inserted.
unfoldable pub check_resources : List ResourceUse → (seen : List ℕ) → Result (Unit {0})
check_resources [] seen = ok tt
check_resources (r ∷ rest) seen = do
  require (not (member r.id seen)) invalid_profile
  check_resources rest (r.id ∷ seen)

unfoldable pub check_targets : (qubits : ℕ) → List ℕ → (seen : List ℕ) → Result (Unit {0})
check_targets qubits [] seen = ok tt
check_targets qubits (q ∷ rest) seen = do
  require (ltb q qubits && not (member q seen)) invalid_profile
  check_targets qubits rest (q ∷ seen)

-- The loop over the inputs of a gate, with the inputs of all gates so far.
unfoldable pub check_inputs : List GateInput → (seen : List GateInput) → Result (List GateInput)
check_inputs [] seen = ok seen
check_inputs (i ∷ rest) seen = do
  require (leb i.core 131071 && not (any (same_input i) seen)) invalid_profile
  check_inputs rest (i ∷ seen)

abbrev pub is_target_pair : (qubits : ℕ) → List ℕ → Bool
is_target_pair qubits (a ∷ b ∷ []) = not (a == b) && (ltb a qubits && ltb b qubits)
is_target_pair qubits _ = false

abbrev pub is_input_pair : List GateInput → Bool
is_input_pair (a ∷ b ∷ []) = not (a.core == b.core) || not (a.port == b.port)
is_input_pair _ = false

abbrev pub is_named : String → TwoQubitGate → Bool
is_named name g = str_eq g.name name

-- The loop over the gates, with the gates and the inputs so far.
unfoldable pub check_gates :
    (qubits : ℕ)
    → List TwoQubitGate
    → (seen : List TwoQubitGate) → List GateInput
    → Result (Unit {0})
unfolding check_inputs check_resources
check_gates qubits [] seen inputs = ok tt
check_gates qubits (g ∷ rest) seen inputs = do
  require
      (not (str_eq g.name "")
        && (not (is_some (find_gate g.name seen))
            && (not (str_eq g.operation "")
                && (ltb 0 g.duration
                    && (is_target_pair qubits g.targets && length g.inputs == 2)))))
      invalid_profile
  require (is_input_pair g.inputs) invalid_profile
  inputs' ← check_inputs g.inputs inputs
  check_resources g.resources []
  check_gates qubits rest (seen ++ g ∷ []) inputs'

-- What the loop over the actions of a mapping remembers, by target.
pub record Acquired : Type 0 where
  pub acquisitions : List (ℕ × Bool)
  pub arms : List (ℕ × ℕ)

abbrev pub nothing_acquired : Acquired
nothing_acquired = record { acquisitions = []; arms = [] }

abbrev pub is_axis : String → Bool
is_axis axis = str_eq axis "x" || (str_eq axis "y" || str_eq axis "z")

abbrev pub arms_of : ℕ → List (ℕ × ℕ) → ℕ
arms_of target arms = elim (find target arms) [ none ↦ 0 | some n ↦ n ]

-- The checks of an action by its kind. Amplitudes are finite.
unfoldable pub check_kind : Profile → Mapping → EventSpec → Acquired → Result Acquired
check_kind p m a s = elim a.spec [
  | output_spec o ↦ ok s
  | acquire_spec x ↦ do
    require (length (targets a) == 1) invalid_profile
    let target = get_or (targets a) 0 0
    require (not (is_some (find target s.acquisitions))) invalid_profile
    ok (record s { acquisitions = emplace target x.separate_arm s.acquisitions })
  | arm_spec x ↦ do
    require (length (targets a) == 1) invalid_profile
    let target = get_or (targets a) 0 0
    ok (record s { arms = assign target (arms_of target s.arms + 1) s.arms })
  | gate_spec x ↦ do
    require
        (not (str_eq x.operation "reset")
          || (length (targets a) == 1 && is_always (execution_flag a)))
        invalid_profile
    ok s
  | pulse_spec x ↦ do require (length (targets a) == 1 && is_axis x.axis) invalid_profile; ok s
]

unfoldable pub check_output : Profile → Mapping → EventSpec → Result (Unit {0})
unfolding gate
check_output p m a = elim a.spec [
  | output_spec o ↦ do
    require (length m.actions == 1 && a.port == m.port) invalid_profile
    g ← gate p o.gate
    require (a.duration == g.duration) invalid_profile
  | _ ↦ ok tt
]

abbrev pub is_output : Spec → Bool
is_output (output_spec o) = true
is_output _ = false

unfoldable pub check_action : Profile → Mapping → EventSpec → Acquired → Result Acquired
unfolding check_output check_targets check_resources check_kind
check_action p m a s = do
  require (ltb a.port p.ports && ((is_output a.spec || not (null (targets a))) && ltb 0 a.duration))
      invalid_profile
  check_output p m a
  require (is_always (execution_flag a) || length (targets a) == 1) invalid_profile
  check_targets p.qubits (targets a) []
  check_resources (resources a) []
  check_kind p m a s

unfoldable pub check_actions : Profile → Mapping → List EventSpec → Acquired → Result Acquired
unfolding check_action
check_actions p m [] s = ok s
check_actions p m (a ∷ rest) s = do s' ← check_action p m a s; check_actions p m rest s'

abbrev pub is_paired : List (ℕ × ℕ) → ℕ × Bool → Bool
is_paired arms (target, separate) = arms_of target arms == (if separate then 1 else 0)

abbrev pub has_acquisition : List (ℕ × Bool) → ℕ × ℕ → Bool
has_acquisition acquisitions (target, n) = n == 0 || is_some (find target acquisitions)

-- The loop over the mappings, with those so far.
unfoldable pub check_mappings : Profile → List Mapping → (seen : List Mapping) → Result (Unit {0})
unfolding check_actions
check_mappings p [] seen = ok tt
check_mappings p (m ∷ rest) seen = do
  require (ltb m.port p.ports && not (any (is_mapping m.port m.codeword) seen)) invalid_profile
  require (not (null m.actions)) invalid_profile
  s ← check_actions p m m.actions nothing_acquired
  require (all (is_paired s.arms) s.acquisitions) invalid_profile
  require (all (has_acquisition s.acquisitions) s.arms) invalid_profile
  check_mappings p rest (seen ++ m ∷ [])

unfoldable pub validate : Profile → Result (Unit {0})
unfolding check_gates check_mappings
validate p = do
  Time.validate p.cpu
  Time.validate p.tcu
  require (edge p.tcu p.start && ltb p.start p.watchdog) invalid_profile
  require (all (λ (n : ℕ). ltb 0 n) (sizes p)) invalid_profile
  require (leb p.result_capacity 65535 && (leb p.ports 65535 && leb p.qubits 32)) invalid_profile
  check_gates p.qubits p.two_qubit_gates [] []
  check_mappings p p.mappings []

-- `timing_config`, `tcu_config` and `device_profile`.
unfoldable pub timing_config : Profile → (fingerprint : String) → Result TimingConfig
timing_config p fingerprint = do
  mappings ← add_mappings p.mappings []
  ok (record {
    event_capacity = p.event_capacity;
    staging_capacity = p.staging_capacity;
    ports = p.ports;
    qubits = p.qubits;
    firing_width = p.firing_width;
    fast_feedback = p.fast_feedback;
    configuration = fingerprint;
    mappings = mappings;
  })

unfoldable pub tcu_config : Profile → (fingerprint : String) → Result TcuConfig
unfolding timing_config
tcu_config p fingerprint = do
  timing ← timing_config p fingerprint
  ok (record {
    timing = timing;
    clock = p.tcu;
    start = p.start;
    timing_capacity = p.timing_capacity;
  })

unfoldable pub device_profile : Profile → Result DeviceProfile
device_profile p = do
  gates ← add_gates p.two_qubit_gates []
  ok (record { qubits = p.qubits; seed = p.seed; gates = gates })
