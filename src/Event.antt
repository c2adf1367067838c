-- ===== src/Event.antt =====
-- include/qsbit/event.hpp, the members of `EventSpec` in src/profile.cpp, and
-- src/device/action_kind.hpp: the actions that a codeword stands for. An amplitude, a finite
-- `double` that is only stored and compared, is an index into the amplitudes in use.
use text.Mathlib.Text.{◌==◌ as str_eq}
use qsbit_sim.Feedback.{ExecutionFlag, always, last_one, last_zero, equal}
use qsbit_sim.Base.{◌==◌, ℕ, String, Bool, true, false, not, ◌&&◌, List, [], ◌∷◌}

pub data ActionKind : Type 0 where
  ideal_gate pulse acquire discriminator_arm gate_output : ActionKind

pub record ResourceUse : Type 0 where
  pub id : ℕ
  pub exclusive : Bool

pub record QuantumOperands : Type 0 where
  pub targets : List ℕ
  pub resources : List ResourceUse

pub record GateSpec : Type 0 where
  pub operation : String
  pub operands : QuantumOperands
  pub amplitude : ℕ
  pub execution_flag : ExecutionFlag

pub record PulseSpec : Type 0 where
  pub operation : String
  pub operands : QuantumOperands
  pub amplitude : ℕ
  pub axis : String
  pub execution_flag : ExecutionFlag

pub record AcquireSpec : Type 0 where
  pub operation : String
  pub operands : QuantumOperands
  pub discriminator_delay : ℕ
  pub separate_arm : Bool

pub record DiscriminatorArmSpec : Type 0 where
  pub operation : String
  pub operands : QuantumOperands

pub record GateOutputSpec : Type 0 where
  pub gate : String

-- The `std::variant` of `EventSpec`.
pub data Spec : Type 0 where
  gate_spec : GateSpec → Spec
  pulse_spec : PulseSpec → Spec
  acquire_spec : AcquireSpec → Spec
  arm_spec : DiscriminatorArmSpec → Spec
  output_spec : GateOutputSpec → Spec

pub record EventSpec : Type 0 where
  pub port : ℕ
  pub delay : ℕ
  pub duration : ℕ
  pub spec : Spec

abbrev pub spec_kind : Spec → ActionKind
spec_kind (gate_spec s) = ideal_gate
spec_kind (pulse_spec s) = pulse
spec_kind (acquire_spec s) = acquire
spec_kind (arm_spec s) = discriminator_arm
spec_kind (output_spec s) = gate_output

abbrev pub spec_operands : Spec → QuantumOperands
spec_operands (gate_spec s) = s.operands
spec_operands (pulse_spec s) = s.operands
spec_operands (acquire_spec s) = s.operands
spec_operands (arm_spec s) = s.operands
spec_operands (output_spec s) = record { targets = []; resources = [] }

abbrev pub spec_operation : Spec → String
spec_operation (gate_spec s) = s.operation
spec_operation (pulse_spec s) = s.operation
spec_operation (acquire_spec s) = s.operation
spec_operation (arm_spec s) = s.operation
spec_operation (output_spec s) = ""

abbrev pub spec_flag : Spec → ExecutionFlag
spec_flag (gate_spec s) = s.execution_flag
spec_flag (pulse_spec s) = s.execution_flag
spec_flag _ = always

abbrev pub kind : EventSpec → ActionKind
kind e = spec_kind e.spec

abbrev pub targets : EventSpec → List ℕ
targets e = (spec_operands e.spec).targets

abbrev pub resources : EventSpec → List ResourceUse
resources e = (spec_operands e.spec).resources

abbrev pub operation : EventSpec → String
operation e = spec_operation e.spec

abbrev pub execution_flag : EventSpec → ExecutionFlag
execution_flag e = spec_flag e.spec

abbrev pub is_always : ExecutionFlag → Bool
is_always always = true
is_always _ = false

abbrev pub is_acquire : EventSpec → Bool
is_acquire e = elim (kind e) [ acquire ↦ true | _ ↦ false ]

abbrev pub is_arm : EventSpec → Bool
is_arm e = elim (kind e) [ discriminator_arm ↦ true | _ ↦ false ]

abbrev pub is_gate : EventSpec → Bool
is_gate e = elim (kind e) [ ideal_gate ↦ true | gate_output ↦ true | _ ↦ false ]

pub record Mapping : Type 0 where
  pub port : ℕ
  pub codeword : ℕ
  pub actions : List EventSpec

pub record GateInput : Type 0 where
  pub core : ℕ
  pub port : ℕ
  pub codeword : ℕ

pub record TwoQubitGate : Type 0 where
  pub name : String
  pub operation : String
  pub targets : List ℕ
  pub inputs : List GateInput
  pub resources : List ResourceUse
  pub duration : ℕ

-- The `operator==` of the records, by their fields.
abbrev pub same_bool : Bool → Bool → Bool
same_bool true b = b
same_bool false b = not b

abbrev pub same_flag : ExecutionFlag → ExecutionFlag → Bool
same_flag always always = true
same_flag last_one last_one = true
same_flag last_zero last_zero = true
same_flag equal equal = true
same_flag _ _ = false

abbrev pub same_list {ℓ} : {A : Type ℓ} → (A → A → Bool) → List A → List A → Bool
same_list same [] [] = true
same_list same (x ∷ xs) (y ∷ ys) = same x y && same_list same xs ys
same_list same _ _ = false

abbrev pub same_resource : ResourceUse → ResourceUse → Bool
same_resource a b = a.id == b.id && same_bool a.exclusive b.exclusive

abbrev pub same_operands : QuantumOperands → QuantumOperands → Bool
same_operands a b =
    same_list ◌==◌ a.targets b.targets && same_list same_resource a.resources b.resources

unfoldable pub same_spec : Spec → Spec → Bool
same_spec (gate_spec a) (gate_spec b) =
    str_eq a.operation b.operation
    && (same_operands a.operands b.operands
        && (a.amplitude == b.amplitude && same_flag a.execution_flag b.execution_flag))
same_spec (pulse_spec a) (pulse_spec b) =
    str_eq a.operation b.operation
    && (same_operands a.operands b.operands
        && (a.amplitude == b.amplitude
            && (str_eq a.axis b.axis && same_flag a.execution_flag b.execution_flag)))
same_spec (acquire_spec a) (acquire_spec b) =
    str_eq a.operation b.operation
    && (same_operands a.operands b.operands
        && (a.discriminator_delay == b.discriminator_delay
            && same_bool a.separate_arm b.separate_arm))
same_spec (arm_spec a) (arm_spec b) =
    str_eq a.operation b.operation && same_operands a.operands b.operands
same_spec (output_spec a) (output_spec b) = str_eq a.gate b.gate
same_spec _ _ = false

unfoldable pub same_event : EventSpec → EventSpec → Bool
unfolding same_spec
same_event a b =
    a.port == b.port
    && (a.delay == b.delay && (a.duration == b.duration && same_spec a.spec b.spec))

abbrev pub same_input : GateInput → GateInput → Bool
same_input a b = a.core == b.core && (a.port == b.port && a.codeword == b.codeword)

unfoldable pub same_gate : TwoQubitGate → TwoQubitGate → Bool
same_gate a b =
    str_eq a.name b.name
    && (str_eq a.operation b.operation
        && (same_list ◌==◌ a.targets b.targets
            && (same_list same_input a.inputs b.inputs
                && (same_list same_resource a.resources b.resources && a.duration == b.duration))))
