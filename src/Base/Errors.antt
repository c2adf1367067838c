-- ===== src/Base/Errors.antt =====
-- include/qsbit/error.hpp and src/error.cpp: the error codes, and code that may throw a `Fault`. The text of a
-- fault's message is left out.
use Prim.Native.String.{String}
use mathlib.Core.Path.{◌≡◌, refl}
use mathlib.Core.Logic.{◌⊎◌, inl, inr}
use mathlib.Core.Bool.{Bool, true, false}

pub data ErrorCode : Type 0 where
  invalid_profile time_overflow illegal_instruction instruction_misaligned : ErrorCode
  instruction_access load_misaligned store_misaligned load_access store_access : ErrorCode
  environment_call breakpoint invalid_image unsupported_synchronization : ErrorCode
  invalid_port invalid_codeword invalid_operand capacity late_admission : ErrorCode
  manifest_mismatch protocol resource_conflict gate_input_mismatch : ErrorCode
  unsupported_capability invalid_measurement duplicate_result : ErrorCode
  backend_failure watchdog : ErrorCode

-- `name(code)`.
abbrev pub error_name : ErrorCode → String
error_name invalid_profile = "InvalidProfile"
error_name time_overflow = "TimeOverflow"
error_name illegal_instruction = "IllegalInstruction"
error_name instruction_misaligned = "InstructionMisaligned"
error_name instruction_access = "InstructionAccess"
error_name load_misaligned = "LoadMisaligned"
error_name store_misaligned = "StoreMisaligned"
error_name load_access = "LoadAccess"
error_name store_access = "StoreAccess"
error_name environment_call = "EnvironmentCall"
error_name breakpoint = "Breakpoint"
error_name invalid_image = "InvalidImage"
error_name unsupported_synchronization = "UnsupportedSynchronization"
error_name invalid_port = "InvalidPort"
error_name invalid_codeword = "InvalidCodeword"
error_name invalid_operand = "InvalidOperand"
error_name capacity = "Capacity"
error_name late_admission = "LateAdmission"
error_name manifest_mismatch = "ManifestMismatch"
error_name protocol = "Protocol"
error_name resource_conflict = "ResourceConflict"
error_name gate_input_mismatch = "GateInputMismatch"
error_name unsupported_capability = "UnsupportedCapability"
error_name invalid_measurement = "InvalidMeasurement"
error_name duplicate_result = "DuplicateResult"
error_name backend_failure = "BackendFailure"
error_name watchdog = "Watchdog"

-- The code of the `Fault` that a call throws, or what it returns.
pub data Result {ℓ} (T : Type ℓ) : Type ℓ where
  fault : ErrorCode → Result T
  ok : T → Result T

-- `require(condition, code, message)`.
abbrev pub require : Bool → ErrorCode → Result (Unit {0})
require false code = fault code
require true code = ok tt

infixl 5 ◌>>=◌
abbrev pub ◌>>=◌ {ℓ κ} : {T : Type ℓ} {U : Type κ} → Result T → (T → Result U) → Result U
fault code >>= next = fault code
ok value >>= next = next value

infixl 5 ◌>>◌
abbrev pub ◌>>◌ {κ} : {U : Type κ} → Result (Unit {0}) → Result U → Result U
check >> next = check >>= λ done. next

pub Result-cases {ℓ} :
    {T : Type ℓ} (r : Result T)
    → ((value : T) × (r ≡ ok value)) ⊎ ((code : ErrorCode) × (r ≡ fault code))
Result-cases (fault code) = inr (code, refl)
Result-cases (ok value) = inl (value, refl)

pub ok-injective {ℓ} : {T : Type ℓ} {x y : T} → ok x ≡ ok y → x ≡ y
ok-injective e = cc

-- Inversion of a successful bind, for proofs where the parts stay shut.
pub >>=-eq-ok {ℓ κ} :
    {T : Type ℓ} {B : Type κ} (first : Result T) (next : T → Result B) {last : B}
    → (first >>= next) ≡ ok last
    → (value : T) × (first ≡ ok value) × (next value ≡ ok last)
>>=-eq-ok (fault code) next e = cc
>>=-eq-ok (ok value) next e = (value, refl, e)

pub require-eq-ok : (b : Bool) (code : ErrorCode) {u : Unit {0}} → require b code ≡ ok u → b ≡ true
require-eq-ok false code e = cc
require-eq-ok true code e = refl
