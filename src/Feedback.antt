-- ===== src/Feedback.antt =====
-- include/qsbit/measurement.hpp and feedback.hpp, src/feedback.cpp: the measurement registers that
-- the CPU reads, and the execution flags of fast feedback.
pub mod Invariant
pub mod Reserve
pub mod Deliver
pub mod Flags
use qsbit_sim.Time.{checked_add}
use qsbit_sim.Base.{
  ltb, leb, ◌==◌, if◌then◌else◌, length, get_or, set, replicate, any, count, null, u32_mod, add32,
  sub32, sub64, ◌>>=◌, ◌>>◌, require, Result, time_overflow, invalid_operand, capacity, protocol,
  invalid_measurement, duplicate_result, ok, fault, find, emplace, erase, before, ℕ, ◌+◌, ◌-◌, Bool,
  true, false, not, ◌&&◌, ◌||◌, Option, none, some, List, [], ◌∷◌, map,
}

pub data ExecutionFlag : Type 0 where
  always last_one last_zero equal : ExecutionFlag

pub record MeasurementReference : Type 0 where
  pub epoch : ℕ
  pub measurement : ℕ
  pub target : ℕ

abbrev pub same_reference : MeasurementReference → MeasurementReference → Bool
same_reference a b = a.epoch == b.epoch && (a.measurement == b.measurement && a.target == b.target)

pub record Completion : Type 0 where
  pub reference : MeasurementReference
  pub value : Bool

pub record FeedbackConfig : Type 0 where
  pub qubits : ℕ
  pub result_capacity : ℕ
  pub fast_feedback : Bool

pub record Register : Type 0 where
  pub pending : ℕ
  pub value : Bool

abbrev pub fresh_register : Register
fresh_register = record { pending = 0; value = false }

pub record MeasurementRegisters : Type 0 where
  pub config : FeedbackConfig
  pub registers : List Register
  pub pending : List (ℕ × MeasurementReference)
  pub fast_pending : List (ℕ × MeasurementReference)
  pub next_measurement : ℕ

unfoldable pub init : FeedbackConfig → MeasurementRegisters
init config = record {
  config = config;
  registers = replicate config.qubits fresh_register;
  pending = [];
  fast_pending = [];
  next_measurement = 1;
}

-- The subtractions are of `std::size_t` and wrap.
unfoldable pub has_capacity : MeasurementRegisters → ℕ → Bool
has_capacity m n =
    leb n (sub64 m.config.result_capacity (length m.pending))
    && (not m.config.fast_feedback
        || leb n (sub64 m.config.result_capacity (length m.fast_pending)))

abbrev pub register : MeasurementRegisters → ℕ → Register
register m target = get_or m.registers target fresh_register

-- The loop of `prepare_reservation` over the targets that are left, `n` references on.
unfoldable pub prepare_from :
    MeasurementRegisters → ℕ → List ℕ → List ℕ → ℕ → Result (List MeasurementReference)
prepare_from m epoch targets [] n = ok []
prepare_from m epoch targets (target ∷ rest) n = do
  require (ltb target (length m.registers)) invalid_operand
  require (leb (count (λ t. t == target) targets) (u32_mod - 1 - (register m target).pending))
      time_overflow
  id ← checked_add m.next_measurement n
  more ← prepare_from m epoch targets rest (n + 1)
  ok (record { epoch = epoch; measurement = id; target = target } ∷ more)

unfoldable pub prepare_reservation :
    MeasurementRegisters → ℕ → List ℕ → Result (List MeasurementReference)
prepare_reservation m epoch targets = do
  require (has_capacity m (length targets)) capacity
  checked ← checked_add m.next_measurement (length targets)
  prepare_from m epoch targets targets 0

-- `std::equal(expected.begin(), expected.end(), references.begin())`.
unfoldable pub same_references : List MeasurementReference → List MeasurementReference → Bool
same_references [] references = true
same_references (a ∷ as') [] = false
same_references (a ∷ as') (b ∷ bs) = same_reference a b && same_references as' bs

unfoldable pub emplace_all :
    List MeasurementReference → List (ℕ × MeasurementReference) → List (ℕ × MeasurementReference)
emplace_all [] m = m
emplace_all (r ∷ rest) m = emplace_all rest (emplace r.measurement r m)

-- `++registers_[target].pending` for each target.
unfoldable pub count_up : List ℕ → List Register → List Register
count_up [] registers = registers
count_up (target ∷ rest) registers =
    let r = get_or registers target fresh_register in
    count_up rest (set registers target (record r { pending = add32 r.pending 1 }))

unfoldable pub commit_reservation :
    MeasurementRegisters → List MeasurementReference → Result MeasurementRegisters
commit_reservation m [] = ok m
commit_reservation m (first ∷ rest) = do
  let references = first ∷ rest
  let targets = map (λ (r : MeasurementReference). r.target) references
  expected ← prepare_reservation m first.epoch targets
  require (same_references expected references) protocol
  next ← checked_add m.next_measurement (length references)
  ok (record m {
    pending = emplace_all references m.pending;
    fast_pending =
        if m.config.fast_feedback then emplace_all references m.fast_pending else m.fast_pending;
    registers = count_up targets m.registers;
    next_measurement = next;
  })

-- `references.front()` of the empty list is not reached: one target yields one reference.
unfoldable pub reserve :
    MeasurementRegisters → ℕ → ℕ → Result (List MeasurementReference × MeasurementRegisters)
reserve m epoch target = do
  references ← prepare_reservation m epoch (target ∷ [])
  m' ← commit_reservation m references
  ok (references, m')

-- A target outside the registers makes `std::vector::at` throw, which the simulator reports as
-- `Protocol`.
unfoldable pub deliver : MeasurementRegisters → Completion → ℕ → Result MeasurementRegisters
deliver m completion epoch =
    let reference = completion.reference in
    if not (reference.epoch == epoch) then ok m else elim (find reference.measurement m.pending) [
      | none ↦ fault duplicate_result
      | some held ↦ do
        require (same_reference held reference) invalid_measurement
        require
            (not
              (any (λ e. e.1.target == reference.target) (before reference.measurement m.pending)))
            protocol
        require (ltb reference.target (length m.registers)) protocol
        let r = register m reference.target
        ok (record m {
          registers =
              set m.registers reference.target
                (record { pending = sub32 r.pending 1; value = completion.value });
          pending = erase reference.measurement m.pending;
        })
    ]

unfoldable pub acknowledge_fast :
    MeasurementRegisters → MeasurementReference → ℕ → Result MeasurementRegisters
acknowledge_fast m reference epoch =
    if not (reference.epoch == epoch)
    then ok m
    else elim (find reference.measurement m.fast_pending) [
      | none ↦ fault invalid_measurement
      | some held ↦ do
        require (same_reference held reference) invalid_measurement
        ok (record m { fast_pending = erase reference.measurement m.fast_pending })
    ]

unfoldable pub read : MeasurementRegisters → ℕ → Result (Option Bool)
read m target = do
  require (ltb target (length m.registers)) invalid_operand
  let r = register m target
  ok (if r.pending == 0 then some r.value else none)

unfoldable pub deliveries_pending : MeasurementRegisters → Bool
deliveries_pending m = not (null m.pending) || not (null m.fast_pending)

unfoldable pub reset : MeasurementRegisters → MeasurementRegisters
reset m = record m {
  registers = map (λ _. fresh_register) m.registers;
  pending = [];
  fast_pending = [];
  next_measurement = 1;
}

pub record FlagRegister : Type 0 where
  pub last_measurement : ℕ
  pub last_one : Bool
  pub last_zero : Bool
  pub equal : Bool

abbrev pub fresh_flags : FlagRegister
fresh_flags = record { last_measurement = 0; last_one = false; last_zero = false; equal = false }

-- The class `ExecutionFlags` holds one register for each qubit.
abbrev pub ExecutionFlags : Type 0
ExecutionFlags = List FlagRegister

abbrev pub flag_value : FlagRegister → ExecutionFlag → Bool
flag_value r always = true
flag_value r last_one = r.last_one
flag_value r last_zero = r.last_zero
flag_value r equal = r.equal

unfoldable pub evaluate : ExecutionFlags → ℕ → ExecutionFlag → Result Bool
evaluate flags target flag = do
  require (ltb target (length flags)) invalid_operand
  ok (flag_value (get_or flags target fresh_flags) flag)

abbrev pub same_bool : Bool → Bool → Bool
same_bool true b = b
same_bool false b = not b

unfoldable pub commit : ExecutionFlags → Completion → ℕ → Result ExecutionFlags
commit flags completion epoch =
    let reference = completion.reference in
    if not (reference.epoch == epoch) then ok flags else do
      require (ltb reference.target (length flags)) invalid_measurement
      let r = get_or flags reference.target fresh_flags
      require (ltb r.last_measurement reference.measurement) protocol
      ok (
          set flags reference.target (record {
            last_measurement = reference.measurement;
            last_one = completion.value;
            last_zero = not completion.value;
            equal = not (r.last_measurement == 0) && same_bool r.last_one completion.value;
          }))

unfoldable pub reset_flags : ExecutionFlags → ExecutionFlags
reset_flags flags = map (λ _. fresh_flags) flags
