-- ===== src/Backend.antt =====
-- include/qsbit/backend.hpp and src/backend.cpp: the batches of operations that the device hands to a
-- quantum backend. The backend itself is an interface, with the state that it keeps.
pub mod Batches
pub mod Commits
use qsbit_sim.Event.{EventSpec, targets}
use qsbit_sim.Feedback.{MeasurementReference}
use qsbit_sim.Base.{
  ltb, leb, ◌==◌, if◌then◌else◌, length, null, member, require, ◌>>=◌, ◌>>◌, Result,
  invalid_profile, protocol, unsupported_capability, backend_failure, ok, fault, find, ℕ, ◌+◌, Bool,
  false, not, ◌&&◌, Option, none, some, List, [], ◌∷◌, ◌++◌,
}

pub record BackendActivity : Type 0 where
  pub id : ℕ
  pub start : ℕ
  pub end_tick : ℕ
  pub action : EventSpec
  pub reference : Option MeasurementReference

pub data BackendOperation : Type 0 where
  backend_evolution :
      (start tick : ℕ) → (drives acquisitions : List BackendActivity) → BackendOperation
  backend_gates : (tick : ℕ) → List EventSpec → BackendOperation
  backend_measurement : (tick : ℕ) → List MeasurementReference → BackendOperation

abbrev pub tick_of : BackendOperation → ℕ
tick_of (backend_evolution start tick drives acquisitions) = tick
tick_of (backend_gates tick gates) = tick
tick_of (backend_measurement tick references) = tick

-- `IQuantumBackend`: `validate` is constant, the others change the state. The complex amplitudes
-- that a backend can be asked for are left out.
pub record QuantumBackend {ℓ} (B : Type ℓ) : Type ℓ where
  pub validate : EventSpec → Result (Unit {0})
  pub reset : (qubits seed : ℕ) → B → B
  pub execute : B → (epoch : ℕ) → List BackendOperation → B × Result (List Bool)

-- The members of `BackendExecution`, with the state of the backend.
pub record BackendExecution {ℓ} (B : Type ℓ) : Type ℓ where
  pub backend : B
  pub max_batch_operations : ℕ
  pub pending : List BackendOperation
  pub epoch : ℕ
  pub committed_tick : ℕ

module _ {ℓ} {B : Type ℓ} where
  unfoldable pub init : B → (max_batch_operations : ℕ) → Result (BackendExecution B)
  init backend max_batch = do
    require (ltb 0 max_batch) invalid_profile
    ok (record {
      backend = backend;
      max_batch_operations = max_batch;
      pending = [];
      epoch = 0;
      committed_tick = 0;
    })

module _ {ℓ} {B : Type ℓ} (q : QuantumBackend B) where
  unfoldable pub reset : (qubits seed epoch now : ℕ) → BackendExecution B → BackendExecution B
  reset qubits seed epoch now x = record x {
    pending = [];
    epoch = epoch;
    committed_tick = now;
    backend = q.reset qubits seed x.backend;
  }

  -- Whatever the backend throws is reported as `backend_failure`, as is a wrong number of results.
  unfoldable pub execute :
      (expected_results : ℕ) → BackendExecution B → Result (List Bool × BackendExecution B)
  execute expected x =
      if null x.pending
      then ok ([], x)
      else (let (backend, answer) = q.execute x.backend x.epoch x.pending in
          elim answer [
            | fault code ↦ fault backend_failure
            | ok results ↦ do
              require (length results == expected) backend_failure
              ok (results, record x { backend = backend; pending = [] })
          ])

  unfoldable pub flush : BackendExecution B → Result (BackendExecution B)
  unfolding execute
  flush x = do (results, x') ← execute 0 x; ok x'

  unfoldable pub commit : BackendOperation → BackendExecution B → Result (BackendExecution B)
  unfolding flush
  commit operation x = do
    require (leb x.committed_tick (tick_of operation)) protocol
    let x' : BackendExecution B = record x {
      committed_tick = tick_of operation;
      pending = x.pending ++ operation ∷ [];
    }
    if length x'.pending == x'.max_batch_operations then flush x' else ok x'

  unfoldable pub evolve :
      (from to : ℕ)
      → (drives acquisitions : List BackendActivity) → BackendExecution B
      → Result (BackendExecution B)
  unfolding commit
  evolve from to drives acquisitions x = do
    require (from == x.committed_tick && leb from to) protocol
    if ltb from to then commit (backend_evolution from to drives acquisitions) x else ok x

  unfoldable pub validate_all : List EventSpec → Result (Unit {0})
  validate_all [] = ok tt
  validate_all (gate ∷ rest) = do q.validate gate; validate_all rest

  unfoldable pub apply :
      (now : ℕ) → List EventSpec → BackendExecution B → Result (BackendExecution B)
  unfolding validate_all commit
  apply now gates x = do
    validate_all gates
    if null gates then ok x else commit (backend_gates now gates) x

-- The loop of `measure` over the references, with the targets inserted before.
unfoldable pub check_measured : (epoch : ℕ) → List MeasurementReference → List ℕ → Result (Unit {0})
check_measured epoch [] seen = ok tt
check_measured epoch (r ∷ rest) seen = do
  require (r.epoch == epoch && not (member r.target seen)) protocol
  check_measured epoch rest (r.target ∷ seen)

module _ {ℓ} {B : Type ℓ} (q : QuantumBackend B) where
  unfoldable pub measure :
      (now : ℕ)
      → List MeasurementReference
      → BackendExecution B
      → Result (List Bool × BackendExecution B)
  unfolding check_measured execute
  measure now references x = if null references then ok ([], x) else do
    require (leb x.committed_tick now) protocol
    check_measured x.epoch references []
    execute q (length references) (record x {
      committed_tick = now;
      pending = x.pending ++ backend_measurement now references ∷ [];
    })

-- The members of `MockBackend`.
pub record MockBackend : Type 0 where
  pub outcomes : List (ℕ × Bool)
  pub qubits : ℕ
  pub calls : ℕ

unfoldable pub mock_outcomes :
    MockBackend → (epoch : ℕ) → List MeasurementReference → Result (List Bool)
mock_outcomes m epoch [] = ok []
mock_outcomes m epoch (r ∷ rest) = do
  require (r.epoch == epoch && ltb r.target m.qubits) backend_failure
  more ← mock_outcomes m epoch rest
  ok (elim (find r.measurement m.outcomes) [ none ↦ false | some value ↦ value ] ∷ more)

unfoldable pub mock_values : MockBackend → (epoch : ℕ) → List BackendOperation → Result (List Bool)
unfolding mock_outcomes
mock_values m epoch [] = ok []
mock_values m epoch (backend_measurement tick references ∷ rest) = do
  values ← mock_outcomes m epoch references
  more ← mock_values m epoch rest
  ok (values ++ more)
mock_values m epoch (_ ∷ rest) = mock_values m epoch rest

abbrev pub mock_validate : EventSpec → Result (Unit {0})
mock_validate action = require (not (null (targets action))) unsupported_capability

abbrev pub mock_reset : (qubits seed : ℕ) → MockBackend → MockBackend
mock_reset qubits seed m = record m { qubits = qubits; calls = 0 }

-- A call that throws is not counted.
unfoldable pub mock_execute :
    MockBackend → (epoch : ℕ) → List BackendOperation → MockBackend × Result (List Bool)
unfolding mock_values
mock_execute m epoch operations = elim (mock_values m epoch operations) [
  | fault code ↦ (m, fault code)
  | ok values ↦ (record m { calls = m.calls + 1 }, ok values)
]

unfoldable pub mock : QuantumBackend MockBackend
unfolding mock_execute
mock = record { validate = mock_validate; reset = mock_reset; execute = mock_execute }
