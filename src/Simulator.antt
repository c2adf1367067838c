-- ===== src/Simulator.antt =====
-- include/qsbit/simulator.hpp and src/simulator.cpp: the cores, the decoders and the device on a common
-- time. The processes that SystemC runs are functions of the current tick; a wakeup is the tick that
-- they ask for. The constructor is in the modules of Simulator.Setup.
pub mod Identity
pub mod Setup
pub mod Edges
pub mod Barrier
pub mod Wakeup
use qsbit_sim.Time.{checked_add, checked_mul}
use qsbit_sim.Event.{EventSpec}
use qsbit_sim.Feedback.{MeasurementReference, Completion}
use qsbit_sim.Protocol.{OperationEvent, TriggeredEvents}
use qsbit_sim.Trace.{TraceEvent, event, Events}
use qsbit_sim.Backend.{QuantumBackend}
use qsbit_sim.Device.Electronics.{ControlElectronics}
use qsbit_sim.Device.Electronics.Process as Electronics
use qsbit_sim.Decoder.{DecoderSystem}
use qsbit_sim.Decoder.Step as Decoders
use qsbit_sim.Sync.{SyncNetwork}
use qsbit_sim.Sync as Sync
use qsbit_sim.Profile.{Profile}
use qsbit_sim.Core.{Core}
use qsbit_sim.Core as Cores
use qsbit_sim.Base.{
  ltb, ◌==◌, if◌then◌else◌, length, get_elem?, set, member, add32, error_name, require, ◌>>=◌, ◌>>◌,
  ErrorCode, Result, protocol, ok, fault, ℕ, ◌+◌, ◌-◌, ◌/◌, ◌%◌, Bool, true, false, not, Option,
  none, some, List, [], ◌∷◌, ◌++◌, map,
}

-- The members of `Simulator` but the clocks and the trace; `failure` is `fault_`.
pub record Simulator {ℓ} (B : Type ℓ) : Type ℓ where
  pub profile : Profile
  pub decoders : DecoderSystem
  pub network : SyncNetwork
  pub cores : List Core
  pub port_offsets : List ℕ
  pub device : ControlElectronics B
  pub resets : List ℕ
  pub reverse : Bool
  pub epoch : ℕ
  pub cpu_done : Option ℕ
  pub memory_done : Option ℕ
  pub tcu_done : Option ℕ
  pub last_reset : Option ℕ
  pub stopped : Bool
  pub success : Bool
  pub failure : Option ErrorCode

abbrev pub fault_event : (now epoch : ℕ) → ErrorCode → TraceEvent
fault_event now epoch code = record (event now epoch "Fault" 0 0 0) { operation = error_name code }

-- The identity in the device of the event or the measurement `id` of a core.
unfoldable pub global_id : (cores index id : ℕ) → Result ℕ
global_id cores index id = do
  require (ltb 0 id) protocol
  scaled ← checked_mul (id - 1) cores
  checked_add scaled (index + 1)

unfoldable pub global_reference :
    (cores index : ℕ) → Option MeasurementReference → Result (Option MeasurementReference)
unfolding global_id
global_reference cores index none = ok none
global_reference cores index (some r) = do
  measurement ← global_id cores index r.measurement
  ok (some (record r { measurement = measurement }))

unfoldable pub global_event : (cores index core offset : ℕ) → OperationEvent → Result OperationEvent
unfolding global_id global_reference
global_event cores index core offset e = do
  id ← global_id cores index e.id
  reference ← global_reference cores index e.reference
  ok (record e {
    id = id;
    core = some core;
    action = record e.action { port = add32 e.action.port offset };
    reference = reference;
  })

unfoldable pub global_events :
    (cores index core offset : ℕ) → List OperationEvent → Result (List OperationEvent)
unfolding global_event
global_events cores index core offset [] = ok []
global_events cores index core offset (e ∷ rest) = do
  e' ← global_event cores index core offset e
  rest' ← global_events cores index core offset rest
  ok (e' ∷ rest')

abbrev pub with_core : ℕ → OperationEvent → OperationEvent
with_core core e = record e { core = some core }

-- An index out of range makes `std::vector::at` throw.
unfoldable pub core_at : ℕ → List Core → Result Core
core_at index cores = elim (get_elem? cores index) [ none ↦ fault protocol | some c ↦ ok c ]

unfoldable pub offset_at : ℕ → List ℕ → Result ℕ
offset_at index offsets = elim (get_elem? offsets index) [ none ↦ fault protocol | some n ↦ ok n ]

-- One core keeps its identities.
unfoldable pub device_events :
    List Core → (port_offsets : List ℕ) → TriggeredEvents → (index : ℕ) → Result TriggeredEvents
unfolding core_at offset_at global_events
device_events (c ∷ []) offsets batch index =
    ok (if c.id == 0 then batch else record batch { events = map (with_core c.id) batch.events })
device_events cores offsets batch index = do
  c ← core_at index cores
  offset ← offset_at index offsets
  events ← global_events (length cores) index c.id offset batch.events
  ok (record batch { events = events })

-- The core that a measurement of the device belongs to, with its identity there.
unfoldable pub local_completion : (cores : ℕ) → Completion → Result (ℕ × Completion)
local_completion cores result = do
  let id = result.reference.measurement
  require (ltb 0 id) protocol
  ok (
    (id - 1) % cores,
    record result { reference = record result.reference { measurement = (id - 1) / cores + 1 } },
  )

-- What `process` hands a result to.
unfoldable pub deliver : (now epoch : ℕ) → Completion → List Core → Result (List Core)
unfolding local_completion core_at
deliver now epoch result cores = do
  (index, completion) ← local_completion (length cores) result
  c ← core_at index cores
  c' ← Cores.deliver now epoch completion c
  ok (set cores index c')

unfoldable pub reset_cores : (now : ℕ) → List Core → Result (List Core)
reset_cores now [] = ok []
reset_cores now (c ∷ rest) = do
  c' ← Cores.reset now c
  rest' ← reset_cores now rest
  ok (c' ∷ rest')

abbrev pub is_at : Option ℕ → ℕ → Bool
is_at none now = false
is_at (some t) now = t == now

module _ {ℓ} {B : Type ℓ} (q : QuantumBackend B) where
  -- The Boolean is that of `reset_at`: whether there is a reset at this tick.
  unfoldable pub reset_at : (now : ℕ) → Simulator B → Result (Bool × Simulator B × Events)
  unfolding reset_cores
  reset_at now s =
      if not (member now s.resets)
      then ok (false, s, [])
      else if is_at s.last_reset now
      then ok (true, s, [])
      else do
        epoch ← checked_add s.epoch 1
        cores ← reset_cores now s.cores
        let (device, aborted) = Electronics.reset q now epoch s.device
        ok (
          true,
          record s {
            epoch = epoch;
            network = Sync.reset s.network;
            decoders = Decoders.reset s.decoders;
            cores = cores;
            device = device;
            last_reset = some now;
          },
          aborted ++ event now epoch "SessionReset" 0 0 0 ∷ [],
        )
