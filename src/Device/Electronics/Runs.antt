-- ===== src/Device/Electronics/Runs.antt =====
-- The runs of the device: launches, boundaries in the order of `next_boundary`, resets, and the end.
use qsbit_sim.Feedback.{Completion}
use qsbit_sim.Protocol.{TriggeredEvents}
use qsbit_sim.Trace.{Events}
use qsbit_sim.Backend.{QuantumBackend}
use qsbit_sim.Device.Gates.{DeviceProfile}
use qsbit_sim.Device.Electronics.{ControlElectronics, init, accept}
use qsbit_sim.Device.Electronics.Process.{process, next_boundary, finalize, reset}
use qsbit_sim.Device.Electronics.Timely.{IsTimely}
use qsbit_sim.Device.Electronics.Timely.Launch.{accept-IsTimely}
use qsbit_sim.Device.Electronics.Timely.Process.{
  init-IsTimely, process-IsTimely, finalize-IsTimely, reset-IsTimely,
}
use qsbit_sim.Base.{Result, ok, ℕ, ◌≡◌, some}

-- An operation that does not fail, with the state of the receiver of the results.
pub data DeviceStep {ℓ κ} {B : Type ℓ} {D : Type κ} (q : QuantumBackend B)
    (deliver : Completion → D → Result D)
    : ControlElectronics B × D → ControlElectronics B × D → Type (ℓ ⊔ κ) where
  accepts :
      {c c' : ControlElectronics B} {d : D} (batch : TriggeredEvents) (events : Events)
      → accept q c batch ≡ ok (c', events)
      → DeviceStep q deliver (c, d) (c', d)
  processes :
      {c c' : ControlElectronics B} {d d' : D} (now epoch : ℕ) (events : Events)
      → next_boundary c ≡ some now
      → process q deliver now epoch (c, d) ≡ ok ((c', d'), events)
      → DeviceStep q deliver (c, d) (c', d')
  finalizes :
      {c c' : ControlElectronics B} {d : D} (now : ℕ)
      → finalize q now c ≡ ok c'
      → DeviceStep q deliver (c, d) (c', d)
  resets :
      {c : ControlElectronics B} {d d' : D} (now epoch : ℕ)
      → DeviceStep q deliver (c, d) ((reset q now epoch c).0, d')

-- The states that the steps reach from a constructed device.
pub data Reachable {ℓ κ} {B : Type ℓ} {D : Type κ} (q : QuantumBackend B)
    (deliver : Completion → D → Result D) : ControlElectronics B × D → Type (ℓ ⊔ κ) where
  starts :
      {c : ControlElectronics B} {d : D} (profile : DeviceProfile) (backend : B) (max_batch : ℕ)
      → init q profile backend max_batch ≡ ok c
      → Reachable q deliver (c, d)
  steps :
      {s s' : ControlElectronics B × D}
      → Reachable q deliver s
      → DeviceStep q deliver s s'
      → Reachable q deliver s'

module _ {ℓ κ} {B : Type ℓ} {D : Type κ} {q : QuantumBackend B}
    {deliver : Completion → D → Result D} where
  step-IsTimely :
      {s s' : ControlElectronics B × D} → DeviceStep q deliver s s' → IsTimely s.0 → IsTimely s'.0
  step-IsTimely (accepts {c = c} {c' = c'} batch events e) h =
      accept-IsTimely q c c' batch events e h
  step-IsTimely (processes {c = c} {c' = c'} {d = d} {d' = d'} now epoch events n e) h =
      (process-IsTimely q deliver now epoch c c' d d' events e n h).0
  step-IsTimely (finalizes {c = c} {c' = c'} now e) h = finalize-IsTimely q now c c' e h
  step-IsTimely (resets {c = c} now epoch) h = reset-IsTimely q now epoch c

  -- In every reachable state the boundaries that wait come after the last one that was processed,
  -- in the order of time, and the backend has been brought up to the last tick of the device.
  pub Reachable-IsTimely : {s : ControlElectronics B × D} → Reachable q deliver s → IsTimely s.0
  Reachable-IsTimely (starts {c = c} profile backend max_batch e) =
      init-IsTimely q profile backend max_batch c e
  Reachable-IsTimely (steps r step) = step-IsTimely step (Reachable-IsTimely r)
