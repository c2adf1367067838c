-- ===== src/Device/Electronics/Timely.antt =====
-- The device and time: no boundary that is left lies in the past, and the backend has been brought
-- up to the last tick of the device.
pub mod Launch
pub mod Process
use mathlib.Core.Path.{subst}
use qsbit_sim.Time.{checked_add}
use qsbit_sim.Event.{acquire_spec, AcquireSpec}
use qsbit_sim.Feedback.{Completion}
use qsbit_sim.Protocol.{OperationEvent, ScheduledEvent, TriggeredEvents}
use qsbit_sim.Trace.{Events}
use qsbit_sim.Backend.{QuantumBackend, BackendExecution, evolve, measure, apply, flush}
use qsbit_sim.Backend as Backend
use qsbit_sim.Backend.Commits.{
  flush-committed, evolve-committed, apply-committed, measure-committed,
}
use qsbit_sim.Device.Gates.{DeviceProfile}
use qsbit_sim.Device.Resources.{reserve, check}
use qsbit_sim.Device.Readouts.{
  arm_start, Readout, Readouts, Members, insert_all, prepare_one, prepare_from, add_members,
  no_members,
}
use qsbit_sim.Device.Readouts as Readouts
use qsbit_sim.Device.Electronics.{
  Spec, Boundary, PreparedEvents, ControlElectronics, add_ready, add_start, add_actions, is_after,
  resolve_all, resolve, resolve_action, validate, prepare, accept, init, drives_of, acquisitions_of,
}
use qsbit_sim.Device.Electronics.Process.{
  sample_all, end_all, applied_events, start_all, deliver_all, evolve_to, check_boundary,
  process_boundary, process, next_boundary, is_drained, finalize, reset,
}
use qsbit_sim.Base.{
  ltb, leb, ◌==◌, if◌then◌else◌, Bool-cases, Option-cases, all, All, List-cases, require, ◌>>=◌,
  ok-injective, >>=-eq-ok, require-eq-ok, Result, protocol, ok, assign, erase, ℕ, ◌≤◌, max, ◌≡◌,
  refl, sym, ◌∙◌, ◌⊎◌, inl, inr, true, ◌&&◌, ◌||◌, Option, some, List, [], ◌∷◌, arith,
}

-- The keys of a map come after a tick, if there is one, and in their order.
abbrev pub Ascends {ℓ} : {V : Type ℓ} → Option ℕ → List (ℕ × V) → Type 0
Ascends o [] = Unit
Ascends o ((k, v) ∷ m) = (is_after o k ≡ true) × Ascends (some k) m

Ascends-assign {ℓ} :
    {V : Type ℓ} (o : Option ℕ) (k : ℕ) (v : V) (m : List (ℕ × V))
    → is_after o k ≡ true
    → Ascends o m
    → Ascends o (assign k v m)
Ascends-assign o k v [] a h = (a, tt)
Ascends-assign o k v ((j, w) ∷ m) a h = ground (arith, Ascends-assign (some j) k v m)

abbrev pub IsReadyAfter : Option ℕ → Readout → Type 0
IsReadyAfter o r = is_after o r.ready ≡ true

abbrev pub ActsAfter : Option ℕ → ScheduledEvent → Type 0
ActsAfter o a = (is_after o a.start ≡ true) × (is_after o a.end_tick ≡ true)

Ascends-add_ready :
    (o : Option ℕ) (rs : List Readout) (m : List (ℕ × Boundary))
    → All (IsReadyAfter o) rs
    → Ascends o m
    → Ascends o (add_ready rs m)
Ascends-add_ready o [] m a h = h
Ascends-add_ready o (r ∷ rest) m a h =
    Ascends-add_ready o rest _ a.1 (Ascends-assign o r.ready _ m a.0 h)

Ascends-add_actions :
    (o : Option ℕ) (actions : List ScheduledEvent) (m : List (ℕ × Boundary))
    → All (ActsAfter o) actions
    → Ascends o m
    → Ascends o (add_actions actions m)
Ascends-add_actions o [] m a h = h
Ascends-add_actions o (x ∷ rest) m a h =
    Ascends-add_actions o rest _ a.1
      (Ascends-assign o x.end_tick _ (add_start x m) a.0.1 (Ascends-assign o x.start _ m a.0.0 h))

checked_add-ge : (a b c : ℕ) → checked_add a b ≡ ok c → a ≤ c
unfolding checked_add
checked_add-ge a b c e = ground arith

is_after_mono : (o : Option ℕ) (a b : ℕ) → is_after o a ≡ true → a ≤ b → is_after o b ≡ true
is_after_mono o a b h k = ground arith

-- The boundaries come after the last that was processed, in their order, and the backend has been
-- brought up to the last tick.
unfoldable pub IsTimely {ℓ} : {B : Type ℓ} → ControlElectronics B → Type 0
IsTimely c = Ascends c.processed_tick c.boundaries × (c.backend.committed_tick ≡ c.last_tick)
