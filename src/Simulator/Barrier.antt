-- ===== src/Simulator/Barrier.antt =====
-- `wakeup`, `barrier` and `schedule_wakeup` in src/simulator.cpp: what follows the clocked processes of a
-- tick, and the tick at which the simulation goes on.
use qsbit_sim.Time.{edge}
use qsbit_sim.Trace.{event, Events}
use qsbit_sim.Backend.{QuantumBackend}
use qsbit_sim.Decoder.Step as Decoders
use qsbit_sim.Device.Electronics.Process as Electronics
use qsbit_sim.Sync as Sync
use qsbit_sim.Core.{Core}
use qsbit_sim.Core as Cores
use qsbit_sim.Simulator.{fault_event, Simulator, deliver, is_at, reset_at}
use qsbit_sim.Base.{
  ltb, if◌then◌else◌, all, any, require, ◌>>=◌, ◌>>◌, Result, protocol, watchdog, ok, fault, ℕ, min,
  Bool, true, not, ◌&&◌, ◌||◌, Option, none, some, List, [], ◌∷◌, ◌++◌,
}

-- The first reset after a tick; they are sorted.
abbrev pub next_reset : (now : ℕ) → List ℕ → Option ℕ
next_reset now [] = none
next_reset now (t ∷ rest) = if ltb now t then some t else next_reset now rest

abbrev pub earliest : ℕ → Option ℕ → ℕ
earliest t none = t
earliest t (some u) = min t u

-- The tick of the wakeup.
unfoldable pub schedule_wakeup {ℓ} : {B : Type ℓ} → (now : ℕ) → Simulator B → Result ℕ
schedule_wakeup now s = do
  let next =
      earliest
        (earliest (earliest s.profile.watchdog (Decoders.next_boundary now s.decoders))
          (Electronics.next_boundary s.device))
        (next_reset now s.resets)
  require (ltb now next) protocol
  ok next

-- The processes of the clocks that have an edge at this tick are done.
unfoldable pub is_complete {ℓ} : {B : Type ℓ} → (now : ℕ) → Simulator B → Bool
is_complete now s =
    (not (any (λ (c : Core). edge c.profile.cpu now) s.cores)
      || (is_at s.cpu_done now && is_at s.memory_done now))
    && (not (edge s.profile.tcu now) || is_at s.tcu_done now)

unfoldable pub is_finished {ℓ} : {B : Type ℓ} → Simulator B → Bool
is_finished s =
    Electronics.is_drained s.device
    && (Sync.is_idle s.network && (Decoders.is_idle s.decoders && all Cores.is_drained s.cores))

module _ {ℓ} {B : Type ℓ} (q : QuantumBackend B) where
  -- The boundary of the device at this tick, if it has one.
  unfoldable pub process_device : (now : ℕ) → Simulator B → Result (Simulator B × Events)
  process_device now s =
      if is_at (Electronics.next_boundary s.device) now
      then (do
        ((device, cores), events) ←
            Electronics.process q (deliver now s.epoch) now s.epoch (s.device, s.cores)
        ok (record s { device = device; cores = cores }, events))
      else ok (s, [])

  unfoldable pub step_decoders : (now : ℕ) → Simulator B → Result (Simulator B × Events)
  step_decoders now s = if is_at s.last_reset now then ok (s, []) else do
    (decoders, events) ← Decoders.step now s.epoch s.decoders
    ok (record s { decoders = decoders }, events)

  -- The end of the simulation, or its next wakeup.
  unfoldable pub conclude : (now : ℕ) → Simulator B → Result ((Simulator B × Option ℕ) × Events)
  unfolding is_finished schedule_wakeup
  conclude now s =
      if is_finished s
      then (do
        device ← Electronics.finalize q now s.device
        ok (
          (record s { device = device; success = true; stopped = true }, none),
          event now s.epoch "SimulationCompleted" 0 0 0 ∷ [],
        ))
      else do
        require (ltb now s.profile.watchdog) watchdog
        next ← schedule_wakeup now s
        ok ((s, some next), [])

  unfoldable pub run_barrier : (now : ℕ) → Simulator B → Result ((Simulator B × Option ℕ) × Events)
  unfolding step_decoders process_device conclude
  run_barrier now s = do
    (stepped, decoded) ← step_decoders now s
    (resets, s', aborted) ← reset_at q now stepped
    (processed, events) ← if resets then ok (s', []) else process_device now s'
    (done, more) ← conclude now processed
    ok (done, decoded ++ (aborted ++ (events ++ more)))

  -- The state, the wakeup that is asked for, and the events.
  unfoldable pub barrier : (now : ℕ) → Simulator B → (Simulator B × Option ℕ) × Events
  unfolding is_complete run_barrier
  barrier now s =
      if s.stopped || not (is_complete now s) then ((s, none), []) else elim (run_barrier now s) [
        | ok done ↦ done
        | fault code ↦ (
          (record s { failure = some code; stopped = true }, none),
          fault_event now s.epoch code ∷ [],
        )
      ]

  unfoldable pub wakeup : (now : ℕ) → Simulator B → Simulator B × Events
  wakeup now s = if s.stopped then (s, []) else elim (reset_at q now s) [
    | fault code ↦
        (record s { failure = some code; stopped = true }, fault_event now s.epoch code ∷ [])
    | ok (resets, s', events) ↦ (s', events)
  ]
