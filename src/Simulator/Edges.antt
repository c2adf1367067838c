-- ===== src/Simulator/Edges.antt =====
-- The clocked processes of src/simulator.cpp: `cpu_edge`, `memory_edge` and `tcu_edge`, and `fail`. Of
-- a state in which a fault comes up, only the fault is kept.
use qsbit_sim.Time.{edge}
use qsbit_sim.Event.{EventSpec}
use qsbit_sim.Protocol.{TriggeredEvents}
use qsbit_sim.Trace.{Events}
use qsbit_sim.Backend.{QuantumBackend}
use qsbit_sim.Memory.{Device}
use qsbit_sim.Sync.{SyncNetwork}
use qsbit_sim.Mmio.{contains}
use qsbit_sim.Decoder.{DecoderSystem}
use qsbit_sim.Decoder.Access.{access}
use qsbit_sim.Device.Electronics.{ControlElectronics, validate, preflight, accept}
use qsbit_sim.Core.{Core}
use qsbit_sim.Core.Edges as CoreEdges
use qsbit_sim.Simulator.{fault_event, Simulator, device_events, core_at, offset_at, reset_at}
use qsbit_sim.Base.{
  if◌then◌else◌, length, set, drop, add32, ◌>>=◌, Result, ok, fault, ℕ, zero, suc, true, none, some,
  List, [], ◌∷◌, ◌++◌,
}

-- The callback of a core that checks an action: its port is that of the device.
abbrev pub validate_for {ℓ} :
    {B : Type ℓ}
    → QuantumBackend B
    → ControlElectronics B
    → (offset : ℕ) → EventSpec
    → Result (Unit {0})
validate_for q device offset e = validate q device.profile (record e { port = add32 e.port offset })

-- The decoders as the device of the memory of a core, with the events of the accesses.
abbrev pub decoder_port : DecoderSystem → (core : ℕ) → Device (DecoderSystem × Events)
decoder_port decoders core = record {
  contains = contains decoders.mmio;
  access = λ (s : DecoderSystem × Events) request now epoch.
      elim (access s.0 core request now epoch) [
        | fault code ↦ (s, fault code)
        | ok (answer, decoders', more) ↦ ((decoders', s.1 ++ more), ok answer)
      ];
}

module _ {ℓ} {B : Type ℓ} (q : QuantumBackend B) where
  -- The loops over the cores whose clock has an edge.
  unfoldable pub cpu_cores :
      ControlElectronics B
      → SyncNetwork
      → (now epoch : ℕ) → List ℕ
      → List Core
      → Result (List Core × Events)
  cpu_cores device network now epoch offsets [] = ok ([], [])
  cpu_cores device network now epoch offsets (c ∷ rest) = do
    offset ← offset_at 0 offsets
    (c', events) ←
        if edge c.profile.cpu now
        then CoreEdges.cpu_edge (validate_for q device offset) network now epoch c
        else ok (c, [])
    (rest', more) ← cpu_cores device network now epoch (drop 1 offsets) rest
    ok (c' ∷ rest', events ++ more)

unfoldable pub memory_cores :
    (now epoch : ℕ)
    → List Core
    → DecoderSystem × Events
    → Result (List Core × DecoderSystem × Events)
memory_cores now epoch [] (decoders, events) = ok ([], decoders, events)
memory_cores now epoch (c ∷ rest) (decoders, events) = do
  (c', (decoders', events')) ←
      if edge c.profile.cpu now
      then CoreEdges.memory_edge (some (decoder_port decoders c.id)) now epoch (decoders, events) c
      else ok (c, (decoders, events))
  (rest', decoders'', events'') ← memory_cores now epoch rest (decoders', events')
  ok (c' ∷ rest', decoders'', events'')

-- The indices of the cores, from `n - 1` down.
abbrev pub indices_down : ℕ → List ℕ
indices_down zero = []
indices_down (suc n) = n ∷ indices_down n

abbrev pub indices_up : (n : ℕ) → List ℕ → List ℕ
indices_up zero after = after
indices_up (suc n) after = indices_up n (n ∷ after)

module _ {ℓ} {B : Type ℓ} (q : QuantumBackend B) where
  unfoldable pub tcu_core : (now index : ℕ) → Simulator B → Result (Simulator B × Events)
  tcu_core now index s = do
    c ← core_at index s.cores
    (output, c', network, events) ←
        CoreEdges.tcu_edge
          (λ (batch : TriggeredEvents).
            device_events s.cores s.port_offsets batch index >>= λ mapped.
            preflight q s.device mapped)
          s.network now s.epoch c
    let s' : Simulator B = record s { cores = set s.cores index c'; network = network }
    elim output.launch [
      | none ↦ ok (s', events)
      | some launch ↦ do
        mapped ← device_events s'.cores s.port_offsets launch index
        (device, more) ← accept q s.device mapped
        ok (record s' { device = device }, events ++ more)
    ]

  unfoldable pub tcu_cores : (now : ℕ) → List ℕ → Simulator B → Result (Simulator B × Events)
  unfolding tcu_core
  tcu_cores now [] s = ok (s, [])
  tcu_cores now (index ∷ rest) s = do
    (s', events) ← tcu_core now index s
    (s'', more) ← tcu_cores now rest s'
    ok (s'', events ++ more)

  -- `catch`, and `fail`. The message of the fault is left out.
  abbrev pub guarded :
      (now : ℕ) → Simulator B → Result (Simulator B × Events) → Simulator B × Events
  guarded now s (ok done) = done
  guarded now s (fault code) =
      (record s { failure = some code; stopped = true }, fault_event now s.epoch code ∷ [])

  unfoldable pub cpu_edge : (now : ℕ) → Simulator B → Simulator B × Events
  unfolding cpu_cores
  cpu_edge now s =
      if s.stopped
      then (s, [])
      else guarded now s (do
        (resets, s', aborted) ← reset_at q now s
        if resets then ok (record s' { cpu_done = some now }, aborted) else do
          (cores, events) ← cpu_cores q s'.device s'.network now s'.epoch s'.port_offsets s'.cores
          ok (record s' { cores = cores; cpu_done = some now }, aborted ++ events))

  unfoldable pub memory_edge : (now : ℕ) → Simulator B → Simulator B × Events
  unfolding memory_cores
  memory_edge now s =
      if s.stopped
      then (s, [])
      else guarded now s (do
        (resets, s', aborted) ← reset_at q now s
        if resets then ok (record s' { memory_done = some now }, aborted) else do
          (cores, decoders, events) ← memory_cores now s'.epoch s'.cores (s'.decoders, [])
          ok (
            record s' { cores = cores; decoders = decoders; memory_done = some now },
            aborted ++ events,
          ))

  unfoldable pub tcu_edge : (now : ℕ) → Simulator B → Simulator B × Events
  unfolding tcu_cores
  tcu_edge now s =
      if s.stopped
      then (s, [])
      else guarded now s (do
        (resets, s', aborted) ← reset_at q now s
        if resets then ok (record s' { tcu_done = some now }, aborted) else do
          let n = length s'.cores
          (s'', events) ← tcu_cores now (if s'.reverse then indices_down n else indices_up n []) s'
          ok (record s'' { tcu_done = some now }, aborted ++ events))
