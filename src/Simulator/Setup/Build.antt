-- ===== src/Simulator/Setup/Build.antt =====
-- The constructor in src/simulator.cpp. The fingerprint of a profile and the sort of CPU are arguments;
-- the clocks and the processes are those of SystemC.
use qsbit_sim.Trace.{TraceEvent, event, Events}
use qsbit_sim.Sync.{SyncConnection, SyncNetwork}
use qsbit_sim.Sync as Sync
use qsbit_sim.Backend.{QuantumBackend}
use qsbit_sim.Mmio.{validate_memory}
use qsbit_sim.Decoder.{DecoderSystemConfig, DecoderSystem}
use qsbit_sim.Decoder as Decoders
use qsbit_sim.Device.Electronics as Electronics
use qsbit_sim.Cpu.{ControlIssue}
use qsbit_sim.Profile.{Profile, device_profile}
use qsbit_sim.Core.{Core}
use qsbit_sim.Core as Cores
use qsbit_sim.Simulator.{Simulator}
use qsbit_sim.Simulator.Barrier.{schedule_wakeup}
use qsbit_sim.Simulator.Setup.{CoreConfig, validated, check_resets, port_offsets}
use qsbit_sim.Base.{◌>>=◌, ◌>>◌, Result, ok, ℕ, String, Bool, false, none, List, [], ◌∷◌}

unfoldable pub build_cores :
    DecoderSystem
    → (fingerprint : Profile → String) → ControlIssue
    → List CoreConfig
    → Result (List Core)
build_cores decoders fingerprint issue [] = ok []
build_cores decoders fingerprint issue (c ∷ rest) = do
  validate_memory decoders.mmio c.image
  core ← Cores.init c.id c.profile (fingerprint c.profile) c.image issue c.sync_capacity
  more ← build_cores decoders fingerprint issue rest
  ok (core ∷ more)

abbrev pub session_started : (fingerprint : String) → TraceEvent
session_started fingerprint = record (event 0 1 "SessionStarted" 0 0 0) { detail = fingerprint }

-- The simulator, its first wakeup, and the event that starts the trace.
unfoldable pub init {ℓ} :
    {B : Type ℓ}
    → QuantumBackend B
    → B
    → (fingerprint : Profile → String) → ControlIssue
    → List CoreConfig
    → List SyncConnection
    → (resets : List ℕ) → (reverse : Bool) → (max_batch_operations : ℕ) → DecoderSystemConfig
    → Result ((Simulator B × ℕ) × Events)
unfolding build_cores
init q backend fingerprint issue configs connections resets reverse max_batch decoding = do
  first ← validated configs connections
  decoders ← Decoders.init decoding
  network ← Sync.init first.tcu connections
  device_config ← device_profile first
  device ← Electronics.init q device_config backend max_batch
  check_resets first.watchdog resets
  cores ← build_cores decoders fingerprint issue configs
  let s : Simulator _ = record {
    profile = first;
    decoders = decoders;
    network = network;
    cores = cores;
    port_offsets = port_offsets configs 0;
    device = device;
    resets = resets;
    reverse = reverse;
    epoch = 1;
    cpu_done = none;
    memory_done = none;
    tcu_done = none;
    last_reset = none;
    stopped = false;
    success = false;
    failure = none;
  }
  next ← schedule_wakeup 0 s
  ok ((s, next), session_started (fingerprint first) ∷ [])
