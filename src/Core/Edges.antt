-- ===== src/Core/Edges.antt =====
-- src/core.cpp: the edges of the CPU, the memory and the TCU of a controller.
use qsbit_sim.Core.{Core}
use qsbit_sim.Event.{EventSpec}
use qsbit_sim.Feedback.{MeasurementReference, Completion}
use qsbit_sim.Trace.{event, Events}
use qsbit_sim.Mailbox.{Envelope, Mailbox, publish, peek, is_empty}
use qsbit_sim.Mailbox as Mailbox
use qsbit_sim.Memory.{MemoryPort, MemoryModel, Device, init_port, reset_port, is_idle}
use qsbit_sim.Memory as Memory
use qsbit_sim.Sync.{SyncNetwork, SyncUnit, validate_target, unit_preflight, book, reset_unit}
use qsbit_sim.Sync as Sync
use qsbit_sim.TimingControl.{ControlLinks, Effects, receive}
use qsbit_sim.TimingControl.Commands as Commands
use qsbit_sim.Tcu.{Tcu, TcuOutput, close}
use qsbit_sim.Tcu.Triggering.{Preflight}
use qsbit_sim.Tcu.Step as TcuStep
use qsbit_sim.Cpu.{Control}
use qsbit_sim.Cpu.Step.{step}
use qsbit_sim.Base.{
  ◌==◌, if◌then◌else◌, length, require, ◌>>=◌, ◌>>◌, Result, protocol, ok, fault, ℕ, zero, suc,
  Bool, true, false, Option, none, some, List, [], ◌∷◌, ◌++◌,
}

-- `TimingControl` behind `CpuPorts::control`: the trace events of a call are those that it adds.
abbrev pub control_port :
    (validate : EventSpec → Result (Unit {0}))
    → SyncUnit
    → SyncNetwork
    → (now epoch : ℕ) → Control Effects
control_port validate sync network now epoch operation s = do
  (reply, s') ←
      Commands.execute validate (some (validate_target sync network)) operation now epoch
        (record s { events = [] })
  ok (reply, record s' { events = [] }, s'.events)

unfoldable pub cpu_edge :
    (validate : EventSpec → Result (Unit {0}))
    → SyncNetwork
    → (now epoch : ℕ) → Core
    → Result (Core × Events)
cpu_edge validate network now epoch c = do
  received ←
      receive now epoch (record {
        control = c.timing_control;
        registers = c.registers;
        links = c.links;
        events = [];
      })
  m ← step (control_port validate c.sync network now epoch) now epoch (record {
    pipeline = c.cpu;
    fetch_port = c.fetch_port;
    data_port = c.data_port;
    control = record received { events = [] };
    events = received.events;
  })
  ok (
    record c {
      timing_control = m.control.control;
      registers = m.control.registers;
      links = m.control.links;
      fetch_port = m.fetch_port;
      data_port = m.data_port;
      cpu = m.pipeline;
    },
    m.events,
  )

unfoldable pub memory_edge {ℓ} :
    {D : Type ℓ} → Option (Device D) → (now epoch : ℕ) → D → Core → Result (Core × D)
memory_edge device now epoch d c = do
  (d', memory, fetch_port, data_port) ←
      Memory.step device now epoch d c.memory c.fetch_port c.data_port
  ok (record c { memory = memory; fetch_port = fetch_port; data_port = data_port }, d')

-- The loop over the fast results; those of an old epoch are discarded. The fuel is their number.
unfoldable pub take_results :
    ℕ → (now epoch : ℕ) → Mailbox Completion → List Completion × Mailbox Completion × Events
take_results zero now epoch m = ([], m, [])
take_results (suc fuel) now epoch m =
    let (message, m') = Mailbox.take m now in
    let (results, m'', events) = take_results fuel now epoch m' in
    elim message [
      | none ↦ ([], m, [])
      | some result ↦
          if result.epoch == epoch
          then (result.value ∷ results, m'', events)
          else (results, m'', event now epoch "StaleCompletionDiscarded" 0 0 0 ∷ events)
    ]

unfoldable pub publish_credits :
    (now epoch : ℕ)
    → List MeasurementReference
    → Mailbox MeasurementReference
    → Result (Mailbox MeasurementReference)
publish_credits now epoch [] m = ok m
publish_credits now epoch (r ∷ rest) m = do
  m' ← publish m now epoch r
  publish_credits now epoch rest m'

-- The acceptance of the request that the TCU has admitted.
unfoldable pub accept_request :
    (now epoch : ℕ) → (admitted : Bool) → ControlLinks → Result ControlLinks
accept_request now epoch false l = ok l
accept_request now epoch true l =
    let (message, timing_events) = Mailbox.take l.timing_events now in
    elim message [
      | none ↦ fault protocol
      | some accepted ↦ do
        replies ← publish l.replies now epoch (record { label = accepted.value.point.label })
        ok (record l { timing_events = timing_events; replies = replies })
    ]

unfoldable pub close_stream :
    (now epoch : ℕ) → Tcu → ControlLinks → Result (Tcu × ControlLinks × Events)
close_stream now epoch t l =
    let (message, closure) = Mailbox.take l.closure now in
    elim message [
      | none ↦ ok (t, l, [])
      | some end ↦ do
        require (end.epoch == epoch) protocol
        t' ← close t end.value
        ok (
          t',
          record l { closure = closure },
          event now epoch "EndOfStreamVisible" 0 end.value.last_label 0 ∷ [],
        )
    ]

-- What the preflight of a synchronization changes in the network, the booking changes again.
unfoldable pub tcu_edge :
    Preflight
    → SyncNetwork
    → (now epoch : ℕ) → Core
    → Result (TcuOutput × Core × SyncNetwork × Events)
unfolding take_results publish_credits accept_request close_stream
tcu_edge preflight network now epoch c = do
  (is_paused, sync, network1, events1) ← Sync.step c.sync network now epoch
  let request = peek c.links.timing_events now
  let (results, fast_results, events2) =
      take_results (length c.links.fast_results.entries) now epoch c.links.fast_results
  (output, tcu, events3) ←
      TcuStep.step c.tcu now epoch (elim request [ none ↦ none | some r ↦ some r.value ]) results
        preflight is_paused
        (some (λ targets. unit_preflight sync network1 targets now >>= λ n. ok tt))
  links1 ← accept_request now epoch output.admitted (record c.links { fast_results = fast_results })
  (sync', network2, events4) ← book sync network1 output.synchronizations now epoch
  credits ← publish_credits now epoch output.fast_delivered links1.fast_credits
  (tcu', links2, events5) ← close_stream now epoch tcu (record links1 { fast_credits = credits })
  ok (
    output,
    record c { sync = sync'; tcu = tcu'; links = links2 },
    network2,
    events1 ++ (events2 ++ (events3 ++ (events4 ++ events5))),
  )
