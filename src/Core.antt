-- ===== src/Core.antt =====
-- include/qsbit/core.hpp, src/core.cpp and include/qsbit/control_links.hpp: a core joins the pipeline,
-- the memory, the timing control and the TCU by mailboxes. The network of the synchronizations and the
-- device behind the memory are shared by the cores. The tag of a core in its trace is left out.
pub mod Edges
use qsbit_sim.Event.{EventSpec}
use qsbit_sim.Feedback.{MeasurementReference, Completion, MeasurementRegisters, deliveries_pending}
use qsbit_sim.Feedback as Feedback
use qsbit_sim.Trace.{event, Events}
use qsbit_sim.Image.{ProgramImage}
use qsbit_sim.Mailbox.{Envelope, Mailbox, publish, peek, is_empty}
use qsbit_sim.Mailbox as Mailbox
use qsbit_sim.Memory.{MemoryPort, MemoryModel, Device, init_port, reset_port, is_idle}
use qsbit_sim.Memory as Memory
use qsbit_sim.Sync.{SyncNetwork, SyncUnit, validate_target, unit_preflight, book, reset_unit}
use qsbit_sim.Sync as Sync
use qsbit_sim.TimingControl.{ControlLinks, TimingControl, Effects, reset_links, receive}
use qsbit_sim.TimingControl as Timing
use qsbit_sim.TimingControl.Commands as Commands
use qsbit_sim.Tcu.{Tcu, TcuOutput, close, drained}
use qsbit_sim.Tcu.Triggering.{Preflight}
use qsbit_sim.Tcu as Tcu
use qsbit_sim.Tcu.Step as TcuStep
use qsbit_sim.Cpu.{ControlIssue, Pipeline, Machine, Control}
use qsbit_sim.Cpu as Cpu
use qsbit_sim.Cpu.Step.{step}
use qsbit_sim.Profile.{Profile, timing_config, tcu_config}
use qsbit_sim.Profile as Profiles
use qsbit_sim.Base.{
  ◌==◌, if◌then◌else◌, is_some, length, require, ◌>>=◌, ◌>>◌, Result, protocol, ok, fault, ℕ, zero,
  suc, String, Bool, true, false, not, ◌&&◌, Option, none, some, List, [], ◌∷◌, ◌++◌,
}

unfoldable pub init_links : Profile → Result ControlLinks
init_links p = do
  timing_events ← Mailbox.init 1 p.tcu p.command_latency
  replies ← Mailbox.init 1 p.cpu p.reply_latency
  closure ← Mailbox.init 1 p.tcu p.command_latency
  cpu_results ← Mailbox.init p.result_capacity p.cpu p.cpu_result_latency
  fast_results ← Mailbox.init p.result_capacity p.tcu p.fast_result_latency
  fast_credits ← Mailbox.init p.result_capacity p.cpu 1
  ok (record {
    timing_events = timing_events;
    replies = replies;
    closure = closure;
    cpu_results = cpu_results;
    fast_results = fast_results;
    fast_credits = fast_credits;
  })

-- The members of `Core`; `cpu` is the model that the library brings.
pub record Core : Type 0 where
  pub id : ℕ
  pub profile : Profile
  pub sync : SyncUnit
  pub registers : MeasurementRegisters
  pub timing_control : TimingControl
  pub links : ControlLinks
  pub fetch_port : MemoryPort
  pub data_port : MemoryPort
  pub memory : MemoryModel
  pub cpu : Pipeline
  pub tcu : Tcu

unfoldable pub init :
    (id : ℕ)
    → Profile
    → (fingerprint : String) → ProgramImage
    → ControlIssue
    → (sync_capacity : ℕ) → Result Core
unfolding init_links
init id p fingerprint image issue sync_capacity = do
  timing ← timing_config p fingerprint
  links ← init_links p
  fetch_port ← init_port p.cpu
  data_port ← init_port p.cpu
  memory ← Memory.init image p.cpu p.memory_latency
  tcu_profile ← tcu_config p fingerprint
  tcu ← Tcu.init tcu_profile sync_capacity
  Profiles.validate p
  ok (record {
    id = id;
    profile = p;
    sync = record { core = id; pending = none };
    registers = Feedback.init (record {
      qubits = p.qubits;
      result_capacity = p.result_capacity;
      fast_feedback = p.fast_feedback;
    });
    timing_control = Timing.init timing;
    links = links;
    fetch_port = fetch_port;
    data_port = data_port;
    memory = memory;
    cpu = Cpu.init issue p.cpu image.entry;
    tcu = tcu;
  })

unfoldable pub deliver : (now epoch : ℕ) → Completion → Core → Result Core
deliver now epoch result c = do
  cpu_results ← publish c.links.cpu_results now epoch result
  fast_results ←
      if c.profile.fast_feedback
      then publish c.links.fast_results now epoch result
      else ok c.links.fast_results
  ok (record c {
    links = record c.links { cpu_results = cpu_results; fast_results = fast_results };
  })

-- The links and the ports are empty.
abbrev pub are_empty : ControlLinks → Bool
are_empty l =
    is_empty l.timing_events
    && (is_empty l.replies
        && (is_empty l.closure
            && (is_empty l.cpu_results && (is_empty l.fast_results && is_empty l.fast_credits))))

abbrev pub is_quiet : MemoryPort → Bool
is_quiet p = is_empty p.requests && is_empty p.responses

unfoldable pub is_drained : Core → Bool
is_drained c =
    c.cpu.halted
    && (c.timing_control.closed
        && (not (is_some c.timing_control.enqueue_request)
            && (drained c.tcu
                && (not (is_some c.sync.pending)
                    && (not (deliveries_pending c.registers)
                        && (is_idle c.memory
                            && (are_empty c.links
                                && (is_quiet c.fetch_port && is_quiet c.data_port))))))))

unfoldable pub reset : (now : ℕ) → Core → Result Core
reset now c = do
  tcu ← Tcu.reset c.tcu now
  ok (record c {
    links = reset_links c.links;
    fetch_port = reset_port c.fetch_port;
    data_port = reset_port c.data_port;
    memory = Memory.reset c.memory;
    cpu = Cpu.reset c.memory.image.entry c.cpu;
    timing_control = Timing.reset c.timing_control;
    registers = Feedback.reset c.registers;
    tcu = tcu;
    sync = reset_unit c.sync;
  })
