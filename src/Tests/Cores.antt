-- ===== src/Tests/Cores.antt =====
-- src/cpu/pipeline.cpp, src/decoder.cpp, src/profile.cpp and src/simulator.cpp at concrete inputs.
use qsbit_sim.Time.{Clock, checked_add, checked_mul, edge, next_edge, after}
use qsbit_sim.Time as Time
use qsbit_sim.Event.{EventSpec, TwoQubitGate, output_spec}
use qsbit_sim.Feedback.{MeasurementReference}
use qsbit_sim.Protocol.{TimingConfig, TcuConfig}
use qsbit_sim.Protocol as Protocol
use qsbit_sim.Trace.{Events}
use qsbit_sim.Mailbox.{Mailbox, publish}
use qsbit_sim.Mailbox as Mailbox
use qsbit_sim.Memory.{MemoryRequest, MemoryResponse}
use qsbit_sim.Cpu.{scalar, Pipeline, Machine, Control}
use qsbit_sim.Cpu as Cpu
use qsbit_sim.Cpu.Step.{step, receive_fetch, run_stages}
use qsbit_sim.Cpu.Sequence.{InSequence}
use qsbit_sim.Cpu.Registers.{HasZero, Reachable-HasZero}
use qsbit_sim.Cpu.{retire}
use qsbit_sim.Isa.{addi, sign_extend}
use qsbit_sim.Isa.Decode.{decode, decode_immediate, immediate_op}
use qsbit_sim.Isa.Evaluate.{evaluate, effect_of}
use qsbit_sim.Trace.{event}
use qsbit_sim.Cpu.{frame_of, retire}
use qsbit_sim.Cpu.Flow.Step.{Follows}
use qsbit_sim.Cpu.Flow.Runs.{Reachable-Follows}
use qsbit_sim.Cpu.Runs.{Reachable, starts, steps, runs, waits}
use qsbit_sim.Decoder.{DecoderConfig, DecoderSystem, Request}
use qsbit_sim.Decoder.Step.{admit_requests}
use qsbit_sim.Decoder.Step as Decoders
use qsbit_sim.Decoder.Capacity.{IsWithin, admit_requests-IsWithin}
use qsbit_sim.Device.Gates.{DeviceProfile}
use qsbit_sim.Device.Gates as Gates
use qsbit_sim.Device.Electronics.{no_boundary}
use qsbit_sim.Device.Electronics.Process as Electronics
use qsbit_sim.Backend.{MockBackend}
use qsbit_sim.Profile.{Profile, validate, timing_config, tcu_config, device_profile, mapping}
use qsbit_sim.Profile as Profiles
use qsbit_sim.Profile.Components.{validate-configures}
use qsbit_sim.Simulator.{Simulator, global_reference, local_completion}
use qsbit_sim.Simulator.Identity.{local_completion-global_reference}
use qsbit_sim.Tests.Backends.{value_or, gate, device}
use qsbit_sim.Base.{
  set, take, replicate, ok, ℕ, String, ◌≡◌, refl, true, false, none, some, [], ◌∷◌, arith,
}

abbrev cpu_clock : Clock
cpu_clock = record { period = 5; phase = 0 }

abbrev requests : Mailbox MemoryRequest
requests = record { capacity = 1; receiver = cpu_clock; latency = 1; entries = [] }

abbrev responses : (id word : ℕ) → Mailbox MemoryResponse
responses id word = record {
  capacity = 1;
  receiver = cpu_clock;
  latency = 1;
  entries =
      record {
        published = 0;
        eligible = 5;
        epoch = 1;
        value = record { id = id; value = word; fault = none };
      }
      ∷ [];
}

abbrev silent : Mailbox MemoryResponse
silent = record { capacity = 1; receiver = cpu_clock; latency = 1; entries = [] }

abbrev quiet : Control ℕ
quiet operation n = ok (none, n, [])

abbrev machine : Machine ℕ
machine = record {
  pipeline = Cpu.init scalar cpu_clock 256;
  fetch_port = record { requests = requests; responses = silent };
  data_port = record { requests = requests; responses = silent };
  control = 0;
  events = [];
}

abbrev fetching : Machine ℕ
fetching = value_or machine (step quiet 0 1 machine)

-- The memory answers with `addi x1, x0, 5` and takes the request.
abbrev answered : Machine ℕ
answered = record fetching {
  fetch_port = record { requests = requests; responses = responses 1 0x00500093 };
}

abbrev decoding : Machine ℕ
decoding = value_or machine (step quiet 5 1 answered)

decoding-Reachable : Reachable quiet decoding
unfolding Cpu.init step edge receive_fetch run_stages publish after Time.validate next_edge
    checked_add checked_mul Mailbox.is_full Mailbox.take
decoding-Reachable =
    steps {m' = decoding}
      (steps {m' = answered}
        (steps {m' = fetching} (starts {m = machine} scalar cpu_clock 256 refl) (runs 0 1 refl))
        (waits refl))
      (runs 5 1 refl)

abbrev issued : Machine ℕ
issued = record machine {
  pipeline = record (Cpu.init scalar cpu_clock 256) {
    fetch_pc = 264;
    fetch_request = some (record { id = 2; pc = 260; generation = 0 });
    executing = some (record (frame_of 1 256 0x00500093 none) {
      decoded = some (record {
        op = addi;
        word = 0x00500093;
        immediate = 5;
        rd = 1;
        rs1 = 0;
        rs2 = 5;
        reads_rs1 = true;
        reads_rs2 = false;
        writes_rd = true;
      });
    });
    next_fetch = 3;
  };
  fetch_port = record {
    requests = record requests {
      entries =
          record {
            published = 5;
            eligible = 10;
            epoch = 1;
            value = record {
              id = 2;
              address = 260;
              value = 0;
              width = 4;
              write = false;
              instruction = true;
            };
          }
          ∷ [];
    };
    responses = silent;
  };
}

abbrev retired : Machine ℕ
retired = record issued {
  pipeline = record issued.pipeline {
    pc = 260;
    registers = set (replicate 32 0) 1 5;
    executing = none;
  };
  events = event 15 1 "InstructionRetired" 1 0 3 ∷ [];
}

issued-Reachable : Reachable quiet issued
unfolding Cpu.init step edge receive_fetch run_stages publish after Time.validate next_edge
    checked_add checked_mul Mailbox.is_full Mailbox.take decode decode_immediate immediate_op
    sign_extend
issued-Reachable = steps {m' = issued} decoding-Reachable (runs 10 1 refl)

Reachable-Follows_example :
    Follows issued.pipeline.executing issued.pipeline retired.pipeline × InSequence retired.pipeline
unfolding Cpu.init step edge receive_fetch run_stages publish after Time.validate next_edge
    checked_add checked_mul Mailbox.is_full Mailbox.take evaluate effect_of retire
Reachable-Follows_example = Reachable-Follows {control = quiet} 15 1 retired issued-Reachable refl

Reachable-HasZero_example : HasZero decoding.pipeline.registers
Reachable-HasZero_example = Reachable-HasZero decoding-Reachable

abbrev decoder_config : DecoderConfig
decoder_config = record {
  id = 7;
  measurements = 2;
  outputs = 1;
  latency = 3;
  initiation_interval = 2;
  decode = some (λ bits. take 1 bits);
}

abbrev packet : Request
packet = record {
  id = 1;
  core = 0;
  decoder = 7;
  count = 2;
  tag = 0;
  bits = 1;
  sent = 0;
  arrival = 4;
  transmitted = true;
}

abbrev decoders : DecoderSystem
decoders = record {
  config = record {
    base = 1024;
    request_capacity = 4;
    result_capacity = 1;
    link_latency = 1;
    bytes_per_tick = 1;
    packet_overhead = 2;
    decoders = decoder_config ∷ [];
  };
  mmio = record { base = 1024; decoders = 7 ∷ []; registers = [] };
  sessions = [];
  available = [];
  requests = packet ∷ record packet { id = 2; core = 1; arrival = 8 } ∷ [];
  reset_request = none;
  jobs = [];
  tx_available = 0;
  rx_available = 0;
  next = 3;
}

abbrev admitted : DecoderSystem × Events
admitted = value_or (decoders, []) (admit_requests 8 1 decoders)

admit_requests-IsWithin_example : IsWithin admitted.0
unfolding admit_requests checked_add IsWithin Decoders.start_job
admit_requests-IsWithin_example =
    admit_requests-IsWithin 8 1 decoders admitted.0 admitted.1 refl (omega arith)

abbrev iswap : TwoQubitGate
iswap = record {
  name = "iswap01";
  operation = "iswap";
  targets = 0 ∷ 1 ∷ [];
  inputs =
      record { core = 0; port = 0; codeword = 9 }
      ∷ record { core = 0; port = 1; codeword = 9 }
      ∷ [];
  resources = [];
  duration = 40;
}

abbrev output : (port : ℕ) → EventSpec
output port = record {
  port = port;
  delay = 0;
  duration = 40;
  spec = output_spec (record { gate = "iswap01" });
}

abbrev pub profile : Profile
profile = record {
  cpu = cpu_clock;
  tcu = record { period = 20; phase = 0 };
  start = 1000;
  watchdog = 1000000;
  memory_latency = 1;
  command_latency = 1;
  reply_latency = 1;
  cpu_result_latency = 1;
  fast_result_latency = 2;
  timing_capacity = 32;
  event_capacity = 32;
  staging_capacity = 16;
  result_capacity = 8;
  ports = 8;
  qubits = 2;
  firing_width = 1;
  seed = 1;
  fast_feedback = true;
  mappings =
      record { port = 0; codeword = 2; actions = gate 0 ∷ [] }
      ∷ record { port = 0; codeword = 9; actions = output 0 ∷ [] }
      ∷ record { port = 1; codeword = 9; actions = output 1 ∷ [] }
      ∷ [];
  two_qubit_gates = iswap ∷ [];
}

validate-configures_example :
    (timing : TimingConfig) × (tcu : TcuConfig) × (d : DeviceProfile) × (timing_config profile "tag"
      ≡ ok timing)
    × (tcu_config profile "tag" ≡ ok tcu)
    × (device_profile profile ≡ ok d)
    × ((port codeword : ℕ) → Protocol.mapping timing port codeword ≡ mapping profile port codeword)
    × ((name : String) → Gates.gate d name ≡ Profiles.gate profile name)
unfolding validate Time.validate edge Profiles.check_gates Profiles.check_mappings
validate-configures_example = validate-configures profile "tag" refl

abbrev measured : MeasurementReference
measured = record { epoch = 1; measurement = 5; target = 0 }

local_completion-global_reference_example :
    local_completion 3 (record { reference = record measured { measurement = 14 }; value = true })
    ≡ ok (1, record { reference = measured; value = true })
unfolding global_reference checked_add checked_mul
local_completion-global_reference_example =
    local_completion-global_reference 3 1 measured (record measured { measurement = 14 }) true refl
      (omega arith)

abbrev simulator : Simulator MockBackend
simulator = record {
  profile = profile;
  decoders = decoders;
  network = record { clock = record { period = 20; phase = 0 }; links = [] };
  cores = [];
  port_offsets = [];
  device = record device { boundaries = (12, no_boundary) ∷ [] };
  resets = 3 ∷ 50 ∷ [];
  reverse = false;
  epoch = 1;
  cpu_done = none;
  memory_done = none;
  tcu_done = none;
  last_reset = none;
  stopped = false;
  success = false;
  failure = none;
}
