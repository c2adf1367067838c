-- ===== src/Lib.antt =====
-- qsbit-sim: a cycle-accurate simulator of a quantum control system. Controllers with an RV32I CPU
-- issue control commands to a timing control, which sends timing points over mailboxes to a timing
-- control unit (TCU); the TCU triggers operation events on exact cycles, the simulated device checks
-- and executes them, and measurement results flow back to the registers that the CPU reads and to
-- the execution flags that condition later events.
--
-- The files, by the code that they model:
--   Time        include/qsbit/time.hpp: checked tick arithmetic, `Clock` and `Clock::after`
--   Mailbox     include/qsbit/mailbox.hpp: `Mailbox<T>`, the only link between components
--   Feedback    include/qsbit/measurement.hpp, include/qsbit/feedback.hpp, src/feedback.cpp:
--               `MeasurementRegisters` and `ExecutionFlags`
--   Isa         include/qsbit/isa.hpp, src/isa.cpp, contracts/include/qsbit/contracts/isa.hpp:
--               `sign_extend`, `decode` (Isa.Decode) and `evaluate` (Isa.Evaluate)
--   Command     include/qsbit/control_command.hpp, src/control_command.cpp, src/cpu/vliw.cpp
--   Trace       include/qsbit/trace.hpp: the events that the steps return
--   Event       include/qsbit/event.hpp, src/device/action_kind.hpp, the members of `EventSpec` in
--               src/profile.cpp
--   Sync        include/qsbit/sync.hpp, src/sync.cpp: `SyncNetwork` and `SyncUnit`
--   Image       include/qsbit/image.hpp, src/image.cpp: `ProgramImage`
--   Memory      include/qsbit/memory.hpp, src/memory.cpp: `MemoryPort` and `MemoryModel`
--   Mmio        include/qsbit/decoder/mmio.hpp, src/decoder/mmio.cpp: `DecoderMmio`
--   Protocol    include/qsbit/control_protocol.hpp, src/control_protocol.cpp and the mapping table of
--               include/qsbit/timing_config.hpp and src/timing_config.cpp
--   TimingControl  include/qsbit/timing_control.hpp, include/qsbit/control_links.hpp,
--               src/timing_control.cpp: `TimingControl` and `ControlLinks`
--   Tcu         include/qsbit/tcu.hpp, src/tcu.cpp: `TcuCycleModel`
--   Backend     include/qsbit/backend.hpp, src/backend.cpp: `BackendExecution`, `MockBackend` and the
--               interface `IQuantumBackend`, which is the record `QuantumBackend`
--   Device      include/qsbit/device.hpp and src/device/: resources, readouts, two-qubit gates
--               (Device.Gates) and `ControlElectronics` (Device.Electronics)
--   Cpu         include/qsbit/cpu/pipeline.hpp, src/cpu/pipeline.cpp: `InOrderPipeline`
--   Decoder     include/qsbit/decoder.hpp, src/decoder.cpp: `DecoderSystem`
--   Profile     include/qsbit/profile.hpp, src/profile.cpp, src/timing_config.cpp: the checks of a
--               profile and the configurations of the components
--   Core        include/qsbit/core.hpp, src/core.cpp: the parts of a controller, joined by mailboxes
--   Simulator   include/qsbit/simulator.hpp, src/simulator.cpp: the checks of a configuration
--               (Simulator.Setup), and the cores, the decoders and the device
--               on a common time; each process that SystemC runs is a function of the current tick
--   Base        what the files share: tests, lists, words, faults, maps, bits and signed numbers
--   Tests       the theorems applied to concrete inputs
-- The child modules of a part hold its further operations and its proofs.
--
-- How the code is modelled. A class is a record of its members, and a method that changes them a
-- function that returns the record after the call. An exception is `fault` with its error code; the
-- text of the message is left out, and the state after a fault is not kept, since the simulator stops
-- there. `std::vector::at` and `std::map::at` out of range are the fault `protocol`, as which the
-- edges of the simulator report them. Trace events are returned as lists.
--
-- Numbers are natural numbers: where the source's arithmetic wraps, the operations `add32`, `sub32`
-- and `sub64` of Base.Words say so; ticks are added by `checked_add`, which refuses an overflow. An
-- integer comparison that the source widens to 64 bits is plain. Bit fields joined with `|` that do not overlap are added. A `std::map` is an
-- association list in the order of its keys. An amplitude is an index. Callbacks (the checks of
-- actions and of launches, an attached memory device) are parameters.
--
-- Loops are recursion on the list that they traverse. The loops of `TimingControl::receive` and
-- `Core::tcu_edge`, which end when their mailbox has nothing to read, recurse on the number of
-- messages in the mailbox.
--
-- Not modelled: the event loop of SystemC, which calls the processes; the amplitudes of the backends
-- and the Python process (floating point, processes); the fingerprint of a profile, the
-- payloads of trace events and their JSONL output (text); configuration files and the command line
-- (parsing and files); the runtime that compiles programs; third-party code, bindings and the viewer.
pub mod Base
pub mod Time
pub mod Mailbox
pub mod Feedback
pub mod Isa
pub mod Trace
pub mod Command
pub mod Event
pub mod Sync
pub mod Image
pub mod Memory
pub mod Mmio
pub mod Protocol
pub mod TimingControl
pub mod Tcu
pub mod Device
pub mod Tests
pub mod Backend
pub mod Core
pub mod Cpu
pub mod Decoder
pub mod Profile
pub mod Simulator
