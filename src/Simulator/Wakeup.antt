-- ===== src/Simulator/Wakeup.antt =====
-- The wakeup that a barrier asks for, against the ticks at which something is due.
use qsbit_sim.Decoder.Step as Decoders
use qsbit_sim.Device.Electronics.Process as Electronics
use qsbit_sim.Simulator.{Simulator}
use qsbit_sim.Base.{ℕ, ◌≤◌, Option, none, some}

-- A wakeup no later than a tick that may be missing.
abbrev pub IsBefore : ℕ → Option ℕ → Type 0
IsBefore next none = Unit
IsBefore next (some t) = next ≤ t
