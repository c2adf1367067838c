-- ===== src/Trace.antt =====
-- include/qsbit/trace.hpp: the record of what happened, an event at a time. A component's step
-- returns the events that it emits, in order; `emit` appends an event to the trace.
use qsbit_sim.Base.{ℕ, String, Option, none, List, []}

-- The payloads (pipeline state, retired instruction, decoder state) are left out.
pub record TraceEvent : Type 0 where
  pub tick : ℕ
  pub epoch : ℕ
  pub kind : String
  pub id : ℕ
  pub label : ℕ
  pub cycle : ℕ
  pub port : ℕ
  pub codeword : ℕ
  pub targets : List ℕ
  pub operation : String
  pub detail : String
  pub value : ℕ
  pub core : Option ℕ

-- The constructor `TraceEvent{at, session, type, identity, timing_label, local_cycle}`.
abbrev pub event : ℕ → ℕ → String → ℕ → ℕ → ℕ → TraceEvent
event at session type identity timing_label local_cycle = record {
  tick = at;
  epoch = session;
  kind = type;
  id = identity;
  label = timing_label;
  cycle = local_cycle;
  port = 0;
  codeword = 0;
  targets = [];
  operation = "";
  detail = "";
  value = 0;
  core = none;
}

abbrev pub Events : Type 0
Events = List TraceEvent
