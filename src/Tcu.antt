-- ===== src/Tcu.antt =====
-- include/qsbit/tcu.hpp and src/tcu.cpp: the timing control unit, which queues timing points with
-- their events, triggers a point on the cycle where it is due and pauses its timer on underflow or
-- for a synchronization.
pub mod Triggering
pub mod Admission
pub mod Step
pub mod Queues
pub mod Firing
pub mod Ports
use qsbit_sim.Time.{Clock, edge, after, checked_add, checked_mul}
use qsbit_sim.Event.{EventSpec, targets, operation, execution_flag, is_always}
use qsbit_sim.Feedback.{
  MeasurementReference, Completion, ExecutionFlags, fresh_flags, evaluate, commit, reset_flags,
}
use qsbit_sim.Protocol.{
  TimingConfig, TcuConfig, UnderflowPolicy, strict, is_inherit, is_pause, OperationEvent,
  TimingPoint, TimingEvents, EndOfStream, TriggeredEvents, validate_timing_events,
}
use qsbit_sim.Trace.{TraceEvent, event, Events}
use qsbit_sim.Base.{
  ltb, leb, ◌==◌, if◌then◌else◌, is_some, length, get_or, set, replicate, all, count, keep, null,
  sub64, ◌>>=◌, ◌>>◌, require, Result, invalid_profile, unsupported_synchronization, capacity,
  late_admission, manifest_mismatch, protocol, ok, fault, find, emplace, ℕ, ◌+◌, ◌/◌, max, String,
  Bool, true, false, not, ◌&&◌, ◌||◌, Option, none, some, List, [], ◌∷◌, ◌++◌, map,
}

pub record PauseState : Type 0 where
  pub instruction_supply : Bool
  pub synchronization : Bool

abbrev pub paused : PauseState → Bool
paused p = p.instruction_supply || p.synchronization

abbrev pub not_paused : PauseState
not_paused = record { instruction_supply = false; synchronization = false }

pub record TimingState : Type 0 where
  pub running : Bool
  pub cycle : ℕ
  pub pause : PauseState

pub record Point : Type 0 where
  pub point : TimingPoint
  pub due : ℕ

pub record Trigger : Type 0 where
  pub batch : TriggeredEvents
  pub cancelled : List OperationEvent
  pub synchronizations : List ℕ

-- The members of `TcuCycleModel`; `timing` and each queue of `events` have the oldest entry first.
pub record Tcu : Type 0 where
  pub profile : TcuConfig
  pub timing : List Point
  pub events : List (List OperationEvent)
  pub execution_flags : ExecutionFlags
  pub last_due : ℕ
  pub start : ℕ
  pub paused_ticks : ℕ
  pub sync_capacity : ℕ
  pub sync_size : ℕ
  pub last_label : ℕ
  pub closed : Bool
  pub admitted_policy : UnderflowPolicy
  pub triggered_policy : UnderflowPolicy
  pub pause : PauseState

pub record TcuOutput : Type 0 where
  pub admitted : Bool
  pub launch : Option TriggeredEvents
  pub fast_delivered : List MeasurementReference
  pub synchronizations : List ℕ

unfoldable pub init : TcuConfig → ℕ → Result Tcu
init profile sync_capacity = do
  require (ltb 0 sync_capacity) invalid_profile
  ok (record {
    profile = profile;
    timing = [];
    events = replicate profile.timing.ports [];
    execution_flags = replicate profile.timing.qubits fresh_flags;
    last_due = 0;
    start = profile.start;
    paused_ticks = 0;
    sync_capacity = sync_capacity;
    sync_size = 0;
    last_label = 0;
    closed = false;
    admitted_policy = strict;
    triggered_policy = strict;
    pause = not_paused;
  })

abbrev pub policy_after : TimingPoint → UnderflowPolicy → UnderflowPolicy
policy_after point previous =
    if is_inherit point.underflow_policy then previous else point.underflow_policy

-- The subtractions are of 64-bit ticks and wrap.
unfoldable pub current_timing_state : Tcu → ℕ → Bool → TimingState
current_timing_state t now synchronization_paused =
    let running = leb t.start now in
    record {
      running = running;
      cycle =
          if running then sub64 (sub64 now t.start) t.paused_ticks / t.profile.clock.period else 0;
      pause = record {
        instruction_supply =
            running && (is_pause t.triggered_policy && (null t.timing && not t.closed));
        synchronization = running && synchronization_paused;
      };
    }

abbrev pub meets_deadline : Tcu → ℕ → ℕ → PauseState → Bool
meets_deadline t now due_tick pause =
    if ltb now due_tick
    then true
    else is_pause t.admitted_policy && (pause.instruction_supply && now == due_tick)

unfoldable pub close : Tcu → EndOfStream → Result Tcu
close t end = do
  require (not t.closed && end.last_label == t.last_label) protocol
  ok (record t { closed = true })

unfoldable pub drained : Tcu → Bool
drained t = t.closed && (null t.timing && all null t.events)

unfoldable pub reset : Tcu → ℕ → Result Tcu
reset t epoch_origin = do
  proposed ← checked_add epoch_origin t.profile.start
  start ← if edge t.profile.clock proposed then ok proposed else after t.profile.clock proposed 1
  ok (record t {
    timing = [];
    events = map (λ (_ : List OperationEvent). []) t.events;
    execution_flags = reset_flags t.execution_flags;
    last_due = 0;
    last_label = 0;
    closed = false;
    admitted_policy = strict;
    triggered_policy = strict;
    pause = not_paused;
    paused_ticks = 0;
    sync_size = 0;
    start = start;
  })
