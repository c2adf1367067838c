-- ===== src/TimingControl.antt =====
-- include/qsbit/timing_control.hpp, include/qsbit/control_links.hpp and src/timing_control.cpp: the
-- unit that turns the control operations of a CPU into timing points for the TCU.
pub mod Commands
pub mod Draining
use qsbit_sim.Time.{checked_add}
use qsbit_sim.Mailbox.{Envelope, Mailbox, publish, is_full, take}
use qsbit_sim.Mailbox as Mailbox
use qsbit_sim.Event.{EventSpec, Mapping, targets, execution_flag, is_always, is_acquire}
use qsbit_sim.Feedback.{
  MeasurementReference, Completion, MeasurementRegisters, prepare_reservation, commit_reservation,
  deliver, acknowledge_fast, read,
}
use qsbit_sim.Command.{
  Command, codeword_command, wait_command, fetch_measurement_command, halt_command,
  synchronize_command, ControlOperation, same_operation,
}
use qsbit_sim.Protocol.{
  TimingConfig, mapping, UnderflowPolicy, inherit, strict, pause_when_empty, OperationEvent,
  TimingPoint, TimingEvents, EnqueueReply, EndOfStream, decode_codeword, validate_timing_events,
}
use qsbit_sim.Trace.{TraceEvent, event, Events}
use qsbit_sim.Base.{
  ltb, leb, ◌==◌, if◌then◌else◌, is_some, length, get_or, set, replicate, null, sub64, ◌>>=◌, ◌>>◌,
  require, Result, unsupported_synchronization, invalid_operand, capacity, protocol,
  unsupported_capability, ok, fault, ℕ, zero, suc, ◌+◌, Bool, true, false, not, ◌&&◌, ◌||◌, Option,
  none, some, List, [], ◌∷◌, ◌++◌, map,
}

pub record ControlLinks : Type 0 where
  pub timing_events : Mailbox TimingEvents
  pub replies : Mailbox EnqueueReply
  pub closure : Mailbox EndOfStream
  pub cpu_results : Mailbox Completion
  pub fast_results : Mailbox Completion
  pub fast_credits : Mailbox MeasurementReference

unfoldable pub reset_links : ControlLinks → ControlLinks
reset_links l = record {
  timing_events = Mailbox.reset l.timing_events;
  replies = Mailbox.reset l.replies;
  closure = Mailbox.reset l.closure;
  cpu_results = Mailbox.reset l.cpu_results;
  fast_results = Mailbox.reset l.fast_results;
  fast_credits = Mailbox.reset l.fast_credits;
}

-- The members of `TimingControl` but the references and the callbacks.
pub record TimingControl : Type 0 where
  pub profile : TimingConfig
  pub pending_events : List OperationEvent
  pub pending_sync : List ℕ
  pub enqueue_request : Option TimingEvents
  pub held : Option ControlOperation
  pub time_point : ℕ
  pub last_enqueued_time : ℕ
  pub last_label : ℕ
  pub next_event : ℕ
  pub pending_point : Bool
  pub enqueued : Bool
  pub closed : Bool
  pub pending_wait_for_next : Bool
  pub allow_same_time : Bool

unfoldable pub init : TimingConfig → TimingControl
init profile = record {
  profile = profile;
  pending_events = [];
  pending_sync = [];
  enqueue_request = none;
  held = none;
  time_point = 0;
  last_enqueued_time = 0;
  last_label = 0;
  next_event = 1;
  pending_point = false;
  enqueued = false;
  closed = false;
  pending_wait_for_next = false;
  allow_same_time = false;
}

unfoldable pub reset : TimingControl → TimingControl
unfolding init
reset c = init c.profile

-- What a call leaves: the unit, the measurement registers, the links and the trace events.
pub record Effects : Type 0 where
  pub control : TimingControl
  pub registers : MeasurementRegisters
  pub links : ControlLinks
  pub events : Events

abbrev pub emit : Effects → TraceEvent → Effects
emit s e = record s { events = s.events ++ e ∷ [] }

unfoldable pub receive_reply : (now epoch : ℕ) → Effects → Result Effects
receive_reply now epoch s =
    let (message, replies) = take s.links.replies now in
    elim message [
      | none ↦ ok s
      | some reply ↦
          let s' : Effects = record s { links = record s.links { replies = replies } } in
          if not (reply.epoch == epoch) then ok s' else elim s.control.enqueue_request [
            | none ↦ fault protocol
            | some request ↦ do
              require (reply.value.label == request.point.label) protocol
              ok (
                  emit
                    (record s' {
                      control = record s.control {
                        last_label = reply.value.label;
                        last_enqueued_time = s.control.time_point;
                        enqueue_request = none;
                        pending_events = [];
                        pending_sync = [];
                        pending_point = false;
                        enqueued = true;
                      };
                    })
                    (event now epoch "EnqueueAcknowledged" 0 reply.value.label 0))
          ]
    ]

abbrev pub updated_event : (now epoch : ℕ) → Completion → TraceEvent
updated_event now epoch r =
    record (event now epoch "MeasurementRegisterUpdated" r.reference.measurement 0 0) {
      targets = r.reference.target ∷ [];
      value = if r.value then 1 else 0;
    }

-- The loop over the results that can be read; the first number bounds its turns.
unfoldable pub receive_results : ℕ → (now epoch : ℕ) → Effects → Result Effects
receive_results zero now epoch s = ok s
receive_results (suc fuel) now epoch s =
    let (message, results) = take s.links.cpu_results now in
    elim message [
      | none ↦ ok s
      | some reply ↦
          let s' : Effects = record s { links = record s.links { cpu_results = results } } in
          if not (reply.epoch == epoch)
          then receive_results fuel now epoch
              (emit s' (event now epoch "StaleCompletionDiscarded" 0 0 0))
          else do
            registers ← deliver s.registers reply.value epoch
            receive_results fuel now epoch
                (emit (record s' { registers = registers }) (updated_event now epoch reply.value))
    ]

unfoldable pub receive_credits : ℕ → (now epoch : ℕ) → Effects → Result Effects
receive_credits zero now epoch s = ok s
receive_credits (suc fuel) now epoch s =
    let (message, credits) = take s.links.fast_credits now in
    elim message [
      | none ↦ ok s
      | some credit ↦
          let s' : Effects = record s { links = record s.links { fast_credits = credits } } in
          if not (credit.epoch == epoch) then receive_credits fuel now epoch s' else do
            registers ← acknowledge_fast s.registers credit.value epoch
            receive_credits fuel now epoch (record s' { registers = registers })
    ]

-- Each turn of a loop takes one message, so that their number is enough turns.
unfoldable pub receive : (now epoch : ℕ) → Effects → Result Effects
unfolding receive_reply receive_results receive_credits
receive now epoch s = do
  replied ← receive_reply now epoch s
  delivered ← receive_results (length s.links.cpu_results.entries) now epoch replied
  receive_credits (length s.links.fast_credits.entries) now epoch delivered
