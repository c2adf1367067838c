-- ===== src/Tcu/Admission.antt =====
-- src/tcu.cpp: the admission of a timing point to the queues of the TCU.
use qsbit_sim.Tcu.{PauseState, Tcu, policy_after, meets_deadline}
use qsbit_sim.Time.{checked_add, checked_mul}
use qsbit_sim.Protocol.{is_pause, OperationEvent, TimingPoint, TimingEvents, validate_timing_events}
use qsbit_sim.Trace.{event, Events}
use qsbit_sim.Base.{
  ltb, leb, ◌==◌, if◌then◌else◌, length, get_or, set, count, sub64, ◌>>=◌, ◌>>◌, require, Result,
  capacity, late_admission, protocol, ok, ℕ, ◌+◌, max, Bool, true, not, ◌&&◌, ◌||◌, Option, none,
  some, List, [], ◌∷◌, ◌++◌,
}

abbrev pub on_port : ℕ → OperationEvent → Bool
on_port port e = e.action.port == port

-- The loop over the ports, from `port` on; the count is `needed[port]`.
unfoldable pub has_space : ℕ → ℕ → List OperationEvent → List (List OperationEvent) → Bool
has_space bound port events [] = true
has_space bound port events (queue ∷ rest) =
    leb (length queue + count (on_port port) events) bound && has_space bound (port + 1) events rest

unfoldable pub due_of : Tcu → TimingPoint → Result ℕ
due_of t point =
    checked_add t.last_due (if t.last_label == 0 then point.interval else max 1 point.interval)

unfoldable pub due_tick_of : Tcu → ℕ → Result ℕ
due_tick_of t due = do
  origin ← checked_add t.start t.paused_ticks
  ticks ← checked_mul due t.profile.clock.period
  checked_add origin ticks

abbrev pub is_fresh_time : Tcu → TimingPoint → Bool
is_fresh_time t point =
    t.last_label == 0
    || (ltb 0 point.interval || (is_pause t.admitted_policy || is_pause point.underflow_policy))

unfoldable pub has_room : Tcu → TimingEvents → Bool
unfolding has_space
has_room t candidate =
    ltb (length t.timing) t.profile.timing_capacity
    && (leb (length candidate.point.synchronizations) (sub64 t.sync_capacity t.sync_size)
        && has_space t.profile.timing.event_capacity 0 candidate.events t.events)

unfoldable pub prepare_admission :
    Tcu → (now epoch : ℕ) → TimingEvents → PauseState → Result (Option ℕ)
unfolding due_of due_tick_of has_room
prepare_admission t now epoch candidate pause = do
  require (not t.closed) protocol
  validate_timing_events candidate t.profile.timing
  next ← checked_add t.last_label 1
  require (candidate.point.epoch == epoch && candidate.point.label == next) protocol
  require (is_fresh_time t candidate.point) protocol
  due ← due_of t candidate.point
  due_tick ← due_tick_of t due
  require (meets_deadline t now due_tick pause) late_admission
  require (leb (length candidate.point.synchronizations) t.sync_capacity) capacity
  ok (if has_room t candidate then some due else none)

-- `events_[event.action.port].push_back(event)` for each event.
unfoldable pub push_events :
    List OperationEvent → List (List OperationEvent) → List (List OperationEvent)
push_events [] queues = queues
push_events (e ∷ rest) queues =
    push_events rest (set queues e.action.port (get_or queues e.action.port [] ++ e ∷ []))

unfoldable pub commit_admission : Tcu → (now epoch cycle : ℕ) → TimingEvents → ℕ → Tcu × Events
unfolding push_events
commit_admission t now epoch cycle candidate due =
    let timing = t.timing ++ record { point = candidate.point; due = due } ∷ [] in
    (
      record t {
        admitted_policy = policy_after candidate.point t.admitted_policy;
        sync_size = t.sync_size + length candidate.point.synchronizations;
        timing = timing;
        events = push_events candidate.events t.events;
        last_label = candidate.point.label;
        last_due = due;
      },
      record (event now epoch "TimingPointEnqueued" 0 candidate.point.label cycle) {
        value = length timing;
      }
          ∷ [],
    )
