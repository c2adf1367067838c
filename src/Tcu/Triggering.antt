-- ===== src/Tcu/Triggering.antt =====
-- src/tcu.cpp: the point that the TCU triggers on a cycle, with its events.
use qsbit_sim.Tcu.{paused, TimingState, Point, Trigger, Tcu, policy_after}
use qsbit_sim.Event.{EventSpec, targets, operation, execution_flag, is_always}
use qsbit_sim.Feedback.{ExecutionFlags, evaluate}
use qsbit_sim.Protocol.{is_pause, OperationEvent, TriggeredEvents}
use qsbit_sim.Trace.{TraceEvent, event, Events}
use qsbit_sim.Base.{
  ltb, leb, ◌==◌, if◌then◌else◌, is_some, length, get_or, sub64, ◌>>=◌, ◌>>◌, require, Result,
  unsupported_synchronization, late_admission, manifest_mismatch, ok, fault, find, emplace, ℕ, Bool,
  true, false, not, ◌&&◌, ◌||◌, Option, none, some, List, [], ◌∷◌, ◌++◌, map,
}

-- The events of one port queue with the label of the point, up to the first other one, added to
-- those gathered.
unfoldable pub gather_queue :
    (epoch label : ℕ)
    → List OperationEvent
    → List (ℕ × OperationEvent)
    → Result (List (ℕ × OperationEvent))
gather_queue epoch label [] gathered = ok gathered
gather_queue epoch label (e ∷ rest) gathered = if not (e.label == label) then ok gathered else do
  require (e.epoch == epoch && not (is_some (find e.id gathered))) manifest_mismatch
  gather_queue epoch label rest (emplace e.id e gathered)

abbrev pub no_orphan : ℕ → List OperationEvent → Bool
no_orphan label [] = true
no_orphan label (e ∷ rest) = leb label e.label

unfoldable pub gather :
    (epoch label : ℕ)
    → List (List OperationEvent)
    → List (ℕ × OperationEvent)
    → Result (List (ℕ × OperationEvent))
unfolding gather_queue
gather epoch label [] gathered = ok gathered
gather epoch label (queue ∷ rest) gathered = do
  require (no_orphan label queue) manifest_mismatch
  more ← gather_queue epoch label queue gathered
  gather epoch label rest more

-- The test of the loop over the manifest: whether the execution flag cancels an event.
unfoldable pub is_cancelled : ExecutionFlags → EventSpec → Result Bool
is_cancelled flags action = if is_always (execution_flag action) then ok false else do
  holds ← evaluate flags (get_or (targets action) 0 0) (execution_flag action)
  ok (not holds)

-- The events of the manifest that fire, and those that are cancelled, each in its order.
unfoldable pub partition :
    ExecutionFlags
    → List (ℕ × OperationEvent)
    → List ℕ
    → Result (List OperationEvent × List OperationEvent)
unfolding is_cancelled
partition flags gathered [] = ok ([], [])
partition flags gathered (id ∷ rest) = elim (find id gathered) [
  | none ↦ fault manifest_mismatch
  | some e ↦ do
    cancelled ← is_cancelled flags e.action
    more ← partition flags gathered rest
    ok (if cancelled then (more.0, e ∷ more.1) else (e ∷ more.0, more.1))
]

-- The two checks that the caller supplies; a synchronization check may be missing.
abbrev pub Preflight : Type 0
Preflight = TriggeredEvents → Result (Unit {0})

abbrev pub SyncPreflight : Type 0
SyncPreflight = Option (List ℕ → Result (Unit {0}))

abbrev pub check_synchronizations : SyncPreflight → List ℕ → Result (Unit {0})
check_synchronizations check [] = ok tt
check_synchronizations none (s ∷ rest) = fault unsupported_synchronization
check_synchronizations (some check) (s ∷ rest) = check (s ∷ rest)

unfoldable pub trigger_head :
    Tcu → (now epoch cycle : ℕ) → Preflight → SyncPreflight → Point → Result Trigger
unfolding gather partition
trigger_head t now epoch cycle preflight sync_preflight p = do
  require (p.due == cycle) late_admission
  gathered ← gather epoch p.point.label t.events []
  require (length gathered == length p.point.manifest) manifest_mismatch
  (fired, cancelled) ← partition t.execution_flags gathered p.point.manifest
  let batch : TriggeredEvents = record {
    epoch = epoch;
    label = p.point.label;
    fire_tick = now;
    events = fired;
  }
  preflight batch
  check_synchronizations sync_preflight p.point.synchronizations
  ok (record { batch = batch; cancelled = cancelled; synchronizations = p.point.synchronizations })

unfoldable pub prepare_trigger :
    Tcu → (now epoch : ℕ) → TimingState → Preflight → SyncPreflight → Result (Option Trigger)
unfolding trigger_head
prepare_trigger t now epoch state preflight sync_preflight = elim t.timing [
  | [] ↦ ok none
  | p ∷ rest ↦
      if not state.running || (paused state.pause || ltb state.cycle p.due) then ok none else do
        trigger ← trigger_head t now epoch state.cycle preflight sync_preflight p
        ok (some trigger)
]

-- `while (!queue.empty() && queue.front().label == label) queue.pop_front()`.
abbrev pub drop_label : ℕ → List OperationEvent → List OperationEvent
drop_label label [] = []
drop_label label (e ∷ rest) =
    let more = drop_label label rest in if e.label == label then more else e ∷ rest

abbrev pub cancelled_event : (now epoch cycle label : ℕ) → OperationEvent → TraceEvent
cancelled_event now epoch cycle label e =
    record (event now epoch "ConditionCancelled" e.id label cycle) {
      port = e.action.port;
      operation = operation e.action;
      targets = targets e.action;
    }

unfoldable pub commit_trigger : Tcu → (now epoch cycle : ℕ) → Trigger → Tcu × Events
commit_trigger t now epoch cycle trigger = elim t.timing [
  | [] ↦ (t, [])
  | p ∷ rest ↦ (
    record t {
      triggered_policy = policy_after p.point t.triggered_policy;
      sync_size = sub64 t.sync_size (length p.point.synchronizations);
      events = map (drop_label p.point.label) t.events;
      timing = rest;
    },
    (if is_pause p.point.underflow_policy
          then event now epoch "WaitZeroExecuted" 0 p.point.label cycle ∷ []
          else [])
        ++ event now epoch "TimingPointTriggered" 0 p.point.label cycle
          ∷ map (cancelled_event now epoch cycle p.point.label) trigger.cancelled,
  )
]
