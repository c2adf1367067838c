-- ===== src/TimingControl/Commands.antt =====
-- src/timing_control.cpp: the execution of the control operations of a CPU.
use qsbit_sim.TimingControl.{TimingControl, Effects, emit}
use qsbit_sim.Time.{checked_add}
use qsbit_sim.Mailbox.{publish, is_full}
use qsbit_sim.Event.{EventSpec, targets, execution_flag, is_always, is_acquire}
use qsbit_sim.Feedback.{prepare_reservation, commit_reservation, read}
use qsbit_sim.Command.{
  codeword_command, wait_command, fetch_measurement_command, halt_command, synchronize_command,
  ControlOperation, same_operation,
}
use qsbit_sim.Protocol.{
  TimingConfig, mapping, UnderflowPolicy, inherit, strict, pause_when_empty, OperationEvent,
  TimingEvents, decode_codeword, validate_timing_events,
}
use qsbit_sim.Trace.{event}
use qsbit_sim.Base.{
  ltb, leb, ◌==◌, if◌then◌else◌, is_some, length, get_or, set, replicate, null, sub64, ◌>>=◌, ◌>>◌,
  require, Result, unsupported_synchronization, invalid_operand, capacity, protocol,
  unsupported_capability, ok, fault, ℕ, ◌+◌, Bool, true, false, not, ◌&&◌, ◌||◌, Option, none, some,
  List, [], ◌∷◌, ◌++◌, map,
}

abbrev pub policy_of : Bool → ℕ → UnderflowPolicy
policy_of wait_for_next interval =
    if wait_for_next then pause_when_empty else if ltb 0 interval then strict else inherit

-- The request that `enqueue` builds, with the label of its point.
unfoldable pub request_of : TimingControl → (epoch label : ℕ) → TimingEvents
request_of c epoch label =
    let interval = sub64 c.time_point c.last_enqueued_time in
    record {
      point = record {
        epoch = epoch;
        label = label;
        interval = interval;
        manifest = map (λ (e : OperationEvent). e.id) c.pending_events;
        synchronizations = c.pending_sync;
        underflow_policy = policy_of c.pending_wait_for_next interval;
      };
      events = map (λ (e : OperationEvent). record e { label = label }) c.pending_events;
      configuration = c.profile.configuration;
    }

unfoldable pub enqueue : (now epoch : ℕ) → Effects → Result (Bool × Effects)
unfolding request_of
enqueue now epoch s =
    let c = s.control in
    if is_some c.enqueue_request
    then ok (false, s)
    else if not c.pending_point
    then ok (true, record s { control = record c { enqueued = not c.allow_same_time } })
    else do
      label ← checked_add c.last_label 1
      let request = request_of c epoch label
      validate_timing_events request c.profile
      require (not (is_full s.links.timing_events)) protocol
      timing_events ← publish s.links.timing_events now epoch request
      ok (
        false,
        emit
            (record s {
              control = record c { enqueue_request = some request };
              links = record s.links { timing_events = timing_events };
            })
            (event now epoch "TimingPointSubmitted" 0 label c.time_point),
      )

unfoldable pub execute_zero_wait : (now epoch : ℕ) → Effects → Result (Option ℕ × Effects)
unfolding enqueue
execute_zero_wait now epoch s = do
  let c = s.control
  let c' : TimingControl =
      if c.pending_wait_for_next
      then c
      else record c { pending_wait_for_next = true; pending_point = true }
  (sent, s') ← enqueue now epoch (record s { control = c' })
  if not sent
      then ok (none, s')
      else ok (
        some 0,
        record s' {
          control = record s'.control {
            pending_wait_for_next = false;
            allow_same_time = true;
            enqueued = false;
          };
        },
      )

unfoldable pub advance_time : ℕ → (now epoch : ℕ) → Effects → Result (Option ℕ × Effects)
unfolding enqueue
advance_time interval now epoch s = do
  destination ← checked_add s.control.time_point interval
  (sent, s') ← enqueue now epoch s
  if not sent
      then ok (none, s')
      else ok (
        some 0,
        record s' {
          control = record s'.control {
            time_point = destination;
            allow_same_time = false;
            pending_point = true;
            enqueued = false;
          };
        },
      )

-- `++counts.at(e.action.port)` for each event that is staged.
unfoldable pub count_ports : List OperationEvent → List ℕ → Result (List ℕ)
count_ports [] counts = ok counts
count_ports (e ∷ rest) counts = do
  require (ltb e.action.port (length counts)) protocol
  count_ports rest (set counts e.action.port (get_or counts e.action.port 0 + 1))

unfoldable pub count_actions : TimingConfig → List EventSpec → List ℕ → Result (List ℕ)
count_actions profile [] counts = ok counts
count_actions profile (a ∷ rest) counts = do
  require (ltb a.port (length counts)) protocol
  let n = get_or counts a.port 0 + 1
  require (leb n profile.firing_width && leb n profile.event_capacity) capacity
  count_actions profile rest (set counts a.port n)

-- The callbacks: the check of an action, and that of a synchronization, which may be missing.
module _ (validate : EventSpec → Result (Unit {0}))
    (validate_sync : Option (ℕ → Result (Unit {0}))) where
  -- The targets to be measured, where every action is allowed.
  unfoldable pub check_actions : TimingConfig → List EventSpec → Result (List ℕ)
  check_actions profile [] = ok []
  check_actions profile (a ∷ rest) = do
    validate a
    require (is_always (execution_flag a) || profile.fast_feedback) unsupported_capability
    more ← check_actions profile rest
    ok (if is_acquire a then get_or (targets a) 0 0 ∷ more else more)

  unfoldable pub codeword :
      (port word instruction now epoch : ℕ) → Effects → Result (Option ℕ × Effects)
  unfolding check_actions count_ports count_actions
  codeword port word instruction now epoch s = do
    let c = s.control
    require (not c.enqueued && not (is_some c.enqueue_request)) protocol
    m ← mapping c.profile port word
    measured ← check_actions c.profile m.actions
    staged ← checked_add (length c.pending_events) (length m.actions)
    require (leb staged c.profile.staging_capacity) capacity
    counts ← count_ports c.pending_events (replicate c.profile.ports 0)
    counts' ← count_actions c.profile m.actions counts
    next ← checked_add c.next_event (length m.actions)
    references ← prepare_reservation s.registers epoch measured
    events ← decode_codeword c.profile port word epoch instruction c.next_event references
    registers ← commit_reservation s.registers references
    ok (
      some 0,
      emit
          (record s {
            control = record c {
              pending_events = c.pending_events ++ events;
              pending_point = true;
              next_event = next;
            };
            registers = registers;
          })
          (record (event now epoch "CodewordQueued" instruction 0 c.time_point) {
            port = port;
            codeword = word;
          }),
    )

  unfoldable pub fetch_measurement :
      (qubit instruction now epoch : ℕ) → Effects → Result (Option ℕ × Effects)
  unfolding enqueue
  fetch_measurement qubit instruction now epoch s = do
    require (ltb qubit s.control.profile.qubits) invalid_operand
    (sent, s') ← enqueue now epoch s
    if not sent then ok (none, s') else do
      value ← read s'.registers qubit
      ok (elim value [
        | none ↦ (none, s')
        | some v ↦ (
          some (if v then 1 else 0),
          emit s' (record (event now epoch "MeasurementRegisterRead" instruction 0 0) {
            targets = qubit ∷ [];
            value = if v then 1 else 0;
          }),
        )
      ])

  unfoldable pub halt : (now epoch : ℕ) → Effects → Result (Option ℕ × Effects)
  unfolding enqueue
  halt now epoch s = do
    (sent, s') ← enqueue now epoch s
    if not sent then ok (none, s') else do
      closure ← publish s'.links.closure now epoch (record { last_label = s'.control.last_label })
      ok (
        some 0,
        record s' {
          links = record s'.links { closure = closure };
          control = record s'.control { closed = true };
        },
      )

  unfoldable pub synchronize : ℕ → Effects → Result (Option ℕ × Effects)
  synchronize target s = elim validate_sync [
    | none ↦ fault unsupported_synchronization
    | some check ↦ do
      let c = s.control
      require (not c.enqueued && not (is_some c.enqueue_request)) protocol
      check target
      require (null c.pending_sync) invalid_operand
      ok (
        some 0,
        record s { control = record c { pending_sync = target ∷ []; pending_point = true } },
      )
  ]

  -- The operation by its command, once it is held.
  unfoldable pub perform :
      ControlOperation → (now epoch : ℕ) → Effects → Result (Option ℕ × Effects)
  unfolding codeword execute_zero_wait advance_time fetch_measurement halt synchronize
  perform operation now epoch s = elim operation.command [
    | codeword_command port word ↦ codeword port word operation.instruction now epoch s
    | wait_command cycles ↦
        if cycles == 0 then execute_zero_wait now epoch s else advance_time cycles now epoch s
    | fetch_measurement_command qubit ↦ fetch_measurement qubit operation.instruction now epoch s
    | halt_command ↦ halt now epoch s
    | synchronize_command target ↦ synchronize target s
  ]

  unfoldable pub hold : ControlOperation → TimingControl → Result TimingControl
  hold operation c = elim c.held [
    | none ↦ ok (record c { held = some operation })
    | some held ↦ do require (same_operation held operation) protocol; ok c
  ]

  unfoldable pub execute :
      ControlOperation → (now epoch : ℕ) → Effects → Result (Option ℕ × Effects)
  unfolding perform hold
  execute operation now epoch s = do
    require (not s.control.closed) protocol
    c ← hold operation s.control
    (result, s') ← perform operation now epoch (record s { control = c })
    ok (
      result,
      if is_some result then record s' { control = record s'.control { held = none } } else s',
    )
