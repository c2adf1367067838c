-- ===== src/Protocol.antt =====
-- include/qsbit/control_protocol.hpp, src/control_protocol.cpp and the tables of
-- src/timing_config.cpp: the timing points and operation events that the timing control hands to the
-- TCU, how a codeword is decoded into events, and the checks on a request.
pub mod Decoding
use text.Mathlib.Text.{◌==◌ as str_eq}
use qsbit_sim.Time.{Clock, checked_add}
use qsbit_sim.Event.{
  EventSpec, Mapping, targets, execution_flag, is_always, is_acquire, is_arm, same_event,
}
use qsbit_sim.Feedback.{MeasurementReference}
use qsbit_sim.Base.{
  ltb, leb, ◌==◌, if◌then◌else◌, is_some, length, get_or, set, drop, replicate, any, count, member,
  ◌>>=◌, ◌>>◌, require, Result, invalid_profile, invalid_port, invalid_codeword, invalid_operand,
  capacity, manifest_mismatch, protocol, unsupported_capability, invalid_measurement, ok, fault, ℕ,
  ◌+◌, String, Bool, true, false, not, ◌&&◌, ◌||◌, Option, none, some, List, [], ◌∷◌, ◌++◌,
}

-- `mappings` is the map from a port and a codeword, which each mapping holds.
pub record TimingConfig : Type 0 where
  pub event_capacity : ℕ
  pub staging_capacity : ℕ
  pub ports : ℕ
  pub qubits : ℕ
  pub firing_width : ℕ
  pub fast_feedback : Bool
  pub configuration : String
  pub mappings : List Mapping

pub record TcuConfig : Type 0 where
  pub timing : TimingConfig
  pub clock : Clock
  pub start : ℕ
  pub timing_capacity : ℕ

abbrev pub is_mapping : ℕ → ℕ → Mapping → Bool
is_mapping port codeword m = m.port == port && m.codeword == codeword

abbrev pub find_mapping : ℕ → ℕ → List Mapping → Option Mapping
find_mapping port codeword [] = none
find_mapping port codeword (m ∷ rest) =
    if is_mapping port codeword m then some m else find_mapping port codeword rest

-- The loop of `timing_config` over the mappings of the profile.
unfoldable pub add_mappings : List Mapping → List Mapping → Result (List Mapping)
add_mappings [] table = ok table
add_mappings (m ∷ rest) table = do
  require (not (any (is_mapping m.port m.codeword) table)) invalid_profile
  add_mappings rest (table ++ m ∷ [])

unfoldable pub mapping : TimingConfig → ℕ → ℕ → Result Mapping
mapping c port codeword = do
  require (ltb port c.ports) invalid_port
  elim (find_mapping port codeword c.mappings) [ none ↦ fault invalid_codeword | some m ↦ ok m ]

pub data UnderflowPolicy : Type 0 where
  inherit strict pause_when_empty : UnderflowPolicy

abbrev pub is_inherit : UnderflowPolicy → Bool
is_inherit inherit = true
is_inherit _ = false

abbrev pub is_pause : UnderflowPolicy → Bool
is_pause pause_when_empty = true
is_pause _ = false

pub record OperationEvent : Type 0 where
  pub epoch : ℕ
  pub id : ℕ
  pub instruction : ℕ
  pub label : ℕ
  pub source_port : ℕ
  pub codeword : ℕ
  pub action : EventSpec
  pub reference : Option MeasurementReference
  pub core : Option ℕ

pub record TimingPoint : Type 0 where
  pub epoch : ℕ
  pub label : ℕ
  pub interval : ℕ
  pub manifest : List ℕ
  pub synchronizations : List ℕ
  pub underflow_policy : UnderflowPolicy

pub record TimingEvents : Type 0 where
  pub point : TimingPoint
  pub events : List OperationEvent
  pub configuration : String

pub record EnqueueReply : Type 0 where
  pub label : ℕ

pub record EndOfStream : Type 0 where
  pub last_label : ℕ

pub record TriggeredEvents : Type 0 where
  pub epoch : ℕ
  pub label : ℕ
  pub fire_tick : ℕ
  pub events : List OperationEvent

pub record ScheduledEvent : Type 0 where
  pub event : OperationEvent
  pub start : ℕ
  pub end_tick : ℕ
  pub resolved : EventSpec

-- The loop over the references, with the targets and the identities that it has inserted.
unfoldable pub check_references :
    ℕ → List MeasurementReference → List ℕ → List ℕ → Result (Unit {0})
check_references epoch [] seen_targets seen_ids = ok tt
check_references epoch (r ∷ rest) seen_targets seen_ids = do
  require
      (r.epoch == epoch
        && (not (r.measurement == 0)
            && (not (member r.target seen_targets) && not (member r.measurement seen_ids))))
      invalid_measurement
  check_references epoch rest (r.target ∷ seen_targets) (r.measurement ∷ seen_ids)

-- The last reference to the one target of an action.
unfoldable pub reference_of :
    EventSpec
    → List MeasurementReference
    → Option MeasurementReference
    → Option MeasurementReference
reference_of action [] found = found
reference_of action (r ∷ rest) found = reference_of action rest (
    if length (targets action) == 1 && r.target == get_or (targets action) 0 0
    then some r
    else found)

abbrev pub is_readout : EventSpec → Bool
is_readout action = is_acquire action || is_arm action

-- The loop over the actions that are left, `n` events on.
unfoldable pub decode_actions :
    TimingConfig
    → (port codeword epoch instruction first_event : ℕ) → List MeasurementReference
    → List EventSpec
    → ℕ
    → Result (List OperationEvent)
unfolding reference_of
decode_actions c port codeword epoch instruction first references [] n = ok []
decode_actions c port codeword epoch instruction first references (action ∷ rest) n = do
  let reference = if is_readout action then reference_of action references none else none
  require (not (is_readout action) || is_some reference) invalid_measurement
  require (is_always (execution_flag action) || c.fast_feedback) unsupported_capability
  id ← checked_add first n
  more ← decode_actions c port codeword epoch instruction first references rest (n + 1)
  ok (
      record {
        epoch = epoch;
        id = id;
        instruction = instruction;
        label = 0;
        source_port = port;
        codeword = codeword;
        action = action;
        reference = reference;
        core = none;
      }
      ∷ more)

unfoldable pub decode_codeword :
    TimingConfig
    → (port codeword epoch instruction first_event : ℕ) → List MeasurementReference
    → Result (List OperationEvent)
unfolding mapping check_references decode_actions
decode_codeword c port codeword epoch instruction first references = do
  m ← mapping c port codeword
  require (length references == count is_acquire m.actions) invalid_measurement
  check_references epoch references [] []
  decode_actions c port codeword epoch instruction first references m.actions 0

-- The loop over the synchronization targets, with those that it has inserted.
unfoldable pub check_targets : List ℕ → List ℕ → Result (Unit {0})
check_targets [] seen = ok tt
check_targets (target ∷ rest) seen = do
  require (leb target 131071 && not (member target seen)) invalid_operand
  check_targets rest (target ∷ seen)

-- The loop over the events, each with its entry of the manifest, the identities inserted and the
-- events counted on each port.
unfoldable pub check_events :
    TimingConfig
    → TimingPoint
    → List OperationEvent
    → List ℕ
    → (seen counts : List ℕ) → Result (Unit {0})
unfolding mapping
check_events c point [] manifest seen counts = ok tt
check_events c point (e ∷ rest) manifest seen counts = do
  require
      (e.epoch == point.epoch
        && (e.label == point.label
            && (not (e.id == 0) && (e.id == get_or manifest 0 0 && not (member e.id seen)))))
      manifest_mismatch
  require (ltb e.action.port c.ports) invalid_port
  let n = get_or counts e.action.port 0 + 1
  require (leb n c.firing_width && leb n c.event_capacity) capacity
  m ← mapping c e.source_port e.codeword
  require (any (same_event e.action) m.actions) protocol
  check_events c point rest (drop 1 manifest) (e.id ∷ seen) (set counts e.action.port n)

-- The first check of the source, that the policy is one of the three, holds of every value here.
unfoldable pub validate_timing_events : TimingEvents → TimingConfig → Result (Unit {0})
unfolding check_targets check_events
validate_timing_events request c = do
  let point = request.point
  require (point.interval == 0 || not (is_inherit point.underflow_policy)) protocol
  require (str_eq request.configuration c.configuration) protocol
  require (length request.events == length point.manifest) manifest_mismatch
  require (leb (length request.events) c.staging_capacity) capacity
  require (leb (length point.synchronizations) c.staging_capacity) capacity
  require (leb (length point.synchronizations) 1) invalid_operand
  check_targets point.synchronizations []
  check_events c point request.events point.manifest [] (replicate c.ports 0)
