-- ===== src/Device/Resources.antt =====
-- include/qsbit/device/resources.hpp and src/device/resources.cpp: the output intervals that the
-- device has accepted, and the checks that no two of them conflict.
pub mod Conflicts
use text.Mathlib.Text.{◌==◌ as str_eq}
use qsbit_sim.Event.{
  EventSpec, ResourceUse, Spec, output_spec, kind, ActionKind, pulse, targets, resources, is_arm,
  is_acquire, is_gate,
}
use qsbit_sim.Protocol.{OperationEvent, ScheduledEvent}
use qsbit_sim.Base.{
  ltb, ◌==◌, if◌then◌else◌, all, any, keep, member, ◌>>=◌, ◌>>◌, require, Result, protocol,
  resource_conflict, gate_input_mismatch, ok, ℕ, Bool, true, false, not, ◌&&◌, ◌||◌, List, [], ◌∷◌,
  ◌++◌, map,
}

-- The member `reservations_`.
pub record ResourceReservations : Type 0 where
  pub reservations : List ScheduledEvent

abbrev pub common_target : EventSpec → EventSpec → Bool
common_target a b = any (λ q. member q (targets b)) (targets a)

abbrev pub overlap : ScheduledEvent → ScheduledEvent → Bool
overlap a b = ltb a.start b.end_tick && ltb b.start a.end_tick

abbrev pub both_outputs : Spec → Spec → Bool
both_outputs (output_spec g) (output_spec h) = str_eq g.gate h.gate
both_outputs _ _ = false

abbrev pub is_pulse : EventSpec → Bool
is_pulse e = elim (kind e) [ pulse ↦ true | _ ↦ false ]

abbrev pub compatible_use : ResourceUse → ResourceUse → Bool
compatible_use rx ry = not (rx.id == ry.id) || (not rx.exclusive && not ry.exclusive)

abbrev pub compatible_uses : List ResourceUse → List ResourceUse → Bool
compatible_uses xs ys = all (λ rx. all (compatible_use rx) ys) xs

abbrev pub compatible_kinds : EventSpec → EventSpec → Bool
compatible_kinds x y =
    is_arm x || (is_arm y || (not (common_target x y) || (is_pulse x && is_pulse y)))

-- The checks on intervals that overlap; the flag says whether `pair` goes on after them.
unfoldable pub check_overlap : ScheduledEvent → ScheduledEvent → Result Bool
check_overlap a b = do
  require (not (a.resolved.port == b.resolved.port)) resource_conflict
  if both_outputs a.event.action.spec b.event.action.spec
      then (do
        require (a.start == b.start && a.end_tick == b.end_tick) gate_input_mismatch
        ok false)
      else do
        require (compatible_uses (resources a.resolved) (resources b.resolved)) resource_conflict
        require (compatible_kinds a.resolved b.resolved) resource_conflict
        ok true

abbrev pub measurement_gate : ScheduledEvent → ScheduledEvent → Bool
measurement_gate a b = is_acquire a.resolved && (is_gate b.resolved && a.end_tick == b.start)

unfoldable pub pair : ScheduledEvent → ScheduledEvent → Result (Unit {0})
unfolding check_overlap
pair a b = do
  more ← if overlap a b then check_overlap a b else ok true
  require
      (not more
        || (not (common_target a.resolved b.resolved)
            || (not (measurement_gate a b) && not (measurement_gate b a))))
      resource_conflict

-- The loop over the reservations, for one action.
unfoldable pub check_reserved : ScheduledEvent → List ScheduledEvent → Result (Unit {0})
unfolding pair
check_reserved a [] = ok tt
check_reserved a (old ∷ rest) = do
  require (not (old.event.id == a.event.id)) protocol
  pair a old
  check_reserved a rest

-- The loop over the actions of the launch that come before one.
unfoldable pub check_earlier : ScheduledEvent → List ScheduledEvent → Result (Unit {0})
unfolding pair
check_earlier a [] = ok tt
check_earlier a (other ∷ rest) = do pair a other; check_earlier a rest

abbrev pub event_id : ScheduledEvent → ℕ
event_id a = a.event.id

-- The loop over the actions, with those that come before them.
unfoldable pub check_from :
    List ScheduledEvent → (earlier actions : List ScheduledEvent) → Result (Unit {0})
unfolding check_reserved check_earlier
check_from reserved earlier [] = ok tt
check_from reserved earlier (a ∷ rest) = do
  require (not (member (event_id a) (map event_id earlier))) protocol
  check_reserved a reserved
  check_earlier a earlier
  check_from reserved (earlier ++ a ∷ []) rest

unfoldable pub check : ResourceReservations → List ScheduledEvent → Result (Unit {0})
unfolding check_from
check r actions = check_from r.reservations [] actions

unfoldable pub reserve : ResourceReservations → List ScheduledEvent → Result ResourceReservations
unfolding check
reserve r actions = do check r actions; ok (record { reservations = r.reservations ++ actions })

unfoldable pub discard_before : ResourceReservations → ℕ → ResourceReservations
discard_before r now = record {
  reservations = keep (λ (a : ScheduledEvent). not (ltb a.end_tick now)) r.reservations;
}

unfoldable pub reset : ResourceReservations → ResourceReservations
reset r = record { reservations = [] }
