-- ===== src/Device/Readouts.antt =====
-- include/qsbit/device/readouts.hpp and src/device/readouts.cpp: the measurements in progress, from
-- the launch of an acquisition to its result.
pub mod Results
use qsbit_sim.Time.{checked_add}
use qsbit_sim.Event.{EventSpec, Spec, AcquireSpec, acquire_spec, targets, is_acquire, is_arm}
use qsbit_sim.Feedback.{MeasurementReference, same_reference, Completion}
use qsbit_sim.Protocol.{OperationEvent, ScheduledEvent}
use qsbit_sim.Base.{
  ◌==◌, if◌then◌else◌, is_some, length, get_or, all, null, ◌>>=◌, ◌>>◌, require, Result, protocol,
  invalid_measurement, ok, fault, find, emplace, assign, erase, ℕ, ◌+◌, max, Bool, true, false, not,
  ◌&&◌, ◌||◌, Option, none, some, List, [], ◌∷◌,
}

pub record Readout : Type 0 where
  pub reference : MeasurementReference
  pub end_tick : ℕ
  pub arm : ℕ
  pub ready : ℕ
  pub sampled : Option Bool
  pub core : Option ℕ

-- The map `pending_` from a measurement.
pub record Readouts : Type 0 where
  pub pending : List (ℕ × Readout)

-- What the first loop of `prepare` counts and remembers, by measurement.
pub record Members : Type 0 where
  pub acquisitions : List (ℕ × ℕ)
  pub arms : List (ℕ × ℕ)
  pub identities : List (ℕ × MeasurementReference)

abbrev pub no_members : Members
no_members = record { acquisitions = []; arms = []; identities = [] }

abbrev pub counted : ℕ → List (ℕ × ℕ) → ℕ
counted id m = elim (find id m) [ none ↦ 0 | some n ↦ n ]

abbrev pub is_member : OperationEvent → Bool
is_member e = is_acquire e.action || is_arm e.action

abbrev pub agrees : MeasurementReference → List (ℕ × MeasurementReference) → Bool
agrees r identities = elim (find r.measurement identities) [
  | none ↦ true
  | some known ↦ same_reference known r
]

-- One action of the first loop.
unfoldable pub add_member : ℕ → OperationEvent → Members → Result Members
add_member epoch e m = if not (is_member e) then ok m else elim e.reference [
  | none ↦ fault invalid_measurement
  | some r ↦ do
    require (r.epoch == epoch) invalid_measurement
    require (length (targets e.action) == 1 && get_or (targets e.action) 0 0 == r.target)
        invalid_measurement
    require (agrees r m.identities) invalid_measurement
    let identities = emplace r.measurement r m.identities
    let id = r.measurement
    ok (
        if is_arm e.action
        then record m { identities = identities; arms = assign id (counted id m.arms + 1) m.arms }
        else record m {
          identities = identities;
          acquisitions = assign id (counted id m.acquisitions + 1) m.acquisitions;
        })
]

unfoldable pub add_members : ℕ → List ScheduledEvent → Members → Result Members
unfolding add_member
add_members epoch [] m = ok m
add_members epoch (a ∷ rest) m = do m' ← add_member epoch a.event m; add_members epoch rest m'

abbrev pub arms_reference : MeasurementReference → OperationEvent → Bool
arms_reference r e =
    is_arm e.action && elim e.reference [ none ↦ false | some r' ↦ same_reference r' r ]

-- The start of the last arm of a measurement, or of the acquisition where there is none.
unfoldable pub arm_start : MeasurementReference → List ScheduledEvent → ℕ → ℕ
arm_start r [] arm = arm
arm_start r (a ∷ rest) arm = arm_start r rest (if arms_reference r a.event then a.start else arm)

-- The readout of an acquisition.
unfoldable pub prepare_one :
    Readouts → Members → List ScheduledEvent → ScheduledEvent → AcquireSpec → Result Readout
unfolding arm_start
prepare_one p m actions a spec = elim a.event.reference [
  | none ↦ fault invalid_measurement
  | some r ↦ do
    require
        (counted r.measurement m.acquisitions == 1
          && (not (is_some (find r.measurement p.pending))
              && counted r.measurement m.arms == (if spec.separate_arm then 1 else 0)))
        protocol
    let arm = if spec.separate_arm then arm_start r actions a.start else a.start
    ready ← checked_add (max a.end_tick arm) spec.discriminator_delay
    ok (record {
      reference = r;
      end_tick = a.end_tick;
      arm = arm;
      ready = ready;
      sampled = none;
      core = a.event.core;
    })
]

-- The second loop of `prepare`, over the actions that are left.
unfoldable pub prepare_from :
    Readouts → Members → (actions left : List ScheduledEvent) → Result (List Readout)
unfolding prepare_one
prepare_from p m actions [] = ok []
prepare_from p m actions (a ∷ rest) = elim a.event.action.spec [
  | acquire_spec spec ↦ do
    r ← prepare_one p m actions a spec
    more ← prepare_from p m actions rest
    ok (r ∷ more)
  | _ ↦ prepare_from p m actions rest
]

unfoldable pub prepare : Readouts → List ScheduledEvent → ℕ → Result (List Readout)
unfolding add_members prepare_from
prepare p actions epoch = do
  m ← add_members epoch actions no_members
  result ← prepare_from p m actions actions
  require (all (λ (c : ℕ × ℕ). c.1 == 0 || counted c.0 m.acquisitions == 1) m.arms) protocol
  ok result

unfoldable pub insert_all : Readouts → List Readout → Result Readouts
insert_all p [] = ok p
insert_all p (r ∷ rest) = do
  require (not (is_some (find r.reference.measurement p.pending))) protocol
  insert_all (record { pending = emplace r.reference.measurement r p.pending }) rest

-- A measurement that is not pending makes `std::map::at` throw.
unfoldable pub at : Readouts → ℕ → Result Readout
at p measurement = elim (find measurement p.pending) [ none ↦ fault protocol | some r ↦ ok r ]

unfoldable pub sample : Readouts → ℕ → Bool → Result Readouts
unfolding at
sample p measurement value = do
  r ← at p measurement
  ok (record { pending = assign measurement (record r { sampled = some value }) p.pending })

unfoldable pub result_of : Readouts → ℕ → Result Completion
unfolding at
result_of p measurement = do
  r ← at p measurement
  elim r.sampled [
    | none ↦ fault protocol
    | some value ↦ ok (record { reference = r.reference; value = value })
  ]

unfoldable pub erase_one : Readouts → ℕ → Readouts
erase_one p measurement = record { pending = erase measurement p.pending }

unfoldable pub reset : Readouts → Readouts
reset p = record { pending = [] }

unfoldable pub is_empty : Readouts → Bool
is_empty p = null p.pending
