-- ===== src/Tcu/Ports.antt =====
-- src/tcu.cpp: no port queue ever holds more events than its capacity.
pub mod Step
use mathlib.Core.Path.{subst}
use qsbit_sim.Protocol.{
  TcuConfig, OperationEvent, TimingEvents, TimingPoint, validate_timing_events,
}
use qsbit_sim.Time.{checked_add}
use qsbit_sim.Tcu.Queues.{prepare_admission-checks}
use qsbit_sim.Tcu.{Tcu, Point, PauseState, Trigger, meets_deadline}
use qsbit_sim.Tcu.Admission.{
  on_port, has_space, has_room, is_fresh_time, due_of, due_tick_of, prepare_admission, push_events,
  commit_admission,
}
use qsbit_sim.Tcu.Triggering.{drop_label, commit_trigger}
use qsbit_sim.Base.{
  ◌==◌, if◌then◌else◌, length, get_or, set, count, length-append, length-set, List-cases, ok, ℕ,
  zero, suc, ◌+◌, ◌≤◌, ◌<◌, ◌≡◌, refl, ap, ◌∙◌, inl, inr, true, some, List, [], ◌∷◌, ◌++◌, map,
  arith,
}

abbrev pub queue : List (List OperationEvent) → ℕ → List OperationEvent
queue queues port = get_or queues port []

length-set_append :
    (queues : List (List OperationEvent)) (port i : ℕ) (e : OperationEvent)
    → length (queue (set queues port (queue queues port ++ e ∷ [])) i)
      ≤ length (queue queues i) + (if port == i then 1 else 0)
length-set_append [] port i e = omega arith
length-set_append (q ∷ queues) zero zero e = ground (arith, length-append q (e ∷ []))
length-set_append (q ∷ queues) zero (suc i) e = omega arith
length-set_append (q ∷ queues) (suc port) zero e = omega arith
length-set_append (q ∷ queues) (suc port) (suc i) e =
    ground (arith, length-set_append queues port i e)

-- The events pushed lengthen each queue by at most those of its port.
length-push_events :
    (events : List OperationEvent) (queues : List (List OperationEvent)) (i : ℕ)
    → length (queue (push_events events queues) i)
      ≤ length (queue queues i) + count (on_port i) events
unfolding push_events
length-push_events [] queues i = omega arith
length-push_events (e ∷ rest) queues i = omega (
  arith,
  length-push_events rest (set queues e.action.port (queue queues e.action.port ++ e ∷ [])) i,
  length-set_append queues e.action.port i e,
)

has_space-fits :
    (bound port : ℕ) (events : List OperationEvent) (queues : List (List OperationEvent)) (i : ℕ)
    → has_space bound port events queues ≡ true
    → i < length queues
    → length (queue queues i) + count (on_port (port + i)) events ≤ bound
unfolding has_space
has_space-fits bound port events [] i h l = absurd (omega arith)
has_space-fits bound port events (q ∷ queues) zero h l =
    let same : port ≡ port + 0 = omega arith in
    let fits : length q + count (on_port port) events ≤ bound = ground arith in
    subst (λ p. length q + count (on_port p) events ≤ bound) same fits
has_space-fits bound port events (q ∷ queues) (suc i) h l =
    let same : port + 1 + i ≡ port + suc i = omega arith in
    let more : has_space bound (port + 1) events queues ≡ true = ground arith in
    let fits = has_space-fits bound (port + 1) events queues i more (omega arith) in
    subst (λ p. length (queue queues i) + count (on_port p) events ≤ bound) same fits

-- The test from the first port on.
has_space_all :
    (bound : ℕ) (events : List OperationEvent) (queues : List (List OperationEvent)) (i : ℕ)
    → has_space bound 0 events queues ≡ true
    → i < length queues
    → length (queue queues i) + count (on_port i) events ≤ bound
has_space_all bound events queues i h l =
    subst (λ p. length (queue queues i) + count (on_port p) events ≤ bound) (omega arith)
      (has_space-fits bound 0 events queues i h l)

shorter : (label : ℕ) (q : List OperationEvent) → length (drop_label label q) ≤ length q
shorter label [] = omega arith
shorter label (e ∷ rest) = ground (arith, shorter label rest)

length-drop_label :
    (label : ℕ) (queues : List (List OperationEvent)) (i : ℕ)
    → length (queue (map (drop_label label) queues) i) ≤ length (queue queues i)
length-drop_label label [] i = omega arith
length-drop_label label (q ∷ queues) zero = shorter label q
length-drop_label label (q ∷ queues) (suc i) = length-drop_label label queues i

-- Each queue that exists has at most `event_capacity` events.
unfoldable pub Bounded : Tcu → Type 0
Bounded t =
    (port : ℕ)
    → port < length t.events
    → length (queue t.events port) ≤ t.profile.timing.event_capacity

length-map :
    (f : List OperationEvent → List OperationEvent) (queues : List (List OperationEvent))
    → length (map f queues) ≡ length queues
length-map f [] = refl
length-map f (q ∷ queues) = ap suc (length-map f queues)

length-push_events_queues :
    (events : List OperationEvent) (queues : List (List OperationEvent))
    → length (push_events events queues) ≡ length queues
unfolding push_events
length-push_events_queues [] queues = refl
length-push_events_queues (e ∷ rest) queues =
    length-push_events_queues rest (set queues e.action.port (queue queues e.action.port ++ e ∷ []))
    ∙ length-set queues e.action.port (queue queues e.action.port ++ e ∷ [])

-- The queues of a trigger are no longer than before it, and there are as many.
pub commit_trigger-shorter :
    (t : Tcu) (now epoch cycle : ℕ) (trigger : Trigger) (port : ℕ)
    → (length (queue (commit_trigger t now epoch cycle trigger).0.events port)
        ≤ length (queue t.events port))
      × (length (commit_trigger t now epoch cycle trigger).0.events ≡ length t.events)
      × ((commit_trigger t now epoch cycle trigger).0.profile ≡ t.profile)
unfolding commit_trigger
commit_trigger-shorter t now epoch cycle trigger port = elim (List-cases t.timing) [
  | inl e ↦ rw e (omega arith, refl, refl)
  | inr (p, rest, e) ↦ rw e (
    length-drop_label p.point.label t.events port,
    length-map (drop_label p.point.label) t.events,
    refl,
  )
]

has_room-has_space :
    (t : Tcu) (candidate : TimingEvents)
    → has_room t candidate ≡ true
    → has_space t.profile.timing.event_capacity 0 candidate.events t.events ≡ true
unfolding has_room
has_room-has_space t candidate h = ground arith

-- Where an admission was prepared, the queues of any unit that are no longer than those of the unit
-- have room for it.
pub admission-Bounded :
    (t u : Tcu) (now epoch cycle : ℕ) (candidate : TimingEvents) (pause : PauseState) (due : ℕ)
    → ((port : ℕ)
        → (length (queue u.events port) ≤ length (queue t.events port))
          × (length u.events ≡ length t.events)
          × (u.profile ≡ t.profile))
    → prepare_admission t now epoch candidate pause ≡ ok (some due)
    → Bounded (commit_admission u now epoch cycle candidate due).0
unfolding commit_admission Bounded
admission-Bounded t u now epoch cycle candidate pause due shorter_queues h = λ port inside.
    let (room, _, _) = prepare_admission-checks t now epoch candidate pause due h in
    let space = has_room-has_space t candidate room in
    let (less, same, profile) = shorter_queues port in
    let count_queues = length-push_events_queues candidate.events u.events in
    let pushed = length-push_events candidate.events u.events port in
    let fits =
      has_space_all t.profile.timing.event_capacity candidate.events t.events port space
        (omega (arith, inside, count_queues, same)) in
    rw profile (omega (arith, fits, pushed, less))
