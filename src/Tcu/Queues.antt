-- ===== src/Tcu/Queues.antt =====
-- src/tcu.cpp: the timing queue and the count of synchronizations stay within their capacities, and
-- the queued points are in the order of the cycles where they are due.
pub mod Step
use qsbit_sim.Protocol.{
  TcuConfig, TimingPoint, TimingEvents, OperationEvent, validate_timing_events,
}
use qsbit_sim.Feedback.{ExecutionFlags, Completion}
use qsbit_sim.Time.{edge, checked_add}
use qsbit_sim.Time.Edges.{checked_add_value}
use qsbit_sim.Trace.{Events}
use qsbit_sim.Tcu.{
  Tcu, TcuOutput, Point, PauseState, TimingState, Trigger, paused, init, current_timing_state,
  meets_deadline,
}
use qsbit_sim.Tcu.Triggering.{prepare_trigger, commit_trigger, Preflight, SyncPreflight}
use qsbit_sim.Tcu.Admission.{
  is_fresh_time, due_of, due_tick_of, has_room, has_space, prepare_admission, commit_admission,
}
use qsbit_sim.Tcu.Step.{
  prepare_candidate, apply_trigger, apply_admission, commit_all, commit_fast_results,
  update_pause_state, step,
}
use mathlib.Core.Path.{subst}
use qsbit_sim.Base.{
  leb, ◌==◌, if◌then◌else◌, length, All, length-append, All-append, List-cases, sub64, require,
  >>=-eq-ok, capacity, late_admission, protocol, ok, ℕ, ◌+◌, ◌^◌, ◌≤◌, ◌<◌, ◌≡◌, refl, sym, ◌∙◌,
  ◌⊎◌, inl, inr, true, not, ◌&&◌, none, some, List, [], ◌∷◌, ◌++◌, arith,
}

unfoldable pub sync_total : List Point → ℕ
sync_total [] = 0
sync_total (p ∷ rest) = length p.point.synchronizations + sync_total rest

-- The cycles of the points rise, and none is after `last`.
unfoldable pub Rising : List Point → ℕ → Type 0
Rising [] last = Unit
Rising (p ∷ rest) last = All (λ (q : Point). p.due < q.due) rest × (p.due ≤ last) × Rising rest last

pub record IsValid (t : Tcu) : Type 0 where
  pub within : length t.timing ≤ t.profile.timing_capacity
  pub synchronizations : t.sync_size ≡ sync_total t.timing
  pub reserved : t.sync_size ≤ t.sync_capacity
  pub machine : t.sync_capacity < 2 ^ 64
  pub rising : Rising t.timing t.last_due
  pub unlabelled : t.last_label ≡ 0 → t.timing ≡ []

sync_total-append :
    (ps : List Point) (p : Point)
    → sync_total (ps ++ p ∷ []) ≡ sync_total ps + length p.point.synchronizations
unfolding sync_total
sync_total-append [] p = omega arith
sync_total-append (q ∷ ps) p = omega (arith, sync_total-append ps p)

Rising-first : (p : Point) → Rising ([] ++ p ∷ []) p.due
unfolding Rising
Rising-first p = (tt, omega arith, tt)

All-earlier :
    (ps : List Point) (last due : ℕ)
    → Rising ps last
    → last < due
    → All (λ (q : Point). q.due < due) ps
unfolding Rising
All-earlier [] last due r h = tt
All-earlier (p ∷ ps) last due r h = (omega (arith, r.1), All-earlier ps last due r.2 h)

Rising-snoc :
    (ps : List Point) (p : Point) (last : ℕ)
    → Rising ps last
    → last < p.due
    → Rising (ps ++ p ∷ []) p.due
unfolding Rising
Rising-snoc [] p last r h = (tt, omega arith, tt)
Rising-snoc (q ∷ ps) p last r h = (
  All-append (λ (x : Point). q.due < x.due) ps (p ∷ []) r.0 (omega (arith, r.1), tt),
  omega (arith, r.1),
  Rising-snoc ps p last r.2 h,
)

-- What an admission may rely on.
pub record Admissible (t : Tcu) (candidate : TimingEvents) (due : ℕ) : Type 0 where
  pub room : length t.timing < t.profile.timing_capacity
  pub free : length candidate.point.synchronizations + t.sync_size ≤ t.sync_capacity
  pub later : (t.timing ≡ []) ⊎ (t.last_due < due)
  pub labelled : 0 < candidate.point.label

admitted-due :
    (t : Tcu) (point : TimingPoint) (due : ℕ)
    → due_of t point ≡ ok due
    → (t.last_label ≡ 0) ⊎ (t.last_due < due)
unfolding due_of checked_add
admitted-due t point due h = ground arith

has_room-free :
    (t : Tcu) (candidate : TimingEvents)
    → IsValid t
    → has_room t candidate ≡ true
    → (length t.timing < t.profile.timing_capacity)
      × (length candidate.point.synchronizations + t.sync_size ≤ t.sync_capacity)
unfolding has_room
has_room-free t candidate v h = let reserved = v.reserved in let machine = v.machine in ground arith

-- What an admission has checked.
pub prepare_admission-checks :
    (t : Tcu) (now epoch : ℕ) (candidate : TimingEvents) (pause : PauseState) (due : ℕ)
    → prepare_admission t now epoch candidate pause ≡ ok (some due)
    → (has_room t candidate ≡ true)
      × (due_of t candidate.point ≡ ok due)
      × (candidate.point.label ≡ t.last_label + 1)
unfolding prepare_admission
prepare_admission-checks t now epoch candidate pause due h =
    let (_, _, h1) = >>=-eq-ok (require (not t.closed) protocol) _ h in
    let (_, _, h2) = >>=-eq-ok (validate_timing_events candidate t.profile.timing) _ h1 in
    let (next, e, h3) = >>=-eq-ok (checked_add t.last_label 1) _ h2 in
    let label = checked_add_value t.last_label 1 e in
    let (_, same, h4) =
      >>=-eq-ok (require (candidate.point.epoch == epoch && candidate.point.label == next) protocol)
        _ h3 in
    let (_, _, h5) = >>=-eq-ok (require (is_fresh_time t candidate.point) protocol) _ h4 in
    let (due', d, h6) = >>=-eq-ok (due_of t candidate.point) _ h5 in
    let (tick, _, h7) = >>=-eq-ok (due_tick_of t due') _ h6 in
    let (_, _, h8) = >>=-eq-ok (require (meets_deadline t now tick pause) late_admission) _ h7 in
    let (_, _, h9) =
      >>=-eq-ok (require (leb (length candidate.point.synchronizations) t.sync_capacity) capacity) _
        h8 in
    let final : (if has_room t candidate then some due' else none) ≡ some due = cc in
    let same_due : due' ≡ due = ground arith in
    (ground arith, subst (λ x. due_of t candidate.point ≡ ok x) same_due d, ground arith)

pub prepare_admission-Admissible :
    (t : Tcu) (now epoch : ℕ) (candidate : TimingEvents) (pause : PauseState) (due : ℕ)
    → IsValid t
    → prepare_admission t now epoch candidate pause ≡ ok (some due)
    → Admissible t candidate due
prepare_admission-Admissible t now epoch candidate pause due v h =
    let (space, d, label) = prepare_admission-checks t now epoch candidate pause due h in
    let room = has_room-free t candidate v space in
    record {
      room = room.0;
      free = room.1;
      later = elim (admitted-due t candidate.point due d) [
        | inl first ↦ inl (v.unlabelled first)
        | inr less ↦ inr less
      ];
      labelled = omega (arith, label);
    }

Rising-tail : (p : Point) (rest : List Point) (last : ℕ) → Rising (p ∷ rest) last → Rising rest last
unfolding Rising
Rising-tail p rest last r = r.2

-- The unit with the head of its timing queue removed, in what the invariant reads.
tail-IsValid :
    (t u : Tcu) (p : Point) (rest : List Point)
    → t.timing ≡ p ∷ rest
    → u.timing ≡ rest
    → u.sync_size ≡ sub64 t.sync_size (length p.point.synchronizations)
    → (u.profile ≡ t.profile)
      × (u.sync_capacity ≡ t.sync_capacity)
      × (u.last_due ≡ t.last_due)
      × (u.last_label ≡ t.last_label)
    → IsValid t
    → IsValid u
unfolding sync_total
tail-IsValid t u p rest e f g same v =
    let within = v.within in
    let total = v.synchronizations in
    let reserved = v.reserved in
    let machine = v.machine in
    record {
      within = rw (f, same.0) (omega (arith, rw e at within));
      synchronizations = rw (f, g) (ground (arith, rw e at total));
      reserved = rw (g, same.1) (ground (arith, rw e at total));
      machine = rw (same.1) v.machine;
      rising =
          rw (f, same.2)
            (Rising-tail p rest t.last_due (subst (λ l. Rising l t.last_due) e v.rising));
      unlabelled = λ z. let empty = v.unlabelled (sym same.3 ∙ z) in cc;
    }

commit_trigger-empty :
    (t : Tcu) (now epoch cycle : ℕ) (trigger : Trigger)
    → t.timing ≡ []
    → (commit_trigger t now epoch cycle trigger).0 ≡ t
unfolding commit_trigger
commit_trigger-empty t now epoch cycle trigger e = ground arith

pub commit_trigger-IsValid :
    (t : Tcu) (now epoch cycle : ℕ) (trigger : Trigger)
    → IsValid t
    → IsValid (commit_trigger t now epoch cycle trigger).0
unfolding commit_trigger
commit_trigger-IsValid t now epoch cycle trigger v = elim (List-cases t.timing) [
  | inl e ↦ subst IsValid (sym (commit_trigger-empty t now epoch cycle trigger e)) v
  | inr (p, rest, e) ↦
      tail-IsValid t (commit_trigger t now epoch cycle trigger).0 p rest e (rw e refl) (rw e refl)
        (rw e (refl, refl, refl, refl)) v
]

pub commit_admission-IsValid :
    (t : Tcu) (now epoch cycle : ℕ) (candidate : TimingEvents) (due : ℕ)
    → IsValid t
    → Admissible t candidate due
    → IsValid (commit_admission t now epoch cycle candidate due).0
unfolding commit_admission
commit_admission-IsValid t now epoch cycle candidate due v a =
    let p : Point = record { point = candidate.point; due = due } in
    record {
      within = omega (arith, length-append t.timing (p ∷ []), a.room);
      synchronizations = omega (arith, sync_total-append t.timing p, v.synchronizations);
      reserved = omega (arith, a.free);
      machine = v.machine;
      rising = elim a.later [
        | inl e ↦ subst (λ l. Rising (l ++ p ∷ []) due) (sym e) (Rising-first p)
        | inr less ↦ Rising-snoc t.timing p t.last_due v.rising less
      ];
      unlabelled = λ z. absurd (omega (arith, a.labelled, z));
    }

pub Admissible-after :
    (t : Tcu) (now epoch cycle : ℕ) (trigger : Trigger) (candidate : TimingEvents) (due : ℕ)
    → IsValid t
    → Admissible t candidate due
    → Admissible (commit_trigger t now epoch cycle trigger).0 candidate due
unfolding commit_trigger sync_total
Admissible-after t now epoch cycle trigger candidate due v a = elim (List-cases t.timing) [
  | inl e ↦
      subst (λ u. Admissible u candidate due)
        (sym (commit_trigger-empty t now epoch cycle trigger e)) a
  | inr (p, rest, e) ↦
      let room = a.room in
      let free = a.free in
      let total = v.synchronizations in
      let reserved = v.reserved in
      let machine = v.machine in
      record {
        room = rw e (omega (arith, rw e at room));
        free = rw e (ground (arith, rw e at total));
        later = elim a.later [ inl none_left ↦ cc | inr less ↦ inr (rw e less) ];
        labelled = a.labelled;
      }
]
