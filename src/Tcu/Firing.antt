-- ===== src/Tcu/Firing.antt =====
-- src/tcu.cpp, `prepare_trigger`: when a point is triggered, and which of its events fire.
use mathlib.Core.Path.{subst}
use qsbit_sim.Protocol.{OperationEvent}
use qsbit_sim.Feedback.{ExecutionFlags, evaluate}
use qsbit_sim.Event.{is_always, execution_flag, targets}
use qsbit_sim.Tcu.{Tcu, Point, TimingState, Trigger, paused}
use qsbit_sim.Tcu.Triggering.{
  is_cancelled, gather_queue, no_orphan, gather, partition, check_synchronizations, trigger_head,
  prepare_trigger, Preflight, SyncPreflight,
}
use qsbit_sim.Base.{
  ltb, ◌==◌, if◌then◌else◌, Bool-cases, Option-cases, length, get_or, All, List-cases, require,
  ok-injective, >>=-eq-ok, Result, late_admission, manifest_mismatch, ok, find, emplace, ℕ, ◌≡◌,
  refl, inl, inr, Bool, true, false, not, ◌||◌, some, List, [], ◌∷◌, arith,
}

-- Whether the execution flag that an event asks for holds.
abbrev pub flag_holds : ExecutionFlags → OperationEvent → Result Bool
flag_holds flags e =
    if is_always (execution_flag e.action)
    then ok true
    else evaluate flags (get_or (targets e.action) 0 0) (execution_flag e.action)

-- An event that is queued for a point, as an entry of those gathered.
abbrev pub IsQueued : (epoch label : ℕ) → ℕ × OperationEvent → Type 0
IsQueued epoch label (id, e) = (e.id ≡ id) × (e.epoch ≡ epoch) × (e.label ≡ label)

-- The manifest is a merge of the fired and the cancelled events, each in its order: a fired event is
-- one whose flag holds, and a cancelled event one whose flag does not.
pub data Merges (flags : ExecutionFlags) (epoch label : ℕ)
    : List ℕ → List OperationEvent → List OperationEvent → Type 0 where
  no_events : Merges flags epoch label [] [] []
  fires :
      {manifest : List ℕ} {fired cancelled : List OperationEvent} (e : OperationEvent)
      → IsQueued epoch label (e.id, e)
      → flag_holds flags e ≡ ok true
      → Merges flags epoch label manifest fired cancelled
      → Merges flags epoch label (e.id ∷ manifest) (e ∷ fired) cancelled
  cancels :
      {manifest : List ℕ} {fired cancelled : List OperationEvent} (e : OperationEvent)
      → IsQueued epoch label (e.id, e)
      → flag_holds flags e ≡ ok false
      → Merges flags epoch label manifest fired cancelled
      → Merges flags epoch label (e.id ∷ manifest) fired (e ∷ cancelled)

emplace-IsQueued :
    (epoch label : ℕ) (e : OperationEvent) (gathered : List (ℕ × OperationEvent))
    → IsQueued epoch label (e.id, e)
    → All (IsQueued epoch label) gathered
    → All (IsQueued epoch label) (emplace e.id e gathered)
emplace-IsQueued epoch label e [] q h = (q, tt)
emplace-IsQueued epoch label e ((j, w) ∷ m) q h = ground (arith, emplace-IsQueued epoch label e m)

find-IsQueued :
    (epoch label id : ℕ) (gathered : List (ℕ × OperationEvent)) (e : OperationEvent)
    → All (IsQueued epoch label) gathered
    → find id gathered ≡ some e
    → IsQueued epoch label (id, e)
find-IsQueued epoch label id [] e h f = absurd (cc)
find-IsQueued epoch label id ((j, w) ∷ m) e h f = ground (arith, find-IsQueued epoch label id m e)

gather_queue-IsQueued :
    (epoch label : ℕ) (queue : List OperationEvent) (gathered gathered' : List (ℕ × OperationEvent))
    → gather_queue epoch label queue gathered ≡ ok gathered'
    → All (IsQueued epoch label) gathered
    → All (IsQueued epoch label) gathered'
unfolding gather_queue
gather_queue-IsQueued epoch label [] gathered gathered' e h = ground arith
gather_queue-IsQueued epoch label (x ∷ rest) gathered gathered' e h = ground (
  arith,
  emplace-IsQueued epoch label x gathered,
  gather_queue-IsQueued epoch label rest (emplace x.id x gathered) gathered',
)

gather-IsQueued :
    (epoch label : ℕ) (queues : List (List OperationEvent))
    (gathered gathered' : List (ℕ × OperationEvent))
    → gather epoch label queues gathered ≡ ok gathered'
    → All (IsQueued epoch label) gathered
    → All (IsQueued epoch label) gathered'
unfolding gather
gather-IsQueued epoch label [] gathered gathered' e h =
    subst (λ g. All (IsQueued epoch label) g) (ok-injective e) h
gather-IsQueued epoch label (queue ∷ rest) gathered gathered' e h =
    let (_, _, e1) = >>=-eq-ok (require (no_orphan label queue) manifest_mismatch) _ e in
    let (more, k, e2) = >>=-eq-ok (gather_queue epoch label queue gathered) _ e1 in
    gather-IsQueued epoch label rest more gathered' e2
      (gather_queue-IsQueued epoch label queue gathered more k h)

is_cancelled-flag_holds :
    (flags : ExecutionFlags) (e : OperationEvent) {b : Bool}
    → is_cancelled flags e.action ≡ ok b
    → flag_holds flags e ≡ ok (not b)
unfolding is_cancelled
is_cancelled-flag_holds flags e {b} h = ground arith

partition-Merges :
    (flags : ExecutionFlags) (epoch label : ℕ) (gathered : List (ℕ × OperationEvent))
    (manifest : List ℕ) (r : List OperationEvent × List OperationEvent)
    → All (IsQueued epoch label) gathered
    → partition flags gathered manifest ≡ ok r
    → Merges flags epoch label manifest r.0 r.1
unfolding partition
partition-Merges flags epoch label gathered [] r q h =
    subst (λ (x : List OperationEvent × List OperationEvent). Merges flags epoch label [] x.0 x.1)
      (ok-injective h) no_events
partition-Merges flags epoch label gathered (id ∷ rest) r q h =
    elim (Option-cases (find id gathered)) [
      | inl e ↦ let h' = rw (e, partition) at h in cc
      | inr (x, e) ↦
          let h' = rw (e, partition) at h in
          let (cancelled, c, h1) = >>=-eq-ok (is_cancelled flags x.action) _ h' in
          let (more, f, h2) = >>=-eq-ok (partition flags gathered rest) _ h1 in
          let found = find-IsQueued epoch label id gathered x q e in
          let queued : IsQueued epoch label (x.id, x) = (refl, found.1, found.2) in
          let holds = is_cancelled-flag_holds flags x c in
          let others = partition-Merges flags epoch label gathered rest more q f in
          subst (λ i. Merges flags epoch label (i ∷ rest) r.0 r.1) found.0
            (elim (Bool-cases cancelled) [
              | inl b ↦
                  subst
                    (λ (y : List OperationEvent × List OperationEvent).
                      Merges flags epoch label (x.id ∷ rest) y.0 y.1)
                    (ok-injective (rw b at h2)) (cancels x queued (rw b at holds) others)
              | inr b ↦
                  subst
                    (λ (y : List OperationEvent × List OperationEvent).
                      Merges flags epoch label (x.id ∷ rest) y.0 y.1)
                    (ok-injective (rw b at h2)) (fires x queued (rw b at holds) others)
            ])
    ]

trigger_head-fields :
    (t : Tcu) (now epoch cycle : ℕ) (preflight : Preflight) (sync_preflight : SyncPreflight)
    (p : Point) (r : Trigger)
    → trigger_head t now epoch cycle preflight sync_preflight p ≡ ok r
    → (p.due ≡ cycle)
      × (r.synchronizations ≡ p.point.synchronizations)
      × (r.batch.label ≡ p.point.label)
      × Merges t.execution_flags epoch p.point.label p.point.manifest r.batch.events r.cancelled
unfolding trigger_head
trigger_head-fields t now epoch cycle preflight sync_preflight p r h =
    let (_, due, h1) = >>=-eq-ok (require (p.due == cycle) late_admission) _ h in
    let (gathered, k, h2) = >>=-eq-ok (gather epoch p.point.label t.events []) _ h1 in
    let (_, _, h3) =
      >>=-eq-ok (require (length gathered == length p.point.manifest) manifest_mismatch) _ h2 in
    let (parts, f, h4) = >>=-eq-ok (partition t.execution_flags gathered p.point.manifest) _ h3 in
    let queued = gather-IsQueued epoch p.point.label t.events [] gathered k tt in
    let merges =
      partition-Merges t.execution_flags epoch p.point.label gathered p.point.manifest parts queued
        f in
    let (_, _, h5) =
      >>=-eq-ok
        (preflight
          (record { epoch = epoch; label = p.point.label; fire_tick = now; events = parts.0 }))
        _ h4 in
    let (_, _, h6) =
      >>=-eq-ok (check_synchronizations sync_preflight p.point.synchronizations) _ h5 in
    let same = ok-injective h6 in
    subst
      (λ (x : Trigger).
        (p.due ≡ cycle)
        × (x.synchronizations ≡ p.point.synchronizations)
        × (x.batch.label ≡ p.point.label)
        × Merges t.execution_flags epoch p.point.label p.point.manifest x.batch.events x.cancelled)
      same (ground arith, refl, refl, merges)

-- What is triggered is the head of the timing queue, while the timer runs and is not paused, on the
-- very cycle where the point is due, with its synchronizations. Its manifest is a merge of the fired
-- and the cancelled events, each in its order, with the identities of the manifest and the epoch and
-- label of the point: an event fires if its execution flag holds, and is cancelled if it does not.
pub prepare_trigger-due :
    (t : Tcu) (now epoch : ℕ) (state : TimingState) (preflight : Preflight)
    (sync_preflight : SyncPreflight) (r : Trigger)
    → prepare_trigger t now epoch state preflight sync_preflight ≡ ok (some r)
    → (p : Point) × (rest : List Point) × (t.timing ≡ p ∷ rest)
      × (state.running ≡ true)
      × (paused state.pause ≡ false)
      × (p.due ≡ state.cycle)
      × (r.synchronizations ≡ p.point.synchronizations)
      × (r.batch.label ≡ p.point.label)
      × Merges t.execution_flags epoch p.point.label p.point.manifest r.batch.events r.cancelled
unfolding prepare_trigger
prepare_trigger-due t now epoch state preflight sync_preflight r h = elim (List-cases t.timing) [
  | inl e ↦ let h' = rw (e, prepare_trigger) at h in cc
  | inr (p, rest, e) ↦
      let h' = rw (e, prepare_trigger) at h in
      elim (Bool-cases (not state.running || (paused state.pause || ltb state.cycle p.due))) [
        | inl b ↦ let h'' = rw b at h' in cc
        | inr b ↦
            let h'' = rw b at h' in
            let (r', f, last) =
              >>=-eq-ok (trigger_head t now epoch state.cycle preflight sync_preflight p) _ h'' in
            let same : r' ≡ r = ground arith in
            let fields = trigger_head-fields t now epoch state.cycle preflight sync_preflight p r (
              subst (λ x. trigger_head t now epoch state.cycle preflight sync_preflight p ≡ ok x)
                same f) in
            (p, rest, e, (ground arith), (ground arith), fields.0, fields.1, fields.2, fields.3)
      ]
]
