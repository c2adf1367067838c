-- ===== src/Device/Electronics/Timely/Launch.antt =====
-- A launch: what it brings comes after its own tick, so the device stays timely.
use mathlib.Core.Path.{subst}
use qsbit_sim.Time.{checked_add}
use qsbit_sim.Event.{acquire_spec, AcquireSpec}
use qsbit_sim.Protocol.{OperationEvent, ScheduledEvent, TriggeredEvents}
use qsbit_sim.Trace.{Events}
use qsbit_sim.Backend.{QuantumBackend}
use qsbit_sim.Device.Gates.{DeviceProfile}
use qsbit_sim.Device.Resources.{reserve, check}
use qsbit_sim.Device.Readouts.{
  arm_start, Readout, Readouts, Members, insert_all, prepare_one, prepare_from, add_members,
  no_members,
}
use qsbit_sim.Device.Readouts as Readouts
use qsbit_sim.Device.Electronics.{
  Spec, PreparedEvents, ControlElectronics, is_after, resolve_all, resolve, resolve_action,
  validate, prepare, accept,
}
use qsbit_sim.Base.{
  ◌==◌, Option-cases, all, All, require, ◌>>=◌, ok-injective, >>=-eq-ok, require-eq-ok, protocol,
  ok, ℕ, ◌≤◌, max, ◌≡◌, refl, sym, ◌⊎◌, inl, inr, true, ◌&&◌, ◌||◌, Option, List, [], ◌∷◌, arith,
}
use qsbit_sim.Device.Electronics.Timely.{
  Ascends, IsReadyAfter, ActsAfter, Ascends-add_ready, Ascends-add_actions, checked_add-ge,
  is_after_mono, IsTimely,
}

prepare_one-ready :
    (p : Readouts) (m : Members) (actions : List ScheduledEvent) (a : ScheduledEvent)
    (spec : AcquireSpec) (r : Readout)
    → prepare_one p m actions a spec ≡ ok r
    → a.end_tick ≤ r.ready
unfolding prepare_one
prepare_one-ready p m actions a spec r e = elim (Option-cases a.event.reference) [
  | inl q ↦ ground arith
  | inr (ref, q) ↦ ground (
    arith,
    checked_add-ge (max a.end_tick a.start) spec.discriminator_delay r.ready,
    checked_add-ge (max a.end_tick (arm_start ref actions a.start)) spec.discriminator_delay
        r.ready,
  )
]

prepare_from-step :
    (p : Readouts) (m : Members) (actions : List ScheduledEvent) (a : ScheduledEvent)
    (rest : List ScheduledEvent) (rs : List Readout) (spec : Spec)
    → prepare_from p m actions (a ∷ rest) ≡ ok rs
    → a.event.action.spec ≡ spec
    → (more : List Readout) × (prepare_from p m actions rest ≡ ok more)
      × ((rs ≡ more) ⊎ ((r : Readout) × (rs ≡ r ∷ more) × (a.end_tick ≤ r.ready)))
unfolding prepare_from
prepare_from-step p m actions a rest rs (acquire_spec spec) e q =
    let e' : (prepare_one p m actions a spec >>= λ r.
    prepare_from p m actions rest >>= λ more. ok (r ∷ more))
        ≡ ok rs =
      ground arith in
    let (r, k, e1) = >>=-eq-ok (prepare_one p m actions a spec) _ e' in
    let (more, k', e2) = >>=-eq-ok (prepare_from p m actions rest) _ e1 in
    (more, k', inr (r, sym (ok-injective e2), prepare_one-ready p m actions a spec r k))
prepare_from-step p m actions a rest rs _ e q = (rs, ground arith, inl refl)

prepare_from-ready :
    (o : Option ℕ) (p : Readouts) (m : Members) (actions left : List ScheduledEvent)
    (rs : List Readout)
    → prepare_from p m actions left ≡ ok rs
    → All (ActsAfter o) left
    → All (IsReadyAfter o) rs
unfolding prepare_from
prepare_from-ready o p m actions [] rs e h = ground arith
prepare_from-ready o p m actions (a ∷ rest) rs e h =
    let (more, k, made) = prepare_from-step p m actions a rest rs a.event.action.spec e refl in
    let others = prepare_from-ready o p m actions rest more k h.1 in
    elim made [
      | inl r ↦ subst (All (IsReadyAfter o)) (sym r) others
      | inr (x, r, late) ↦
          subst (All (IsReadyAfter o)) (sym r)
            (is_after_mono o a.end_tick x.ready h.0.1 late, others)
    ]

module _ {ℓ} {B : Type ℓ} (q : QuantumBackend B) where
  resolve_all-ActsAfter :
      (o : Option ℕ) (profile : DeviceProfile) (batch : TriggeredEvents) (es : List OperationEvent)
      (actions : List ScheduledEvent)
      → resolve_all q profile batch es ≡ ok actions
      → is_after o batch.fire_tick ≡ true
      → All (ActsAfter o) actions
  unfolding resolve_all
  resolve_all-ActsAfter o profile batch [] actions e h = ground arith
  resolve_all-ActsAfter o profile batch (x ∷ rest) actions e h =
      let (u, k1, e1) =
        >>=-eq-ok (require (x.epoch == batch.epoch && x.label == batch.label) protocol) _ e in
      let (u', k2, e2) = >>=-eq-ok (validate q profile x.action) _ e1 in
      let (start, k3, e3) = >>=-eq-ok (checked_add batch.fire_tick x.action.delay) _ e2 in
      let (resolved, k4, e4) = >>=-eq-ok (resolve_action profile x) _ e3 in
      let (end_tick, k5, e5) = >>=-eq-ok (checked_add start x.action.duration) _ e4 in
      let (more, k6, e6) = >>=-eq-ok (resolve_all q profile batch rest) _ e5 in
      let starts =
        is_after_mono o batch.fire_tick start h
          (checked_add-ge batch.fire_tick x.action.delay start k3) in
      let ends =
        is_after_mono o start end_tick starts
          (checked_add-ge start x.action.duration end_tick k5) in
      subst (All (ActsAfter o)) (ok-injective e6)
        ((starts, ends), resolve_all-ActsAfter o profile batch rest more k6 h)

  prepare-late :
      (c : ControlElectronics B) (batch : TriggeredEvents) (prepared : PreparedEvents)
      → prepare q c batch ≡ ok prepared
      → All (ActsAfter c.processed_tick) prepared.actions
        × All (IsReadyAfter c.processed_tick) prepared.readouts
  unfolding prepare resolve Readouts.prepare
  prepare-late c batch prepared e =
      let (actions, k1, e1) = >>=-eq-ok (resolve q c.profile batch) _ e in
      let (u, k2, e2) = >>=-eq-ok (check c.reservations actions) _ e1 in
      let (readouts, k3, e3) = >>=-eq-ok (Readouts.prepare c.readouts actions batch.epoch) _ e2 in
      let (u', k4, e4) =
        >>=-eq-ok (require (is_after c.processed_tick batch.fire_tick) protocol) _ e3 in
      let late = require-eq-ok (is_after c.processed_tick batch.fire_tick) protocol k4 in
      let acts =
        resolve_all-ActsAfter c.processed_tick c.profile batch batch.events actions k1 late in
      let (members, r1, f1) = >>=-eq-ok (add_members batch.epoch actions no_members) _ k3 in
      let (result, r2, f2) = >>=-eq-ok (prepare_from c.readouts members actions actions) _ f1 in
      let (u'', r3, f3) =
        >>=-eq-ok
          (require
            (all (λ (c : ℕ × ℕ). c.1 == 0 || Readouts.counted c.0 members.acquisitions == 1)
              members.arms)
            protocol)
          _ f2 in
      let ready =
        prepare_from-ready c.processed_tick c.readouts members actions actions result r2 acts in
      subst
        (λ (x : PreparedEvents).
          All (ActsAfter c.processed_tick) x.actions
          × All (IsReadyAfter c.processed_tick) x.readouts)
        (ok-injective e4)
        (acts, subst (All (IsReadyAfter c.processed_tick)) (ok-injective f3) ready)

module _ {ℓ} {B : Type ℓ} (q : QuantumBackend B) where
  -- A launch that is accepted leaves the device timely.
  pub accept-IsTimely :
      (c c' : ControlElectronics B) (batch : TriggeredEvents) (events : Events)
      → accept q c batch ≡ ok (c', events)
      → IsTimely c
      → IsTimely c'
  unfolding accept IsTimely
  accept-IsTimely c c' batch events e h =
      let (prepared, k, e1) = >>=-eq-ok (prepare q c batch) _ e in
      let (reservations, k2, e2) = >>=-eq-ok (reserve c.reservations prepared.actions) _ e1 in
      let (readouts, k3, e3) = >>=-eq-ok (insert_all c.readouts prepared.readouts) _ e2 in
      let (acts, ready) = prepare-late q c batch prepared k in
      let made =
        Ascends-add_actions c.processed_tick prepared.actions _ acts
          (Ascends-add_ready c.processed_tick prepared.readouts c.boundaries ready h.0) in
      subst
        (λ (x : ControlElectronics B × Events).
          Ascends x.0.processed_tick x.0.boundaries × (x.0.backend.committed_tick ≡ x.0.last_tick))
        (ok-injective e3) (made, h.1)
