-- ===== src/Device/Electronics/Timely/Process.antt =====
-- The boundaries, the end and the reset in src/device/control_electronics.cpp keep the device timely.
use mathlib.Core.Path.{subst}
use qsbit_sim.Feedback.{Completion}
use qsbit_sim.Trace.{Events}
use qsbit_sim.Backend.{QuantumBackend, BackendExecution, evolve, measure, apply, flush}
use qsbit_sim.Backend as Backend
use qsbit_sim.Backend.Commits.{
  flush-committed, evolve-committed, apply-committed, measure-committed,
}
use qsbit_sim.Device.Gates.{DeviceProfile}
use qsbit_sim.Device.Electronics.{
  Boundary, ControlElectronics, is_after, init, drives_of, acquisitions_of,
}
use qsbit_sim.Device.Electronics.Process.{
  sample_all, end_all, applied_events, start_all, deliver_all, evolve_to, check_boundary,
  process_boundary, process, next_boundary, is_drained, finalize, reset,
}
use qsbit_sim.Base.{
  ltb, leb, if◌then◌else◌, Bool-cases, List-cases, require, ok-injective, >>=-eq-ok, require-eq-ok,
  Result, protocol, ok, erase, ℕ, ◌≤◌, ◌≡◌, refl, sym, ◌∙◌, inl, inr, ◌&&◌, some, [], arith,
}
use qsbit_sim.Device.Electronics.Timely.{Ascends, IsTimely}

module _ {ℓ} {B : Type ℓ} (q : QuantumBackend B) where
  evolve_to-committed :
      (now : ℕ) (c : ControlElectronics B) (x : BackendExecution B)
      → evolve_to q now c ≡ ok x
      → c.last_tick ≤ now
      → c.backend.committed_tick ≡ c.last_tick
      → x.committed_tick ≡ now
  unfolding evolve_to
  evolve_to-committed now c x e le h = elim (Bool-cases (ltb c.last_tick now)) [
    | inl b ↦
        evolve-committed q c.last_tick now (drives_of c.active) (acquisitions_of c.active) c.backend
          x (ground arith)
    | inr b ↦ ground arith
  ]

module _ {ℓ κ} {B : Type ℓ} {D : Type κ} (q : QuantumBackend B) where
  process_boundary-left :
      (deliver : Completion → D → Result D) (now epoch : ℕ) (b : Boundary)
      (c c' : ControlElectronics B) (d d' : D) (events : Events)
      → process_boundary q deliver now epoch b (c, d) ≡ ok ((c', d'), events)
      → c.last_tick ≤ now
      → c.backend.committed_tick ≡ c.last_tick
      → (c'.processed_tick ≡ some now)
        × (c'.last_tick ≡ now)
        × (c'.boundaries ≡ erase now c.boundaries)
        × (c'.backend.committed_tick ≡ now)
  unfolding process_boundary
  process_boundary-left deliver now epoch b c c' d d' events e le h =
      let ((samples, gates, outputs), k1, e1) = >>=-eq-ok (check_boundary q c now epoch b) _ e in
      let (evolved, k2, e2) = >>=-eq-ok (evolve_to q now c) _ e1 in
      let ((outcomes, measured), k3, e3) = >>=-eq-ok (measure q now samples evolved) _ e2 in
      let ((sampled, se), k4, e4) =
        >>=-eq-ok (sample_all now epoch samples outcomes c.readouts) _ e3 in
      let ((ended, ee), k5, e5) = >>=-eq-ok (end_all now epoch b.ends c.active) _ e4 in
      let (applied, k6, e6) = >>=-eq-ok (apply q now gates measured) _ e5 in
      let (ge, k7, e7) = >>=-eq-ok (applied_events c.profile now epoch outputs) _ e6 in
      let ((active, ste), k8, e8) = >>=-eq-ok (start_all now epoch b.starts ended) _ e7 in
      let (((readouts, d1), re), k9, e9) =
        >>=-eq-ok (deliver_all deliver now epoch b.ready (sampled, d)) _ e8 in
      let at_now = apply-committed q now gates measured applied k6 (
        measure-committed q now samples evolved measured outcomes k3
          (evolve_to-committed q now c evolved k2 le h)) in
      subst
        (λ (x : (ControlElectronics B × D) × Events).
          (x.0.0.processed_tick ≡ some now)
          × (x.0.0.last_tick ≡ now)
          × (x.0.0.boundaries ≡ erase now c.boundaries)
          × (x.0.0.backend.committed_tick ≡ now))
        (ok-injective e9) (refl, refl, refl, at_now)

  -- The device is timely after the next boundary has been processed, its time is that of the
  -- boundary, and every boundary that is left comes later.
  pub process-IsTimely :
      (deliver : Completion → D → Result D) (now epoch : ℕ) (c c' : ControlElectronics B) (d d' : D)
      (events : Events)
      → process q deliver now epoch (c, d) ≡ ok ((c', d'), events)
      → next_boundary c ≡ some now
      → IsTimely c
      → IsTimely c' × (c'.last_tick ≡ now) × Ascends (some now) c'.boundaries
  unfolding process IsTimely next_boundary
  process-IsTimely deliver now epoch c c' d d' events e n h =
      let (u, k, e1) =
        >>=-eq-ok (require (leb c.last_tick now && is_after c.processed_tick now) protocol) _ e in
      let late = require-eq-ok (leb c.last_tick now && is_after c.processed_tick now) protocol k in
      elim (List-cases c.boundaries) [
        | inl r ↦ ground arith
        | inr ((t, b), rest, r) ↦
            let at : t ≡ now = ground arith in
            let found : process_boundary q deliver now epoch b (c, d) ≡ ok ((c', d'), events) =
              ground arith in
            let (p, l, bs, w) =
              process_boundary-left deliver now epoch b c c' d d' events found (ground arith) h.1 in
            let same : c'.boundaries ≡ rest = ground arith in
            let rest_later = (subst (Ascends c.processed_tick) r h.0).1 in
            let left : Ascends (some now) c'.boundaries =
              subst (Ascends (some now)) (sym same)
                (subst (λ x. Ascends (some x) rest) at rest_later) in
            ((subst (λ o. Ascends o c'.boundaries) (sym p) left, w ∙ sym l), l, left)
      ]

module _ {ℓ} {B : Type ℓ} (q : QuantumBackend B) where
  pub init-IsTimely :
      (profile : DeviceProfile) (backend : B) (max_batch : ℕ) (c : ControlElectronics B)
      → init q profile backend max_batch ≡ ok c
      → IsTimely c
  unfolding init IsTimely Backend.init Backend.reset
  init-IsTimely profile backend max_batch c e = ground arith

  pub reset-IsTimely : (now epoch : ℕ) (c : ControlElectronics B) → IsTimely (reset q now epoch c).0
  unfolding reset IsTimely Backend.reset
  reset-IsTimely now epoch c = ground arith

  pub finalize-IsTimely :
      (now : ℕ) (c c' : ControlElectronics B) → finalize q now c ≡ ok c' → IsTimely c → IsTimely c'
  unfolding finalize IsTimely is_drained
  finalize-IsTimely now c c' e h =
      let (u, k1, e1) = >>=-eq-ok (require (is_drained c) protocol) _ e in
      let (u', k2, e2) = >>=-eq-ok (require (leb c.last_tick now) protocol) _ e1 in
      let (x, k3, e3) =
        >>=-eq-ok
          (if ltb c.last_tick now then evolve q c.last_tick now [] [] c.backend else ok c.backend) _
          e2 in
      let (y, k4, e4) = >>=-eq-ok (flush q x) _ e3 in
      let same = flush-committed q x y k4 in
      let at_now : x.committed_tick ≡ now = elim (Bool-cases (ltb c.last_tick now)) [
        | inl b ↦ evolve-committed q c.last_tick now [] [] c.backend x (ground arith)
        | inr b ↦ ground arith
      ] in
      ground arith
