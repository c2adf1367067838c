-- ===== src/Backend/Commits.antt =====
-- The committed tick of `BackendExecution`: each operation moves it to its own tick.
use qsbit_sim.Event.{EventSpec}
use qsbit_sim.Feedback.{MeasurementReference}
use qsbit_sim.Backend.{
  backend_gates, validate_all, check_measured, BackendActivity, BackendOperation, backend_evolution,
  tick_of, QuantumBackend, BackendExecution, execute, flush, commit, evolve, apply, measure,
}
use qsbit_sim.Base.{
  leb, length, require, >>=-eq-ok, protocol, ok, ℕ, ◌≡◌, Bool, List, [], ◌∷◌, ◌++◌, arith,
}

module _ {ℓ} {B : Type ℓ} (q : QuantumBackend B) where
  pub execute-committed :
      (n : ℕ) (x x' : BackendExecution B) (results : List Bool)
      → execute q n x ≡ ok (results, x')
      → x'.committed_tick ≡ x.committed_tick
  unfolding execute
  execute-committed n x x' results e = ground arith

  pub flush-committed :
      (x x' : BackendExecution B) → flush q x ≡ ok x' → x'.committed_tick ≡ x.committed_tick
  unfolding flush
  flush-committed x x' e =
      let ((results, x1), k, e') = >>=-eq-ok (execute q 0 x) _ e in
      let same = execute-committed 0 x x1 results k in ground arith

  pub commit-committed :
      (operation : BackendOperation) (x x' : BackendExecution B)
      → commit q operation x ≡ ok x'
      → x'.committed_tick ≡ tick_of operation
  unfolding commit
  commit-committed operation x x' e =
      let x1 : BackendExecution B = record x {
        committed_tick = tick_of operation;
        pending = x.pending ++ operation ∷ [];
      } in
      ground (arith, flush-committed x1 x')

  pub evolve-committed :
      (from to : ℕ) (drives acquisitions : List BackendActivity) (x x' : BackendExecution B)
      → evolve q from to drives acquisitions x ≡ ok x'
      → x'.committed_tick ≡ to
  unfolding evolve
  evolve-committed from to drives acquisitions x x' e =
      ground (arith, commit-committed (backend_evolution from to drives acquisitions) x x')

  pub apply-committed :
      (now : ℕ) (gates : List EventSpec) (x x' : BackendExecution B)
      → apply q now gates x ≡ ok x'
      → x.committed_tick ≡ now
      → x'.committed_tick ≡ now
  unfolding apply
  apply-committed now gates x x' e h =
      let (u, k, e') = >>=-eq-ok (validate_all q gates) _ e in
      ground (arith, commit-committed (backend_gates now gates) x x')

  pub measure-committed :
      (now : ℕ) (references : List MeasurementReference) (x x' : BackendExecution B)
      (results : List Bool)
      → measure q now references x ≡ ok (results, x')
      → x.committed_tick ≡ now
      → x'.committed_tick ≡ now
  unfolding measure
  measure-committed now [] x x' results e h = ground arith
  measure-committed now (r ∷ rest) x x' results e h =
      let (u, k, e1) = >>=-eq-ok (require (leb x.committed_tick now) protocol) _ e in
      let (u', k', e2) = >>=-eq-ok (check_measured x.epoch (r ∷ rest) []) _ e1 in
      execute-committed (length (r ∷ rest)) _ x' results e2
