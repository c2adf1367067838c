-- ===== src/Backend/Batches.antt =====
-- The batches of `BackendExecution` against a backend that gets each operation at once: what the
-- backend has executed, followed by what is pending, are the operations of the calls, in order.
use mathlib.Core.Path.{subst}
use mathlib.Core.List.{append-nil, append_assoc}
use qsbit_sim.Event.{EventSpec}
use qsbit_sim.Feedback.{MeasurementReference}
use qsbit_sim.Backend.{
  validate_all, check_measured, tick_of, BackendActivity, BackendOperation, backend_evolution,
  backend_gates, backend_measurement, QuantumBackend, BackendExecution, execute, flush, commit,
  evolve, apply, measure,
}
use qsbit_sim.Base.{
  ltb, leb, ◌==◌, if◌then◌else◌, Bool-cases, length, null, length-append, List-cases, require,
  ◌>>=◌, Result-cases, ok-injective, >>=-eq-ok, Result, protocol, ok, ℕ, ◌<◌, ◌≡◌, refl, sym, ap,
  ◌∙◌, inl, inr, Bool, ◌&&◌, List, [], ◌∷◌, ◌++◌, arith,
}

-- A call of `BackendExecution`.
pub data Call : Type 0 where
  evolve_call : (from to : ℕ) (drives acquisitions : List BackendActivity) → Call
  apply_call : (now : ℕ) → List EventSpec → Call
  measure_call : (now : ℕ) → List MeasurementReference → Call
  flush_call : Call

-- What the call asks of the backend.
abbrev pub operations_of : Call → List BackendOperation
operations_of (evolve_call from to drives acquisitions) =
    if ltb from to then backend_evolution from to drives acquisitions ∷ [] else []
operations_of (apply_call now gates) = if null gates then [] else backend_gates now gates ∷ []
operations_of (measure_call now references) =
    if null references then [] else backend_measurement now references ∷ []
operations_of flush_call = []

abbrev pub operations_of_all : List Call → List BackendOperation
operations_of_all [] = []
operations_of_all (call ∷ rest) = operations_of call ++ operations_of_all rest

module _ {ℓ} {B : Type ℓ} (q : QuantumBackend B) where
  unfoldable pub perform : Call → BackendExecution B → Result (BackendExecution B)
  perform (evolve_call from to drives acquisitions) x = evolve q from to drives acquisitions x
  perform (apply_call now gates) x = apply q now gates x
  perform (measure_call now references) x = do (results, x') ← measure q now references x; ok x'
  perform flush_call x = flush q x

  unfoldable pub perform_all : List Call → BackendExecution B → Result (BackendExecution B)
  unfolding perform
  perform_all [] x = ok x
  perform_all (call ∷ rest) x = do x' ← perform call x; perform_all rest x'

-- Fewer operations are pending than a batch has.
abbrev pub IsBatched {ℓ} : {B : Type ℓ} → BackendExecution B → Type 0
IsBatched x = length x.pending < x.max_batch_operations

-- The log that an abstract backend keeps.
abbrev pub Log {ℓ} : {B : Type ℓ} → QuantumBackend B → (B → List BackendOperation) → Type ℓ
Log {B = B} q log =
    (b : B) (epoch : ℕ) (operations : List BackendOperation) (results : List Bool)
    → (q.execute b epoch operations).1 ≡ ok results
    → log (q.execute b epoch operations).0 ≡ log b ++ operations

module _ {ℓ} {B : Type ℓ} (q : QuantumBackend B) (log : B → List BackendOperation) where
  abbrev pub view : BackendExecution B → List BackendOperation
  view x = log x.backend ++ x.pending

  -- The view grows by `operations`, and what is pending stays below a batch.
  abbrev pub Grows : List BackendOperation → (x x' : BackendExecution B) → Type 0
  Grows operations x x' = (view x' ≡ view x ++ operations) × (IsBatched x → IsBatched x')

module _ {ℓ} {B : Type ℓ} (q : QuantumBackend B) (log : B → List BackendOperation)
    (law : Log q log) where
  execute-view :
      (n : ℕ) (x x' : BackendExecution B) (results : List Bool)
      → execute q n x ≡ ok (results, x')
      → (view q log x' ≡ view q log x)
        × (x'.pending ≡ [])
        × (x'.max_batch_operations ≡ x.max_batch_operations)
  unfolding execute
  execute-view n x x' results e = elim (List-cases x.pending) [
    | inl r ↦ (ground arith, ground arith, ground arith)
    | inr (operation, rest, r) ↦ elim (Result-cases (q.execute x.backend x.epoch x.pending).1) [
      | inl (values, a) ↦
          let grown = law x.backend x.epoch x.pending values a in
          let b : x'.backend ≡ (q.execute x.backend x.epoch x.pending).0 = ground arith in
          let p : x'.pending ≡ [] = ground arith in
          let bound : x'.max_batch_operations ≡ x.max_batch_operations = ground arith in
          (
            ap (λ y. log y ++ x'.pending) b
                ∙ (ap (λ y. log (q.execute x.backend x.epoch x.pending).0 ++ y) p
                    ∙ (append-nil (log (q.execute x.backend x.epoch x.pending).0) ∙ grown)),
            p,
            bound,
          )
      | inr (code, a) ↦ ground arith
    ]
  ]

  flush-view :
      (x x' : BackendExecution B)
      → flush q x ≡ ok x'
      → (view q log x' ≡ view q log x)
        × (x'.pending ≡ [])
        × (x'.max_batch_operations ≡ x.max_batch_operations)
  unfolding flush
  flush-view x x' e =
      let ((results, x1), k, e') = >>=-eq-ok (execute q 0 x) _ e in
      let same = execute-view 0 x x1 results k in
      subst
        (λ y.
          (view q log y ≡ view q log x)
          × (y.pending ≡ [])
          × (y.max_batch_operations ≡ x.max_batch_operations))
        (ok-injective e') same

  -- A call whose operations wait to be executed, then the flush that may follow.
  flush-Grows :
      (operation : BackendOperation) (x x1 x' : BackendExecution B)
      → x1.backend ≡ x.backend
      → x1.pending ≡ x.pending ++ operation ∷ []
      → view q log x' ≡ view q log x1
      → view q log x' ≡ view q log x ++ operation ∷ []
  flush-Grows operation x x1 x' b p e =
      e
      ∙ (ap (λ y. log y ++ x1.pending) b
          ∙ (ap (λ y. log x.backend ++ y) p
              ∙ sym (append_assoc (log x.backend) x.pending (operation ∷ []))))

  commit-Grows :
      (operation : BackendOperation) (x x' : BackendExecution B)
      → commit q operation x ≡ ok x'
      → Grows q log (operation ∷ []) x x'
  unfolding commit
  commit-Grows operation x x' e =
      let (u, k, e') =
        >>=-eq-ok (require (leb x.committed_tick (tick_of operation)) protocol) _ e in
      let x1 : BackendExecution B = record x {
        committed_tick = tick_of operation;
        pending = x.pending ++ operation ∷ [];
      } in
      let n = length-append x.pending (operation ∷ []) in
      elim (Bool-cases (length x1.pending == x1.max_batch_operations)) [
        | inl b ↦
            let (same, none_left, bound) = flush-view x1 x' (ground arith) in
            (flush-Grows operation x x1 x' refl refl same, λ h. ground arith)
        | inr b ↦
            let same : x1 ≡ x' = ground arith in
            (
              flush-Grows operation x x1 x' refl refl (ap (view q log) (sym same)),
              λ h. subst IsBatched same (ground arith),
            )
      ]

  same-Grows : (x x' : BackendExecution B) → x ≡ x' → Grows q log [] x x'
  same-Grows x x' e = subst (Grows q log [] x) e (sym (append-nil (view q log x)), λ h. h)

  evolve-Grows :
      (from to : ℕ) (drives acquisitions : List BackendActivity) (x x' : BackendExecution B)
      → evolve q from to drives acquisitions x ≡ ok x'
      → Grows q log (operations_of (evolve_call from to drives acquisitions)) x x'
  unfolding evolve
  evolve-Grows from to drives acquisitions x x' e =
      let operation = backend_evolution from to drives acquisitions in
      let (u, k, e') = >>=-eq-ok (require (from == x.committed_tick && leb from to) protocol) _ e in
      elim (Bool-cases (ltb from to)) [
        | inl b ↦ rw (b) (commit-Grows operation x x' (ground arith))
        | inr b ↦ rw (b) (same-Grows x x' (ground arith))
      ]

  apply-Grows :
      (now : ℕ) (gates : List EventSpec) (x x' : BackendExecution B)
      → apply q now gates x ≡ ok x'
      → Grows q log (operations_of (apply_call now gates)) x x'
  unfolding apply
  apply-Grows now gates x x' e =
      let (u, k, e') = >>=-eq-ok (validate_all q gates) _ e in
      elim (Bool-cases (null gates)) [
        | inl b ↦ rw (b) (same-Grows x x' (ground arith))
        | inr b ↦ rw (b) (commit-Grows (backend_gates now gates) x x' (ground arith))
      ]

  measure-Grows :
      (now : ℕ) (references : List MeasurementReference) (x x' : BackendExecution B)
      (results : List Bool)
      → measure q now references x ≡ ok (results, x')
      → Grows q log (operations_of (measure_call now references)) x x'
  unfolding measure
  measure-Grows now [] x x' results e = same-Grows x x' (ground arith)
  measure-Grows now (r ∷ rest) x x' results e =
      let (u, k, e1) = >>=-eq-ok (require (leb x.committed_tick now) protocol) _ e in
      let (u', k', e2) = >>=-eq-ok (check_measured x.epoch (r ∷ rest) []) _ e1 in
      let operation = backend_measurement now (r ∷ rest) in
      let x1 : BackendExecution B = record x {
        committed_tick = now;
        pending = x.pending ++ operation ∷ [];
      } in
      let (same, none_left, bound) = execute-view (length (r ∷ rest)) x1 x' results e2 in
      (flush-Grows operation x x1 x' refl refl same, λ h. ground arith)

  perform-Grows :
      (call : Call) (x x' : BackendExecution B)
      → perform q call x ≡ ok x'
      → Grows q log (operations_of call) x x'
  unfolding perform
  perform-Grows (evolve_call from to drives acquisitions) x x' e =
      evolve-Grows from to drives acquisitions x x' e
  perform-Grows (apply_call now gates) x x' e = apply-Grows now gates x x' e
  perform-Grows (measure_call now references) x x' e =
      let ((results, x1), k, e') = >>=-eq-ok (measure q now references x) _ e in
      subst (Grows q log (operations_of (measure_call now references)) x) (ok-injective e')
        (measure-Grows now references x x1 results k)
  perform-Grows flush_call x x' e =
      let (same, none_left, bound) = flush-view x x' e in
      (same ∙ sym (append-nil (view q log x)), λ h. ground arith)

  perform_all-Grows :
      (calls : List Call) (x x' : BackendExecution B)
      → perform_all q calls x ≡ ok x'
      → Grows q log (operations_of_all calls) x x'
  unfolding perform_all
  perform_all-Grows [] x x' e = same-Grows x x' (ok-injective e)
  perform_all-Grows (call ∷ rest) x x' e =
      let (x1, k, e') = >>=-eq-ok (perform q call x) _ e in
      let (first, bounded) = perform-Grows call x x1 k in
      let (more, bounded') = perform_all-Grows rest x1 x' e' in
      (
        more
            ∙ (ap (λ y. y ++ operations_of_all rest) first
                ∙ append_assoc (view q log x) (operations_of call) (operations_of_all rest)),
        λ h. bounded' (bounded h),
      )

  -- For a backend whose log `log` grows by every batch that it executes: after any calls that do not
  -- fail, from a state with fewer pending operations than a batch has, the log followed by the
  -- pending operations has grown by exactly the operations of the calls, in their order, and fewer
  -- operations than a batch has are pending.
  pub perform_all-view :
      (calls : List Call) (x x' : BackendExecution B)
      → perform_all q calls x ≡ ok x'
      → IsBatched x
      → (view q log x' ≡ view q log x ++ operations_of_all calls) × IsBatched x'
  perform_all-view calls x x' e h =
      let (grown, bounded) = perform_all-Grows calls x x' e in (grown, bounded h)
