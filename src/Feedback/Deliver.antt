-- ===== src/Feedback/Deliver.antt =====
-- `MeasurementRegisters`: the delivery of results, and what the CPU reads.
use qsbit_sim.Feedback.{
  MeasurementReference, same_reference, Completion, Register, fresh_register, MeasurementRegisters,
  register, deliver, acknowledge_fast, read,
}
use qsbit_sim.Feedback.Invariant.{is_for, Tagged, IsValid}
use mathlib.Core.Path.{subst}
use qsbit_sim.Base.{
  ◌⊎◌, sym, KeysBelow-erase, length-erase, length-set, count-le-length, ◌==◌, if◌then◌else◌,
  Bool-cases, Option-cases, length, set, any, count, get_or-set_self, get_or-set_ne, sub32,
  duplicate_result, ok, fault, find, erase, before, ℕ, ◌+◌, ◌<◌, ◌≡◌, ap, ◌∙◌, ◌≢◌, inl, inr, true,
  false, none, some, List, [], ◌∷◌, arith,
}

same_reference-eq : (a b : MeasurementReference) → same_reference a b ≡ true → a ≡ b
same_reference-eq a b h = ground arith

-- Erasing a pending delivery lowers the count of its target by one, and no other.
count-erase :
    (target k : ℕ) (m : List (ℕ × MeasurementReference)) (r : MeasurementReference)
    → find k m ≡ some r
    → count (is_for target) (erase k m) + (if r.target == target then 1 else 0)
      ≡ count (is_for target) m
count-erase target k [] r h = absurd (ground arith)
count-erase target k ((j, s) ∷ m) r h = ground (arith, count-erase target k m r)

Tagged-erase :
    (qubits k : ℕ) (m : List (ℕ × MeasurementReference))
    → Tagged qubits m
    → Tagged qubits (erase k m)
Tagged-erase qubits k [] h = tt
Tagged-erase qubits k ((j, s) ∷ m) h = ground (arith, Tagged-erase qubits k m h.1)

-- What a delivery that is accepted does: the reference was the oldest pending one of its target,
-- and is pending no more.
pub record Delivered (m : MeasurementRegisters) (c : Completion) (m' : MeasurementRegisters)
    : Type 0 where
  pub held : find c.reference.measurement m.pending ≡ some c.reference
  pub oldest : any (is_for c.reference.target) (before c.reference.measurement m.pending) ≡ false
  pub inside : c.reference.target < length m.registers
  pub result : m' ≡ record m {
    registers =
        set m.registers c.reference.target
          (record { pending = sub32 (register m c.reference.target).pending 1; value = c.value });
    pending = erase c.reference.measurement m.pending;
  }

deliver-Delivered :
    (m : MeasurementRegisters) (c : Completion) {m' : MeasurementRegisters}
    → deliver m c c.reference.epoch ≡ ok m'
    → Delivered m c m'
unfolding deliver
deliver-Delivered m c {m'} e = elim (Option-cases (find c.reference.measurement m.pending)) [
  | inl missing ↦ absurd (ground arith)
  | inr (held, found) ↦
      let same : same_reference held c.reference ≡ true = ground arith in
      let eq = same_reference-eq held c.reference same in
      record {
        held = found ∙ ap some eq;
        oldest = ground arith;
        inside = ground arith;
        result = ground arith;
      }
]

-- A result of another epoch is dropped; one of this epoch that is not pending is refused as a
-- duplicate.
pub deliver_ignores :
    (m : MeasurementRegisters) (c : Completion) (epoch : ℕ)
    → (c.reference.epoch ≢ epoch → deliver m c epoch ≡ ok m)
      × (c.reference.epoch ≡ epoch
          → find c.reference.measurement m.pending ≡ none
          → deliver m c epoch ≡ fault duplicate_result)
unfolding deliver
deliver_ignores m c epoch = ((λ ne. ground arith), λ e missing. ground arith)

Delivered-counted :
    (m : MeasurementRegisters) (c : Completion) {m' : MeasurementRegisters} (target : ℕ)
    → IsValid m
    → Delivered m c m'
    → (register m' target).pending ≡ count (is_for target) m'.pending
Delivered-counted m c {m'} target v d =
    let own = c.reference.target in
    let n = count-erase target c.reference.measurement m.pending c.reference d.held in
    let total = v.counted target in
    let bound = count-le-length (is_for target) m.pending in
    let new : Register = record { pending = sub32 (register m own).pending 1; value = c.value } in
    let small = v.small in
    let fits = v.fits in
    let pending_of = λ (r : Register). r.pending in
    let after : (register m' target).pending ≡ (
        if own == target
        then sub32 (register m target).pending 1
        else (register m target).pending) =
      rw d.result (elim (Bool-cases (own == target)) [
        | inl same ↦
            let here : own ≡ target = ground arith in
            rw (same, ← here)
              (ap pending_of (get_or-set_self m.registers own new fresh_register d.inside))
        | inr other ↦ rw other (
            ap pending_of
              (get_or-set_ne m.registers own target new fresh_register (λ e. ground arith)))
      ]) in
    let left : m'.pending ≡ erase c.reference.measurement m.pending = rw d.result in
    rw left (ground arith)

-- Every result that is delivered, or dropped because of its epoch, keeps the registers valid.
pub deliver-IsValid :
    (m : MeasurementRegisters) (c : Completion) (epoch : ℕ) {m' : MeasurementRegisters}
    → IsValid m
    → deliver m c epoch ≡ ok m'
    → IsValid m'
deliver-IsValid m c epoch {m'} v e = elim (Bool-cases (c.reference.epoch == epoch)) [
  | inl same ↦
      let here : c.reference.epoch ≡ epoch = ground arith in
      let d = deliver-Delivered m c (rw (← here) at e) in
      let k = c.reference.measurement in
      let smaller = length-erase k m.pending in
      let fits = v.fits in
      let size : length m'.registers ≡ length m.registers =
        rw d.result (length-set m.registers c.reference.target _) in
      let counted = λ (target : ℕ). Delivered-counted m c target v d in
      subst IsValid (sym d.result) (record {
        small = v.small;
        tagged =
            rw (length-set m.registers c.reference.target _)
              (Tagged-erase (length m.registers) k m.pending v.tagged);
        fresh = KeysBelow-erase m.next_measurement k m.pending v.fresh;
        fresh_fast = v.fresh_fast;
        fits = omega arith;
        fits_fast = v.fits_fast;
        counted = λ target. rw d.result at (counted target);
      })
  | inr other ↦
      let dropped = (deliver_ignores m c epoch).0 (λ p. ground arith) in
      let same : m ≡ m' = ground arith in subst IsValid same v
]

-- A register can be read exactly when no delivery of its target is pending.
pub read_iff :
    (m : MeasurementRegisters) (target : ℕ)
    → IsValid m
    → target < length m.registers
    → read m target
      ≡ ok (if count (is_for target) m.pending == 0 then some (register m target).value else none)
unfolding read
read_iff m target v h = ground (arith, v.counted target)

-- When the last pending result of a target arrives, the CPU reads its value.
pub read-deliver :
    (m : MeasurementRegisters) (c : Completion) {m' : MeasurementRegisters}
    → IsValid m
    → deliver m c c.reference.epoch ≡ ok m'
    → count (is_for c.reference.target) m.pending ≡ 1
    → read m' c.reference.target ≡ ok (some c.value)
unfolding read
read-deliver m c {m'} v e last =
    let d = deliver-Delivered m c e in
    let own = c.reference.target in
    let n = v.counted own in
    let new : Register = record { pending = sub32 (register m own).pending 1; value = c.value } in
    let self = get_or-set_self m.registers own new fresh_register d.inside in
    rw d.result (ground (arith, self, length-set m.registers own new, d.inside))

acknowledge_fast_cases :
    (m : MeasurementRegisters) (r : MeasurementReference) (epoch : ℕ) {m' : MeasurementRegisters}
    → acknowledge_fast m r epoch ≡ ok m'
    → (m ≡ m') ⊎ (record m { fast_pending = erase r.measurement m.fast_pending } ≡ m')
unfolding acknowledge_fast
acknowledge_fast_cases m r epoch e = ground arith

-- An acknowledgment of fast delivery keeps the registers valid.
pub acknowledge_fast-IsValid :
    (m : MeasurementRegisters) (r : MeasurementReference) (epoch : ℕ) {m' : MeasurementRegisters}
    → IsValid m
    → acknowledge_fast m r epoch ≡ ok m'
    → IsValid m'
acknowledge_fast-IsValid m r epoch v e = elim (acknowledge_fast_cases m r epoch e) [
  | inl same ↦ subst IsValid same v
  | inr smaller ↦
      let k = r.measurement in
      let fits = v.fits_fast in
      subst IsValid smaller (record {
        small = v.small;
        tagged = v.tagged;
        fresh = v.fresh;
        fresh_fast = KeysBelow-erase m.next_measurement k m.fast_pending v.fresh_fast;
        fits = v.fits;
        fits_fast = omega (arith, length-erase k m.fast_pending);
        counted = v.counted;
      })
]
