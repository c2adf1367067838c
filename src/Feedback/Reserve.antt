-- ===== src/Feedback/Reserve.antt =====
-- `MeasurementRegisters`: the invariant, and the reservation of deliveries.
use qsbit_sim.Feedback.Invariant.{
  is_for, IsValid, numbered, has_capacity_iff, prepare_from_lem, entry, target_of, length-numbered,
  targets-numbered, length-targets, length-map-entry, same_references-eq, same_references_self,
  emplace_all-numbered, KeysBelow-numbered, Tagged-numbered, count-numbered, length-count_up,
  count_up_lem,
}
use qsbit_sim.Time.{checked_add}
use qsbit_sim.Feedback.{
  MeasurementReference, MeasurementRegisters, has_capacity, register, prepare_from,
  prepare_reservation, same_references, emplace_all, count_up, commit_reservation,
}
use native.Mathlib.Nat.{add-zero}
use mathlib.Core.Path.{subst}
use qsbit_sim.Base.{
  count-le-length, count-append, length-append, All-append, if◌then◌else◌, ◌==◌, Bool-cases, length,
  count, All, u32_mod, Result-cases, ok, KeysBelow, KeysBelow-mono, KeysBelow-append, ℕ, ◌+◌, ◌≤◌,
  ◌<◌, ◌≡◌, refl, ap, ◌∙◌, inl, inr, true, List, [], ◌∷◌, ◌++◌, map, arith,
}

-- What a committed reservation changes.
pub record Reserved (m : MeasurementRegisters) (refs : List MeasurementReference)
    (m' : MeasurementRegisters) : Type 0 where
  pub config : m'.config ≡ m.config
  pub size : length m'.registers ≡ length m.registers
  pub pending : m'.pending ≡ m.pending ++ map entry refs
  pub fast :
      m'.fast_pending
      ≡ (if m.config.fast_feedback then m.fast_pending ++ map entry refs else m.fast_pending)
  pub next : m'.next_measurement ≡ m.next_measurement + length refs
  pub counted :
      (target : ℕ)
      → (register m' target).pending
        ≡ (register m target).pending + count (λ t. t == target) (map target_of refs)
  pub kept : (target : ℕ) → (register m' target).value ≡ (register m target).value

prepare_reservation_lem :
    (m : MeasurementRegisters) (epoch : ℕ) (ts : List ℕ) {refs : List MeasurementReference}
    → prepare_reservation m epoch ts ≡ ok refs
    → (has_capacity m (length ts) ≡ true)
      × (checked_add m.next_measurement (length ts) ≡ ok (m.next_measurement + length ts))
      × (refs ≡ numbered epoch m.next_measurement ts)
      × All (λ t. t < length m.registers) ts
unfolding prepare_reservation checked_add
prepare_reservation_lem m epoch ts {refs} e =
    let f : prepare_from m epoch ts ts 0 ≡ ok refs = ground arith in
    let (g, h) = prepare_from_lem m epoch ts ts 0 f in
    (ground arith, ground arith, rw add-zero at g, h)

count-targets :
    (m : MeasurementRegisters) (ts : List ℕ) (target : ℕ)
    → IsValid m
    → length m.pending + length ts ≤ m.config.result_capacity
    → (register m target).pending + count (λ t. t == target) ts < u32_mod
count-targets m ts target v h =
    let c = v.counted target in
    let p = count-le-length (is_for target) m.pending in
    let q = count-le-length (λ t. t == target) ts in let s = v.small in omega arith

-- The registers that `commit_reservation` builds.
abbrev committed : MeasurementRegisters → List MeasurementReference → MeasurementRegisters
committed m refs = record m {
  pending = emplace_all refs m.pending;
  fast_pending = if m.config.fast_feedback then emplace_all refs m.fast_pending else m.fast_pending;
  registers = count_up (map target_of refs) m.registers;
  next_measurement = m.next_measurement + length refs;
}

committed-Reserved :
    (m : MeasurementRegisters) (epoch : ℕ) (ts : List ℕ)
    → IsValid m
    → length m.pending + length ts ≤ m.config.result_capacity
    → All (λ t. t < length m.registers) ts
    → let refs = numbered epoch m.next_measurement ts in Reserved m refs (committed m refs)
committed-Reserved m epoch ts v h below =
    let refs = numbered epoch m.next_measurement ts in
    let targets = targets-numbered epoch m.next_measurement ts in
    let counts =
      λ (target : ℕ). count_up_lem ts m.registers target below (count-targets m ts target v h) in
    record {
      config = refl;
      size = length-count_up (map target_of refs) m.registers;
      pending = emplace_all-numbered epoch m.next_measurement ts m.pending v.fresh;
      fast =
          ap (λ l. if m.config.fast_feedback then l else m.fast_pending)
            (emplace_all-numbered epoch m.next_measurement ts m.fast_pending v.fresh_fast);
      next = refl;
      counted = λ target. rw targets (counts target).0;
      kept = λ target. rw targets (counts target).1;
    }

commit_lem :
    (m : MeasurementRegisters) (first : MeasurementReference) (rest : List MeasurementReference)
    {m' : MeasurementRegisters}
    → commit_reservation m (first ∷ rest) ≡ ok m'
    → let ts = map target_of (first ∷ rest) in
      (prepare_reservation m first.epoch ts ≡ ok (first ∷ rest)) × (m' ≡ committed m (first ∷ rest))
unfolding commit_reservation checked_add
commit_lem m first rest {m'} e =
    let refs = first ∷ rest in
    let ts = map target_of refs in
    elim (Result-cases (prepare_reservation m first.epoch ts)) [
      | inl (expected, f) ↦
          let (room, sum, eq, below) = prepare_reservation_lem m first.epoch ts f in
          let long : length expected ≡ length refs =
            rw eq (length-numbered first.epoch m.next_measurement ts ∙ length-targets refs) in
          let same : same_references expected refs ≡ true = ground arith in
          let agree : expected ≡ refs = same_references-eq expected refs long same in
          (f ∙ ap ok agree, ground arith)
      | inr (c, f) ↦ absurd (ground arith)
    ]

Reserved-IsValid :
    (m m' : MeasurementRegisters) (epoch : ℕ) (ts : List ℕ)
    → IsValid m
    → has_capacity m (length ts) ≡ true
    → All (λ t. t < length m.registers) ts
    → Reserved m (numbered epoch m.next_measurement ts) m'
    → IsValid m'
Reserved-IsValid m m' epoch ts v room below r =
    let n = m.next_measurement in
    let refs = numbered epoch n ts in
    let added = map entry refs in
    let len : length added ≡ length ts = length-map-entry refs ∙ length-numbered epoch n ts in
    let (fits, fits_fast) = (has_capacity_iff m (length ts) v).0 room in
    let next : m'.next_measurement ≡ n + length ts =
      r.next ∙ ap (λ k. n + k) (length-numbered epoch n ts) in
    let grown : KeysBelow m'.next_measurement added = rw next (KeysBelow-numbered epoch n ts) in
    let old =
      KeysBelow-mono n m'.next_measurement m.fast_pending (omega (arith, next)) v.fresh_fast in
    let both = KeysBelow-append m'.next_measurement m.fast_pending added old grown in
    record {
      small = rw r.config v.small;
      tagged =
          rw (r.pending, r.size)
            (All-append _ m.pending added v.tagged
              (Tagged-numbered (length m.registers) epoch n ts below));
      fresh = rw r.pending (
          KeysBelow-append m'.next_measurement m.pending added
            (KeysBelow-mono n m'.next_measurement m.pending (omega (arith, next)) v.fresh) grown);
      fresh_fast = elim (Bool-cases m.config.fast_feedback) [
        | inl on ↦ rw (r.fast, on) both
        | inr off ↦ rw (r.fast, off) old
      ];
      fits = rw (r.pending, r.config) (omega (arith, length-append m.pending added));
      fits_fast = elim (Bool-cases m.config.fast_feedback) [
        | inl on ↦
            let f = fits_fast on in
            rw (r.fast, r.config, on) (omega (arith, length-append m.fast_pending added))
        | inr off ↦ rw (r.fast, r.config, off) v.fits_fast
      ];
      counted = λ target.
          rw
            (
              r.pending,
              r.counted target,
              count-append (is_for target) m.pending added,
              count-numbered target epoch n ts,
              targets-numbered epoch n ts,
              v.counted target,
            )
            refl;
    }

commit_self :
    (m : MeasurementRegisters) (first : MeasurementReference) (rest : List MeasurementReference)
    → let refs = first ∷ rest in
      prepare_reservation m first.epoch (map target_of refs) ≡ ok refs
      → checked_add m.next_measurement (length refs) ≡ ok (m.next_measurement + length refs)
      → commit_reservation m refs ≡ ok (committed m refs)
unfolding commit_reservation
commit_self m first rest e f = ground (arith, same_references_self (first ∷ rest))

commit-numbered :
    (m : MeasurementRegisters) (epoch : ℕ) (ts : List ℕ)
    → let refs = numbered epoch m.next_measurement ts in
      prepare_reservation m epoch ts ≡ ok refs → commit_reservation m refs ≡ ok (committed m refs)
unfolding commit_reservation emplace_all count_up
commit-numbered m epoch [] e = ground arith
commit-numbered m epoch (t ∷ ts) e =
    let n = m.next_measurement in
    commit_self m (record { epoch = epoch; measurement = n; target = t })
      (numbered epoch (n + 1) ts) (rw (targets-numbered epoch (n + 1) ts) e)
      (rw (length-numbered epoch (n + 1) ts) (prepare_reservation_lem m epoch (t ∷ ts) e).1)

-- A reservation that was prepared is always committed: it appends the references, in order, to the
-- deliveries awaited, and counts each target up by the number of its references.
pub prepare-commit :
    (m : MeasurementRegisters) (epoch : ℕ) (ts : List ℕ) {refs : List MeasurementReference}
    → IsValid m
    → prepare_reservation m epoch ts ≡ ok refs
    → (m' : MeasurementRegisters) × (commit_reservation m refs ≡ ok m')
      × Reserved m refs m'
      × (refs ≡ numbered epoch m.next_measurement ts)
prepare-commit m epoch ts {refs} v e =
    let (room, sum, eq, below) = prepare_reservation_lem m epoch ts e in
    let fits = (has_capacity_iff m (length ts) v).0 room in
    let r = rw (← eq) at (committed-Reserved m epoch ts v fits.0 below) in
    (committed m refs, rw eq (commit-numbered m epoch ts (rw eq at e)), r, eq)

-- Whatever references `commit_reservation` accepts, it keeps the registers valid.
pub commit-IsValid :
    (m : MeasurementRegisters) (refs : List MeasurementReference) {m' : MeasurementRegisters}
    → IsValid m
    → commit_reservation m refs ≡ ok m'
    → IsValid m'
unfolding commit_reservation
commit-IsValid m [] {m'} v e = let same : m ≡ m' = ground arith in subst IsValid same v
commit-IsValid m (first ∷ rest) {m'} v e =
    let refs = first ∷ rest in
    let ts = map target_of refs in
    let (f, eq) = commit_lem m first rest e in
    let (room, sum, shape, below) = prepare_reservation_lem m first.epoch ts f in
    let fits = (has_capacity_iff m (length ts) v).0 room in
    let made : m' ≡ committed m (numbered first.epoch m.next_measurement ts) =
      eq ∙ ap (committed m) shape in
    Reserved-IsValid m m' first.epoch ts v room below
      (rw made (committed-Reserved m first.epoch ts v fits.0 below))
