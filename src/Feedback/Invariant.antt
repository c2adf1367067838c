-- ===== src/Feedback/Invariant.antt =====
-- `MeasurementRegisters`: the invariant, and references that are numbered in order.
use qsbit_sim.Time.{checked_add}
use qsbit_sim.Feedback.{
  MeasurementReference, FeedbackConfig, Register, fresh_register, MeasurementRegisters, init,
  has_capacity, register, prepare_from, same_references, emplace_all, count_up,
}
use native.Mathlib.Nat.{add_assoc}
use mathlib.Core.List.{append_assoc, append-nil}
use qsbit_sim.Base.{
  set, get_or-set_ne, get_or-set_self, ◌==◌, Bool-cases, length, get_or, replicate, count, All,
  length-set, u32_mod, add32, Result-cases, ok, KeysBelow, emplace_last, KeysBelow-mono,
  KeysBelow-append, ℕ, zero, suc, ◌+◌, ◌≤◌, ◌<◌, ◌≡◌, refl, sym, ap, ◌∙◌, ◌↔◌, inl, inr, Bool, true,
  List, [], ◌∷◌, ◌++◌, map, arith,
}

-- The entry of a pending delivery is for a target.
abbrev pub is_for : ℕ → ℕ × MeasurementReference → Bool
is_for target e = e.1.target == target

abbrev pub Tagged : ℕ → List (ℕ × MeasurementReference) → Type 0
Tagged qubits = All (λ e. (e.1.measurement ≡ e.0) × (e.1.target < qubits))

-- Each register counts the pending deliveries of its target, identities are below the next one,
-- and the deliveries fit the capacity that the mailboxes have.
pub record IsValid (m : MeasurementRegisters) : Type 0 where
  pub small : m.config.result_capacity < u32_mod
  pub tagged : Tagged (length m.registers) m.pending
  pub fresh : KeysBelow m.next_measurement m.pending
  pub fresh_fast : KeysBelow m.next_measurement m.fast_pending
  pub fits : length m.pending ≤ m.config.result_capacity
  pub fits_fast : length m.fast_pending ≤ m.config.result_capacity
  pub counted : (target : ℕ) → (register m target).pending ≡ count (is_for target) m.pending

-- What `prepare_reservation` numbers: consecutive identities for the targets in order.
abbrev pub numbered : ℕ → ℕ → List ℕ → List MeasurementReference
numbered epoch n [] = []
numbered epoch n (t ∷ ts) =
    record { epoch = epoch; measurement = n; target = t } ∷ numbered epoch (n + 1) ts

get_or-fresh :
    (n target : ℕ) → get_or (replicate n fresh_register) target fresh_register ≡ fresh_register
get_or-fresh zero target = refl
get_or-fresh (suc n) zero = refl
get_or-fresh (suc n) (suc target) = get_or-fresh n target

-- Without wrap-around: there is room exactly for what the capacity leaves.
pub has_capacity_iff :
    (m : MeasurementRegisters) (n : ℕ)
    → IsValid m
    → (has_capacity m n ≡ true) ↔ (
        (length m.pending + n ≤ m.config.result_capacity)
        × (m.config.fast_feedback ≡ true → length m.fast_pending + n ≤ m.config.result_capacity))
unfolding has_capacity
has_capacity_iff m n v =
    let a = v.small in
    let b = v.fits in
    let c = v.fits_fast in ((λ h. (ground arith, λ f. ground arith)), λ h. ground arith)

init-IsValid : (c : FeedbackConfig) → c.result_capacity < u32_mod → IsValid (init c)
unfolding init
init-IsValid c h = record {
  small = h;
  tagged = tt;
  fresh = tt;
  fresh_fast = tt;
  fits = omega arith;
  fits_fast = omega arith;
  counted = λ target. ap (λ (r : Register). r.pending) (get_or-fresh c.qubits target);
}

pub prepare_from_lem :
    (m : MeasurementRegisters) (epoch : ℕ) (targets ts : List ℕ) (n : ℕ)
    {refs : List MeasurementReference}
    → prepare_from m epoch targets ts n ≡ ok refs
    → (refs ≡ numbered epoch (m.next_measurement + n) ts) × All (λ t. t < length m.registers) ts
unfolding prepare_from checked_add
prepare_from_lem m epoch targets [] n e = ground arith
prepare_from_lem m epoch targets (t ∷ ts) n e =
    elim (Result-cases (prepare_from m epoch targets ts (n + 1))) [
      | inl (more, f) ↦
          ground
            (arith, prepare_from_lem m epoch targets ts (n + 1) f, add_assoc m.next_measurement n 1)
      | inr (c, f) ↦ absurd (ground arith)
    ]

abbrev pub entry : MeasurementReference → ℕ × MeasurementReference
entry r = (r.measurement, r)

abbrev pub target_of : MeasurementReference → ℕ
target_of r = r.target

pub length-numbered : (epoch n : ℕ) (ts : List ℕ) → length (numbered epoch n ts) ≡ length ts
length-numbered epoch n [] = refl
length-numbered epoch n (t ∷ ts) = ap suc (length-numbered epoch (n + 1) ts)

pub targets-numbered : (epoch n : ℕ) (ts : List ℕ) → map target_of (numbered epoch n ts) ≡ ts
targets-numbered epoch n [] = refl
targets-numbered epoch n (t ∷ ts) = ap (λ r. t ∷ r) (targets-numbered epoch (n + 1) ts)

pub length-targets : (refs : List MeasurementReference) → length (map target_of refs) ≡ length refs
length-targets [] = refl
length-targets (r ∷ refs) = ap suc (length-targets refs)

pub length-map-entry : (refs : List MeasurementReference) → length (map entry refs) ≡ length refs
length-map-entry [] = refl
length-map-entry (r ∷ refs) = ap suc (length-map-entry refs)

pub same_references-eq :
    (as' bs : List MeasurementReference)
    → length as' ≡ length bs
    → same_references as' bs ≡ true
    → as' ≡ bs
unfolding same_references
same_references-eq [] [] l h = refl
same_references-eq [] (b ∷ bs) l h = absurd (omega arith)
same_references-eq (a ∷ as') [] l h = absurd (omega arith)
same_references-eq (a ∷ as') (b ∷ bs) l h = ground (arith, same_references-eq as' bs)

pub same_references_self : (as' : List MeasurementReference) → same_references as' as' ≡ true
unfolding same_references
same_references_self [] = refl
same_references_self (a ∷ as') = ground (arith, same_references_self as')

pub emplace_all-numbered :
    (epoch n : ℕ) (ts : List ℕ) (m : List (ℕ × MeasurementReference))
    → KeysBelow n m
    → emplace_all (numbered epoch n ts) m ≡ m ++ map entry (numbered epoch n ts)
unfolding emplace_all
emplace_all-numbered epoch n [] m h = sym (append-nil m)
emplace_all-numbered epoch n (t ∷ ts) m h =
    let r : MeasurementReference = record { epoch = epoch; measurement = n; target = t } in
    ap (emplace_all (numbered epoch (n + 1) ts)) (emplace_last n r m h)
    ∙ emplace_all-numbered epoch (n + 1) ts (m ++ (n, r) ∷ []) (
        KeysBelow-append (n + 1) m ((n, r) ∷ []) (KeysBelow-mono n (n + 1) m (omega arith) h)
          (omega arith, tt))
    ∙ append_assoc m ((n, r) ∷ []) (map entry (numbered epoch (n + 1) ts))

pub KeysBelow-numbered :
    (epoch n : ℕ) (ts : List ℕ) → KeysBelow (n + length ts) (map entry (numbered epoch n ts))
KeysBelow-numbered epoch n [] = tt
KeysBelow-numbered epoch n (t ∷ ts) = (
  omega arith,
  KeysBelow-mono (n + 1 + length ts) (n + suc (length ts)) _ (omega arith)
      (KeysBelow-numbered epoch (n + 1) ts),
)

pub Tagged-numbered :
    (qubits epoch n : ℕ) (ts : List ℕ)
    → All (λ t. t < qubits) ts
    → Tagged qubits (map entry (numbered epoch n ts))
Tagged-numbered qubits epoch n [] h = tt
Tagged-numbered qubits epoch n (t ∷ ts) h =
    ((refl, h.0), Tagged-numbered qubits epoch (n + 1) ts h.1)

pub count-numbered :
    (target epoch n : ℕ) (ts : List ℕ)
    → count (is_for target) (map entry (numbered epoch n ts)) ≡ count (λ t. t == target) ts
count-numbered target epoch n [] = refl
count-numbered target epoch n (t ∷ ts) = omega (arith, count-numbered target epoch (n + 1) ts)

pub length-count_up : (ts : List ℕ) (rs : List Register) → length (count_up ts rs) ≡ length rs
unfolding count_up
length-count_up [] rs = refl
length-count_up (t ∷ ts) rs = length-count_up ts _ ∙ length-set rs t _

-- The counters do not wrap where the final count is a `uint32_t`; the values stay.
pub count_up_lem :
    (ts : List ℕ) (rs : List Register) (target : ℕ)
    → All (λ t. t < length rs) ts
    → (get_or rs target fresh_register).pending + count (λ t. t == target) ts < u32_mod
    → ((get_or (count_up ts rs) target fresh_register).pending
        ≡ (get_or rs target fresh_register).pending + count (λ t. t == target) ts)
      × ((get_or (count_up ts rs) target fresh_register).value
          ≡ (get_or rs target fresh_register).value)
unfolding count_up
count_up_lem [] rs target h b = (omega arith, refl)
count_up_lem (t ∷ ts) rs target h b =
    let old = get_or rs t fresh_register in
    let new : Register = record old { pending = add32 old.pending 1 } in
    let size = length-set rs t new in
    let ih = count_up_lem ts (set rs t new) target (rw size h.1) in
    elim (Bool-cases (t == target)) [
      | inl same ↦
          let here : t ≡ target = ground arith in
          let self : get_or (set rs t new) target fresh_register ≡ new =
            rw (← here) (get_or-set_self rs t new fresh_register h.0) in
          (ground (arith, ih, self), ground (arith, ih, self))
      | inr other ↦
          let stays = get_or-set_ne rs t target new fresh_register (λ e. ground arith) in
          (ground (arith, ih, stays), ground (arith, ih, stays))
    ]
