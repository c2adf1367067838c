-- ===== src/Time/Edges.antt =====
-- The edges of a clock, and which of them `after` returns.
use qsbit_sim.Base.{
  leb, if◌then◌else◌, Bool-cases, u64_max, ok, ℕ, ◌+◌, ◌-◌, ◌*◌, ◌/◌, ◌%◌, ◌≤◌, ◌<◌, ◌≡◌, ◌∙◌, inl,
  inr, true, arith,
}
use native.Mathlib.Nat.{
  add-mul-mod_self_right, zero-mod, div-mul-le_self, lt-div-mul-add, mod-eq-sub-div-mul,
  div-lt_iff_lt-mul, mul-le-mul_right,
}
use mathlib.Core.Path.{subst}
use qsbit_sim.Time.{checked_add, checked_mul, Clock, validate, edge, next_edge, after}

pub checked_add-eq_ok : (a b : ℕ) → a ≤ u64_max → b ≤ u64_max - a → checked_add a b ≡ ok (a + b)
unfolding checked_add
checked_add-eq_ok a b h k = ground arith

pub checked_add_value : (a b : ℕ) {n : ℕ} → checked_add a b ≡ ok n → n ≡ a + b
unfolding checked_add
checked_add_value a b e = ground arith

pub checked_add-le_max :
    (a b : ℕ) {n : ℕ} → a ≤ u64_max → checked_add a b ≡ ok n → (n ≡ a + b) × (n ≤ u64_max)
unfolding checked_add
checked_add-le_max a b h e = ground arith

pub checked_mul_value : (a b : ℕ) {n : ℕ} → checked_mul a b ≡ ok n → n ≡ a * b
unfolding checked_mul
checked_mul_value a b e = ground arith

-- A publication at or after the phase is read at the next multiple of the period from the phase.
pub next_edge_value :
    (c : Clock) (t : ℕ) {n : ℕ}
    → next_edge c t ≡ ok n
    → n ≡ c.phase + ((t - c.phase) / c.period + 1) * c.period
unfolding next_edge checked_add checked_mul
next_edge_value c t e = ground arith

-- The tick that `after` returns, by the branches of the code.
pub after_value :
    (c : Clock) (t latency : ℕ) {n : ℕ}
    → after c t latency ≡ ok n
    → (0 < c.period)
      × (c.phase < c.period)
      × (0 < latency)
      × (n
          ≡ (if leb c.phase t then c.phase + ((t - c.phase) / c.period + 1) * c.period else c.phase)
            + (latency - 1) * c.period)
unfolding after checked_add checked_mul validate next_edge
after_value c t latency e = ground arith

mul-mod_self : (k p : ℕ) → k * p % p ≡ 0
mul-mod_self k p =
    let e : k * p ≡ 0 + k * p = omega arith in rw e (add-mul-mod_self_right 0 k p ∙ zero-mod p)

edge-multiple : (c : Clock) (k : ℕ) → edge c (c.phase + k * c.period) ≡ true
unfolding edge
edge-multiple c k =
    let e : c.phase + k * c.period - c.phase ≡ k * c.period = omega arith in
    rw e (ground (arith, mul-mod_self k c.period))

-- A tick is the first edge of a clock after another tick.
abbrev pub IsFirstAfter : Clock → (t first : ℕ) → Type 0
IsFirstAfter c t first =
    (edge c first ≡ true) × (t < first) × ((x : ℕ) → edge c x ≡ true → t < x → first ≤ x)

edge_value :
    (c : Clock) (x : ℕ) → edge c x ≡ true → x ≡ c.phase + ((x - c.phase) / c.period) * c.period
unfolding edge
edge_value c x e =
    let y = x - c.phase in
    let below = div-mul-le_self y c.period in
    let at : (c.phase ≤ x) × (y % c.period ≡ 0) = ground arith in
    omega (arith, mod-eq-sub-div-mul y c.period, at.0, at.1)

edge-after :
    (c : Clock) (t x : ℕ)
    → 0 < c.period
    → c.phase ≤ t
    → edge c x ≡ true
    → t < x
    → c.phase + ((t - c.phase) / c.period + 1) * c.period ≤ x
edge-after c t x pos h e l =
    let k = (x - c.phase) / c.period in
    let value = edge_value c x e in
    let later : (t - c.phase) / c.period < k = (div-lt_iff_lt-mul pos).1 (omega arith) in
    let product : ((t - c.phase) / c.period + 1) * c.period ≤ k * c.period =
      mul-le-mul_right c.period (omega (arith, later)) in
    omega arith

edge-more : (c : Clock) (x k : ℕ) → edge c x ≡ true → edge c (x + k * c.period) ≡ true
edge-more c x k e =
    let j = (x - c.phase) / c.period in
    let value = edge_value c x e in
    let multiple : x + k * c.period ≡ c.phase + (j + k) * c.period = omega arith in
    rw multiple (edge-multiple c (j + k))

edge-ge_phase : (c : Clock) (x : ℕ) → edge c x ≡ true → c.phase ≤ x
unfolding edge
edge-ge_phase c x e = ground arith

first-IsFirstAfter :
    (c : Clock) (t : ℕ)
    → 0 < c.period
    → IsFirstAfter c t
        (if leb c.phase t then c.phase + ((t - c.phase) / c.period + 1) * c.period else c.phase)
first-IsFirstAfter c t pos = elim (Bool-cases (leb c.phase t)) [
  | inl b ↦
      let h : c.phase ≤ t = ground arith in
      let high = lt-div-mul-add {a = t - c.phase} pos in
      rw b (
        edge-multiple c ((t - c.phase) / c.period + 1),
        omega arith,
        λ x e l. edge-after c t x pos h e l,
      )
  | inr b ↦
      let zeroth : c.phase + 0 * c.period ≡ c.phase = omega arith in
      rw b (
        subst (λ x. edge c x ≡ true) zeroth (edge-multiple c 0),
        ground arith,
        λ x e l. edge-ge_phase c x e,
      )
]

-- The tick that `after` returns is the `latency`-th edge of the clock after the publication: that
-- many periods less one after the first edge that comes after it.
pub after-IsNth :
    (c : Clock) (t latency : ℕ) {n : ℕ}
    → after c t latency ≡ ok n
    → (first : ℕ) × IsFirstAfter c t first
      × (0 < latency)
      × (edge c n ≡ true)
      × (n ≡ first + (latency - 1) * c.period)
after-IsNth c t latency e =
    let (pos, below, late, v) = after_value c t latency e in
    let h = first-IsFirstAfter c t pos in (_, h, late, rw v (edge-more c _ (latency - 1) h.0), v)
