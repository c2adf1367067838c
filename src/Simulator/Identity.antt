-- ===== src/Simulator/Identity.antt =====
-- src/simulator.cpp: the identities that the measurements of the cores have in the device.
use mathlib.Core.Path.{subst}
use native.Mathlib.Nat.{mul-add-mod_self_right, mul-add-div_right, mod-eq_of_lt, div-eq_of_lt}
use qsbit_sim.Time.{checked_add, checked_mul}
use qsbit_sim.Feedback.{MeasurementReference}
use qsbit_sim.Simulator.{global_id, global_reference, local_completion}
use qsbit_sim.Base.{
  lt→ltb, >>=-eq-ok, ok, ℕ, ◌+◌, ◌-◌, ◌*◌, ◌/◌, ◌%◌, ◌<◌, ◌≡◌, refl, ◌∙◌, Bool, some, arith,
}

scaled_index : (cores index n : ℕ) → index < cores → (n * cores + index) % cores ≡ index
scaled_index cores index n h = mul-add-mod_self_right n cores index ∙ mod-eq_of_lt h

scaled_quotient : (cores index n : ℕ) → index < cores → (n * cores + index) / cores ≡ n
scaled_quotient cores index n h =
    let q : (n * cores + index) / cores ≡ n + index / cores =
      mul-add-div_right (omega arith) n index in
    let z : index / cores ≡ 0 = div-eq_of_lt h in omega arith

global_id-eq :
    (cores index id g : ℕ)
    → global_id cores index id ≡ ok g
    → (0 < id) × (g ≡ (id - 1) * cores + index + 1)
unfolding global_id checked_mul checked_add
global_id-eq cores index id g e = ground arith

-- A result goes back to the core whose acquisition it belongs to, under the identity that the
-- measurement has there, whatever identity the device knows it by.
pub local_completion-global_reference :
    (cores index : ℕ) (r r' : MeasurementReference) (value : Bool)
    → global_reference cores index (some r) ≡ ok (some r')
    → index < cores
    → local_completion cores (record { reference = r'; value = value })
      ≡ ok (index, record { reference = r; value = value })
unfolding global_reference local_completion
local_completion-global_reference cores index r r' value e h =
    let (g, k, e') = >>=-eq-ok (global_id cores index r.measurement) _ e in
    let (positive, eq) = global_id-eq cores index r.measurement g k in
    let n = r.measurement - 1 in
    let m = scaled_index cores index n h in
    let d = scaled_quotient cores index n h in
    let made : record r { measurement = g } ≡ r' = ground arith in
    let found : g - 1 ≡ n * cores + index = omega arith in
    let back : n + 1 ≡ r.measurement = omega arith in
    let seen = lt→ltb 0 g (omega arith) in
    subst
      (λ (x : MeasurementReference).
        local_completion cores (record { reference = x; value = value })
        ≡ ok (index, record { reference = r; value = value }))
      made (rw (seen, found, m, d, back) refl)
