-- ===== src/Device/Readouts/Results.antt =====
-- src/device/readouts.cpp: a sample is the result of its measurement.
use qsbit_sim.Device.Readouts.{Readout, Readouts, at, sample, result_of}
use mathlib.Core.Path.{subst}
use qsbit_sim.Base.{>>=-eq-ok, ok, find, assign, ℕ, ◌≡◌, refl, Bool, some, List, [], ◌∷◌, arith}

find-assign : (k : ℕ) (v : Readout) (m : List (ℕ × Readout)) → find k (assign k v m) ≡ some v
find-assign k v [] = ground arith
find-assign k v ((i, w) ∷ m) = ground (arith, find-assign k v m)

result_of-assign :
    (p : Readouts) (measurement : ℕ) (r : Readout) (value : Bool)
    → result_of
        (record { pending = assign measurement (record r { sampled = some value }) p.pending })
        measurement
      ≡ ok (record { reference = r.reference; value = value })
unfolding result_of at
result_of-assign p measurement r value =
    rw (find-assign measurement (record r { sampled = some value }) p.pending, result_of, at) refl

-- The value sampled for a measurement is its result, under the reference of the readout.
pub result_of-sample :
    (p p' : Readouts) (measurement : ℕ) (value : Bool)
    → sample p measurement value ≡ ok p'
    → (r : Readout) × (at p measurement ≡ ok r)
      × (result_of p' measurement ≡ ok (record { reference = r.reference; value = value }))
unfolding sample result_of at
result_of-sample p p' measurement value h =
    let (r, e, h') = >>=-eq-ok (at p measurement) _ h in
    let r' : Readout = record r { sampled = some value } in
    let made : record { pending = assign measurement r' p.pending } ≡ p' = ground arith in
    (
      r,
      e,
      subst
          (λ (x : Readouts).
            result_of x measurement ≡ ok (record { reference = r.reference; value = value }))
          made (result_of-assign p measurement r value),
    )
