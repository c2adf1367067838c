-- ===== src/Tests/Registers.antt =====
-- src/feedback.cpp at concrete inputs.
use qsbit_sim.Time.{checked_add}
use qsbit_sim.Feedback.{
  same_references, prepare_from, emplace_all, count_up, MeasurementReference, Completion,
  FeedbackConfig, fresh_register, MeasurementRegisters, register, has_capacity, prepare_reservation,
  commit_reservation, deliver, read, ExecutionFlag, last_one, last_zero, equal, fresh_flags,
  ExecutionFlags, evaluate, commit,
}
use qsbit_sim.Feedback.Invariant.{IsValid, numbered}
use qsbit_sim.Feedback.Reserve.{prepare-commit, commit-IsValid, Reserved}
use qsbit_sim.Feedback.Deliver.{deliver-IsValid, read-deliver}
use qsbit_sim.Feedback.Flags.{commit-evaluate}
use qsbit_sim.Base.{ok, ℕ, zero, suc, ◌≡◌, refl, ◌≢◌, true, false, some, [], ◌∷◌, arith}

abbrev config : FeedbackConfig
config = record { qubits = 2; result_capacity = 4; fast_feedback = true }

abbrev empty : MeasurementRegisters
empty = record {
  config = config;
  registers = fresh_register ∷ fresh_register ∷ [];
  pending = [];
  fast_pending = [];
  next_measurement = 1;
}

none_counted : (target : ℕ) → (register empty target).pending ≡ 0
none_counted zero = refl
none_counted (suc zero) = refl
none_counted (suc (suc target)) = refl

empty-IsValid : IsValid empty
empty-IsValid = record {
  small = omega arith;
  tagged = tt;
  fresh = tt;
  fresh_fast = tt;
  fits = omega arith;
  fits_fast = omega arith;
  counted = none_counted;
}

abbrev reference : MeasurementReference
reference = record { epoch = 1; measurement = 1; target = 0 }

abbrev completion : Completion
completion = record { reference = reference; value = true }

-- One measurement of qubit 0 is awaited.
abbrev awaiting : MeasurementRegisters
awaiting = record {
  config = config;
  registers = record { pending = 1; value = false } ∷ fresh_register ∷ [];
  pending = (1, reference) ∷ [];
  fast_pending = (1, reference) ∷ [];
  next_measurement = 2;
}

abbrev delivered : MeasurementRegisters
delivered = record {
  config = config;
  registers = record { pending = 0; value = true } ∷ fresh_register ∷ [];
  pending = [];
  fast_pending = (1, reference) ∷ [];
  next_measurement = 2;
}

prepare-commit_example :
    (m' : MeasurementRegisters) × (commit_reservation empty (reference ∷ []) ≡ ok m')
    × Reserved empty (reference ∷ []) m'
    × ((reference ∷ []) ≡ numbered 1 1 (0 ∷ []))
unfolding prepare_reservation has_capacity checked_add prepare_from
prepare-commit_example = prepare-commit empty 1 (0 ∷ []) empty-IsValid refl

commit-IsValid_example : IsValid awaiting
unfolding commit_reservation prepare_reservation has_capacity checked_add prepare_from
    same_references count_up emplace_all
commit-IsValid_example = commit-IsValid empty (reference ∷ []) empty-IsValid refl

-- What `commit-IsValid` says of these registers, for the deliveries.
awaiting-IsValid : IsValid awaiting
unfolding commit_reservation prepare_reservation has_capacity checked_add prepare_from
    same_references count_up emplace_all
awaiting-IsValid = commit-IsValid empty (reference ∷ []) empty-IsValid refl

deliver-IsValid_example : IsValid delivered
unfolding deliver
deliver-IsValid_example = deliver-IsValid awaiting completion 1 awaiting-IsValid refl

read-deliver_example : read delivered 0 ≡ ok (some true)
unfolding deliver
read-deliver_example = read-deliver awaiting completion awaiting-IsValid refl refl

abbrev flags : ExecutionFlags
flags = fresh_flags ∷ fresh_flags ∷ []

abbrev flags_after : ExecutionFlags
flags_after =
    record { last_measurement = 1; last_one = true; last_zero = false; equal = false }
    ∷ fresh_flags
    ∷ []

commit-evaluate_example :
    (evaluate flags_after 0 last_one ≡ ok true)
    × (evaluate flags_after 0 last_zero ≡ ok false)
    × (evaluate flags_after 0 equal ≡ ok false)
    × ((other : ℕ) (flag : ExecutionFlag)
        → other ≢ 0
        → evaluate flags_after other flag ≡ evaluate flags other flag)
unfolding commit
commit-evaluate_example = commit-evaluate flags completion 1 refl refl
