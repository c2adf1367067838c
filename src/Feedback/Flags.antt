-- ===== src/Feedback/Flags.antt =====
-- `ExecutionFlags`: what the flags of a qubit say after its results.
use qsbit_sim.Feedback.{
  ExecutionFlag, last_one, last_zero, equal, Completion, FlagRegister, fresh_flags, ExecutionFlags,
  evaluate, same_bool, commit,
}
use qsbit_sim.Base.{
  ◌==◌, get_or, length-set, get_or-set_self, get_or-set_ne, ok, ℕ, ◌≡◌, sym, ◌≢◌, not, ◌&&◌, arith,
}

abbrev pub flags_at : ExecutionFlags → ℕ → FlagRegister
flags_at flags target = get_or flags target fresh_flags

-- A result of the current epoch that is accepted sets the flags of its target: `LastOne` is the
-- value, `LastZero` its negation, and `Equal` holds if there was a result before it with the same
-- value. The flags of every other target stay.
pub commit-evaluate :
    (flags : ExecutionFlags) (c : Completion) (epoch : ℕ) {flags' : ExecutionFlags}
    → c.reference.epoch ≡ epoch
    → commit flags c epoch ≡ ok flags'
    → let target = c.reference.target in
      let old = flags_at flags target in
      (evaluate flags' target last_one ≡ ok c.value)
      × (evaluate flags' target last_zero ≡ ok (not c.value))
      × (evaluate flags' target equal
          ≡ ok (not (old.last_measurement == 0) && same_bool old.last_one c.value))
      × ((other : ℕ) (flag : ExecutionFlag)
          → other ≢ target
          → evaluate flags' other flag ≡ evaluate flags other flag)
unfolding commit evaluate
commit-evaluate flags c epoch h e =
    let target = c.reference.target in
    let new : FlagRegister = record {
      last_measurement = c.reference.measurement;
      last_one = c.value;
      last_zero = not c.value;
      equal =
          not ((flags_at flags target).last_measurement == 0)
          && same_bool (flags_at flags target).last_one c.value;
    } in
    let self = get_or-set_self flags target new fresh_flags in
    let size = length-set flags target new in
    (
      ground (arith, self, size),
      ground (arith, self, size),
      ground (arith, self, size),
      λ other flag ne.
          ground (arith, size, get_or-set_ne flags target other new fresh_flags (λ p. ne (sym p))),
    )
