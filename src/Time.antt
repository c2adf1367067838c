-- ===== src/Time.antt =====
-- include/qsbit/time.hpp: ticks with overflow checks, and clocks with a period and a phase.
pub mod Edges
use qsbit_sim.Base.{
  ℕ, ◌+◌, ◌-◌, ◌*◌, ◌/◌, ◌%◌, Bool, ◌&&◌, ◌||◌, ltb, leb, ◌==◌, if◌then◌else◌, u64_max, Result, ok,
  time_overflow, invalid_profile, require, ◌>>=◌, ◌>>◌,
}

unfoldable pub checked_add : ℕ → ℕ → Result ℕ
checked_add a b = do require (leb b (u64_max - a)) time_overflow; ok (a + b)

unfoldable pub checked_mul : ℕ → ℕ → Result ℕ
checked_mul a b = do require (a == 0 || leb b (u64_max / a)) time_overflow; ok (a * b)

pub record Clock : Type 0 where
  pub period : ℕ
  pub phase : ℕ

unfoldable pub validate : Clock → Result (Unit {0})
validate c = require (ltb 0 c.period && ltb c.phase c.period) invalid_profile

unfoldable pub edge : Clock → ℕ → Bool
edge c t = leb c.phase t && (t - c.phase) % c.period == 0

-- `phase + ((publication - phase) / period + 1) * period`.
unfoldable pub next_edge : Clock → ℕ → Result ℕ
next_edge c publication = do
  n ← checked_add ((publication - c.phase) / c.period) 1
  m ← checked_mul n c.period
  checked_add c.phase m

-- The edge that stands `latency` edges after a publication.
unfoldable pub after : Clock → ℕ → ℕ → Result ℕ
unfolding next_edge
after c publication latency = do
  validate c
  require (ltb 0 latency) invalid_profile
  first ← if leb c.phase publication then next_edge c publication else ok c.phase
  more ← checked_mul (latency - 1) c.period
  checked_add first more
