-- ===== src/Mailbox.antt =====
-- include/qsbit/mailbox.hpp: a bounded queue whose messages become readable on an edge of the
-- receiver's clock.
pub mod Delivery
pub mod Queue
use qsbit_sim.Time.{Clock, validate, after}
use qsbit_sim.Base.{
  ltb, leb, ◌==◌, if◌then◌else◌, length, null, ◌>>=◌, ◌>>◌, require, ErrorCode, Result,
  invalid_profile, protocol, ok, ℕ, Bool, true, not, ◌||◌, Option, none, some, List, [], ◌∷◌, ◌++◌,
}

pub record Envelope {ℓ} (A : Type ℓ) : Type ℓ where
  pub published : ℕ
  pub eligible : ℕ
  pub epoch : ℕ
  pub value : A

-- `entries` is the deque `entries_`, oldest first.
pub record Mailbox {ℓ} (A : Type ℓ) : Type ℓ where
  pub capacity : ℕ
  pub receiver : Clock
  pub latency : ℕ
  pub entries : List (Envelope A)

module _ {ℓ} {A : Type ℓ} where
  unfoldable pub init : ℕ → Clock → ℕ → Result (Mailbox A)
  init bound receiver latency = do
    require (ltb 0 bound) invalid_profile
    validate receiver
    require (ltb 0 latency) invalid_profile
    ok (record { capacity = bound; receiver = receiver; latency = latency; entries = [] })

  unfoldable pub is_full : Mailbox A → Bool
  is_full m = length m.entries == m.capacity

  unfoldable pub is_empty : Mailbox A → Bool
  is_empty m = null m.entries

  -- `entries_.empty() || now >= entries_.back().published`.
  abbrev pub in_order : ℕ → List (Envelope A) → Bool
  in_order now [] = true
  in_order now (x ∷ []) = leb x.published now
  in_order now (x ∷ y ∷ rest) = in_order now (y ∷ rest)

  unfoldable pub publish : Mailbox A → ℕ → ℕ → A → Result (Mailbox A)
  unfolding is_full
  publish m now epoch value = do
    require (not (is_full m)) ErrorCode.capacity
    eligible ← after m.receiver now m.latency
    require (in_order now m.entries) protocol
    ok (record m {
      entries =
          m.entries
          ++ record { published = now; eligible = eligible; epoch = epoch; value = value } ∷ [];
    })

  peek_from : List (Envelope A) → ℕ → Option (Envelope A)
  peek_from [] now = none
  peek_from (x ∷ rest) now = if leb x.eligible now then some x else none

  unfoldable pub peek : Mailbox A → ℕ → Option (Envelope A)
  unfolding peek_from
  peek m now = peek_from m.entries now

  unfoldable pub take_from : List (Envelope A) → ℕ → Option (Envelope A × List (Envelope A))
  take_from [] now = none
  take_from (x ∷ rest) now = if leb x.eligible now then some (x, rest) else none

  -- The message and the mailbox without it; a mailbox with nothing to read stays as it is.
  unfoldable pub take : Mailbox A → ℕ → Option (Envelope A) × Mailbox A
  unfolding take_from
  take m now = elim (take_from m.entries now) [
    | none ↦ (none, m)
    | some (x, rest) ↦ (some x, record m { entries = rest })
  ]

  unfoldable pub reset : Mailbox A → Mailbox A
  reset m = record m { entries = [] }
