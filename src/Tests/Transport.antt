-- ===== src/Tests/Transport.antt =====
-- include/qsbit/time.hpp, include/qsbit/mailbox.hpp and src/sync.cpp at concrete inputs.
use qsbit_sim.Time.{validate, checked_mul, checked_add, Clock, edge, after}
use qsbit_sim.Time.Edges.{IsFirstAfter, after-IsNth}
use qsbit_sim.Mailbox.{Envelope, Mailbox, publish, take}
use qsbit_sim.Mailbox.Queue.{Call, publishes, takes, messages, published, run-messages}
use qsbit_sim.Mailbox.Delivery.{IsValid, publish-IsValid, take-none}
use qsbit_sim.Sync.{Booking, Link, SyncNetwork, SyncUnit, step}
use qsbit_sim.Sync.Rendezvous.{step-completes}
use qsbit_sim.Trace.{Events}
use qsbit_sim.Base.{
  ok, ℕ, ◌+◌, ◌-◌, ◌*◌, ◌≤◌, ◌<◌, ◌≡◌, refl, ◌↔◌, ◌⊎◌, Bool, true, false, none, some, List, [], ◌∷◌,
  ◌++◌, arith,
}

abbrev clock : Clock
clock = record { period = 4; phase = 0 }

after-IsNth_example :
    (first : ℕ) × IsFirstAfter clock 5 first
    × (0 < 2)
    × (edge clock 12 ≡ true)
    × (12 ≡ first + (2 - 1) * 4)
unfolding after validate checked_add checked_mul
after-IsNth_example = after-IsNth clock 5 2 refl

abbrev message : ℕ → ℕ → ℕ → Envelope ℕ
message published eligible value = record {
  published = published;
  eligible = eligible;
  epoch = 1;
  value = value;
}

abbrev mailbox : List (Envelope ℕ) → Mailbox ℕ
mailbox entries = record { capacity = 2; receiver = clock; latency = 1; entries = entries }

one_message-IsValid : IsValid (mailbox (message 3 4 7 ∷ []))
unfolding after validate checked_add checked_mul
one_message-IsValid = record { bounded = omega arith; timed = (refl, tt); ordered = tt }

publish-IsValid_example : IsValid (mailbox (message 3 4 7 ∷ message 5 8 9 ∷ []))
unfolding publish after validate checked_add checked_mul
publish-IsValid_example =
    publish-IsValid (mailbox (message 3 4 7 ∷ [])) 5 1 9 one_message-IsValid refl

take-none_example : (3 < 4) × Unit {0}
unfolding take
take-none_example = take-none (mailbox (message 3 4 7 ∷ [])) 3 one_message-IsValid refl

abbrev calls : List (Call ℕ)
calls = publishes 5 1 9 ∷ takes 6 ∷ []

run-messages_example :
    messages (mailbox (message 3 4 7 ∷ [])) ++ published calls
    ≡ ((3, 1, 7) ∷ []) ++ messages (mailbox (message 5 8 9 ∷ []))
unfolding publish take after validate checked_add checked_mul
run-messages_example =
    run-messages calls (mailbox (message 3 4 7 ∷ [])) (mailbox (message 5 8 9 ∷ []))
      ((3, 1, 7) ∷ []) refl

abbrev link : ℕ → ℕ → ℕ → ℕ → Link
link source target delay arrival = record {
  source = source;
  target = target;
  delay = delay;
  capacity = 2;
  signals = record { arrival = arrival; consumed = none } ∷ [];
}

abbrev network : ℕ → ℕ → ℕ → ℕ → SyncNetwork
network source target delay arrival = record {
  clock = clock;
  links = link source target delay arrival ∷ [];
}

abbrev booking : ℕ → ℕ → Booking
booking target deadline = record { target = target; deadline = deadline; received = false }

abbrev unit : ℕ → Booking → SyncUnit
unit core b = record { core = core; pending = some b }

-- The signal has been received, and the deadline is still to come.
abbrev received : Booking
received = record (booking 1 8) { received = true }

step-completes_example :
    (r : Bool × SyncUnit × SyncNetwork × Events) × (step (unit 0 received) (network 1 0 4 12) 8 1
      ≡ ok r)
    × ((r.1.pending ≡ none) ↔ (8 ≤ 8) × (true ≡ true))
    × ((r.0 ≡ true) ↔ (8 ≤ 8) × (true ≡ false))
    × ((r.1.pending ≡ none) ⊎ (r.1.pending ≡ some received))
step-completes_example =
    step-completes (unit 0 received) (network 1 0 4 12) received (link 1 0 4 12) 8 1 refl
      (ground arith)
