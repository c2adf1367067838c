-- ===== src/Sync/Rendezvous.antt =====
-- src/sync.cpp: when a booked synchronization completes.
use qsbit_sim.Trace.{Events}
use qsbit_sim.Sync.{
  received_event, Link, SyncNetwork, find_link, put_link, consume, receive, Booking, SyncUnit,
  Signal, finish, step_booking, step,
}
use qsbit_sim.Base.{
  leb, if◌then◌else◌, is_some, Bool-cases, Option-cases, any, All, ◌>>=◌, Result, ok, ℕ, ◌≤◌, ◌≡◌,
  refl, ◌↔◌, ◌⊎◌, inl, inr, Bool, true, false, not, ◌&&◌, ◌||◌, none, some, List, [], ◌∷◌, arith,
}

-- A unit steps on a pending booking whose partner's signal arrives at a given tick.
pub record Waits (u : SyncUnit) (n : SyncNetwork) (b : Booking) (arrival : ℕ) : Type 0 where
  pub link : Link
  pub booking : u.pending ≡ some b
  pub open_booking : b.received ≡ false
  pub found : find_link b.target u.core n.links ≡ some link
  pub only : link.signals ≡ record { arrival = arrival; consumed = none } ∷ []

-- What a step of a waiting unit returns, by whether the deadline has passed and the signal has come.
abbrev outcome :
    SyncUnit → SyncNetwork → Booking → Link → ℕ → ℕ → ℕ → Bool × SyncUnit × SyncNetwork × Events
outcome u n b l arrival now epoch =
    if leb arrival now
    then (let (paused, u', events) = finish u (record b { received = true }) now epoch in
        (
          paused,
          u',
          record n {
            links =
                put_link
                  (record l { signals = record { arrival = arrival; consumed = some now } ∷ [] })
                  n.links;
          },
          received_event now epoch arrival b.target ∷ events,
        ))
    else (let (paused, u', events) = finish u b now epoch in (paused, u', n, events))

-- Whether the signal that a booking waits for has come: received before, or on the link by now.
abbrev pub has_arrived : (now : ℕ) → Booking → Link → Bool
has_arrived now b l =
    b.received || any (λ (s : Signal). not (is_some s.consumed) && leb s.arrival now) l.signals

is_some-consume :
    (now : ℕ) (signals : List Signal)
    → is_some (consume now signals)
      ≡ any (λ (s : Signal). not (is_some s.consumed) && leb s.arrival now) signals
unfolding consume
is_some-consume now [] = refl
is_some-consume now (s ∷ rest) = ground (arith, is_some-consume now rest)

-- One step of a unit with a booking, whatever signals are on the link and whether or not one was
-- received. The synchronization completes exactly if the deadline has passed and the signal has
-- come; the timer pauses exactly if the deadline has passed and the signal has not come. A booking
-- that does not complete stays, and remembers the signal.
pub step-completes :
    (u : SyncUnit) (n : SyncNetwork) (b : Booking) (l : Link) (now epoch : ℕ)
    → u.pending ≡ some b
    → find_link b.target u.core n.links ≡ some l
    → (r : Bool × SyncUnit × SyncNetwork × Events) × (step u n now epoch ≡ ok r)
      × ((r.1.pending ≡ none) ↔ (b.deadline ≤ now) × (has_arrived now b l ≡ true))
      × ((r.0 ≡ true) ↔ (b.deadline ≤ now) × (has_arrived now b l ≡ false))
      × ((r.1.pending ≡ none) ⊎ (r.1.pending ≡ some (record b { received = has_arrived now b l })))
unfolding step step_booking receive finish
step-completes u n b l now epoch e f =
    let some_arrived = is_some-consume now l.signals in
    elim (Bool-cases b.received) [
      | inl r ↦
          let (paused, u', events) = finish u b now epoch in
          ((paused, u', n, events), ground arith, ground arith, ground arith, ground arith)
      | inr r ↦ elim (Option-cases (consume now l.signals)) [
        | inl c ↦
            let (paused, u', events) = finish u b now epoch in
            ((paused, u', n, events), ground arith, ground arith, ground arith, ground arith)
        | inr ((arrival, signals), c) ↦
            let (paused, u', events) = finish u (record b { received = true }) now epoch in
            (
              (
                paused,
                u',
                record n { links = put_link (record l { signals = signals }) n.links },
                received_event now epoch arrival b.target ∷ events,
              ),
              ground arith,
              ground arith,
              ground arith,
              ground arith,
            )
      ]
    ]

abbrev pub is_free : SyncUnit → Bool
is_free u = not (is_some u.pending)

-- The steps of a unit on a list of ticks.
abbrev pub run :
    SyncUnit → SyncNetwork → (ticks : List ℕ) → (epoch : ℕ) → Result (SyncUnit × SyncNetwork)
run u n [] epoch = ok (u, n)
run u n (now ∷ ticks) epoch = do
  (paused, u', n', events) ← step u n now epoch
  run u' n' ticks epoch

abbrev pub Ascends : List ℕ → Type 0
Ascends [] = Unit
Ascends (t ∷ ts) = All (λ t'. t ≤ t') ts × Ascends ts
