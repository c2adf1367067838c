-- ===== src/Sync.antt =====
-- include/qsbit/sync.hpp and src/sync.cpp: signals between neighbouring controllers, and the unit
-- that stops a controller's timer until its neighbour's signal has come.
pub mod Rendezvous
use qsbit_sim.Time.{Clock, validate, edge, checked_add, checked_mul}
use qsbit_sim.Trace.{TraceEvent, event, Events}
use qsbit_sim.Base.{
  capacity, ltb, leb, ◌==◌, if◌then◌else◌, is_some, length, all, keep, null, ◌>>=◌, ◌>>◌, require,
  Result, invalid_profile, unsupported_synchronization, protocol, ok, fault, ℕ, Bool, true, false,
  not, ◌&&◌, ◌||◌, Option, none, some, List, [], ◌∷◌, ◌++◌, map,
}

pub record SyncConnection : Type 0 where
  pub first : ℕ
  pub second : ℕ
  pub first_to_second : ℕ
  pub second_to_first : ℕ
  pub capacity : ℕ

pub record Signal : Type 0 where
  pub arrival : ℕ
  pub consumed : Option ℕ

pub record Link : Type 0 where
  pub source : ℕ
  pub target : ℕ
  pub delay : ℕ
  pub capacity : ℕ
  pub signals : List Signal

-- `links` is the map `links_`; the key of a link is its source and target.
pub record SyncNetwork : Type 0 where
  pub clock : Clock
  pub links : List Link

abbrev pub is_link : ℕ → ℕ → Link → Bool
is_link source target l = l.source == source && l.target == target

abbrev pub find_link : ℕ → ℕ → List Link → Option Link
find_link source target [] = none
find_link source target (l ∷ ls) =
    if is_link source target l then some l else find_link source target ls

-- `links_.at(key)` is changed in place.
abbrev pub put_link : Link → List Link → List Link
put_link new [] = []
put_link new (l ∷ ls) =
    let rest = put_link new ls in if is_link new.source new.target l then new ∷ ls else l ∷ rest

unfoldable pub add_link : Clock → ℕ → ℕ → ℕ → ℕ → List Link → Result (List Link)
add_link clock source target cycles bound links = do
  delay ← checked_mul cycles clock.period
  require (not (is_some (find_link source target links))) invalid_profile
  ok (
      links
      ++ record { source = source; target = target; delay = delay; capacity = bound; signals = [] }
        ∷ [])

unfoldable pub add_connections : Clock → List SyncConnection → List Link → Result (List Link)
unfolding add_link
add_connections clock [] links = ok links
add_connections clock (c ∷ rest) links = do
  require
      (not (c.first == c.second)
        && (ltb 0 c.capacity && (ltb 0 c.first_to_second && ltb 0 c.second_to_first)))
      invalid_profile
  forward ← add_link clock c.first c.second c.first_to_second c.capacity links
  both ← add_link clock c.second c.first c.second_to_first c.capacity forward
  add_connections clock rest both

unfoldable pub init : Clock → List SyncConnection → Result SyncNetwork
unfolding add_connections
init clock connections = do
  validate clock
  links ← add_connections clock connections []
  ok (record { clock = clock; links = links })

unfoldable pub delay : SyncNetwork → ℕ → ℕ → Result ℕ
delay n source target = elim (find_link source target n.links) [
  | none ↦ fault unsupported_synchronization
  | some l ↦ ok l.delay
]

-- `s.consumed && *s.consumed < now`.
abbrev pub is_spent : ℕ → Signal → Bool
is_spent now s = elim s.consumed [ none ↦ false | some t ↦ ltb t now ]

-- The link as `preflight` leaves it, without the signals consumed before this tick.
unfoldable pub preflight_link : SyncNetwork → ℕ → ℕ → ℕ → Result Link
preflight_link n source target now = elim (find_link source target n.links) [
  | none ↦ fault unsupported_synchronization
  | some l ↦ do
    require (edge n.clock now) protocol
    let kept = keep (λ s. not (is_spent now s)) l.signals
    require (ltb (length kept) l.capacity) capacity
    checked ← checked_add now l.delay
    ok (record l { signals = kept })
]

unfoldable pub preflight : SyncNetwork → ℕ → ℕ → ℕ → Result SyncNetwork
unfolding preflight_link
preflight n source target now = do
  l ← preflight_link n source target now
  ok (record n { links = put_link l n.links })

unfoldable pub send : SyncNetwork → ℕ → ℕ → ℕ → Result SyncNetwork
unfolding preflight_link
send n source target now = do
  l ← preflight_link n source target now
  arrival ← checked_add now l.delay
  ok (record n {
    links =
        put_link
          (record l { signals = l.signals ++ record { arrival = arrival; consumed = none } ∷ [] })
          n.links;
  })

-- The first signal that has arrived and is not consumed, marked as consumed.
unfoldable pub consume : ℕ → List Signal → Option (ℕ × List Signal)
consume now [] = none
consume now (s ∷ rest) =
    let later = consume now rest in
    if not (is_some s.consumed) && leb s.arrival now
    then some (s.arrival, record s { consumed = some now } ∷ rest)
    else elim later [ none ↦ none | some (arrival, rest') ↦ some (arrival, s ∷ rest') ]

-- A missing link makes `std::map::at` throw, which the simulator reports as `Protocol`.
unfoldable pub receive : SyncNetwork → ℕ → ℕ → ℕ → Result (Option ℕ × SyncNetwork)
unfolding consume
receive n source target now = elim (find_link source target n.links) [
  | none ↦ fault protocol
  | some l ↦ elim (consume now l.signals) [
    | none ↦ ok (none, n)
    | some (arrival, signals) ↦
        ok (some arrival, record n { links = put_link (record l { signals = signals }) n.links })
  ]
]

unfoldable pub is_idle : SyncNetwork → Bool
is_idle n = all (λ l. all (λ s. is_some s.consumed) l.signals) n.links

unfoldable pub reset : SyncNetwork → SyncNetwork
reset n = record n { links = map (λ (l : Link). record l { signals = [] }) n.links }

pub record Booking : Type 0 where
  pub target : ℕ
  pub deadline : ℕ
  pub received : Bool

pub record SyncUnit : Type 0 where
  pub core : ℕ
  pub pending : Option Booking

unfoldable pub validate_target : SyncUnit → SyncNetwork → ℕ → Result (Unit {0})
unfolding delay
validate_target u n target = delay n u.core target >>= λ _. ok tt

abbrev pub preflight_all : SyncUnit → SyncNetwork → List ℕ → ℕ → Result SyncNetwork
preflight_all u n [] now = ok n
preflight_all u n (target ∷ rest) now = do
  n' ← preflight n u.core target now
  preflight_all u n' rest now

unfoldable pub unit_preflight : SyncUnit → SyncNetwork → List ℕ → ℕ → Result SyncNetwork
unfolding preflight
unit_preflight u n targets now = do
  require (leb (length targets) 1 && (null targets || not (is_some u.pending)))
      unsupported_synchronization
  preflight_all u n targets now

abbrev pub booked : ℕ → ℕ → ℕ → ℕ → TraceEvent
booked now epoch deadline target = record (event now epoch "SyncBooked" 0 0 0) {
  value = deadline;
  targets = target ∷ [];
}

unfoldable pub book_all :
    SyncUnit → SyncNetwork → List ℕ → ℕ → ℕ → Result (SyncUnit × SyncNetwork × Events)
unfolding delay send
book_all u n [] now epoch = ok (u, n, [])
book_all u n (target ∷ rest) now epoch = do
  cycles ← delay n u.core target
  deadline ← checked_add now cycles
  n' ← send n u.core target now
  let u' = record u {
    pending = some (record { target = target; deadline = deadline; received = false });
  }
  (u'', n'', events) ← book_all u' n' rest now epoch
  ok (u'', n'', booked now epoch deadline target ∷ events)

unfoldable pub book :
    SyncUnit → SyncNetwork → List ℕ → ℕ → ℕ → Result (SyncUnit × SyncNetwork × Events)
unfolding unit_preflight book_all
book u n targets now epoch = do n' ← unit_preflight u n targets now; book_all u n' targets now epoch

-- The part of `step` after the signal was looked for: whether the timer pauses.
unfoldable pub finish : SyncUnit → Booking → ℕ → ℕ → Bool × SyncUnit × Events
finish u b now epoch =
    if leb b.deadline now && b.received
    then (
      false,
      record u { pending = none },
      record (event now epoch "SyncCompleted" 0 0 0) { targets = b.target ∷ [] } ∷ [],
    )
    else (leb b.deadline now, record u { pending = some b }, [])

abbrev pub received_event : ℕ → ℕ → ℕ → ℕ → TraceEvent
received_event now epoch arrival target = record (event now epoch "SyncReceived" 0 0 0) {
  value = arrival;
  targets = target ∷ [];
}

unfoldable pub step_booking :
    SyncUnit → SyncNetwork → Booking → ℕ → ℕ → Result (Bool × SyncUnit × SyncNetwork × Events)
unfolding finish receive
step_booking u n b now epoch =
    if b.received
    then (let (paused, u', events) = finish u b now epoch in ok (paused, u', n, events))
    else do
      (arrival, n') ← receive n b.target u.core now
      elim arrival [
        | none ↦ let (paused, u', events) = finish u b now epoch in ok (paused, u', n', events)
        | some at ↦
            let (paused, u', events) = finish u (record b { received = true }) now epoch in
            ok (paused, u', n', received_event now epoch at b.target ∷ events)
      ]

-- Whether the controller's timer is paused on this edge.
unfoldable pub step :
    SyncUnit → SyncNetwork → ℕ → ℕ → Result (Bool × SyncUnit × SyncNetwork × Events)
unfolding step_booking
step u n now epoch = elim u.pending [
  | none ↦ ok (false, u, n, [])
  | some b ↦ step_booking u n b now epoch
]

unfoldable pub reset_unit : SyncUnit → SyncUnit
reset_unit u = record u { pending = none }
