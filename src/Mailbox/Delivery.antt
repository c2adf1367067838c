-- ===== src/Mailbox/Delivery.antt =====
-- A mailbox is a queue: messages leave in the order of their publication, none before its edge.
use qsbit_sim.Time.{Clock, after}
use qsbit_sim.Time.Edges.{after_value}
use qsbit_sim.Mailbox
use qsbit_sim.Mailbox.{Envelope, Mailbox, init, is_full, publish, peek, in_order, reset}
use native.Mathlib.Nat.{le-div_iff_mul-le, div-mul-le_self, mul-le-mul_right}
use qsbit_sim.Base.{
  leb, Option, Bool-cases, ap, refl, All-append, ◌<◌, length-append, some, length, All,
  Result-cases, ok, ℕ, ◌-◌, ◌*◌, ◌/◌, ◌≤◌, ◌≡◌, ◌≢◌, inl, inr, true, none, List, [], ◌∷◌, ◌++◌,
  arith,
}

-- The messages stand in the order of publication, each readable after it was published, at the
-- tick that the receiver's clock gives, and there are at most `capacity` of them.
abbrev pub Ordered {ℓ} : {A : Type ℓ} → List (Envelope A) → Type 0
Ordered [] = Unit
Ordered (x ∷ []) = Unit
Ordered (x ∷ y ∷ rest) =
    (x.published ≤ y.published) × (x.eligible ≤ y.eligible) × Ordered (y ∷ rest)

pub record IsValid {ℓ} {A : Type ℓ} (m : Mailbox A) : Type ℓ where
  pub bounded : length m.entries ≤ m.capacity
  pub timed : All (λ x. after m.receiver x.published m.latency ≡ ok x.eligible) m.entries
  pub ordered : Ordered m.entries

-- A later publication is not readable earlier.
pub after_mono :
    (c : Clock) (s t latency : ℕ) {m n : ℕ}
    → s ≤ t
    → after c s latency ≡ ok m
    → after c t latency ≡ ok n
    → m ≤ n
after_mono c s t latency {m} {n} h e f =
    let (pos, below, late, v) = after_value c s latency e in
    let quotient : (s - c.phase) / c.period ≤ (t - c.phase) / c.period =
      (le-div_iff_mul-le pos).1 (omega (arith, div-mul-le_self (s - c.phase) c.period)) in
    let product : ((s - c.phase) / c.period) * c.period ≤ ((t - c.phase) / c.period) * c.period =
      mul-le-mul_right c.period quotient in
    ground (arith, after_value c t latency f)

module _ {ℓ} {A : Type ℓ} where
  init-IsValid :
      (bound : ℕ) (receiver : Clock) (latency : ℕ) {m : Mailbox A}
      → init bound receiver latency ≡ ok m
      → IsValid m
  unfolding init
  init-IsValid bound receiver latency e = ground arith

  Ordered-tail : (x : Envelope A) (xs : List (Envelope A)) → Ordered (x ∷ xs) → Ordered xs
  Ordered-tail x [] h = tt
  Ordered-tail x (y ∷ rest) h = h.2

  Ordered-snoc :
      (c : Clock) (latency now : ℕ) (x : Envelope A) (xs : List (Envelope A))
      → x.published ≡ now
      → after c now latency ≡ ok x.eligible
      → in_order now xs ≡ true
      → All (λ y. after c y.published latency ≡ ok y.eligible) xs
      → Ordered xs
      → Ordered (xs ++ x ∷ [])
  Ordered-snoc c latency now x [] p e i timed ord = tt
  Ordered-snoc c latency now x (y ∷ []) p e i timed ord =
      let le : y.published ≤ now = ground arith in
      (omega arith, after_mono c y.published now latency le timed.0 e, tt)
  Ordered-snoc c latency now x (y ∷ z ∷ rest) p e i timed ord =
      (ord.0, ord.1, Ordered-snoc c latency now x (z ∷ rest) p e i timed.1 ord.2)

  pub publish_lem :
      (m : Mailbox A) (now epoch : ℕ) (value : A) {m' : Mailbox A}
      → publish m now epoch value ≡ ok m'
      → (eligible : ℕ) × (after m.receiver now m.latency ≡ ok eligible)
        × (in_order now m.entries ≡ true)
        × (length m.entries ≢ m.capacity)
        × (m' ≡ record m {
          entries =
              m.entries
              ++ record { published = now; eligible = eligible; epoch = epoch; value = value } ∷ [];
        })
  unfolding publish
  publish_lem m now epoch value e = elim (Result-cases (after m.receiver now m.latency)) [
    | inl (n, at) ↦ (n, at, ground arith, ground arith, ground arith)
    | inr (c, bad) ↦ absurd (ground arith)
  ]

  -- A message that `publish` accepts keeps the mailbox within its capacity and in order of arrival.
  pub publish-IsValid :
      (m : Mailbox A) (now epoch : ℕ) (value : A) {m' : Mailbox A}
      → IsValid m
      → publish m now epoch value ≡ ok m'
      → IsValid m'
  publish-IsValid m now epoch value v e =
      let (n, at, order, room, eq) = publish_lem m now epoch value e in
      let x : Envelope A = record { published = now; eligible = n; epoch = epoch; value = value } in
      rw eq (record {
        bounded = omega (arith, v.bounded, length-append m.entries (x ∷ []));
        timed = All-append _ m.entries (x ∷ []) v.timed (at, tt);
        ordered = Ordered-snoc m.receiver m.latency now x m.entries refl at order v.timed v.ordered;
      })

  All-eligible :
      (now : ℕ) (x : Envelope A) (xs : List (Envelope A))
      → now < x.eligible
      → Ordered (x ∷ xs)
      → All (λ y. now < y.eligible) (x ∷ xs)
  All-eligible now x [] h o = (h, tt)
  All-eligible now x (y ∷ rest) h o = (h, All-eligible now y rest (omega arith) o.2)

  -- What `take` does, on both branches.
  pub data Taken (m : Mailbox A) (now : ℕ) (r : Option (Envelope A) × Mailbox A) : Type ℓ where
    one :
        (x : Envelope A) (rest : List (Envelope A))
        → m.entries ≡ x ∷ rest
        → x.eligible ≤ now
        → r ≡ (some x, record m { entries = rest })
        → Taken m now r
    nothing :
        r ≡ (none, m) → (Ordered m.entries → All (λ y. now < y.eligible) m.entries) → Taken m now r

  take_from-Taken :
      (m : Mailbox A) (now : ℕ) (xs : List (Envelope A))
      → m.entries ≡ xs
      → Taken m now (Mailbox.take m now)
  unfolding Mailbox.take
  take_from-Taken m now [] e = nothing (ground arith) (λ o. rw e tt)
  take_from-Taken m now (x ∷ rest) e = elim (Bool-cases (leb x.eligible now)) [
    | inl early ↦ one x rest e (ground arith) (ground arith)
    | inr late ↦
        nothing (ground arith) (λ o. rw e (All-eligible now x rest (ground arith) (rw e at o)))
  ]

  pub take-Taken : (m : Mailbox A) (now : ℕ) → Taken m now (Mailbox.take m now)
  take-Taken m now = take_from-Taken m now m.entries refl

  pub take-IsValid : (m : Mailbox A) (now : ℕ) → IsValid m → IsValid (Mailbox.take m now).1
  take-IsValid m now v = elim (take-Taken m now) [
    | one x rest e early r ↦ rw r (record {
      bounded = omega (arith, v.bounded, ap length e);
      timed = (rw e at v.timed).1;
      ordered = Ordered-tail x rest (rw e at v.ordered);
    })
    | nothing r late ↦ rw r v
  ]

  -- If `take` finds nothing to read, no message of the mailbox has reached its edge: none is held
  -- up behind an earlier one.
  pub take-none :
      (m : Mailbox A) (now : ℕ)
      → IsValid m
      → (Mailbox.take m now).0 ≡ none
      → All (λ x. now < x.eligible) m.entries
  take-none m now v e = elim (take-Taken m now) [
    | one x rest f early r ↦ absurd (cc)
    | nothing r late ↦ late v.ordered
  ]
