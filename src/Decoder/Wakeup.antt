-- ===== src/Decoder/Wakeup.antt =====
-- `DecoderSystem::next_boundary`: the tick at which the simulation wakes up for the decoders.
use qsbit_sim.Decoder.{Request, Job, DecoderSystem}
use qsbit_sim.Decoder.Step.{
  include, include_request, include_job, include_requests, include_jobs, next_boundary,
}
use qsbit_sim.Base.{
  leb, Option-cases, All, ℕ, ◌<◌, ◌≡◌, inl, inr, Bool, true, false, ◌||◌, Option, none, some, List,
  [], ◌∷◌, arith,
}

-- A wakeup that lies after `now`, or none.
abbrev pub IsLater : (now : ℕ) → Option ℕ → Type 0
IsLater now none = Unit
IsLater now (some t) = now < t

-- A tick has passed, or comes no earlier than the wakeup.
abbrev pub is_covered : (now : ℕ) → Option ℕ → ℕ → Bool
is_covered now none x = leb x now
is_covered now (some t) x = leb x now || leb t x

abbrev pub IsCoveredRequest : (now : ℕ) → Option ℕ → Request → Type 0
IsCoveredRequest now next p =
    (is_covered now next p.arrival ≡ true)
    × (p.transmitted ≡ false → is_covered now next p.sent ≡ true)

abbrev pub IsCoveredJob : (now : ℕ) → Option ℕ → Job → Type 0
IsCoveredJob now next j =
    (is_covered now next j.start ≡ true)
    × (is_covered now next j.completion ≡ true)
    × (elim j.arrival [ none ↦ true | some t ↦ is_covered now next t ] ≡ true)

-- What one more tick does to the wakeup: it stays later, and what was covered stays covered.
abbrev pub Improves : (now : ℕ) → (next next' : Option ℕ) → Type 0
Improves now next next' =
    (IsLater now next → IsLater now next')
    × ((x : ℕ) → is_covered now next x ≡ true → is_covered now next' x ≡ true)

include-Improves : (now tick : ℕ) (next : Option ℕ) → Improves now next (include now tick next)
include-Improves now tick next = (λ h. ground arith, λ x h. ground arith)

include-covered :
    (now tick : ℕ) (next : Option ℕ) → is_covered now (include now tick next) tick ≡ true
include-covered now tick next = ground arith

Improves-trans :
    (now : ℕ) (a b c : Option ℕ) → Improves now a b → Improves now b c → Improves now a c
Improves-trans now a b c f g = (λ h. g.0 (f.0 h), λ x h. g.1 x (f.1 x h))

include_request-Improves :
    (now : ℕ) (p : Request) (next : Option ℕ)
    → Improves now next (include_request now p next)
      × IsCoveredRequest now (include_request now p next) p
include_request-Improves now p next =
    ((λ h. ground arith, λ x h. ground arith), (ground arith, λ h. ground arith))

include_job-Improves :
    (now rx : ℕ) (j : Job) (next : Option ℕ)
    → Improves now next (include_job now rx j next) × IsCoveredJob now (include_job now rx j next) j
include_job-Improves now rx j next =
    ((λ h. ground arith, λ x h. ground arith), (ground arith, ground arith, ground arith))

IsCoveredRequest-Improves :
    (now : ℕ) (a b : Option ℕ) (p : Request)
    → Improves now a b
    → IsCoveredRequest now a p
    → IsCoveredRequest now b p
IsCoveredRequest-Improves now a b p f h = (f.1 p.arrival h.0, λ e. f.1 p.sent (h.1 e))

IsCoveredJob-Improves :
    (now : ℕ) (a b : Option ℕ) (j : Job)
    → Improves now a b
    → IsCoveredJob now a j
    → IsCoveredJob now b j
IsCoveredJob-Improves now a b j f h = elim (Option-cases j.arrival) [
  | inl r ↦ (f.1 j.start h.0, f.1 j.completion h.1, ground arith)
  | inr (t, r) ↦
      let k : is_covered now a t ≡ true = ground arith in
      let k' = f.1 t k in (f.1 j.start h.0, f.1 j.completion h.1, ground arith)
]

include_requests-Improves :
    (now : ℕ) (requests : List Request) (next : Option ℕ)
    → Improves now next (include_requests now requests next)
      × All (IsCoveredRequest now (include_requests now requests next)) requests
include_requests-Improves now [] next = ((λ h. h, λ x h. h), tt)
include_requests-Improves now (p ∷ rest) next =
    let next' = include_request now p next in
    let (f, covered) = include_request-Improves now p next in
    let (g, others) = include_requests-Improves now rest next' in
    (
      Improves-trans now next next' _ f g,
      (IsCoveredRequest-Improves now next' _ p g covered, others),
    )

include_jobs-Improves :
    (now rx : ℕ) (jobs : List Job) (next : Option ℕ)
    → Improves now next (include_jobs now rx jobs next)
      × All (IsCoveredJob now (include_jobs now rx jobs next)) jobs
include_jobs-Improves now rx [] next = ((λ h. h, λ x h. h), tt)
include_jobs-Improves now rx (j ∷ rest) next =
    let next' = include_job now rx j next in
    let (f, covered) = include_job-Improves now rx j next in
    let (g, others) = include_jobs-Improves now rx rest next' in
    (Improves-trans now next next' _ f g, (IsCoveredJob-Improves now next' _ j g covered, others))

requests_improved :
    (now : ℕ) (a b : Option ℕ) (requests : List Request)
    → Improves now a b
    → All (IsCoveredRequest now a) requests
    → All (IsCoveredRequest now b) requests
requests_improved now a b [] f h = tt
requests_improved now a b (p ∷ rest) f h =
    (IsCoveredRequest-Improves now a b p f h.0, requests_improved now a b rest f h.1)

abbrev pub IsCoveredReset : (now : ℕ) → Option ℕ → Option Request → Type 0
IsCoveredReset now next none = Unit
IsCoveredReset now next (some p) = IsCoveredRequest now next p

IsCoveredReset-Improves :
    (now : ℕ) (a b : Option ℕ) (reset : Option Request)
    → Improves now a b
    → IsCoveredReset now a reset
    → IsCoveredReset now b reset
IsCoveredReset-Improves now a b none f h = tt
IsCoveredReset-Improves now a b (some p) f h = IsCoveredRequest-Improves now a b p f h

reset-Improves :
    (now : ℕ) (reset : Option Request) (next : Option ℕ)
    → let next' : Option ℕ = elim reset [ none ↦ next | some p ↦ include_request now p next ] in
      Improves now next next' × IsCoveredReset now next' reset
reset-Improves now none next = ((λ h. h, λ x h. h), tt)
reset-Improves now (some p) next = include_request-Improves now p next

-- The wakeup for the decoders lies in the future, and is no later than any tick in the future at
-- which a request or a reset is sent or arrives, or a job starts, completes or has its result delivered.
pub next_boundary-covered :
    (now : ℕ) (d : DecoderSystem)
    → IsLater now (next_boundary now d)
      × All (IsCoveredRequest now (next_boundary now d)) d.requests
      × IsCoveredReset now (next_boundary now d) d.reset_request
      × All (IsCoveredJob now (next_boundary now d)) d.jobs
unfolding next_boundary
next_boundary-covered now d =
    let waiting = include_requests now d.requests none in
    let with_reset : Option ℕ = elim d.reset_request [
      | none ↦ waiting
      | some p ↦ include_request now p waiting
    ] in
    let (f, requests) = include_requests-Improves now d.requests none in
    let (g, reset) = reset-Improves now d.reset_request waiting in
    let (h, jobs) = include_jobs-Improves now d.rx_available d.jobs with_reset in
    (
      h.0 (g.0 (f.0 tt)),
      requests_improved now with_reset _ d.requests h
          (requests_improved now waiting with_reset d.requests g requests),
      IsCoveredReset-Improves now with_reset _ d.reset_request h reset,
      jobs,
    )
