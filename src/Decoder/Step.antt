-- ===== src/Decoder/Step.antt =====
-- `DecoderSystem::step` and what follows it in src/decoder.cpp: packets go over the link, decoders run
-- their jobs, requests that have arrived are admitted, and one result goes back at a time.
use qsbit_sim.Decoder.Transmission.{advance_transmission, advance_jobs}
use qsbit_sim.Time.{checked_add}
use qsbit_sim.Mmio as Mmio
use qsbit_sim.Trace.{Events}
use qsbit_sim.Decoder.{DecoderConfig, Session, Request, Job, DecoderSystem, session_of, put_session}
use qsbit_sim.Decoder.Access.{decoder, decoder_event, packet_ticks}
use qsbit_sim.Base.{
  ltb, leb, ◌==◌, if◌then◌else◌, is_some, length, set, all, count, null, require, ◌>>=◌, ◌>>◌,
  Result, protocol, backend_failure, ok, fault, find, assign, ℕ, zero, suc, ◌+◌, ◌*◌, ◌/◌, ◌%◌, max,
  Bool, true, false, not, ◌&&◌, ◌||◌, Option, none, some, List, [], ◌∷◌, ◌++◌,
}

abbrev pub is_reserved : (ℕ × ℕ) × Session → Bool
is_reserved e = is_some e.1.outcome || e.1.submitted

-- `(p.data >> bit) & 1` for each bit from `first` on.
abbrev pub packet_bits : (n : ℕ) → (word : ℕ) → List Bool
packet_bits zero word = []
packet_bits (suc n) word = (word % 2 == 1) ∷ packet_bits n (word / 2)

abbrev pub number_of : List Bool → ℕ
number_of [] = 0
number_of (b ∷ rest) = (if b then 1 else 0) + 2 * number_of rest

-- The job of a session that is complete. An empty `std::function` throws when it is called.
unfoldable pub start_job :
    (now : ℕ) → DecoderConfig → Request → List Bool → DecoderSystem → Result DecoderSystem
start_job now c p measurements d = elim c.decode [
  | none ↦ fault backend_failure
  | some decode ↦ do
    let outputs = decode measurements
    require (length outputs == c.outputs) backend_failure
    earliest ← checked_add now 1
    let start = max earliest (elim (find c.id d.available) [ none ↦ 0 | some t ↦ t ])
    free ← checked_add start c.initiation_interval
    completion ← checked_add start c.latency
    ok (record d {
      available = assign c.id free d.available;
      jobs =
          d.jobs
          ++ record {
            id = p.id;
            core = p.core;
            decoder = p.decoder;
            start = start;
            completion = completion;
            bits = number_of outputs;
            arrival = none;
            started = false;
            completed = false;
          }
            ∷ [];
      sessions =
          put_session p.core p.decoder
            (record (session_of p.core p.decoder d.sessions) {
              measurements = [];
              submitted = true;
            })
            d.sessions;
    })
]

abbrev pub joins : Request → Session → List Bool
joins p s = s.measurements ++ packet_bits p.count p.bits

-- Whether the session has no room for a result, where the request completes its measurements.
abbrev pub lacks_room : DecoderConfig → Request → Session → DecoderSystem → Bool
lacks_room c p s d =
    (length s.measurements + p.count == c.measurements)
    && (not (is_some s.outcome) && leb d.config.result_capacity (count is_reserved d.sessions))

-- The session with the bits of the request, and its job where they complete the measurements.
unfoldable pub join_session :
    (now : ℕ) → DecoderConfig → Request → Session → DecoderSystem → Result DecoderSystem
unfolding start_job
join_session now c p s d =
    let joined : DecoderSystem = record d {
      sessions = put_session p.core p.decoder (record s { measurements = joins p s }) d.sessions;
    } in
    if length (joins p s) == c.measurements then start_job now c p (joins p s) joined else ok joined

-- One request that has arrived; none where it has to wait.
unfoldable pub admit :
    (now epoch : ℕ) → Request → DecoderSystem → Result (Option (DecoderSystem × Events))
unfolding decoder join_session
admit now epoch p d = do
  c ← decoder d p.decoder
  let s = session_of p.core p.decoder d.sessions
  if s.submitted then ok none else do
    require (leb (length s.measurements + p.count) c.measurements) protocol
    if lacks_room c p s d then ok none else do
      started ← join_session now c p s d
      ok (some (started, decoder_event now epoch "DecoderRequestArrived" p.id p.core ∷ []))

-- The loop, over the requests that are left.
unfoldable pub admit_all :
    (now epoch : ℕ) → List Request → DecoderSystem → Result (DecoderSystem × Events)
unfolding admit
admit_all now epoch [] d = ok (record d { requests = [] }, [])
admit_all now epoch (p ∷ rest) d =
    if not (leb p.arrival now) then ok (record d { requests = p ∷ rest }, []) else do
      answer ← admit now epoch p d
      elim answer [
        | none ↦ ok (record d { requests = p ∷ rest }, [])
        | some (d', events) ↦ do (d'', more) ← admit_all now epoch rest d'; ok (d'', events ++ more)
      ]

unfoldable pub admit_requests : (now epoch : ℕ) → DecoderSystem → Result (DecoderSystem × Events)
unfolding admit_all
admit_requests now epoch d = admit_all now epoch d.requests d

abbrev pub is_better : Job → Option (ℕ × Job) → Bool
is_better j none = true
is_better j (some (i, best)) =
    ltb j.completion best.completion || (j.completion == best.completion && ltb j.id best.id)

-- The position of the completed job whose result goes back next.
unfoldable pub ready_job : List Job → (i : ℕ) → Option (ℕ × Job) → Option (ℕ × Job)
ready_job [] i best = best
ready_job (j ∷ rest) i best =
    ready_job rest (suc i)
      (if j.completed && (not (is_some j.arrival) && is_better j best) then some (i, j) else best)

unfoldable pub transmit_result : (now : ℕ) → DecoderSystem → Result DecoderSystem
unfolding ready_job decoder packet_ticks
transmit_result now d =
    if not (leb d.rx_available now) then ok d else elim (ready_job d.jobs 0 none) [
      | none ↦ ok d
      | some (i, j) ↦ do
        c ← decoder d j.decoder
        duration ← packet_ticks d.config c.outputs
        end_tick ← checked_add now duration
        arrival ← checked_add end_tick d.config.link_latency
        ok (record d {
          jobs = set d.jobs i (record j { arrival = some arrival });
          rx_available = end_tick;
        })
    ]

unfoldable pub step : (now epoch : ℕ) → DecoderSystem → Result (DecoderSystem × Events)
unfolding advance_transmission advance_jobs admit_requests transmit_result
step now epoch d = do
  let (d1, sent) = advance_transmission now epoch d
  (d2, jobs) ← advance_jobs now epoch d1
  (d3, admitted) ← admit_requests now epoch d2
  d4 ← transmit_result now d3
  ok (d4, sent ++ (jobs ++ admitted))

-- The next identity is kept.
unfoldable pub reset : DecoderSystem → DecoderSystem
reset d = record d {
  mmio = Mmio.reset d.mmio;
  sessions = [];
  requests = [];
  reset_request = none;
  jobs = [];
  available = [];
  tx_available = 0;
  rx_available = 0;
}

unfoldable pub is_idle : DecoderSystem → Bool
is_idle d =
    null d.requests
    && (not (is_some d.reset_request)
        && (null d.jobs && all (λ (e : (ℕ × ℕ) × Session). null e.1.measurements) d.sessions))

-- The lambda `include`.
abbrev pub include : (now : ℕ) → ℕ → Option ℕ → Option ℕ
include now tick next =
    if ltb now tick && elim next [ none ↦ true | some t ↦ ltb tick t ] then some tick else next

abbrev pub include_request : (now : ℕ) → Request → Option ℕ → Option ℕ
include_request now p next =
    include now p.arrival (if p.transmitted then next else include now p.sent next)

abbrev pub include_job : (now rx_available : ℕ) → Job → Option ℕ → Option ℕ
include_job now rx j next =
    let next' = include now j.completion (include now j.start next) in
    elim j.arrival [
      | some t ↦ include now t next'
      | none ↦ if j.completed then include now rx next' else next'
    ]

abbrev pub include_requests : (now : ℕ) → List Request → Option ℕ → Option ℕ
include_requests now [] next = next
include_requests now (p ∷ rest) next = include_requests now rest (include_request now p next)

abbrev pub include_jobs : (now rx_available : ℕ) → List Job → Option ℕ → Option ℕ
include_jobs now rx [] next = next
include_jobs now rx (j ∷ rest) next = include_jobs now rx rest (include_job now rx j next)

unfoldable pub next_boundary : (now : ℕ) → DecoderSystem → Option ℕ
next_boundary now d =
    let waiting = include_requests now d.requests none in
    let with_reset : Option ℕ = elim d.reset_request [
      | none ↦ waiting
      | some p ↦ include_request now p waiting
    ] in
    include_jobs now d.rx_available d.jobs with_reset
