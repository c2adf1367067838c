-- ===== src/Decoder/Transmission.antt =====
-- src/decoder.cpp: what the link and the jobs of the decoders do on a tick.
use qsbit_sim.Trace.{Events}
use qsbit_sim.Decoder.{
  Session, no_session, Request, Job, Sessions, DecoderSystem, find_session, put_session,
}
use qsbit_sim.Decoder.Access.{decoder, decoder_event}
use qsbit_sim.Base.{
  ltb, leb, ◌==◌, if◌then◌else◌, keep, ◌>>=◌, Result, protocol, ok, fault, ℕ, bit_xor, Bool, true,
  false, not, ◌&&◌, ◌||◌, none, some, List, [], ◌∷◌, ◌++◌, map,
}

-- The lambda `transmitted`.
abbrev pub is_due : (now : ℕ) → Request → Bool
is_due now p = not p.transmitted && leb p.sent now

abbrev pub transmit : (now : ℕ) → Request → Request
transmit now p = if is_due now p then record p { transmitted = true } else p

abbrev pub sent_events : (now epoch : ℕ) → List Request → Events
sent_events now epoch [] = []
sent_events now epoch (p ∷ rest) =
    let more = sent_events now epoch rest in
    if is_due now p then decoder_event now epoch "DecoderRequestSent" p.id p.core ∷ more else more

-- The lambda `cancelled`, for requests and for jobs.
abbrev pub is_cancelled : (p : Request) → (id core decoder : ℕ) → Bool
is_cancelled p id core decoder = core == p.core && (decoder == p.decoder && ltb id p.id)

abbrev pub apply_reset : Request → DecoderSystem → DecoderSystem
apply_reset p d = record d {
  reset_request = none;
  requests = keep (λ (r : Request). not (is_cancelled p r.id r.core r.decoder)) d.requests;
  jobs = keep (λ (j : Job). not (is_cancelled p j.id j.core j.decoder)) d.jobs;
  sessions = put_session p.core p.decoder no_session d.sessions;
}

unfoldable pub advance_transmission : (now epoch : ℕ) → DecoderSystem → DecoderSystem × Events
advance_transmission now epoch d =
    let d' : DecoderSystem = record d { requests = map (transmit now) d.requests } in
    let events = sent_events now epoch d.requests in
    elim d.reset_request [
      | none ↦ (d', events)
      | some p ↦
          let more = events ++ sent_events now epoch (p ∷ []) in
          if leb p.arrival now
          then (
            apply_reset (transmit now p) d',
            more ++ decoder_event now epoch "DecoderReset" p.id p.core ∷ [],
          )
          else (record d' { reset_request = some (transmit now p) }, more)
    ]

abbrev pub progressed : (now : ℕ) → Job → Job
progressed now j = record j {
  started = j.started || leb j.start now;
  completed = j.completed || leb j.completion now;
}

abbrev pub job_events : (now epoch : ℕ) → Job → Events
job_events now epoch j =
    let started : Events =
      if not j.started && leb j.start now
      then decoder_event now epoch "DecoderStarted" j.id j.core ∷ []
      else [] in
    let completed : Events =
      if not j.completed && leb j.completion now
      then decoder_event now epoch "DecoderCompleted" j.id j.core ∷ []
      else [] in
    started ++ completed

abbrev pub has_arrived : (now : ℕ) → Job → Bool
has_arrived now j = elim j.arrival [ none ↦ false | some t ↦ leb t now ]

-- `s.result.value_or(0) ^ j.result`.
abbrev pub returned : Job → Session → Session
returned j s = record s {
  outcome = some (bit_xor (elim s.outcome [ none ↦ 0 | some r ↦ r ]) j.bits);
  submitted = false;
}

-- A session that is missing makes `std::map::at` throw.
unfoldable pub advance_all :
    (now epoch : ℕ) → List Job → Sessions → Result (List Job × Sessions × Events)
advance_all now epoch [] sessions = ok ([], sessions, [])
advance_all now epoch (j ∷ rest) sessions =
    if has_arrived now j
    then elim (find_session j.core j.decoder sessions) [
      | none ↦ fault protocol
      | some s ↦ do
        (jobs, sessions', events) ←
            advance_all now epoch rest (put_session j.core j.decoder (returned j s) sessions)
        ok (
          jobs,
          sessions',
          job_events now epoch j
              ++ (decoder_event now epoch "DecoderResultReturned" j.id j.core ∷ events),
        )
    ]
    else do
      (jobs, sessions', events) ← advance_all now epoch rest sessions
      ok (progressed now j ∷ jobs, sessions', job_events now epoch j ++ events)

unfoldable pub advance_jobs : (now epoch : ℕ) → DecoderSystem → Result (DecoderSystem × Events)
unfolding advance_all
advance_jobs now epoch d = do
  (jobs, sessions, events) ← advance_all now epoch d.jobs d.sessions
  ok (record d { jobs = jobs; sessions = sessions }, events)
