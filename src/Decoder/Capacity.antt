-- ===== src/Decoder/Capacity.antt =====
-- The capacity of a decoder for results, which its sessions reserve.
use qsbit_sim.Decoder.{
  Events, DecoderConfig, Session, Request, Sessions, DecoderSystem, session_of, put_session,
}
use qsbit_sim.Decoder.Access.{decoder}
use qsbit_sim.Decoder.Step.{
  packet_bits, join_session, is_reserved, joins, lacks_room, start_job, admit, admit_all,
  admit_requests,
}
use qsbit_sim.Base.{
  leb, ◌==◌, is_some, Bool-cases, Option-cases, length, count, length-append, Result-cases,
  >>=-eq-ok, ok, ℕ, zero, suc, ◌+◌, ◌/◌, ◌≤◌, ◌<◌, ◌≡◌, inl, inr, Bool, true, false, ◌||◌, some,
  List, [], ◌∷◌, arith,
}

abbrev pub reserves : Session → Bool
reserves s = is_some s.outcome || s.submitted

count-put_session :
    (core id : ℕ) (s : Session) (m : Sessions)
    → count is_reserved (put_session core id s m) ≤ suc (count is_reserved m)
count-put_session core id s [] = ground arith
count-put_session core id s ((k, old) ∷ rest) = ground (arith, count-put_session core id s rest)

count-put_free :
    (core id : ℕ) (s : Session) (m : Sessions)
    → reserves s ≡ false
    → count is_reserved (put_session core id s m) ≤ count is_reserved m
count-put_free core id s [] h = ground arith
count-put_free core id s ((k, old) ∷ rest) h = ground (arith, count-put_free core id s rest)

count-put_reserved :
    (core id : ℕ) (s : Session) (m : Sessions)
    → reserves (session_of core id m) ≡ true
    → count is_reserved (put_session core id s m) ≤ count is_reserved m
count-put_reserved core id s [] h = ground arith
count-put_reserved core id s ((k, old) ∷ rest) h = ground (arith, count-put_reserved core id s rest)

session_of-put_session :
    (core id : ℕ) (s : Session) (m : Sessions) → session_of core id (put_session core id s m) ≡ s
session_of-put_session core id s [] = ground arith
session_of-put_session core id s ((k, old) ∷ rest) =
    ground (arith, session_of-put_session core id s rest)

-- No more results are reserved than there is room for.
unfoldable pub IsWithin : DecoderSystem → Type 0
IsWithin d = count is_reserved d.sessions ≤ d.config.result_capacity

-- A session that starts its job takes a place, unless it has one.
start_job-count :
    (now : ℕ) (c : DecoderConfig) (p : Request) (measurements : List Bool) (d d' : DecoderSystem)
    → start_job now c p measurements d ≡ ok d'
    → (d'.config ≡ d.config)
      × (count is_reserved d'.sessions ≤ suc (count is_reserved d.sessions))
      × (reserves (session_of p.core p.decoder d.sessions) ≡ true
          → count is_reserved d'.sessions ≤ count is_reserved d.sessions)
unfolding start_job
start_job-count now c p measurements d d' e = elim (Option-cases c.decode) [
  | inl r ↦ ground arith
  | inr (decode, r) ↦
      let s : Session = record (session_of p.core p.decoder d.sessions) {
        measurements = [];
        submitted = true;
      } in
      let same : d'.sessions ≡ put_session p.core p.decoder s d.sessions = ground arith in
      let config : d'.config ≡ d.config = ground arith in
      (
        config,
        rw (same) (count-put_session p.core p.decoder s d.sessions),
        λ h. rw (same) (count-put_reserved p.core p.decoder s d.sessions h),
      )
]

join_session-IsWithin :
    (now : ℕ) (c : DecoderConfig) (p : Request) (d d' : DecoderSystem)
    → join_session now c p (session_of p.core p.decoder d.sessions) d ≡ ok d'
    → (session_of p.core p.decoder d.sessions).submitted ≡ false
    → lacks_room c p (session_of p.core p.decoder d.sessions) d ≡ false
    → length (joins p (session_of p.core p.decoder d.sessions))
      ≡ length (session_of p.core p.decoder d.sessions).measurements + p.count
    → IsWithin d
    → IsWithin d'
unfolding join_session IsWithin
join_session-IsWithin now c p d d' e free room n h =
    let s = session_of p.core p.decoder d.sessions in
    let s' : Session = record s { measurements = joins p s } in
    let joined : DecoderSystem = record d {
      sessions = put_session p.core p.decoder s' d.sessions;
    } in
    let again = session_of-put_session p.core p.decoder s' d.sessions in
    elim (Option-cases s.outcome) [
      | inl r ↦
          let kept = count-put_free p.core p.decoder s' d.sessions (ground arith) in
          elim (Bool-cases (length (joins p s) == c.measurements)) [
            | inl b ↦
                let (config, more, same) =
                  start_job-count now c p (joins p s) joined d' (ground arith) in
                let room' : count is_reserved d.sessions < d.config.result_capacity =
                  ground arith in
                rw (config) (omega arith)
            | inr b ↦ ground arith
          ]
      | inr (bits, r) ↦
          let kept = count-put_reserved p.core p.decoder s' d.sessions (ground arith) in
          elim (Bool-cases (length (joins p s) == c.measurements)) [
            | inl b ↦
                let (config, more, same) =
                  start_job-count now c p (joins p s) joined d' (ground arith) in
                let still : reserves (session_of p.core p.decoder joined.sessions) ≡ true =
                  rw (again) (ground arith) in
                let fewer = same still in rw (config) (omega arith)
            | inr b ↦ ground arith
          ]
    ]

length-packet_bits : (n word : ℕ) → length (packet_bits n word) ≡ n
length-packet_bits zero word = ground arith
length-packet_bits (suc n) word = ground (arith, length-packet_bits n (word / 2))

-- A request that is admitted keeps the reserved results within the capacity.
admit-IsWithin :
    (now epoch : ℕ) (p : Request) (d d' : DecoderSystem) (events : Events)
    → admit now epoch p d ≡ ok (some (d', events))
    → IsWithin d
    → IsWithin d'
unfolding admit
admit-IsWithin now epoch p d d' events e h =
    let (c, k1, e1) = >>=-eq-ok (decoder d p.decoder) _ e in
    let s = session_of p.core p.decoder d.sessions in
    let n = length-append s.measurements (packet_bits p.count p.bits) in
    let m = length-packet_bits p.count p.bits in
    let free : s.submitted ≡ false = ground arith in
    let room : lacks_room c p s d ≡ false = ground arith in
    let joined : join_session now c p s d ≡ ok d' = ground arith in
    join_session-IsWithin now c p d d' joined free room (omega arith) h

admit_all-IsWithin :
    (now epoch : ℕ) (requests : List Request) (d d' : DecoderSystem) (events : Events)
    → admit_all now epoch requests d ≡ ok (d', events)
    → IsWithin d
    → IsWithin d'
unfolding admit_all IsWithin
admit_all-IsWithin now epoch [] d d' events e h = ground arith
admit_all-IsWithin now epoch (p ∷ rest) d d' events e h = elim (Bool-cases (leb p.arrival now)) [
  | inr b ↦ ground arith
  | inl b ↦ elim (Result-cases (admit now epoch p d)) [
    | inr (code, k) ↦ ground arith
    | inl (answer, k) ↦ elim (Option-cases answer) [
      | inl a ↦ ground arith
      | inr ((d1, first), a) ↦
          let admitted : admit now epoch p d ≡ ok (some (d1, first)) = cc in
          let h1 = admit-IsWithin now epoch p d d1 first admitted h in
          elim (Result-cases (admit_all now epoch rest d1)) [
            | inr (code, k') ↦ ground arith
            | inl ((d2, more), k') ↦
                let h2 = admit_all-IsWithin now epoch rest d1 d2 more k' h1 in ground arith
          ]
    ]
  ]
]

-- Admitting the requests that have arrived never reserves more results than the capacity has room
-- for, where no more were reserved before.
pub admit_requests-IsWithin :
    (now epoch : ℕ) (d d' : DecoderSystem) (events : Events)
    → admit_requests now epoch d ≡ ok (d', events)
    → IsWithin d
    → IsWithin d'
unfolding admit_requests
admit_requests-IsWithin now epoch d d' events e h =
    admit_all-IsWithin now epoch d.requests d d' events e h
