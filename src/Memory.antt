-- ===== src/Memory.antt =====
-- include/qsbit/memory.hpp and src/memory.cpp: the memory behind the fetch port and the data port,
-- each with one request in service. The attached device is not part of the memory: the function that
-- says which addresses it has and the one that serves a request are parameters.
pub mod Service
use qsbit_sim.Time.{Clock, validate, edge, checked_add, checked_mul}
use qsbit_sim.Mailbox.{Envelope, Mailbox, publish, is_full, take}
use qsbit_sim.Image.{ProgramImage, read, write}
use qsbit_sim.Mailbox as Mailbox
use qsbit_sim.Base.{
  fault, ltb, leb, ◌==◌, if◌then◌else◌, is_some, ◌>>=◌, ◌>>◌, require, ErrorCode, Result,
  invalid_profile, protocol, ok, ℕ, Bool, true, false, not, ◌&&◌, ◌||◌, Option, none, some,
}

pub record MemoryRequest : Type 0 where
  pub id : ℕ
  pub address : ℕ
  pub value : ℕ
  pub width : ℕ
  pub write : Bool
  pub instruction : Bool

pub record MemoryResponse : Type 0 where
  pub id : ℕ
  pub value : ℕ
  pub fault : Option ErrorCode

pub record MemoryPort : Type 0 where
  pub requests : Mailbox MemoryRequest
  pub responses : Mailbox MemoryResponse

unfoldable pub init_port : Clock → Result MemoryPort
init_port clock = do
  requests ← Mailbox.init 1 clock 1
  responses ← Mailbox.init 1 clock 1
  ok (record { requests = requests; responses = responses })

unfoldable pub reset_port : MemoryPort → MemoryPort
reset_port p = record { requests = Mailbox.reset p.requests; responses = Mailbox.reset p.responses }

pub record Pending : Type 0 where
  pub request : MemoryRequest
  pub completion : ℕ
  pub epoch : ℕ

-- The state of `pending_[index]` and `last_id_[index]`.
pub record Lane : Type 0 where
  pub pending : Option Pending
  pub last_id : ℕ

abbrev pub fresh_lane : Lane
fresh_lane = record { pending = none; last_id = 0 }

pub record MemoryModel : Type 0 where
  pub image : ProgramImage
  pub clock : Clock
  pub latency : ℕ
  pub fetch_lane : Lane
  pub data_lane : Lane

unfoldable pub init : ProgramImage → Clock → ℕ → Result MemoryModel
init image clock latency = do
  validate clock
  require (ltb 0 latency) invalid_profile
  ok (record {
    image = image;
    clock = clock;
    latency = latency;
    fetch_lane = fresh_lane;
    data_lane = fresh_lane;
  })

unfoldable pub reset : MemoryModel → MemoryModel
reset m = record m { fetch_lane = fresh_lane; data_lane = fresh_lane }

unfoldable pub is_idle : MemoryModel → Bool
is_idle m = not (is_some m.fetch_lane.pending) && not (is_some m.data_lane.pending)

-- `device_contains_`, empty where no device is attached, and `device_access_` with the state that
-- the device keeps. An access without an answer is tried again at the next step.
pub record Device {ℓ} (D : Type ℓ) : Type ℓ where
  pub contains : ℕ → Bool
  pub access : D → MemoryRequest → ℕ → ℕ → D × Result (Option ℕ)

abbrev pub is_due : Pending → ℕ → MemoryPort → Bool
is_due p now port = leb p.completion now && not (is_full port.responses)

module _ {ℓ} {D : Type ℓ} where
  -- The `try` block: the response, none where the device has no answer yet, and the image and the
  -- device after it. A fault becomes the response.
  unfoldable pub serve :
      Option (Device D)
      → D
      → ProgramImage
      → MemoryRequest
      → (now epoch : ℕ) → Option MemoryResponse × ProgramImage × D
  serve device d image request now epoch =
      let answer : ℕ → MemoryResponse =
        λ value. record { id = request.id; value = value; fault = none } in
      let refuse : ErrorCode → MemoryResponse =
        λ code. record { id = request.id; value = 0; fault = some code } in
      let plain : Option MemoryResponse × ProgramImage × D =
        if request.write
        then elim (write image request.address request.width request.value) [
          | ok image' ↦ (some (answer 0), image', d)
          | fault code ↦ (some (refuse code), image, d)
        ]
        else elim (read image request.address request.width request.instruction) [
          | ok value ↦ (some (answer value), image, d)
          | fault code ↦ (some (refuse code), image, d)
        ] in
      elim device [
        | none ↦ plain
        | some v ↦
            if v.contains request.address
            then (let (d', result) = v.access d request now epoch in
                elim result [
                  | ok none ↦ (none, image, d')
                  | ok (some value) ↦ (some (answer value), image, d')
                  | fault code ↦ (some (refuse code), image, d')
                ])
            else plain
      ]

  -- The first half of `step_port`, which completes the request in service; the flag is false where
  -- the device has no answer yet and `step_port` returns.
  unfoldable pub complete :
      Option (Device D)
      → D
      → ProgramImage
      → (now epoch : ℕ) → MemoryPort
      → Lane
      → Result (Bool × D × ProgramImage × MemoryPort × Lane)
  unfolding serve
  complete device d image now epoch port lane = elim lane.pending [
    | none ↦ ok (true, d, image, port, lane)
    | some p ↦
        if not (is_due p now port)
        then ok (true, d, image, port, lane)
        else if not (p.epoch == epoch)
        then ok (true, d, image, port, record lane { pending = none })
        else (let (answer, image', d') = serve device d image p.request now epoch in
            elim answer [
              | none ↦ ok (false, d', image', port, lane)
              | some response ↦ do
                responses ← publish port.responses now epoch response
                ok (
                  true,
                  d',
                  image',
                  record port { responses = responses },
                  record lane { pending = none },
                )
            ])
  ]

-- The second half of `step_port`, which takes the next request into service.
unfoldable pub accept :
    Clock
    → (latency now epoch : ℕ) → (instruction : Bool) → MemoryPort
    → Lane
    → Result (MemoryPort × Lane)
accept clock latency now epoch instruction port lane =
    if is_full port.responses
    then ok (port, lane)
    else let (taken, requests) = take port.requests now in
      elim taken [
        | none ↦ ok (port, lane)
        | some message ↦
            let port' : MemoryPort = record port { requests = requests } in
            let request = message.value in
            if not (message.epoch == epoch) then ok (port', lane) else do
              require (ltb lane.last_id request.id && not (request.id == 0)) protocol
              require
                  ((if instruction then request.instruction else not request.instruction)
                    && not (request.instruction && request.write))
                  protocol
              delay ← checked_mul latency clock.period
              completion ← checked_add now delay
              ok (
                port',
                record {
                  pending =
                      some (record { request = request; completion = completion; epoch = epoch });
                  last_id = request.id;
                },
              )
      ]

module _ {ℓ} {D : Type ℓ} where
  unfoldable pub step_port :
      Option (Device D)
      → (clock : Clock) → (latency now epoch : ℕ) → (instruction : Bool) → D
      → ProgramImage
      → MemoryPort
      → Lane
      → Result (D × ProgramImage × MemoryPort × Lane)
  unfolding complete accept
  step_port device clock latency now epoch instruction d image port lane = do
    (answered, d', image', port', lane') ← complete device d image now epoch port lane
    if not answered || is_some lane.pending then ok (d', image', port', lane') else do
      (port'', lane'') ← accept clock latency now epoch instruction port' lane'
      ok (d', image', port'', lane'')

  -- The memory, the device and both ports after a step.
  unfoldable pub step :
      Option (Device D)
      → (now epoch : ℕ) → D
      → MemoryModel
      → (fetch port : MemoryPort) → Result (D × MemoryModel × MemoryPort × MemoryPort)
  unfolding step_port
  step device now epoch d m fetch port = do
    require (edge m.clock now) protocol
    (d', image', fetch', lane) ←
        step_port device m.clock m.latency now epoch true d m.image fetch m.fetch_lane
    (d'', image'', port', lane') ←
        step_port device m.clock m.latency now epoch false d' image' port m.data_lane
    ok (d'', record m { image = image''; fetch_lane = lane; data_lane = lane' }, fetch', port')
