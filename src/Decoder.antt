-- ===== src/Decoder.antt =====
-- include/qsbit/decoder.hpp and src/decoder.cpp: the decoders of the measurements, behind a link with
-- one packet at a time in each direction. The function that a decoder computes is a part of its
-- configuration.
pub mod Access
pub mod Transmission
pub mod Step
pub mod Wakeup
pub mod Capacity
use qsbit_sim.Time.{checked_add}
use qsbit_sim.Memory.{MemoryRequest, Device}
use qsbit_sim.Mmio.{
  DecoderReadKind, count_kind, status_kind, low_kind, high_kind, DecoderCommand, decoder_submit,
  decoder_reset, decoder_consume, decoder_read, DecoderMmio,
}
use qsbit_sim.Mmio as Mmio
use qsbit_sim.Trace.{TraceEvent, event, Events}
use qsbit_sim.Base.{
  ltb, leb, ◌==◌, if◌then◌else◌, is_some, length, any, null, member, u32_mod, u64_max, require,
  ◌>>=◌, ◌>>◌, ErrorCode, Result, invalid_profile, invalid_operand, capacity, protocol, ok, fault,
  ℕ, ◌+◌, ◌-◌, ◌/◌, ◌%◌, max, String, Bool, true, false, not, ◌&&◌, ◌||◌, Option, none, some, List,
  [], ◌∷◌, ◌++◌,
}

-- `decode` is none for an empty `std::function`.
pub record DecoderConfig : Type 0 where
  pub id : ℕ
  pub measurements : ℕ
  pub outputs : ℕ
  pub latency : ℕ
  pub initiation_interval : ℕ
  pub decode : Option (List Bool → List Bool)

pub record DecoderSystemConfig : Type 0 where
  pub base : ℕ
  pub request_capacity : ℕ
  pub result_capacity : ℕ
  pub link_latency : ℕ
  pub bytes_per_tick : ℕ
  pub packet_overhead : ℕ
  pub decoders : List DecoderConfig

pub record Session : Type 0 where
  pub measurements : List Bool
  pub outcome : Option ℕ
  pub submitted : Bool

abbrev pub no_session : Session
no_session = record { measurements = []; outcome = none; submitted = false }

pub record Request : Type 0 where
  pub id : ℕ
  pub core : ℕ
  pub decoder : ℕ
  pub count : ℕ
  pub tag : ℕ
  pub bits : ℕ
  pub sent : ℕ
  pub arrival : ℕ
  pub transmitted : Bool

pub record Job : Type 0 where
  pub id : ℕ
  pub core : ℕ
  pub decoder : ℕ
  pub start : ℕ
  pub completion : ℕ
  pub bits : ℕ
  pub arrival : Option ℕ
  pub started : Bool
  pub completed : Bool

-- The keys of `sessions_` are a core and a decoder.
abbrev pub Sessions : Type 0
Sessions = List ((ℕ × ℕ) × Session)

pub record DecoderSystem : Type 0 where
  pub config : DecoderSystemConfig
  pub mmio : DecoderMmio
  pub sessions : Sessions
  pub available : List (ℕ × ℕ)
  pub requests : List Request
  pub reset_request : Option Request
  pub jobs : List Job
  pub tx_available : ℕ
  pub rx_available : ℕ
  pub next : ℕ

abbrev pub is_key : (core decoder : ℕ) → ℕ × ℕ → Bool
is_key core decoder k = k.0 == core && k.1 == decoder

abbrev pub find_session : (core decoder : ℕ) → Sessions → Option Session
find_session core decoder [] = none
find_session core decoder ((k, s) ∷ rest) =
    if is_key core decoder k then some s else find_session core decoder rest

-- `sessions_[{core, decoder}]`, a fresh one where there is none.
abbrev pub session_of : (core decoder : ℕ) → Sessions → Session
session_of core decoder m = elim (find_session core decoder m) [ none ↦ no_session | some s ↦ s ]

abbrev pub put_session : (core decoder : ℕ) → Session → Sessions → Sessions
put_session core decoder s [] = ((core, decoder), s) ∷ []
put_session core decoder s ((k, old) ∷ rest) =
    let more = put_session core decoder s rest in
    if is_key core decoder k then (k, s) ∷ rest else (k, old) ∷ more

-- The set of the identities, in their order.
abbrev pub insert_id : ℕ → List ℕ → List ℕ
insert_id x [] = x ∷ []
insert_id x (y ∷ rest) =
    let more = insert_id x rest in
    if x == y then y ∷ rest else if ltb x y then x ∷ y ∷ rest else y ∷ more

unfoldable pub decoder_ids : List DecoderConfig → List ℕ → List ℕ
decoder_ids [] ids = ids
decoder_ids (d ∷ rest) ids = decoder_ids rest (insert_id d.id ids)

-- The loop of the constructor.
unfoldable pub check_decoders : List DecoderConfig → (seen : List ℕ) → Result (Unit {0})
check_decoders [] seen = ok tt
check_decoders (d ∷ rest) seen = do
  require
      (not (member d.id seen)
        && (ltb 0 d.measurements
            && (leb d.measurements 1048576
                && (ltb 0 d.outputs
                    && (leb d.outputs 64
                        && (ltb 0 d.latency
                            && (ltb 0 d.initiation_interval && is_some d.decode)))))))
      invalid_profile
  check_decoders rest (d.id ∷ seen)

unfoldable pub init : DecoderSystemConfig → Result DecoderSystem
unfolding decoder_ids check_decoders
init config = do
  mmio ← Mmio.init config.base (decoder_ids config.decoders [])
  require
      (ltb 0 config.request_capacity
        && (ltb 0 config.result_capacity
            && (ltb 0 config.bytes_per_tick && ltb 0 config.link_latency)))
      invalid_profile
  check_decoders config.decoders []
  ok (record {
    config = config;
    mmio = mmio;
    sessions = [];
    available = [];
    requests = [];
    reset_request = none;
    jobs = [];
    tx_available = 0;
    rx_available = 0;
    next = 1;
  })
