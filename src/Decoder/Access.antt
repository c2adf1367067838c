-- ===== src/Decoder/Access.antt =====
-- src/decoder.cpp: the accesses of a core to the registers of the decoders.
use qsbit_sim.Decoder.{
  DecoderConfig, DecoderSystemConfig, no_session, Request, DecoderSystem, session_of, put_session,
}
use qsbit_sim.Time.{checked_add}
use qsbit_sim.Memory.{MemoryRequest}
use qsbit_sim.Mmio.{
  DecoderReadKind, count_kind, status_kind, low_kind, high_kind, DecoderCommand, decoder_submit,
  decoder_reset, decoder_consume, decoder_read, DecoderMmio,
}
use qsbit_sim.Mmio as Mmio
use qsbit_sim.Trace.{TraceEvent, event, Events}
use qsbit_sim.Base.{
  leb, ◌==◌, if◌then◌else◌, is_some, length, any, null, u32_mod, u64_max, require, ◌>>=◌, ◌>>◌,
  ErrorCode, Result, invalid_operand, protocol, ok, fault, ℕ, ◌+◌, ◌-◌, ◌/◌, ◌%◌, max, String, Bool,
  true, false, not, ◌&&◌, ◌||◌, Option, none, some, List, [], ◌∷◌, ◌++◌,
}

abbrev pub find_decoder : ℕ → List DecoderConfig → Option DecoderConfig
find_decoder id [] = none
find_decoder id (d ∷ rest) = if d.id == id then some d else find_decoder id rest

unfoldable pub decoder : DecoderSystem → ℕ → Result DecoderConfig
decoder d id = elim (find_decoder id d.config.decoders) [
  | none ↦ fault invalid_operand
  | some c ↦ ok c
]

abbrev pub decoder_event : (now epoch : ℕ) → String → (id core : ℕ) → TraceEvent
decoder_event now epoch kind id core = record (event now epoch kind id 0 0) { core = some core }

-- The ticks that a packet with so many bits takes on the link.
unfoldable pub packet_ticks : DecoderSystemConfig → (bits : ℕ) → Result ℕ
packet_ticks c bits = do
  bytes ← checked_add c.packet_overhead ((bits + 7) / 8)
  ok (max 1 ((bytes + c.bytes_per_tick - 1) / c.bytes_per_tick))

unfoldable pub consume_result :
    DecoderSystem → (core id now epoch : ℕ) → Result (Option ℕ × DecoderSystem × Events)
consume_result d core id now epoch = do
  let s = session_of core id d.sessions
  require (is_some s.outcome && (not s.submitted && null s.measurements)) protocol
  ok (
    some 0,
    record d { sessions = put_session core id no_session d.sessions },
    decoder_event now epoch "DecoderResultConsumed" 0 core ∷ [],
  )

abbrev pub is_for : (core id : ℕ) → Request → Bool
is_for core id p = p.core == core && p.decoder == id

abbrev pub matches_reset : (core id : ℕ) → Option Request → Bool
matches_reset core id none = false
matches_reset core id (some p) = is_for core id p

-- The bits `Ready` and `Busy`.
unfoldable pub status_of : DecoderSystem → (core id : ℕ) → ℕ
status_of d core id =
    let s = session_of core id d.sessions in
    let pending = matches_reset core id d.reset_request || any (is_for core id) d.requests in
    (if is_some s.outcome then 1 else 0)
    + (if pending || (s.submitted || not (null s.measurements)) then 2 else 0)

unfoldable pub read_value : DecoderSystem → (core id : ℕ) → DecoderReadKind → Result ℕ
unfolding decoder status_of
read_value d core id count_kind = do c ← decoder d id; ok c.outputs
read_value d core id status_kind = ok (status_of d core id)
read_value d core id low_kind = elim (session_of core id d.sessions).outcome [
  | none ↦ fault protocol
  | some bits ↦ ok (bits % u32_mod)
]
read_value d core id high_kind = elim (session_of core id d.sessions).outcome [
  | none ↦ fault protocol
  | some bits ↦ ok (bits / u32_mod % u32_mod)
]

-- A submission, or a reset as a packet without bits; none where it has to wait.
unfoldable pub submit :
    DecoderSystem
    → (resets : Bool) → (core id count tag bits now epoch : ℕ)
    → Result (Option ℕ × DecoderSystem × Events)
unfolding packet_ticks
submit d resets core id count tag bits now epoch =
    if (if resets
      then is_some d.reset_request
      else leb d.config.request_capacity (length d.requests))
    then ok (none, d, [])
    else do
      duration ← packet_ticks d.config count
      let sent = max now d.tx_available
      end_tick ← checked_add sent duration
      arrival ← checked_add end_tick d.config.link_latency
      require (not (d.next == u64_max)) ErrorCode.capacity
      let packet : Request = record {
        id = d.next;
        core = core;
        decoder = id;
        count = count;
        tag = tag;
        bits = bits;
        sent = sent;
        arrival = arrival;
        transmitted = false;
      }
      ok (
        some 0,
        record d {
          reset_request = if resets then some packet else d.reset_request;
          requests = if resets then d.requests else d.requests ++ packet ∷ [];
          next = d.next + 1;
          tx_available = end_tick;
        },
        decoder_event now epoch "DecoderRequestSubmitted" d.next core ∷ [],
      )

-- The answer is none where the access has to be tried again.
unfoldable pub access :
    DecoderSystem
    → (core : ℕ) → MemoryRequest
    → (now epoch : ℕ) → Result (Option ℕ × DecoderSystem × Events)
unfolding consume_result read_value submit
access d core request now epoch = do
  (command, mmio) ← Mmio.access d.mmio core request
  let d' : DecoderSystem = record d { mmio = mmio }
  elim command [
    | none ↦ ok (some 0, d', [])
    | some c ↦ elim c [
      | decoder_consume id ↦ consume_result d' core id now epoch
      | decoder_read id kind ↦ do value ← read_value d' core id kind; ok (some value, d', [])
      | decoder_reset id tag ↦ submit d' true core id 0 tag 0 now epoch
      | decoder_submit id count tag bits ↦ submit d' false core id count tag bits now epoch
    ]
  ]
