-- ===== src/Mmio.antt =====
-- include/qsbit/decoder/mmio.hpp, src/decoder/mmio.cpp and
-- contracts/include/qsbit/contracts/decoder.hpp: the registers through which a core drives the
-- decoders. Each core has registers of its own.
pub mod Packets
use qsbit_sim.Image.{ProgramImage}
use qsbit_sim.Memory.{MemoryRequest}
use qsbit_sim.Base.{
  ltb, leb, ◌==◌, if◌then◌else◌, length, null, member, ◌>>=◌, ◌>>◌, require, Result,
  invalid_profile, invalid_operand, protocol, ok, fault, find, assign, ℕ, ◌+◌, ◌-◌, ◌*◌, ◌%◌, ◌^◌,
  Bool, not, ◌&&◌, ◌||◌, Option, none, some, List, [],
}

pub data DecoderReadKind : Type 0 where
  count_kind status_kind low_kind high_kind : DecoderReadKind

pub data DecoderCommand : Type 0 where
  decoder_submit : (decoder count tag data_word : ℕ) → DecoderCommand
  decoder_reset : (decoder tag : ℕ) → DecoderCommand
  decoder_consume : (decoder : ℕ) → DecoderCommand
  decoder_read : (decoder : ℕ) → DecoderReadKind → DecoderCommand

pub record Registers : Type 0 where
  pub decoder : ℕ
  pub count : ℕ
  pub low : ℕ
  pub high : ℕ
  pub tag : ℕ

abbrev pub fresh_registers : Registers
fresh_registers = record { decoder = 0; count = 0; low = 0; high = 0; tag = 0 }

-- `decoders` is the set of the identities, `registers` the map from a core.
pub record DecoderMmio : Type 0 where
  pub base : ℕ
  pub decoders : List ℕ
  pub registers : List (ℕ × Registers)

abbrev pub register_bytes : ℕ
register_bytes = 32

unfoldable pub init : ℕ → List ℕ → Result DecoderMmio
init base decoders = do
  require (base % 4 == 0 && leb base (2 ^ 32 - 1 - (register_bytes - 1))) invalid_profile
  ok (record { base = base; decoders = decoders; registers = [] })

unfoldable pub contains : DecoderMmio → ℕ → Bool
contains m address =
    not (null m.decoders) && (leb m.base address && ltb address (m.base + register_bytes))

unfoldable pub validate_memory : DecoderMmio → ProgramImage → Result (Unit {0})
validate_memory m image =
    require
      (null m.decoders
        || (leb (image.base + length image.bytes) m.base
            || leb (m.base + register_bytes) image.base))
      invalid_profile

-- `registers_[core]`.
abbrev pub registers_of : DecoderMmio → ℕ → Registers
registers_of m core = elim (find core m.registers) [ none ↦ fresh_registers | some r ↦ r ]

unfoldable pub read_register : List ℕ → Registers → (offset : ℕ) → Result DecoderCommand
read_register decoders r offset = do
  require (member r.decoder decoders) invalid_operand
  if offset == 4
      then ok (decoder_read r.decoder count_kind)
      else if offset == 20
      then ok (decoder_read r.decoder status_kind)
      else if offset == 24
      then ok (decoder_read r.decoder low_kind)
      else if offset == 28
      then ok (decoder_read r.decoder high_kind)
      else fault protocol

unfoldable pub command_of : List ℕ → Registers → (value : ℕ) → Result DecoderCommand
command_of decoders r value = do
  require (member r.decoder decoders) invalid_operand
  if value == 3
      then ok (decoder_consume r.decoder)
      else if value == 2
      then ok (decoder_reset r.decoder r.tag)
      else if value == 1
      then (do
        require (ltb 0 r.count && leb r.count 64) invalid_operand
        ok (decoder_submit r.decoder r.count r.tag (r.low + r.high * 2 ^ 32)))
      else fault invalid_operand

-- The registers and the command, if any, after a write.
unfoldable pub write_register :
    List ℕ → Registers → (offset value : ℕ) → Result (Registers × Option DecoderCommand)
unfolding command_of
write_register decoders r offset value =
    if offset == 0
    then (do
      require (member value decoders) invalid_operand
      ok (record r { decoder = value }, none))
    else if offset == 4
    then ok (record r { count = value }, none)
    else if offset == 8
    then ok (record r { low = value }, none)
    else if offset == 12
    then ok (record r { high = value }, none)
    else if offset == 16
    then ok (record r { tag = value }, none)
    else if offset == 20
    then (do command ← command_of decoders r value; ok (r, some command))
    else fault invalid_operand

-- An access of a core. An entry that the C++ map makes for a core before a fault holds the same
-- registers as a missing one.
unfoldable pub access :
    DecoderMmio → (core : ℕ) → MemoryRequest → Result (Option DecoderCommand × DecoderMmio)
unfolding contains read_register write_register
access m core request = do
  require
      (contains m request.address
        && (request.width == 4 && (request.address % 4 == 0 && not request.instruction)))
      invalid_operand
  let r = registers_of m core
  let offset = request.address - m.base
  if request.write
      then (do
        (r', command) ← write_register m.decoders r offset request.value
        ok (command, record m { registers = assign core r' m.registers }))
      else do command ← read_register m.decoders r offset; ok (some command, m)

unfoldable pub reset : DecoderMmio → DecoderMmio
reset m = record m { registers = [] }
