-- ===== src/Mmio/Packets.antt =====
-- src/decoder/mmio.cpp: a packet that a core writes to the registers is the packet submitted, and the
-- registers of other cores stay.
use qsbit_sim.Memory.{MemoryRequest}
use qsbit_sim.Mmio.{
  DecoderCommand, decoder_submit, Registers, DecoderMmio, contains, registers_of, read_register,
  command_of, write_register, access,
}
use mathlib.Core.Path.{subst}
use qsbit_sim.Base.{
  ◌==◌, Bool-cases, member, ◌>>=◌, require, >>=-eq-ok, invalid_operand, ok, find, assign, ℕ, ◌+◌,
  ◌-◌, ◌*◌, ◌%◌, ◌^◌, ◌≤◌, ◌<◌, ◌≡◌, refl, ◌≢◌, inl, inr, true, false, not, ◌&&◌, Option, some,
  List, [], ◌∷◌, arith,
}

abbrev pub word_write : (id address value : ℕ) → MemoryRequest
word_write id address value = record {
  id = id;
  address = address;
  value = value;
  width = 4;
  write = true;
  instruction = false;
}

-- Where the five registers of a core are written and the packet is submitted, the command has what
-- was written, the low word of the data below the high one.
pub submit-writes :
    (decoders : List ℕ) (r : Registers) (decoder n low high tag : ℕ)
    → member decoder decoders ≡ true
    → 0 < n
    → n ≤ 64
    → (do
      (r0, c0) ← write_register decoders r 0 decoder
      (r1, c1) ← write_register decoders r0 4 n
      (r2, c2) ← write_register decoders r1 8 low
      (r3, c3) ← write_register decoders r2 12 high
      (r4, c4) ← write_register decoders r3 16 tag
      write_register decoders r4 20 1)
      ≡ ok (
        record { decoder = decoder; count = n; low = low; high = high; tag = tag },
        some (decoder_submit decoder n tag (low + high * 2 ^ 32)),
      )
unfolding write_register command_of
submit-writes decoders r decoder n low high tag h p q = ground arith

find-assign_ne :
    (k j : ℕ) (v : Registers) (m : List (ℕ × Registers)) → k ≢ j → find j (assign k v m) ≡ find j m
find-assign_ne k j v [] h = ground arith
find-assign_ne k j v ((i, w) ∷ m) h = ground (arith, find-assign_ne k j v m h)

registers_of-assign_ne :
    (m : DecoderMmio) (core other : ℕ) (r : Registers)
    → core ≢ other
    → registers_of (record m { registers = assign core r m.registers }) other ≡ registers_of m other
registers_of-assign_ne m core other r ne =
    rw (find-assign_ne core other r m.registers ne, registers_of) refl

-- An access of one core leaves the registers of every other core.
pub access-other :
    (m m' : DecoderMmio) (core other : ℕ) (request : MemoryRequest)
    (command : Option DecoderCommand)
    → core ≢ other
    → access m core request ≡ ok (command, m')
    → registers_of m' other ≡ registers_of m other
unfolding access
access-other m m' core other request command ne h =
    let offset = request.address - m.base in
    let (_, _, h1) =
      >>=-eq-ok
        (require
          (contains m request.address
            && (request.width == 4 && (request.address % 4 == 0 && not request.instruction)))
          invalid_operand)
        _ h in
    elim (Bool-cases request.write) [
      | inl b ↦
          let h2 = rw b at h1 in
          let ((r', c), _, h3) =
            >>=-eq-ok (write_register m.decoders (registers_of m core) offset request.value) _ h2 in
          let made : record m { registers = assign core r' m.registers } ≡ m' = ground arith in
          subst (λ (x : DecoderMmio). registers_of x other ≡ registers_of m other) made
            (registers_of-assign_ne m core other r' ne)
      | inr b ↦
          let h2 = rw b at h1 in
          let (c, _, h3) = >>=-eq-ok (read_register m.decoders (registers_of m core) offset) _ h2 in
          let same : m ≡ m' = ground arith in
          subst (λ (x : DecoderMmio). registers_of x other ≡ registers_of m other) same refl
    ]
