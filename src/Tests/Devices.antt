-- ===== src/Tests/Devices.antt =====
-- src/decoder/mmio.cpp and src/device/ at concrete inputs.
use qsbit_sim.Event.{EventSpec, gate_spec}
use qsbit_sim.Feedback.{always}
use qsbit_sim.Protocol.{ScheduledEvent}
use qsbit_sim.Mmio.{
  decoder_submit, Registers, fresh_registers, DecoderMmio, registers_of, write_register, access,
}
use qsbit_sim.Mmio.Packets.{submit-writes, access-other, word_write}
use qsbit_sim.Device.Readouts.{Readout, Readouts, at, sample, result_of}
use qsbit_sim.Device.Readouts.Results.{result_of-sample}
use qsbit_sim.Device.Resources.{reserve}
use qsbit_sim.Device.Resources.Conflicts.{Compatible, reserve-Compatible}
use qsbit_sim.Base.{◌>>=◌, ok, ℕ, ◌+◌, ◌*◌, ◌^◌, ◌≡◌, refl, true, none, some, List, [], ◌∷◌, arith}

submit-writes_example :
    (do
      (r0, c0) ← write_register (0 ∷ 7 ∷ []) fresh_registers 0 7
      (r1, c1) ← write_register (0 ∷ 7 ∷ []) r0 4 40
      (r2, c2) ← write_register (0 ∷ 7 ∷ []) r1 8 5
      (r3, c3) ← write_register (0 ∷ 7 ∷ []) r2 12 6
      (r4, c4) ← write_register (0 ∷ 7 ∷ []) r3 16 9
      write_register (0 ∷ 7 ∷ []) r4 20 1)
    ≡ ok (
      record { decoder = 7; count = 40; low = 5; high = 6; tag = 9 },
      some (decoder_submit 7 40 9 (5 + 6 * 2 ^ 32)),
    )
submit-writes_example =
    submit-writes (0 ∷ 7 ∷ []) fresh_registers 7 40 5 6 9 refl (omega arith) (omega arith)

abbrev mmio : List (ℕ × Registers) → DecoderMmio
mmio registers = record { base = 1024; decoders = 7 ∷ []; registers = registers }

abbrev counting : Registers
counting = record fresh_registers { count = 3 }

access-other_example :
    registers_of (mmio ((0, counting) ∷ (1, counting) ∷ [])) 1
    ≡ registers_of (mmio ((1, counting) ∷ [])) 1
unfolding access
access-other_example =
    access-other (mmio ((1, counting) ∷ [])) (mmio ((0, counting) ∷ (1, counting) ∷ [])) 0 1
      (word_write 1 1028 3) none (λ h. cc) refl

abbrev readout : Readout
readout = record {
  reference = record { epoch = 1; measurement = 4; target = 0 };
  end_tick = 10;
  arm = 2;
  ready = 12;
  sampled = none;
  core = none;
}

abbrev pending : Readout → Readouts
pending r = record { pending = (4, r) ∷ [] }

result_of-sample_example :
    (r : Readout) × (at (pending readout) 4 ≡ ok r)
    × (result_of (pending (record readout { sampled = some true })) 4
        ≡ ok (record { reference = r.reference; value = true }))
unfolding sample
result_of-sample_example =
    result_of-sample (pending readout) (pending (record readout { sampled = some true })) 4 true
      refl

abbrev action : (port : ℕ) → EventSpec
action port = record {
  port = port;
  delay = 0;
  duration = 4;
  spec = gate_spec (record {
    operation = "x";
    operands = record { targets = port ∷ []; resources = [] };
    amplitude = 0;
    execution_flag = always;
  });
}

abbrev scheduled : (id port start : ℕ) → ScheduledEvent
scheduled id port start = record {
  event = record {
    epoch = 1;
    id = id;
    instruction = 0;
    label = 1;
    source_port = port;
    codeword = 0;
    action = action port;
    reference = none;
    core = none;
  };
  start = start;
  end_tick = start + 4;
  resolved = action port;
}

reserve-Compatible_example : Compatible (scheduled 1 0 0 ∷ scheduled 2 1 0 ∷ scheduled 3 0 4 ∷ [])
unfolding Compatible reserve
reserve-Compatible_example =
    reserve-Compatible (record { reservations = [] })
      (record { reservations = scheduled 1 0 0 ∷ scheduled 2 1 0 ∷ scheduled 3 0 4 ∷ [] })
      (scheduled 1 0 0 ∷ scheduled 2 1 0 ∷ scheduled 3 0 4 ∷ []) tt refl
