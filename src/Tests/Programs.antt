-- ===== src/Tests/Programs.antt =====
-- src/image.cpp and src/memory.cpp at concrete inputs.
use qsbit_sim.Image.Bytes.{put_bytes, little_endian}
use qsbit_sim.Time.{Clock}
use qsbit_sim.Mailbox.{Envelope, Mailbox}
use qsbit_sim.Image.{ProgramImage, read, write}
use qsbit_sim.Image.Access.{read-write, read-write_outside}
use qsbit_sim.Memory.{MemoryRequest, MemoryPort, Lane}
use qsbit_sim.Base.{ok, ℕ, ◌%◌, ◌^◌, ◌≡◌, refl, inl, true, false, none, some, List, [], ◌∷◌, arith}

abbrev image : List ℕ → ProgramImage
image bytes = record {
  base = 4096;
  entry = 4096;
  bytes = bytes;
  segments =
      record { address = 4096; size = 8; readable = true; writable = true; executable = true } ∷ [];
}

abbrev bytes : List ℕ
bytes = 1 ∷ 2 ∷ 3 ∷ 4 ∷ 5 ∷ 6 ∷ 7 ∷ 8 ∷ []

abbrev written : ProgramImage
written = image (1 ∷ 2 ∷ 3 ∷ 4 ∷ 0xef ∷ 0xbe ∷ 0xad ∷ 0xde ∷ [])

read-write_example : read written 4100 4 false ≡ ok (0xdeadbeef % 256 ^ 4)
unfolding read write little_endian put_bytes
read-write_example = read-write (image bytes) written 4100 4 0xdeadbeef 0x08070605 refl refl

read-write_outside_example : read written 4096 4 true ≡ read (image bytes) 4096 4 true
unfolding write put_bytes
read-write_outside_example =
    read-write_outside (image bytes) written 4100 4 0xdeadbeef 4096 4 true refl (inl (omega arith))

abbrev clock : Clock
clock = record { period = 2; phase = 0 }

abbrev request : MemoryRequest
request = record { id = 5; address = 4096; value = 0; width = 4; write = false; instruction = true }

abbrev requests : List (Envelope MemoryRequest) → Mailbox MemoryRequest
requests entries = record { capacity = 1; receiver = clock; latency = 1; entries = entries }

abbrev port : List (Envelope MemoryRequest) → MemoryPort
port entries = record {
  requests = requests entries;
  responses = record { capacity = 1; receiver = clock; latency = 1; entries = [] };
}

abbrev message : Envelope MemoryRequest
message = record { published = 4; eligible = 6; epoch = 1; value = request }

abbrev busy : Lane
busy = record {
  pending = some (record { request = request; completion = 12; epoch = 1 });
  last_id = 5;
}

abbrev answered : MemoryPort
answered = record (port []) {
  responses = record {
    capacity = 1;
    receiver = clock;
    latency = 1;
    entries =
        record {
          published = 12;
          eligible = 14;
          epoch = 1;
          value = record { id = 5; value = 0x04030201; fault = none };
        }
        ∷ [];
  };
}
