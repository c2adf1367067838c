-- ===== src/Command/Bundle.antt =====
-- A bundle of two codewords that was assembled from its slots decodes to the two commands.
use qsbit_sim.Isa.{quantum, Decoded, valid_control_word}
use qsbit_sim.Isa.Decode.{decode, decode_control, blank}
use qsbit_sim.Command.{
  codeword_command, ControlOperation, adapt_quantum, bundle_lane, decode_cw_bundle,
}
use qsbit_sim.Base.{
  ◌==◌, if◌then◌else◌, get_or, field, ◌>>=◌, ok, ℕ, ◌+◌, ◌*◌, ◌/◌, ◌%◌, ◌^◌, ◌≤◌, ◌<◌, ◌≡◌, refl,
  ◌&&◌, ◌||◌, List, arith,
}

-- A slot: port, codeword and immediate flags; and the bundle of two slots.
abbrev pub slot : ℕ → ℕ → ℕ → ℕ
slot port codeword modes = port + codeword * 2 ^ 5 + modes * 2 ^ 10

abbrev pub bundle_word : ℕ → ℕ → ℕ
bundle_word first second = 0x2b + first * 2 ^ 7 + second * 2 ^ 19

abbrev pub scalar_word : ℕ → ℕ → ℕ → ℕ
scalar_word port codeword modes = 0x0b + port * 2 ^ 15 + codeword * 2 ^ 20 + modes * 2 ^ 25

abbrev pub scalar_decoded : ℕ → Decoded
scalar_decoded w = record (blank w) {
  op = quantum;
  reads_rs1 = field w 12 3 == 0 && w / 2 ^ 25 % 2 == 0 || field w 12 3 == 1;
  reads_rs2 = field w 12 3 == 0 && w / 2 ^ 25 / 2 % 2 == 0;
  writes_rd = field w 12 3 == 3;
}

decode-scalar :
    (w : ℕ)
    → w % 128 ≡ 0x0b
    → field w 7 5 ≡ 0
    → field w 12 3 ≡ 0
    → w / 2 ^ 25 ≤ 3
    → decode w ≡ ok (scalar_decoded w)
unfolding decode decode_control valid_control_word
decode-scalar w a b c d = rw a (rw (b, c) (ground arith))

-- One slot is the codeword command whose port and codeword are immediates where the flags say so,
-- and the values of the named registers where not.
abbrev pub lane_operation : ℕ → List ℕ → ℕ → ℕ → ℕ → ControlOperation
lane_operation instruction registers port codeword modes = record {
  instruction = instruction;
  command =
      codeword_command (if modes % 2 == 0 then get_or registers port 0 else port)
        (if modes / 2 == 0 then get_or registers codeword 0 else codeword);
}

adapt-scalar :
    (w port codeword modes instruction lhs rhs : ℕ)
    → field w 12 3 ≡ 0
    → field w 15 5 ≡ port
    → field w 20 5 ≡ codeword
    → w / 2 ^ 25 ≡ modes
    → modes < 4
    → adapt_quantum (scalar_decoded w) instruction lhs rhs
      ≡ ok (record {
        instruction = instruction;
        command =
            codeword_command
              (if modes % 2 == 0 then lhs else port)
              (if modes / 2 == 0 then rhs else codeword);
      })
unfolding adapt_quantum
adapt-scalar w port codeword modes instruction lhs rhs a b c d e =
    let low : modes / 2 % 2 ≡ modes / 2 = omega arith in rw a (rw (b, c, d, low) refl)

scalar_word-fields :
    (port codeword modes : ℕ)
    → port < 32
    → codeword < 32
    → modes < 4
    → let w = scalar_word port codeword modes in
      (w % 128 ≡ 0x0b)
      × (field w 7 5 ≡ 0)
      × (field w 12 3 ≡ 0)
      × (field w 15 5 ≡ port)
      × (field w 20 5 ≡ codeword)
      × (w / 2 ^ 25 ≡ modes)
scalar_word-fields port codeword modes a b c = omega arith

scalar-lane :
    (port codeword modes instruction lhs rhs : ℕ)
    → port < 32
    → codeword < 32
    → modes < 4
    → (decode (scalar_word port codeword modes) >>= λ d. adapt_quantum d instruction lhs rhs)
      ≡ ok (record {
        instruction = instruction;
        command =
            codeword_command
              (if modes % 2 == 0 then lhs else port)
              (if modes / 2 == 0 then rhs else codeword);
      })
scalar-lane port codeword modes instruction lhs rhs a b c =
    let w = scalar_word port codeword modes in
    let (code, rd, f3, p, q, m) = scalar_word-fields port codeword modes a b c in
    rw (decode-scalar w code rd f3 (omega (arith, m)))
      (adapt-scalar w port codeword modes instruction lhs rhs f3 p q m c)

lane-slot :
    (word instruction : ℕ) (registers : List ℕ) (lane port codeword modes : ℕ)
    → port < 32
    → codeword < 32
    → modes < 4
    → field word (7 + 12 * lane) 12 ≡ slot port codeword modes
    → bundle_lane word instruction registers lane
      ≡ ok (lane_operation instruction registers port codeword modes)
unfolding bundle_lane
lane-slot word instruction registers lane port codeword modes a b c e =
    let s = slot port codeword modes in
    let p : s % 2 ^ 5 ≡ port = omega arith in
    let q : s / 2 ^ 5 % 2 ^ 5 ≡ codeword = omega arith in
    let m : s / 2 ^ 10 ≡ modes = omega arith in
    rw e (
      rw (p, q, m)
        (scalar-lane port codeword modes instruction (get_or registers port 0)
          (get_or registers codeword 0) a b c))

-- A bundle of two slots decodes to the two codeword commands, in order, whatever the slots' ports,
-- codewords and immediate flags: each operand is the field itself, or the register that it names.
pub decode-bundle_word :
    (instruction : ℕ) (registers : List ℕ) (p c m p' c' m' : ℕ)
    → p < 32
    → c < 32
    → m < 4
    → p' < 32
    → c' < 32
    → m' < 4
    → decode_cw_bundle (bundle_word (slot p c m) (slot p' c' m')) instruction registers
      ≡ ok (
        lane_operation instruction registers p c m,
        lane_operation instruction registers p' c' m',
      )
unfolding decode_cw_bundle
decode-bundle_word instruction registers p c m p' c' m' a b d a' b' d' =
    let w = bundle_word (slot p c m) (slot p' c' m') in
    let tag : w % 2 ^ 7 ≡ 0x2b = omega arith in
    let top : w / 2 ^ 31 ≡ 0 = omega arith in
    let low : field w (7 + 12 * 0) 12 ≡ slot p c m = omega arith in
    let high : field w (7 + 12 * 1) 12 ≡ slot p' c' m' = omega arith in
    rw
      (
        tag,
        top,
        lane-slot w instruction registers 0 p c m a b d low,
        lane-slot w instruction registers 1 p' c' m' a' b' d' high,
      )
      refl
