-- ===== src/Cpu/Flow/Step.antt =====
-- The steps of src/cpu/pipeline.cpp follow the control flow of the program.
use qsbit_sim.Time.{checked_add}
use mathlib.Core.Path.{subst}
use qsbit_sim.Isa.{Decoded}
use qsbit_sim.Cpu.{Frame, Pipeline, Machine, Control, retire, written}
use qsbit_sim.Cpu.Execute.{Outcome, run, settle, execute_frame, execute}
use qsbit_sim.Cpu.Step.{
  accept_fetch, issue_frame, move_frame, receive_fetch, flush, request_fetch, advance, run_stages,
}
use qsbit_sim.Cpu.Registers.{run-registers}
use qsbit_sim.Cpu.Flow.{Reads, IsRaw, IsCurrent, Lands, Ends, decode_frame-Reads, run-Ends}
use qsbit_sim.Cpu.Sequence.{InSequence, IsAt-executing}
use qsbit_sim.Cpu.Sequence.Execute.{run-GoesOn}
use qsbit_sim.Base.{
  if◌then◌else◌, Bool-cases, Option-cases, if_cases, ok-injective, >>=-eq-ok, Result, ok, ℕ, ◌≡◌,
  refl, sym, ap, ◌∙◌, ◌⊎◌, inl, inr, Bool, Option, none, some, arith,
}

-- The instruction stays in the execute stage, and the program has not gone on.
abbrev pub Stays : Frame → (p p' : Pipeline) → Type 0
Stays f p p' =
    (p'.pc ≡ p.pc)
    × (p'.registers ≡ p.registers)
    × ((f' : Frame) × (p'.executing ≡ some f') × (f'.id ≡ f.id) × (f'.pc ≡ f.pc))

-- The instruction retires: its register is written, and the program goes on where it says.
abbrev pub Retires : Frame → (p p' : Pipeline) → Type 0
Retires f p p' =
    (d : Decoded) × (value : ℕ) × (f.decoded ≡ some d)
    × (p'.registers ≡ written d value p.registers)
    × Lands p.registers p.pc f d p'.pc value

abbrev pub Follows : Option Frame → (p p' : Pipeline) → Type 0
Follows none p p' = (p'.pc ≡ p.pc) × (p'.registers ≡ p.registers)
Follows (some f) p p' = Stays f p p' ⊎ Retires f p p'

-- What the rest of a step leaves of the state after the execute stage.
abbrev pub Keeps : (p p' : Pipeline) → Type 0
Keeps p p' =
    (p'.pc ≡ p.pc)
    × (p'.registers ≡ p.registers)
    × ((f : Frame) → p.executing ≡ some f → p'.executing ≡ some f)

Follows-Keeps :
    (o : Option Frame) (p p' p'' : Pipeline) → Follows o p p' → Keeps p' p'' → Follows o p p''
Follows-Keeps none p p' p'' h k = (k.0 ∙ h.0, k.1 ∙ h.1)
Follows-Keeps (some f) p p' p'' h (pc, registers, executing) = elim h [
  | inl (a, b, (f', e, i, j)) ↦ inl (pc ∙ a, registers ∙ b, (f', executing f' e, i, j))
  | inr (d, value, q, w, l) ↦
      inr (
        d,
        value,
        q,
        registers ∙ w,
        subst (λ next. Lands p.registers p.pc f d next value) (sym pc) l,
      )
]

issue_frame-IsCurrent : (p : Pipeline) → IsCurrent p → IsCurrent (issue_frame p)
unfolding IsCurrent issue_frame
issue_frame-IsCurrent p h = elim (Option-cases p.executing) [
  | inl e ↦ elim (Option-cases p.decoding) [
    | inl e' ↦ ground arith
    | inr (f, e') ↦
        let raw : IsRaw (some f) = ground arith in
        let reads = decode_frame-Reads p.issue p.registers f raw in rw (e, e') (reads, tt, h.2)
  ]
  | inr (f, e) ↦ ground arith
]

move_frame-IsCurrent : (p : Pipeline) → IsCurrent p → IsCurrent (move_frame p)
unfolding IsCurrent move_frame
move_frame-IsCurrent p h = ground arith

moved-Keeps : (p : Pipeline) → Keeps p (move_frame (issue_frame p))
unfolding move_frame issue_frame
moved-Keeps p = (ground arith, ground arith, λ f q. ground arith)

module _ {ℓ} {C : Type ℓ} where
  pub receive_fetch-IsCurrent :
      (now epoch : ℕ) (m m' : Machine C)
      → receive_fetch now epoch m ≡ ok m'
      → IsCurrent m.pipeline
      → IsCurrent m'.pipeline
        × (m'.pipeline.pc ≡ m.pipeline.pc)
        × (m'.pipeline.registers ≡ m.pipeline.registers)
        × (m'.pipeline.executing ≡ m.pipeline.executing)
  unfolding receive_fetch accept_fetch IsCurrent
  receive_fetch-IsCurrent now epoch m m' e h = ground arith

  flush-IsCurrent :
      (now epoch : ℕ) (m m' : Machine C)
      → flush now epoch m ≡ ok m'
      → IsCurrent m.pipeline
      → IsCurrent m'.pipeline × Keeps m.pipeline m'.pipeline
  unfolding flush checked_add IsCurrent
  flush-IsCurrent now epoch m m' e h =
      (ground arith, (ground arith, ground arith, λ f q. ground arith))

  request_fetch-IsCurrent :
      (now epoch : ℕ) (m m' : Machine C)
      → request_fetch now epoch m ≡ ok m'
      → IsCurrent m.pipeline
      → IsCurrent m'.pipeline × Keeps m.pipeline m'.pipeline
  unfolding request_fetch checked_add IsCurrent
  request_fetch-IsCurrent now epoch m m' e h =
      (ground arith, (ground arith, ground arith, λ f q. ground arith))

  settle-Follows :
      (f : Frame) (d : Decoded) (now epoch : ℕ) (p : Pipeline) (m : Machine C) (o : Outcome)
      → IsCurrent p
      → f.decoded ≡ some d
      → f.pc ≡ p.pc
      → m.pipeline.pc ≡ p.pc
      → m.pipeline.registers ≡ p.registers
      → m.pipeline.decoding ≡ p.decoding
      → m.pipeline.fetched ≡ p.fetched
      → Ends p.registers f d o
      → let p' = (settle d now epoch (o, m)).1.pipeline in IsCurrent p' × Follows (some f) p p'
  unfolding retire IsCurrent
  settle-Follows f d now epoch p m o h q here pc registers decoding fetched ends =
      let (id, place, reads, lands) = ends in
      let raw : IsRaw m.pipeline.decoding × IsRaw m.pipeline.fetched =
        (subst IsRaw (sym decoding) h.1, subst IsRaw (sym fetched) h.2) in
      elim (Bool-cases o.completed) [
        | inl c ↦
            let l = subst (λ x. Lands p.registers x f d o.next_pc o.value) here (lands c) in
            rw c ((tt, raw.0, raw.1), inr (d, o.value, q, ap (written d o.value) registers, l))
        | inr c ↦
            let r = subst (λ x. Reads x (some o.frame)) (sym registers) reads in
            rw c ((r, raw.0, raw.1), inl (pc, registers, (o.frame, refl, id, place)))
      ]

  advance-IsCurrent :
      (now epoch : ℕ) (m m' : Machine C)
      → advance now epoch m ≡ ok m'
      → IsCurrent m.pipeline
      → IsCurrent m'.pipeline × Keeps m.pipeline m'.pipeline
  unfolding advance
  advance-IsCurrent now epoch m m' e h =
      let p = move_frame (issue_frame m.pipeline) in
      let P : Result (Machine C) → Type _ =
        λ r. r ≡ ok m' → IsCurrent m'.pipeline × Keeps m.pipeline m'.pipeline in
      if_cases P m.pipeline.halted
        (λ b i.
          subst (λ (x : Machine C). IsCurrent x.pipeline × Keeps m.pipeline x.pipeline)
            (ok-injective i) (h, (refl, refl, λ f q. q)))
        (λ b i.
          let current =
            move_frame-IsCurrent (issue_frame m.pipeline) (issue_frame-IsCurrent m.pipeline h) in
          let (c, (pc, registers, executing)) =
            request_fetch-IsCurrent now epoch (record m { pipeline = p }) m' i current in
          let (pc', registers', executing') = moved-Keeps m.pipeline in
          (c, (pc ∙ pc', registers ∙ registers', λ f q. executing f (executing' f q))))
        e

module _ {ℓ} {C : Type ℓ} (control : Control C) where
  execute-Follows :
      (now epoch : ℕ) (m m' : Machine C) (flushes : Bool)
      → execute control now epoch m ≡ ok (flushes, m')
      → InSequence m.pipeline
      → IsCurrent m.pipeline
      → IsCurrent m'.pipeline × Follows m.pipeline.executing m.pipeline m'.pipeline
  unfolding execute execute_frame IsCurrent
  execute-Follows now epoch m m' flushes e v h = elim (Option-cases m.pipeline.executing) [
    | inl r ↦ ground arith
    | inr (f, r) ↦ elim (Option-cases f.decoded) [
      | inl q ↦ ground arith
      | inr (d, q) ↦
          let e' : execute_frame control f d now epoch m ≡ ok (flushes, m') = ground arith in
          let ((o, m1), k, e'') = >>=-eq-ok (run control f d now epoch m) _ e' in
          let at = IsAt-executing m.pipeline f r v in
          let (a, b, c, l, same) = run-GoesOn control f d now epoch m m1 o m.pipeline.pc k at in
          let (pc, fetch_pc, fetch, fetched, decoding, generation) = same in
          let reads = subst (Reads m.pipeline.registers) r h.0 in
          let ends = run-Ends control f d now epoch m m1 o k q reads in
          let registers = run-registers control f d now epoch m m1 o k in
          let done =
            settle-Follows f d now epoch m.pipeline m1 o h q at.0 pc registers decoding fetched
              ends in
          rw r (
            subst
              (λ (x : Bool × Machine C).
                IsCurrent x.1.pipeline × Follows (some f) m.pipeline x.1.pipeline)
              (ok-injective e'') done)
    ]
  ]

  pub run_stages-Follows :
      (now epoch : ℕ) (m m' : Machine C)
      → run_stages control now epoch m ≡ ok m'
      → InSequence m.pipeline
      → IsCurrent m.pipeline
      → IsCurrent m'.pipeline × Follows m.pipeline.executing m.pipeline m'.pipeline
  unfolding run_stages
  run_stages-Follows now epoch m m' e v h =
      let ((flushes, m1), k, e') = >>=-eq-ok (execute control now epoch m) _ e in
      let (executed, follows) = execute-Follows now epoch m m1 flushes k v h in
      let (m2, k', e'') = >>=-eq-ok (if flushes then flush now epoch m1 else ok m1) _ e' in
      let P : Result (Machine C) → Type _ =
        λ r. r ≡ ok m2 → IsCurrent m2.pipeline × Keeps m1.pipeline m2.pipeline in
      let (flushed, kept) : IsCurrent m2.pipeline × Keeps m1.pipeline m2.pipeline =
        if_cases P flushes (λ b i. flush-IsCurrent now epoch m1 m2 i executed)
          (λ b i.
            subst (λ (x : Machine C). IsCurrent x.pipeline × Keeps m1.pipeline x.pipeline)
              (ok-injective i) (executed, (refl, refl, λ f q. q)))
          k' in
      let (advanced, kept') = advance-IsCurrent now epoch m2 m' e'' flushed in
      let o = m.pipeline.executing in
      (
        advanced,
        Follows-Keeps o m.pipeline m2.pipeline m'.pipeline
            (Follows-Keeps o m.pipeline m1.pipeline m2.pipeline follows kept) kept',
      )
