-- ===== src/TimingControl/Draining.antt =====
-- src/timing_control.cpp, `receive`: the loop over the measurement results.
use qsbit_sim.Mailbox.{Mailbox, Envelope, take, take_from}
use qsbit_sim.Feedback.{deliver}
use qsbit_sim.Trace.{event}
use qsbit_sim.TimingControl.{Effects, receive_results, emit, updated_event}
use mathlib.Core.Path.{subst}
use qsbit_sim.Base.{
  leb, ◌==◌, Bool-cases, Option-cases, length, List-cases, >>=-eq-ok, ok, ℕ, zero, suc, ◌≤◌, ◌≡◌,
  refl, inl, inr, none, some, arith,
}

take-empty : {A : Type 0} (m : Mailbox A) (now : ℕ) → length m.entries ≤ 0 → (take m now).0 ≡ none
unfolding take take_from
take-empty m now h = elim (List-cases m.entries) [
  | inl e ↦ rw e refl
  | inr (x, rest, e) ↦ let h' = rw e at h in absurd (omega arith)
]

-- A message taken leaves one entry less.
length-take :
    {A : Type 0} (m : Mailbox A) (now : ℕ) (x : Envelope A)
    → (take m now).0 ≡ some x
    → length m.entries ≡ suc (length (take m now).1.entries)
unfolding take take_from
length-take m now x h = elim (List-cases m.entries) [
  | inl e ↦ let h' = rw e at h in cc
  | inr (y, rest, e) ↦ elim (Bool-cases (leb y.eligible now)) [
    | inl b ↦ ground arith
    | inr b ↦ ground arith
  ]
]

-- With as many turns as there are messages the loop over the results ends by itself: no message that
-- can be read is left.
pub receive_results-drained :
    (fuel now epoch : ℕ) (s s' : Effects)
    → length s.links.cpu_results.entries ≤ fuel
    → receive_results fuel now epoch s ≡ ok s'
    → (take s'.links.cpu_results now).0 ≡ none
unfolding receive_results
receive_results-drained zero now epoch s s' h r =
    let same : s ≡ s' = ground arith in
    subst (λ (x : Effects). (take x.links.cpu_results now).0 ≡ none) same
      (take-empty s.links.cpu_results now h)
receive_results-drained (suc fuel) now epoch s s' h r =
    elim (Option-cases (take s.links.cpu_results now).0) [
      | inl e ↦
          let r' = rw (e, receive_results) at r in
          let same : s ≡ s' = cc in
          subst (λ (x : Effects). (take x.links.cpu_results now).0 ≡ none) same e
      | inr (x, e) ↦
          let r' = rw (e, receive_results) at r in
          let shorter = length-take s.links.cpu_results now x e in
          let s1 : Effects = record s {
            links = record s.links { cpu_results = (take s.links.cpu_results now).1 };
          } in
          elim (Bool-cases (x.epoch == epoch)) [
            | inr b ↦
                let r'' = rw b at r' in
                receive_results-drained fuel now epoch
                  (emit s1 (event now epoch "StaleCompletionDiscarded" 0 0 0)) s' (omega arith) r''
            | inl b ↦
                let r'' = rw b at r' in
                let (registers, _, more) = >>=-eq-ok (deliver s.registers x.value epoch) _ r'' in
                receive_results-drained fuel now epoch
                  (emit (record s1 { registers = registers }) (updated_event now epoch x.value)) s'
                  (omega arith) more
          ]
    ]
