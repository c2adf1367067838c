-- ===== src/Mailbox/Queue.antt =====
-- include/qsbit/mailbox.hpp: a mailbox against a plain queue of messages.
use qsbit_sim.Mailbox.{Envelope, Mailbox, publish, take}
use mathlib.Core.List.{append_assoc, append-nil, map-append}
use mathlib.Core.Path.{subst}
use qsbit_sim.Mailbox.Delivery.{publish_lem, take-Taken, one, nothing}
use qsbit_sim.Base.{
  ◌>>=◌, ok-injective, >>=-eq-ok, Result, ok, ℕ, ◌≡◌, sym, ap, ◌∙◌, none, some, List, [], ◌∷◌, ◌++◌,
  map,
}

-- The calls of the two sides of a mailbox, in any order.
pub data Call {ℓ} (A : Type ℓ) : Type ℓ where
  publishes : (now epoch : ℕ) → (value : A) → Call A
  takes : (now : ℕ) → Call A

module _ {ℓ} {A : Type ℓ} where
  -- What the receiver gets of a message: when it was published, its epoch and its value.
  abbrev pub message : Envelope A → ℕ × ℕ × A
  message x = (x.published, x.epoch, x.value)

  abbrev pub messages : Mailbox A → List (ℕ × ℕ × A)
  messages m = map message m.entries

  abbrev pub published : List (Call A) → List (ℕ × ℕ × A)
  published [] = []
  published (publishes now epoch value ∷ rest) = (now, epoch, value) ∷ published rest
  published (takes now ∷ rest) = published rest

  -- The calls one after the other, with the messages that were taken.
  abbrev pub run : List (Call A) → Mailbox A → Result (List (ℕ × ℕ × A) × Mailbox A)
  run [] m = ok ([], m)
  run (publishes now epoch value ∷ rest) m = do m' ← publish m now epoch value; run rest m'
  run (takes now ∷ rest) m = do
    let (taken, m') = take m now
    (more, m'') ← run rest m'
    ok (elim taken [ none ↦ more | some x ↦ message x ∷ more ], m'')

  -- Whatever calls of the two sides succeed one after the other, a mailbox is a queue: the messages
  -- that were in it, followed by those published, are the messages taken, followed by those that
  -- are left. So none is lost, doubled, changed or overtaken.
  pub run-messages :
      (calls : List (Call A)) (m m' : Mailbox A) (taken : List (ℕ × ℕ × A))
      → run calls m ≡ ok (taken, m')
      → messages m ++ published calls ≡ taken ++ messages m'
  run-messages [] m m' taken e =
      subst (λ (x : List (ℕ × ℕ × A) × Mailbox A). messages m ++ [] ≡ x.0 ++ messages x.1)
        (ok-injective e) (append-nil (messages m))
  run-messages (publishes now epoch value ∷ rest) m m' taken e =
      let (m1, k, e') = >>=-eq-ok (publish m now epoch value) _ e in
      let (eligible, at, order, room, added) = publish_lem m now epoch value k in
      let x : Envelope A = record {
        published = now;
        eligible = eligible;
        epoch = epoch;
        value = value;
      } in
      let grown : messages m1 ≡ messages m ++ message x ∷ [] =
        ap messages added ∙ map-append message m.entries (x ∷ []) in
      let ih = run-messages rest m1 m' taken e' in
      sym (append_assoc (messages m) (message x ∷ []) (published rest))
      ∙ ap (λ xs. xs ++ published rest) (sym grown)
      ∙ ih
  run-messages (takes now ∷ rest) m m' taken e = elim (take-Taken m now) [
    | one x xs f early r ↦
        let left : Mailbox A = record m { entries = xs } in
        let ((more, m1), k, e') = >>=-eq-ok (run rest left) _ (rw r at e) in
        let ih = run-messages rest left m1 more k in
        subst
          (λ (y : List (ℕ × ℕ × A) × Mailbox A). messages m ++ published rest ≡ y.0 ++ messages y.1)
          (ok-injective e') (rw f (ap (λ ys. message x ∷ ys) ih))
    | nothing r late ↦
        let ((more, m1), k, e') = >>=-eq-ok (run rest m) _ (rw r at e) in
        let ih = run-messages rest m m1 more k in
        subst
          (λ (y : List (ℕ × ℕ × A) × Mailbox A). messages m ++ published rest ≡ y.0 ++ messages y.1)
          (ok-injective e') ih
  ]
