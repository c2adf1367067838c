-- ===== src/Device/Resources/Conflicts.antt =====
-- src/device/resources.cpp: the intervals that are reserved on one output port.
use qsbit_sim.Device.Resources.{
  event_id, ResourceReservations, pair, check_overlap, check_reserved, check_earlier, check_from,
  check, reserve, discard_before,
}
use qsbit_sim.Protocol.{ScheduledEvent}
use mathlib.Core.List.{append-nil, append_assoc}
use mathlib.Core.Path.{subst}
use qsbit_sim.Base.{
  ltb, ◌==◌, if_cases, keep, All, All-append, member, require, >>=-eq-ok, protocol, ok, ℕ, ◌≤◌, ◌≡◌,
  sym, ◌⊎◌, Bool, not, List, [], ◌∷◌, ◌++◌, map, arith,
}

-- Two accepted intervals do not drive one output port at the same time.
unfoldable pub PortsApart : ScheduledEvent → ScheduledEvent → Type 0
PortsApart a b =
    (a.resolved.port ≡ b.resolved.port) → (a.end_tick ≤ b.start) ⊎ (b.end_tick ≤ a.start)

unfoldable pub Compatible : List ScheduledEvent → Type 0
unfolding PortsApart
Compatible [] = Unit
Compatible (a ∷ rest) = All (λ b. PortsApart a b) rest × Compatible rest

pair-PortsApart : (a b : ScheduledEvent) → pair a b ≡ ok tt → PortsApart b a
unfolding PortsApart pair check_overlap
pair-PortsApart a b h p = ground arith

check_reserved-All :
    (a : ScheduledEvent) (olds : List ScheduledEvent)
    → check_reserved a olds ≡ ok tt
    → All (λ b. PortsApart b a) olds
unfolding check_reserved
check_reserved-All a [] h = tt
check_reserved-All a (old ∷ rest) h =
    let (u, e, h') = >>=-eq-ok (require (not (old.event.id == a.event.id)) protocol) _ h in
    let (v, apart, more) = >>=-eq-ok (pair a old) _ h' in
    (pair-PortsApart a old apart, check_reserved-All a rest more)

check_earlier-All :
    (a : ScheduledEvent) (earlier : List ScheduledEvent)
    → check_earlier a earlier ≡ ok tt
    → All (λ b. PortsApart b a) earlier
unfolding check_earlier
check_earlier-All a [] h = tt
check_earlier-All a (other ∷ rest) h =
    let (v, apart, more) = >>=-eq-ok (pair a other) _ h in
    (pair-PortsApart a other apart, check_earlier-All a rest more)

Compatible-snoc :
    (xs : List ScheduledEvent) (a : ScheduledEvent)
    → Compatible xs
    → All (λ b. PortsApart b a) xs
    → Compatible (xs ++ a ∷ [])
unfolding Compatible
Compatible-snoc [] a c h = (tt, tt)
Compatible-snoc (x ∷ xs) a c h =
    (All-append (λ b. PortsApart x b) xs (a ∷ []) c.0 (h.0, tt), Compatible-snoc xs a c.1 h.1)

check_from-Compatible :
    (reserved earlier actions : List ScheduledEvent)
    → Compatible (reserved ++ earlier)
    → check_from reserved earlier actions ≡ ok tt
    → Compatible (reserved ++ earlier ++ actions)
unfolding check_from
check_from-Compatible reserved earlier [] c h =
    subst Compatible (sym (append-nil (reserved ++ earlier))) c
check_from-Compatible reserved earlier (a ∷ rest) c h =
    let (u, fresh, h') =
      >>=-eq-ok (require (not (member (event_id a) (map event_id earlier))) protocol) _ h in
    let (v, old, h'') = >>=-eq-ok (check_reserved a reserved) _ h' in
    let (w, new, more) = >>=-eq-ok (check_earlier a earlier) _ h'' in
    let apart =
      All-append (λ b. PortsApart b a) reserved earlier (check_reserved-All a reserved old)
        (check_earlier-All a earlier new) in
    let one = Compatible-snoc (reserved ++ earlier) a c apart in
    let move = append_assoc reserved earlier (a ∷ []) in
    let all =
      check_from-Compatible reserved (earlier ++ a ∷ []) rest (subst Compatible move one) more in
    subst Compatible (append_assoc (reserved ++ earlier) (a ∷ []) rest)
      (subst (λ l. Compatible (l ++ rest)) (sym move) all)

-- Where the accepted intervals are compatible, those of a launch that `reserve` accepts are
-- compatible with them and with one another.
pub reserve-Compatible :
    (r r' : ResourceReservations) (actions : List ScheduledEvent)
    → Compatible r.reservations
    → reserve r actions ≡ ok r'
    → Compatible r'.reservations
unfolding reserve check
reserve-Compatible r r' actions c h =
    let (u, checked, h') = >>=-eq-ok (check_from r.reservations [] actions) _ h in
    let all =
      check_from-Compatible r.reservations [] actions
        (subst Compatible (sym (append-nil r.reservations)) c) checked in
    let all' = subst (λ l. Compatible (l ++ actions)) (append-nil r.reservations) all in
    let added : r'.reservations ≡ r.reservations ++ actions = ground arith in
    subst Compatible (sym added) all'

keep-All :
    (P : ScheduledEvent → Type 0) (p : ScheduledEvent → Bool) (xs : List ScheduledEvent)
    → All P xs
    → All P (keep p xs)
keep-All P p [] h = tt
keep-All P p (x ∷ xs) h =
    if_cases (All P) (p x) (λ _. (h.0, keep-All P p xs h.1)) (λ _. keep-All P p xs h.1)

keep-Compatible :
    (p : ScheduledEvent → Bool) (xs : List ScheduledEvent) → Compatible xs → Compatible (keep p xs)
unfolding Compatible
keep-Compatible p [] c = tt
keep-Compatible p (x ∷ xs) c =
    if_cases Compatible (p x)
      (λ _. (keep-All (λ b. PortsApart x b) p xs c.0, keep-Compatible p xs c.1))
      (λ _. keep-Compatible p xs c.1)

-- The intervals that `discard_before` keeps are as compatible as before.
pub discard_before-Compatible :
    (r : ResourceReservations) (now : ℕ)
    → Compatible r.reservations
    → Compatible (discard_before r now).reservations
unfolding discard_before Compatible
discard_before-Compatible r now c =
    keep-Compatible (λ (a : ScheduledEvent). not (ltb a.end_tick now)) r.reservations c
