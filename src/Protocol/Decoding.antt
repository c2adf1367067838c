-- ===== src/Protocol/Decoding.antt =====
-- src/control_protocol.cpp: the events that a codeword is decoded into, and what the checks of a
-- request promise to the TCU.
use qsbit_sim.Time.{checked_add}
use qsbit_sim.Time.Edges.{checked_add_value}
use qsbit_sim.Event.{is_acquire, EventSpec, Mapping, same_event, is_always, execution_flag}
use qsbit_sim.Feedback.{MeasurementReference}
use text.Mathlib.Text.{◌==◌ as str_eq}
use qsbit_sim.Protocol.{
  is_inherit, TimingConfig, mapping, OperationEvent, TimingPoint, TimingEvents, is_readout,
  reference_of, check_references, decode_actions, decode_codeword, check_targets, check_events,
  validate_timing_events,
}
use mathlib.Core.Path.{subst}
use qsbit_sim.Base.{
  ltb, leb, ◌==◌, if◌then◌else◌, is_some, length, get_or, set, drop, replicate, any, count, All,
  member, require, ok-injective, >>=-eq-ok, require-eq-ok, invalid_port, invalid_operand, capacity,
  manifest_mismatch, protocol, unsupported_capability, invalid_measurement, ok, ℕ, ◌+◌, ◌≤◌, ◌<◌,
  ◌≡◌, refl, ◌≢◌, true, false, not, ◌&&◌, ◌||◌, none, List, [], ◌∷◌, map, arith,
}

-- The events carry the actions in order, with identities that follow one another from `first + n`.
unfoldable pub Follow : List OperationEvent → List EventSpec → (first n : ℕ) → Type 0
Follow [] [] first n = Unit
Follow (e ∷ es) (a ∷ as') first n =
    (e.action ≡ a) × (e.id ≡ first + n) × Follow es as' first (n + 1)
Follow _ _ first n = ⊥

decode_actions-Follow :
    (c : TimingConfig) (port codeword epoch instruction first : ℕ)
    (references : List MeasurementReference) (actions : List EventSpec) (n : ℕ)
    (events : List OperationEvent)
    → decode_actions c port codeword epoch instruction first references actions n ≡ ok events
    → Follow events actions first n
unfolding decode_actions Follow
decode_actions-Follow c port codeword epoch instruction first references [] n events h =
    subst (λ es. Follow es [] first n) (ok-injective h) tt
decode_actions-Follow c port codeword epoch instruction first references (a ∷ rest) n events h =
    let reference = if is_readout a then reference_of a references none else none in
    let (_, _, h1) =
      >>=-eq-ok (require (not (is_readout a) || is_some reference) invalid_measurement) _ h in
    let (_, _, h2) =
      >>=-eq-ok (require (is_always (execution_flag a) || c.fast_feedback) unsupported_capability) _
        h1 in
    let (id, e, h3) = >>=-eq-ok (checked_add first n) _ h2 in
    let (more, f, h4) =
      >>=-eq-ok (decode_actions c port codeword epoch instruction first references rest (n + 1)) _
        h3 in
    let rec =
      decode_actions-Follow c port codeword epoch instruction first references rest (n + 1) more
        f in
    subst (λ es. Follow es (a ∷ rest) first n) (ok-injective h4)
      (refl, checked_add_value first n e, rec)

-- A codeword that decodes stands for a mapping of its port, and its events carry the actions of the
-- mapping in order, with identities that follow one another from the first one given.
pub decode_codeword-Follow :
    (c : TimingConfig) (port codeword epoch instruction first : ℕ)
    (references : List MeasurementReference) (events : List OperationEvent)
    → decode_codeword c port codeword epoch instruction first references ≡ ok events
    → (m : Mapping) × (mapping c port codeword ≡ ok m) × Follow events m.actions first 0
unfolding decode_codeword
decode_codeword-Follow c port codeword epoch instruction first references events h =
    let (m, e, h1) = >>=-eq-ok (mapping c port codeword) _ h in
    let (_, _, h2) =
      >>=-eq-ok (require (length references == count is_acquire m.actions) invalid_measurement) _
        h1 in
    let (_, _, h3) = >>=-eq-ok (check_references epoch references [] []) _ h2 in
    (
      m,
      e,
      decode_actions-Follow c port codeword epoch instruction first references m.actions 0 events
          h3,
    )

-- What holds of each event of a checked request.
unfoldable pub Checked : TimingConfig → TimingPoint → OperationEvent → Type 0
Checked c point e =
    (e.epoch ≡ point.epoch)
    × (e.label ≡ point.label)
    × (0 < e.id)
    × (e.action.port < c.ports)
    × ((m : Mapping) × (mapping c e.source_port e.codeword ≡ ok m)
        × (any (same_event e.action) m.actions ≡ true))

-- No identity occurs twice.
abbrev pub Distinct : List ℕ → Type 0
Distinct [] = Unit
Distinct (x ∷ xs) = All (λ y. y ≢ x) xs × Distinct xs

abbrev pub identities : List OperationEvent → List ℕ
identities events = map (λ (e : OperationEvent). e.id) events

-- None of a list is among those seen.
abbrev pub AreFresh : (seen : List ℕ) → List ℕ → Type 0
AreFresh seen xs = All (λ y. member y seen ≡ false) xs

AreFresh-tail :
    (x : ℕ) (seen xs : List ℕ) → AreFresh (x ∷ seen) xs → All (λ y. y ≢ x) xs × AreFresh seen xs
AreFresh-tail x seen [] h = (tt, tt)
AreFresh-tail x seen (y ∷ ys) h =
    let rest = AreFresh-tail x seen ys h.1 in ((ground arith, rest.0), (ground arith, rest.1))

check_events-manifest :
    (c : TimingConfig) (point : TimingPoint) (events : List OperationEvent)
    (manifest seen counts : List ℕ)
    → check_events c point events manifest seen counts ≡ ok tt
    → length events ≡ length manifest
    → (identities events ≡ manifest)
      × Distinct (identities events)
      × AreFresh seen (identities events)
unfolding check_events
check_events-manifest c point [] [] seen counts h l = (refl, tt, tt)
check_events-manifest c point [] (m ∷ rest) seen counts h l = absurd (omega (arith, l))
check_events-manifest c point (e ∷ rest) [] seen counts h l = absurd (omega (arith, l))
check_events-manifest c point (e ∷ rest) (i ∷ manifest) seen counts h l =
    let (_, same, h1) =
      >>=-eq-ok
        (require
          (e.epoch == point.epoch
            && (e.label == point.label
                && (not (e.id == 0) && (e.id == i && not (member e.id seen)))))
          manifest_mismatch)
        _ h in
    let (_, port, h2) = >>=-eq-ok (require (ltb e.action.port c.ports) invalid_port) _ h1 in
    let n = get_or counts e.action.port 0 + 1 in
    let (_, _, h3) =
      >>=-eq-ok (require (leb n c.firing_width && leb n c.event_capacity) capacity) _ h2 in
    let (m, f, h4) = >>=-eq-ok (mapping c e.source_port e.codeword) _ h3 in
    let (_, known, h5) = >>=-eq-ok (require (any (same_event e.action) m.actions) protocol) _ h4 in
    let (ids, distinct, fresh) =
      check_events-manifest c point rest manifest (e.id ∷ seen) (set counts e.action.port n) h5
        (omega (arith, l)) in
    let (others, unseen) = AreFresh-tail e.id seen (identities rest) fresh in
    let here : e.id ≡ i = ground arith in
    let new : member e.id seen ≡ false = ground arith in
    (rw (here, ids) refl, (others, distinct), (new, unseen))

check_events-All :
    (c : TimingConfig) (point : TimingPoint) (events : List OperationEvent)
    (manifest seen counts : List ℕ)
    → check_events c point events manifest seen counts ≡ ok tt
    → All (Checked c point) events
unfolding check_events Checked
check_events-All c point [] manifest seen counts h = tt
check_events-All c point (e ∷ rest) manifest seen counts h =
    let (_, same, h1) =
      >>=-eq-ok
        (require
          (e.epoch == point.epoch
            && (e.label == point.label
                && (not (e.id == 0) && (e.id == get_or manifest 0 0 && not (member e.id seen)))))
          manifest_mismatch)
        _ h in
    let (_, port, h2) = >>=-eq-ok (require (ltb e.action.port c.ports) invalid_port) _ h1 in
    let n = get_or counts e.action.port 0 + 1 in
    let (_, _, h3) =
      >>=-eq-ok (require (leb n c.firing_width && leb n c.event_capacity) capacity) _ h2 in
    let (m, f, h4) = >>=-eq-ok (mapping c e.source_port e.codeword) _ h3 in
    let (_, known, h5) = >>=-eq-ok (require (any (same_event e.action) m.actions) protocol) _ h4 in
    let rec =
      check_events-All c point rest (drop 1 manifest) (e.id ∷ seen) (set counts e.action.port n)
        h5 in
    (
      (
        ground arith,
        ground arith,
        ground arith,
        ground arith,
        (m, f, require-eq-ok (any (same_event e.action) m.actions) protocol known),
      ),
      rec,
    )

-- A request that passes the checks has at most one synchronization. The identities of its events are
-- its manifest, in which none occurs twice; each event has the point's epoch and label, an identity
-- that is not zero, an output port that exists and an action that its codeword is mapped to.
pub validate_timing_events-All :
    (request : TimingEvents) (c : TimingConfig)
    → validate_timing_events request c ≡ ok tt
    → (length request.point.synchronizations ≤ 1)
      × (identities request.events ≡ request.point.manifest)
      × Distinct request.point.manifest
      × (length request.events ≤ c.staging_capacity)
      × All (Checked c request.point) request.events
unfolding validate_timing_events
validate_timing_events-All request c h =
    let point = request.point in
    let (_, _, h1) =
      >>=-eq-ok (require (point.interval == 0 || not (is_inherit point.underflow_policy)) protocol)
        _ h in
    let (_, _, h2) =
      >>=-eq-ok (require (str_eq request.configuration c.configuration) protocol) _ h1 in
    let (_, same, h3) =
      >>=-eq-ok (require (length request.events == length point.manifest) manifest_mismatch) _ h2 in
    let (_, staged, h4) =
      >>=-eq-ok (require (leb (length request.events) c.staging_capacity) capacity) _ h3 in
    let (_, _, h5) =
      >>=-eq-ok (require (leb (length point.synchronizations) c.staging_capacity) capacity) _ h4 in
    let (_, one, h6) =
      >>=-eq-ok (require (leb (length point.synchronizations) 1) invalid_operand) _ h5 in
    let (_, _, h7) = >>=-eq-ok (check_targets point.synchronizations []) _ h6 in
    let (ids, distinct, _) =
      check_events-manifest c point request.events point.manifest [] (replicate c.ports 0) h7
        (ground arith) in
    (
      ground arith,
      ids,
      subst Distinct ids distinct,
      ground arith,
      check_events-All c point request.events point.manifest [] (replicate c.ports 0) h7,
    )
