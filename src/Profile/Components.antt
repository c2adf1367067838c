-- ===== src/Profile/Components.antt =====
-- A profile that passes its checks configures the components, and they find in their own tables what
-- the profile says.
use text.Mathlib.Text.{◌==◌ as str_eq}
use mathlib.Core.List.{append-nil, append_assoc}
use qsbit_sim.Time.{edge}
use qsbit_sim.Time as Time
use qsbit_sim.Event.{GateInput, Mapping, TwoQubitGate}
use qsbit_sim.Protocol.{TimingConfig, TcuConfig, add_mappings, is_mapping}
use qsbit_sim.Protocol as Protocol
use qsbit_sim.Device.Gates.{DeviceProfile, add_gates, find_gate}
use qsbit_sim.Device.Gates as Gates
use qsbit_sim.Profile.{
  Profile, sizes, check_actions, nothing_acquired, is_paired, has_acquisition, is_target_pair,
  is_input_pair, check_inputs, check_resources, gate, mapping, check_gates, check_mappings,
  validate, timing_config, tcu_config, device_profile,
}
use qsbit_sim.Base.{
  ltb, leb, ◌==◌, is_some, length, all, any, null, require, >>=-eq-ok, require-eq-ok,
  invalid_profile, ok, ℕ, String, ◌≡◌, refl, sym, ap, ◌∙◌, Bool, true, not, ◌&&◌, List, [], ◌∷◌,
  ◌++◌, arith,
}

check_mappings-add_mappings :
    (p : Profile) (mappings seen : List Mapping)
    → check_mappings p mappings seen ≡ ok tt
    → add_mappings mappings seen ≡ ok (seen ++ mappings)
unfolding check_mappings add_mappings
check_mappings-add_mappings p [] seen e = ap ok (sym (append-nil seen))
check_mappings-add_mappings p (m ∷ rest) seen e =
    let fresh = not (any (is_mapping m.port m.codeword) seen) in
    let (u, k1, e1) = >>=-eq-ok (require (ltb m.port p.ports && fresh) invalid_profile) _ e in
    let (u2, k2, e2) = >>=-eq-ok (require (not (null m.actions)) invalid_profile) _ e1 in
    let (s, k3, e3) = >>=-eq-ok (check_actions p m m.actions nothing_acquired) _ e2 in
    let (u4, k4, e4) =
      >>=-eq-ok (require (all (is_paired s.arms) s.acquisitions) invalid_profile) _ e3 in
    let (u5, k5, e5) =
      >>=-eq-ok (require (all (has_acquisition s.acquisitions) s.arms) invalid_profile) _ e4 in
    let added = check_mappings-add_mappings p rest (seen ++ m ∷ []) e5 in
    let new : fresh ≡ true = ground arith in
    rw (new) (added ∙ ap ok (append_assoc seen (m ∷ []) rest))

and_middle : (a b c : Bool) → (a && (b && c)) ≡ true → b ≡ true
and_middle a b c h = ground arith

check_gates-add_gates :
    (qubits : ℕ) (gates seen : List TwoQubitGate) (inputs : List GateInput)
    → check_gates qubits gates seen inputs ≡ ok tt
    → add_gates gates seen ≡ ok (seen ++ gates)
unfolding check_gates add_gates
check_gates-add_gates qubits [] seen inputs e = ap ok (sym (append-nil seen))
check_gates-add_gates qubits (g ∷ rest) seen inputs e =
    let fresh = not (is_some (find_gate g.name seen)) in
    let more =
      not (str_eq g.operation "")
      && (ltb 0 g.duration && (is_target_pair qubits g.targets && length g.inputs == 2)) in
    let (u, k1, e1) =
      >>=-eq-ok (require (not (str_eq g.name "") && (fresh && more)) invalid_profile) _ e in
    let (u2, k2, e2) = >>=-eq-ok (require (is_input_pair g.inputs) invalid_profile) _ e1 in
    let (inputs', k3, e3) = >>=-eq-ok (check_inputs g.inputs inputs) _ e2 in
    let (u4, k4, e4) = >>=-eq-ok (check_resources g.resources []) _ e3 in
    let added = check_gates-add_gates qubits rest (seen ++ g ∷ []) inputs' e4 in
    let new : fresh ≡ true =
      and_middle (not (str_eq g.name "")) fresh more
        (require-eq-ok (not (str_eq g.name "") && (fresh && more)) invalid_profile k1) in
    rw (new) (added ∙ ap ok (append_assoc seen (g ∷ []) rest))

-- A profile that passes its checks gives a configuration to the timing control, to the TCU and to the
-- device, whatever the fingerprint is; and a codeword and a gate are looked up there with the result,
-- or the fault, that the profile gives.
pub validate-configures :
    (p : Profile) (fingerprint : String)
    → validate p ≡ ok tt
    → (timing : TimingConfig) × (tcu : TcuConfig) × (device : DeviceProfile) × (timing_config p
          fingerprint
        ≡ ok timing)
      × (tcu_config p fingerprint ≡ ok tcu)
      × (device_profile p ≡ ok device)
      × ((port codeword : ℕ) → Protocol.mapping timing port codeword ≡ mapping p port codeword)
      × ((name : String) → Gates.gate device name ≡ gate p name)
unfolding validate timing_config tcu_config device_profile Protocol.mapping mapping Gates.gate gate
validate-configures p fingerprint e =
    let (u1, k1, e1) = >>=-eq-ok (Time.validate p.cpu) _ e in
    let (u2, k2, e2) = >>=-eq-ok (Time.validate p.tcu) _ e1 in
    let (u3, k3, e3) =
      >>=-eq-ok (require (edge p.tcu p.start && ltb p.start p.watchdog) invalid_profile) _ e2 in
    let (u4, k4, e4) =
      >>=-eq-ok (require (all (λ (n : ℕ). ltb 0 n) (sizes p)) invalid_profile) _ e3 in
    let (u5, k5, e5) =
      >>=-eq-ok
        (require (leb p.result_capacity 65535 && (leb p.ports 65535 && leb p.qubits 32))
          invalid_profile)
        _ e4 in
    let (u6, k6, e6) = >>=-eq-ok (check_gates p.qubits p.two_qubit_gates [] []) _ e5 in
    let gates = check_gates-add_gates p.qubits p.two_qubit_gates [] [] k6 in
    let mappings = check_mappings-add_mappings p p.mappings [] e6 in
    let timing : TimingConfig = record {
      event_capacity = p.event_capacity;
      staging_capacity = p.staging_capacity;
      ports = p.ports;
      qubits = p.qubits;
      firing_width = p.firing_width;
      fast_feedback = p.fast_feedback;
      configuration = fingerprint;
      mappings = p.mappings;
    } in
    (
      timing,
      record {
        timing = timing;
        clock = p.tcu;
        start = p.start;
        timing_capacity = p.timing_capacity;
      },
      record { qubits = p.qubits; seed = p.seed; gates = p.two_qubit_gates },
      rw (mappings) refl,
      rw (mappings) refl,
      rw (gates) refl,
      λ port codeword. refl,
      λ name. refl,
    )
