-- ===== src/Simulator/Setup.antt =====
-- The checks of the constructor in src/simulator.cpp on the cores as a whole, and the ports that each
-- core has in the device. The time resolution of SystemC is left out.
pub mod Ports
pub mod Build
use text.Mathlib.Text.{◌==◌ as str_eq}
use qsbit_sim.Time.{Clock, checked_add}
use qsbit_sim.Event.{
  EventSpec, Spec, GateOutputSpec, output_spec, Mapping, GateInput, TwoQubitGate, same_input,
  same_gate, same_list,
}
use qsbit_sim.Protocol.{find_mapping}
use qsbit_sim.Image.{ProgramImage}
use qsbit_sim.Sync.{SyncConnection}
use qsbit_sim.Profile.{Profile, gate}
use qsbit_sim.Profile as Profiles
use qsbit_sim.Base.{
  ltb, leb, ◌==◌, if◌then◌else◌, all, any, member, u32_mod, add32, require, ◌>>=◌, ◌>>◌, Result,
  invalid_profile, watchdog, ok, fault, ℕ, ◌-◌, String, Bool, true, false, not, ◌&&◌, Option, none,
  some, List, [], ◌∷◌,
}

-- The factory of the CPU is left out.
pub record CoreConfig : Type 0 where
  pub id : ℕ
  pub profile : Profile
  pub image : ProgramImage
  pub sync_capacity : ℕ

-- What the cores have to share.
abbrev pub shares : (first p : Profile) → Bool
shares first p =
    p.tcu.period == first.tcu.period
    && (p.tcu.phase == first.tcu.phase
        && (p.qubits == first.qubits
            && (p.seed == first.seed
                && (p.watchdog == first.watchdog
                    && same_list same_gate p.two_qubit_gates first.two_qubit_gates))))

-- The loop over the cores, with the identities and the number of ports so far.
unfoldable pub check_cores :
    (first : Profile) → List CoreConfig → (ids : List ℕ) → (ports : ℕ) → Result (List ℕ × ℕ)
check_cores first [] ids ports = ok (ids, ports)
check_cores first (c ∷ rest) ids ports = do
  Profiles.validate c.profile
  require (leb c.id 131071 && not (member c.id ids)) invalid_profile
  require (shares first c.profile) invalid_profile
  ports' ← checked_add ports c.profile.ports
  check_cores first rest (c.id ∷ ids) ports'

abbrev pub connects : (ids : List ℕ) → SyncConnection → Bool
connects ids link = member link.first ids && member link.second ids

abbrev pub find_core : ℕ → List CoreConfig → Option CoreConfig
find_core id [] = none
find_core id (c ∷ rest) = if c.id == id then some c else find_core id rest

-- The mapping has one action, an output of the gate.
abbrev pub outputs_gate : (gate : String) → Mapping → Bool
outputs_gate name m = elim m.actions [
  | [] ↦ false
  | a ∷ [] ↦ elim a.spec [ output_spec o ↦ str_eq o.gate name | _ ↦ false ]
  | _ ↦ false
]

unfoldable pub check_gate_inputs :
    List CoreConfig → (gate : String) → List GateInput → Result (Unit {0})
check_gate_inputs cores name [] = ok tt
check_gate_inputs cores name (i ∷ rest) = do
  elim (find_core i.core cores) [
    | none ↦ fault invalid_profile
    | some c ↦ elim (find_mapping i.port i.codeword c.profile.mappings) [
      | none ↦ fault invalid_profile
      | some m ↦ require (outputs_gate name m) invalid_profile
    ]
  ]
  check_gate_inputs cores name rest

unfoldable pub check_gates : List CoreConfig → List TwoQubitGate → Result (Unit {0})
unfolding check_gate_inputs
check_gates cores [] = ok tt
check_gates cores (g ∷ rest) = do check_gate_inputs cores g.name g.inputs; check_gates cores rest

-- The loops over the mappings of a core and their actions.
unfoldable pub check_outputs : (first : Profile) → GateInput → List EventSpec → Result (Unit {0})
check_outputs first input [] = ok tt
check_outputs first input (a ∷ rest) = do
  elim a.spec [
    | output_spec o ↦ do
      g ← gate first o.gate
      require (any (same_input input) g.inputs) invalid_profile
    | _ ↦ ok tt
  ]
  check_outputs first input rest

unfoldable pub check_mappings : (first : Profile) → (core : ℕ) → List Mapping → Result (Unit {0})
unfolding check_outputs
check_mappings first core [] = ok tt
check_mappings first core (m ∷ rest) = do
  check_outputs first (record { core = core; port = m.port; codeword = m.codeword }) m.actions
  check_mappings first core rest

unfoldable pub check_core_outputs : (first : Profile) → List CoreConfig → Result (Unit {0})
unfolding check_mappings
check_core_outputs first [] = ok tt
check_core_outputs first (c ∷ rest) = do
  check_mappings first c.id c.profile.mappings
  check_core_outputs first rest

unfoldable pub validated : List CoreConfig → List SyncConnection → Result Profile
unfolding check_cores check_gates check_core_outputs
validated [] links = fault invalid_profile
validated (c ∷ rest) links = do
  let first = c.profile
  (ids, ports) ← check_cores first (c ∷ rest) [] 0
  require (leb ports (u32_mod - 1)) invalid_profile
  require (all (connects ids) links) invalid_profile
  check_gates (c ∷ rest) first.two_qubit_gates
  check_core_outputs first (c ∷ rest)
  ok first

-- The resets are sorted and unique, and fall within the run.
abbrev pub are_rising : List ℕ → Bool
are_rising [] = true
are_rising (t ∷ []) = true
are_rising (t ∷ u ∷ rest) = ltb t u && are_rising (u ∷ rest)

unfoldable pub check_resets : (watchdog : ℕ) → List ℕ → Result (Unit {0})
check_resets last resets = do
  require (are_rising resets) invalid_profile
  require (all (λ (t : ℕ). ltb 0 t && ltb t last) resets) invalid_profile

-- `port_offsets_`: the first port of each core.
unfoldable pub port_offsets : List CoreConfig → (offset : ℕ) → List ℕ
port_offsets [] offset = []
port_offsets (c ∷ rest) offset = offset ∷ port_offsets rest (add32 offset c.profile.ports)
