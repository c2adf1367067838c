-- ===== src/Tests/Setup.antt =====
-- The checks of the constructor in src/simulator.cpp at a concrete input.
use qsbit_sim.Time.{checked_add, edge}
use qsbit_sim.Time as Time
use qsbit_sim.Sync.{SyncConnection}
use qsbit_sim.Event.{same_gate}
use qsbit_sim.Profile.{Profile}
use qsbit_sim.Profile as Profiles
use qsbit_sim.Simulator.Setup.{CoreConfig, validated, port_offsets}
use qsbit_sim.Simulator.Setup.Ports.{validated-apart}
use qsbit_sim.Tests.Backends.{gate}
use qsbit_sim.Tests.Cores.{profile}
use qsbit_sim.Base.{add32, ℕ, ◌+◌, ◌<◌, ◌≡◌, refl, List, [], ◌∷◌, arith}

abbrev core_config : (id : ℕ) → Profile → CoreConfig
core_config id p = record {
  id = id;
  profile = p;
  image = record { base = 0; entry = 0; bytes = []; segments = [] };
  sync_capacity = 8;
}

-- The second core has four ports and no output of a two-qubit gate.
abbrev narrow : Profile
narrow = record profile {
  ports = 4;
  mappings = record { port = 0; codeword = 2; actions = gate 1 ∷ [] } ∷ [];
}

abbrev cores : List CoreConfig
cores = core_config 0 profile ∷ core_config 5 narrow ∷ []

abbrev link : SyncConnection
link = record { first = 0; second = 5; first_to_second = 1; second_to_first = 1; capacity = 2 }

validated-apart_example : (add32 7 0 ≡ 7 + 0) × (add32 3 8 ≡ 3 + 8) × (add32 7 0 < add32 3 8)
unfolding validated port_offsets Profiles.validate Profiles.check_gates Profiles.check_mappings
    Time.validate edge checked_add same_gate Profiles.gate
validated-apart_example =
    validated-apart cores (link ∷ []) profile 0 1 0 8 7 3 (core_config 0 profile)
      (core_config 5 narrow) refl refl refl refl refl (omega arith) (omega arith) (omega arith)
