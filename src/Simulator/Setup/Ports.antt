-- ===== src/Simulator/Setup/Ports.antt =====
-- The cores of a simulator that passes its checks have ports of their own in the device.
use native.Mathlib.Nat.{mod-eq_of_lt}
use qsbit_sim.Time.{checked_add}
use qsbit_sim.Profile.{Profile}
use qsbit_sim.Profile as Profiles
use qsbit_sim.Sync.{SyncConnection}
use qsbit_sim.Simulator.Setup.{CoreConfig, shares, check_cores, validated, port_offsets}
use qsbit_sim.Base.{
  leb, leb→le, get_elem?, member, u32_mod, add32, require, >>=-eq-ok, require-eq-ok,
  invalid_profile, ok, ℕ, zero, suc, ◌+◌, ◌-◌, ◌≤◌, ◌<◌, ◌≡◌, sym, not, ◌&&◌, some, List, [], ◌∷◌,
  arith,
}

abbrev ports_of : List CoreConfig → ℕ
ports_of [] = 0
ports_of (c ∷ rest) = c.profile.ports + ports_of rest

checked_add-eq : (a b c : ℕ) → checked_add a b ≡ ok c → c ≡ a + b
unfolding checked_add
checked_add-eq a b c e = ground arith

check_cores-ports :
    (first : Profile) (cores : List CoreConfig) (ids ids' : List ℕ) (ports ports' : ℕ)
    → check_cores first cores ids ports ≡ ok (ids', ports')
    → ports' ≡ ports + ports_of cores
unfolding check_cores
check_cores-ports first [] ids ids' ports ports' e = ground arith
check_cores-ports first (c ∷ rest) ids ids' ports ports' e =
    let (u, k1, e1) = >>=-eq-ok (Profiles.validate c.profile) _ e in
    let (u2, k2, e2) =
      >>=-eq-ok (require (leb c.id 131071 && not (member c.id ids)) invalid_profile) _ e1 in
    let (u3, k3, e3) = >>=-eq-ok (require (shares first c.profile) invalid_profile) _ e2 in
    let (more, k4, e4) = >>=-eq-ok (checked_add ports c.profile.ports) _ e3 in
    let sum = checked_add-eq ports c.profile.ports more k4 in
    let rest_sum = check_cores-ports first rest (c.id ∷ ids) ids' more ports' e4 in omega arith

validated-ports :
    (cores : List CoreConfig) (links : List SyncConnection) (p : Profile)
    → validated cores links ≡ ok p
    → ports_of cores < u32_mod
unfolding validated
validated-ports [] links p e = ground arith
validated-ports (c ∷ rest) links p e =
    let ((ids, ports), k1, e1) = >>=-eq-ok (check_cores c.profile (c ∷ rest) [] 0) _ e in
    let (u, k2, e2) = >>=-eq-ok (require (leb ports (u32_mod - 1)) invalid_profile) _ e1 in
    let bound =
      leb→le ports (u32_mod - 1) (require-eq-ok (leb ports (u32_mod - 1)) invalid_profile k2) in
    let sum = check_cores-ports c.profile (c ∷ rest) [] ids 0 ports k1 in omega arith

add32_lem : (a b : ℕ) → a + b < u32_mod → add32 a b ≡ a + b
add32_lem a b h = mod-eq_of_lt h

-- The ports of a core lie between the first offset and the sum of all ports.
port_offsets-bounds :
    (cores : List CoreConfig) (offset index first : ℕ) (c : CoreConfig)
    → get_elem? cores index ≡ some c
    → get_elem? (port_offsets cores offset) index ≡ some first
    → offset + ports_of cores < u32_mod
    → (offset ≤ first) × (first + c.profile.ports ≤ offset + ports_of cores)
unfolding port_offsets
port_offsets-bounds [] offset index first c e f h = ground arith
port_offsets-bounds (d ∷ rest) offset zero first c e f h =
    let same : d.profile.ports ≡ c.profile.ports = ground arith in
    let start : offset ≡ first = cc in (omega arith, omega arith)
port_offsets-bounds (d ∷ rest) offset (suc index) first c e f h =
    let plain = add32_lem offset d.profile.ports (omega arith) in
    let (low, high) =
      port_offsets-bounds rest (add32 offset d.profile.ports) index first c e f
        (rw (plain) (omega arith)) in
    let low' : offset + d.profile.ports ≤ first = rw (sym plain) low in
    let high' : first + c.profile.ports ≤ offset + d.profile.ports + ports_of rest =
      rw (sym plain) high in
    (omega arith, omega arith)

port_offsets-apart :
    (cores : List CoreConfig) (offset i j first second : ℕ) (a b : CoreConfig)
    → get_elem? cores i ≡ some a
    → get_elem? cores j ≡ some b
    → get_elem? (port_offsets cores offset) i ≡ some first
    → get_elem? (port_offsets cores offset) j ≡ some second
    → offset + ports_of cores < u32_mod
    → i < j
    → first + a.profile.ports ≤ second
unfolding port_offsets
port_offsets-apart [] offset i j first second a b ea eb ei ej h lt = ground arith
port_offsets-apart (d ∷ rest) offset i zero first second a b ea eb ei ej h lt = absurd (omega arith)
port_offsets-apart (d ∷ rest) offset zero (suc j) first second a b ea eb ei ej h lt =
    let same : d.profile.ports ≡ a.profile.ports = ground arith in
    let start : offset ≡ first = cc in
    let plain = add32_lem offset d.profile.ports (omega arith) in
    let (low, high) =
      port_offsets-bounds rest (add32 offset d.profile.ports) j second b eb ej
        (rw (plain) (omega arith)) in
    let low' : offset + d.profile.ports ≤ second = rw (sym plain) low in omega arith
port_offsets-apart (d ∷ rest) offset (suc i) (suc j) first second a b ea eb ei ej h lt =
    let plain = add32_lem offset d.profile.ports (omega arith) in
    port_offsets-apart rest (add32 offset d.profile.ports) i j first second a b ea eb ei ej
      (rw (plain) (omega arith)) (omega arith)

-- Two cores of a simulator that passes its checks never share a port of the device: the ports of the
-- core at the lower index all come before those of the other, and none of them wraps around.
pub validated-apart :
    (cores : List CoreConfig) (links : List SyncConnection) (p : Profile)
    (i j first second port port' : ℕ) (a b : CoreConfig)
    → validated cores links ≡ ok p
    → get_elem? cores i ≡ some a
    → get_elem? cores j ≡ some b
    → get_elem? (port_offsets cores 0) i ≡ some first
    → get_elem? (port_offsets cores 0) j ≡ some second
    → i < j
    → port < a.profile.ports
    → port' < b.profile.ports
    → (add32 port first ≡ port + first)
      × (add32 port' second ≡ port' + second)
      × (add32 port first < add32 port' second)
validated-apart cores links p i j first second port port' a b e ea eb ei ej lt l l' =
    let bound = validated-ports cores links p e in
    let (low, high) = port_offsets-bounds cores 0 i first a ea ei (omega arith) in
    let (low', high') = port_offsets-bounds cores 0 j second b eb ej (omega arith) in
    let apart = port_offsets-apart cores 0 i j first second a b ea eb ei ej (omega arith) lt in
    let plain = add32_lem port first (omega arith) in
    let plain' = add32_lem port' second (omega arith) in
    (plain, plain', rw (plain, plain') (omega arith))
