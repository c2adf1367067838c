-- ===== src/Base/Maps.antt =====
-- `std::map` with integer keys, as an association list in the order of its keys.
use Prim.Native.Nat.{ℕ, ◌≤◌, ◌<◌}
use mathlib.Core.Path.{◌≡◌, refl}
use mathlib.Core.List.{List, [], ◌∷◌, ◌++◌}
use mathlib.Core.Option.{Option, none, some}
use native.Mathlib.Omega.{arith}
use qsbit_sim.Base.Tests.{if◌then◌else◌, ltb, ◌==◌}
use qsbit_sim.Base.Lists.{length}

module _ {ℓ} {V : Type ℓ} where
  abbrev pub find : ℕ → List (ℕ × V) → Option V
  find k [] = none
  find k ((j, v) ∷ m) = if j == k then some v else find k m

  -- A key that is there keeps its value, as with `std::map::emplace`.
  abbrev pub emplace : ℕ → V → List (ℕ × V) → List (ℕ × V)
  emplace k v [] = (k, v) ∷ []
  emplace k v ((j, w) ∷ m) =
      let rest = emplace k v m in
      if k == j then (j, w) ∷ m else if ltb k j then (k, v) ∷ (j, w) ∷ m else (j, w) ∷ rest

  -- `m[k] = v`.
  abbrev pub assign : ℕ → V → List (ℕ × V) → List (ℕ × V)
  assign k v [] = (k, v) ∷ []
  assign k v ((j, w) ∷ m) =
      let rest = assign k v m in
      if k == j then (j, v) ∷ m else if ltb k j then (k, v) ∷ (j, w) ∷ m else (j, w) ∷ rest

  abbrev pub erase : ℕ → List (ℕ × V) → List (ℕ × V)
  erase k [] = []
  erase k ((j, v) ∷ m) = if j == k then m else (j, v) ∷ erase k m

  -- The entries that stand before a key: those from `begin()` up to `find(k)`.
  abbrev pub before : ℕ → List (ℕ × V) → List (ℕ × V)
  before k [] = []
  before k ((j, v) ∷ m) = let rest = before k m in if j == k then [] else (j, v) ∷ rest

  abbrev pub KeysBelow : ℕ → List (ℕ × V) → Type 0
  KeysBelow n [] = Unit
  KeysBelow n ((j, v) ∷ m) = (j < n) × KeysBelow n m

  abbrev pub Sorted : List (ℕ × V) → Type 0
  Sorted [] = Unit
  Sorted ((j, v) ∷ []) = Unit
  Sorted ((j, v) ∷ (k, w) ∷ m) = (j < k) × Sorted ((k, w) ∷ m)

  pub emplace_last :
      (k : ℕ) (v : V) (m : List (ℕ × V)) → KeysBelow k m → emplace k v m ≡ m ++ (k, v) ∷ []
  emplace_last k v [] h = refl
  emplace_last k v ((j, w) ∷ m) h = ground (arith, emplace_last k v m h.1)

  pub KeysBelow-mono : (n n' : ℕ) (m : List (ℕ × V)) → n ≤ n' → KeysBelow n m → KeysBelow n' m
  KeysBelow-mono n n' [] h b = tt
  KeysBelow-mono n n' ((j, v) ∷ m) h b = (omega arith, KeysBelow-mono n n' m h b.1)

  pub KeysBelow-append :
      (n : ℕ) (m m' : List (ℕ × V)) → KeysBelow n m → KeysBelow n m' → KeysBelow n (m ++ m')
  KeysBelow-append n [] m' h h' = h'
  KeysBelow-append n ((j, v) ∷ m) m' h h' = (h.0, KeysBelow-append n m m' h.1 h')

  pub KeysBelow-erase : (n k : ℕ) (m : List (ℕ × V)) → KeysBelow n m → KeysBelow n (erase k m)
  KeysBelow-erase n k [] h = tt
  KeysBelow-erase n k ((j, v) ∷ m) h = ground (arith, KeysBelow-erase n k m h.1)

  pub length-erase : (k : ℕ) (m : List (ℕ × V)) → length (erase k m) ≤ length m
  length-erase k [] = omega arith
  length-erase k ((j, v) ∷ m) = ground (arith, length-erase k m)
