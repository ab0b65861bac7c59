-- ===== src/Prelude/Maps.antt =====
-- `std::map` and `std::unordered_map` as association lists, `std::unordered_set` as a list with no
-- repetition. An iteration goes in the order of the list: first insertion first.

use Prim.Native.Nat.{ℕ, ◌+◌}
use mathlib.Core.Path.{◌≡◌, refl, ◌∙◌}
use mathlib.Core.Logic.{inl, inr}
use mathlib.Core.Bool.{Bool, false, ◌||◌}
use mathlib.Core.Option.{Option, none, some}
use mathlib.Core.List.{List, [], ◌∷◌}
use native.Mathlib.Omega.{arith}
use dd_opentracing_cpp.Prelude.Tests.{if◌then◌else◌, Bool-cases}
use dd_opentracing_cpp.Prelude.Keys.{Eq, same, same_iff}

module _ {ℓ κ} {K : Type ℓ} {V : Type κ} ⦃e : Eq K⦄ where
  -- `find`, with `none` for `end()`.
  unfoldable pub find : K → List (K × V) → Option V
  find k [] = none
  find k ((j, v) ∷ m) = if same j k then some v else find k m

  -- `m[k] = v`: a present key keeps its place.
  unfoldable pub assign : K → V → List (K × V) → List (K × V)
  assign k v [] = (k, v) ∷ []
  assign k v ((j, w) ∷ m) = if same j k then (j, v) ∷ m else (j, w) ∷ assign k v m

  -- `emplace(k, v)` and `insert`: a present key keeps its value.
  unfoldable pub emplace : K → V → List (K × V) → List (K × V)
  emplace k v [] = (k, v) ∷ []
  emplace k v ((j, w) ∷ m) = if same j k then (j, w) ∷ m else (j, w) ∷ emplace k v m

  -- `erase(k)`.
  unfoldable pub erase : K → List (K × V) → List (K × V)
  erase k [] = []
  erase k ((j, w) ∷ m) = let rest = erase k m in if same j k then rest else (j, w) ∷ rest

  pub find-assign :
      (k j : K) (v : V) (m : List (K × V))
      → find j (assign k v m) ≡ (if same k j then some v else find j m)
  unfolding find assign
  find-assign k j v [] = refl
  find-assign k j v ((i, w) ∷ m) =
      ground (arith, same_iff k j, same_iff i k, same_iff i j, find-assign k j v m)

  pub find-emplace :
      (k j : K) (v : V) (m : List (K × V))
      → find j (emplace k v m)
        ≡ (if same k j then (elim (find k m) [ none ↦ some v | some w ↦ some w ]) else find j m)
  unfolding find emplace
  find-emplace k j v [] = refl
  find-emplace k j v ((i, w) ∷ m) =
      ground (arith, same_iff k j, same_iff i k, same_iff i j, find-emplace k j v m)

  pub find-erase :
      (k j : K) (m : List (K × V)) → find j (erase k m) ≡ (if same k j then none else find j m)
  unfolding find erase
  find-erase k j [] = ground arith
  find-erase k j ((i, w) ∷ m) =
      ground (arith, same_iff k j, same_iff i k, same_iff i j, find-erase k j m)

module _ {ℓ} {K : Type ℓ} ⦃e : Eq K⦄ where
  -- `set.find(k) != set.end()`.
  unfoldable pub contains : K → List K → Bool
  contains k [] = false
  contains k (j ∷ s) = same j k || contains k s

  -- `set.insert(k)`.
  unfoldable pub insert : K → List K → List K
  insert k [] = k ∷ []
  insert k (j ∷ s) = if same j k then j ∷ s else j ∷ insert k s

  pub contains-insert :
      (k j : K) (s : List K) → contains j (insert k s) ≡ (same k j || contains j s)
  unfolding contains insert
  contains-insert k j [] = refl
  contains-insert k j (i ∷ s) =
      ground (arith, same_iff k j, same_iff i k, same_iff i j, contains-insert k j s)

abbrev pub measure_of {ℓ} : {V : Type ℓ} → (V → ℕ) → Option V → ℕ
measure_of f none = 0
measure_of f (some v) = f v

module _ {ℓ κ} {K : Type ℓ} {V : Type κ} ⦃e : Eq K⦄ where
  -- No key stands twice.
  abbrev pub DistinctKeys : List (K × V) → Type κ
  DistinctKeys [] = Unit
  DistinctKeys ((k, v) ∷ m) = (find k m ≡ none) × DistinctKeys m

  pub find-assign_ne :
      (k j : K) (v : V) (m : List (K × V)) → same j k ≡ false → find j (assign k v m) ≡ find j m
  find-assign_ne k j v m h = ground (arith, find-assign k j v m, same_iff k j, same_iff j k)

  pub find-erase-none : (k j : K) (m : List (K × V)) → find j m ≡ none → find j (erase k m) ≡ none
  find-erase-none k j m h = ground (arith, find-erase k j m)

  pub DistinctKeys-assign :
      (k : K) (v : V) (m : List (K × V)) → DistinctKeys m → DistinctKeys (assign k v m)
  unfolding find assign
  DistinctKeys-assign k v [] h = (refl, tt)
  DistinctKeys-assign k v ((j, w) ∷ m) h = elim (Bool-cases (same j k)) [
    | inl s ↦ rw s h
    | inr s ↦ rw s (find-assign_ne k j v m s ∙ h.0, DistinctKeys-assign k v m h.1)
  ]

  pub DistinctKeys-erase : (k : K) (m : List (K × V)) → DistinctKeys m → DistinctKeys (erase k m)
  unfolding erase
  DistinctKeys-erase k [] h = tt
  DistinctKeys-erase k ((j, w) ∷ m) h = elim (Bool-cases (same j k)) [
    | inl s ↦ rw s (DistinctKeys-erase k m h.1)
    | inr s ↦ rw s (find-erase-none k j m h.0, DistinctKeys-erase k m h.1)
  ]

  -- A measure of the values, summed over a map.
  abbrev pub sum_values : (V → ℕ) → List (K × V) → ℕ
  sum_values f [] = 0
  sum_values f ((k, v) ∷ m) = f v + sum_values f m

  pub sum_values-assign :
      (f : V → ℕ) (k : K) (v : V) (m : List (K × V))
      → sum_values f (assign k v m) + measure_of f (find k m) ≡ sum_values f m + f v
  unfolding find assign
  sum_values-assign f k v [] = omega arith
  sum_values-assign f k v ((j, w) ∷ m) = ground (arith, sum_values-assign f k v m)

  erase_absent :
      (f : V → ℕ) (k : K) (m : List (K × V))
      → find k m ≡ none
      → sum_values f (erase k m) ≡ sum_values f m
  unfolding find erase
  erase_absent f k [] h = refl
  erase_absent f k ((j, w) ∷ m) h = ground (arith, erase_absent f k m)

  pub sum_values-erase :
      (f : V → ℕ) (k : K) (m : List (K × V))
      → DistinctKeys m
      → sum_values f (erase k m) + measure_of f (find k m) ≡ sum_values f m
  unfolding find erase
  sum_values-erase f k [] h = omega arith
  sum_values-erase f k ((j, w) ∷ m) h = elim (Bool-cases (same j k)) [
    | inl s ↦ rw s (ground (arith, erase_absent f k m, (same_iff j k).0 s, h.0))
    | inr s ↦ rw s (ground (arith, sum_values-erase f k m h.1))
  ]
