-- ===== src/Prelude/Dict.antt =====
-- Hash maps as association lists. The order of the entries stands for the order of iteration,
-- which the code leaves open; `insert` at a key that is there keeps its place.
pub mod Laws
pub mod Folds
pub mod Collect
pub mod Append
use mathlib.Core.Path.{◌≡◌}
use mathlib.Core.Bool.{Bool, true, false, ◌||◌}
use mathlib.Core.Option.{Option, none, some}
use mathlib.Core.List.{List, [], ◌∷◌, map}
use jefferies.Prelude.Bools.{if◌then◌else◌}
use jefferies.Prelude.Keys.{Key, ◌==◌}

module _ {ℓ κ} {K : Type ℓ} {V : Type κ} ⦃e : Key K⦄ where
  unfoldable pub get : K → List (K × V) → Option V
  get k [] = none
  get k ((j, v) ∷ m) = if j == k then some v else get k m

  unfoldable pub contains_key : K → List (K × V) → Bool
  contains_key k [] = false
  contains_key k ((j, v) ∷ m) = j == k || contains_key k m

  unfoldable pub insert : K → V → List (K × V) → List (K × V)
  insert k v [] = (k, v) ∷ []
  insert k v (entry ∷ es) = if entry.0 == k then (k, v) ∷ es else entry ∷ insert k v es

  unfoldable pub remove : K → List (K × V) → List (K × V)
  remove k [] = []
  remove k ((j, w) ∷ m) = let rest = remove k m in if j == k then rest else (j, w) ∷ rest

  -- `iter.collect::<HashMap<_, _>>()`: the last entry of a key wins.
  unfoldable pub collect_from : List (K × V) → List (K × V) → List (K × V)
  unfolding insert
  collect_from m [] = m
  collect_from m ((k, v) ∷ es) = collect_from (insert k v m) es

  unfoldable pub collect : List (K × V) → List (K × V)
  unfolding collect_from
  collect = collect_from []

  abbrev pub keys : List (K × V) → List K
  keys = map (λ p. p.0)

  -- No key stands twice.
  abbrev pub IsMap : List (K × V) → Type 0
  IsMap [] = Unit
  IsMap ((k, v) ∷ m) = (contains_key k m ≡ false) × IsMap m
