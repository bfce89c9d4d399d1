-- ===== src/Collections.antt =====
-- internal/collections/collections.go. A Go map is a list of entries with distinct keys; the order
-- in which Go iterates over a map is unspecified, so a use that depends on it takes the order as an
-- argument.
pub mod Membership
pub mod Maps
pub mod Groups
use ydbops.Base.{
  ℕ, Bool, true, false, Option, none, some, List, [], ◌∷◌, ◌++◌, map, Comparable, ◌==◌,
  if◌then◌else◌,
}

module _ {ℓ κ} {T : Type ℓ} {P : Type κ} where
  abbrev pub convert : List T → (T → P) → List P
  convert [] f = []
  convert (item ∷ items) f = f item ∷ convert items f

module _ {ℓ} {T : Type ℓ} ⦃c : Comparable T⦄ where
  unfoldable pub contains : List T → T → Bool
  contains [] elem = false
  contains (e ∷ elems) elem = if elem == e then true else contains elems elem

-- The loop's `append` to `result` is the cons in front of what the rest of the loop appends.
module _ {ℓ} {T : Type ℓ} where
  unfoldable pub filter_by : List T → (T → Bool) → List T
  filter_by [] f = []
  filter_by (item ∷ items) f = let rest = filter_by items f in if f item then item ∷ rest else rest

-- `m[k]`, `m[k] = v`, `len(m)`, on the entries.
module _ {ℓ κ} {K : Type ℓ} {V : Type κ} ⦃c : Comparable K⦄ where
  unfoldable pub get : List (K × V) → K → Option V
  get [] k = none
  get ((j, v) ∷ m) k = if j == k then some v else get m k

  unfoldable pub put : List (K × V) → K → V → List (K × V)
  put [] k v = (k, v) ∷ []
  put ((j, w) ∷ m) k v = if j == k then (k, v) ∷ m else (j, w) ∷ put m k v

  unfoldable pub map_contains : List (K × V) → K → Bool
  unfolding get
  map_contains m k = elim (get m k) [ none ↦ false | some v ↦ true ]
  -- `m[k]` of a map to slices: nil, the empty slice, where the key is missing.

abbrev pub or_empty {ℓ} : {V : Type ℓ} → Option (List V) → List V
or_empty none = []
or_empty (some vs) = vs

module _ {ℓ κ} {K : Type ℓ} {V : Type κ} ⦃c : Comparable K⦄ where
  unfoldable pub group_from : List (K × List V) → List V → (V → K) → List (K × List V)
  group_from result [] fn = result
  group_from result (item ∷ items) fn =
      group_from (put result (fn item) (or_empty (get result (fn item)) ++ item ∷ [])) items fn

  unfoldable pub group_by_func : List V → (V → K) → List (K × List V)
  unfolding group_from
  group_by_func items fn = group_from [] items fn

  to_map_from : List (K × V) → List V → (V → K) → List (K × V)
  to_map_from m [] key = m
  to_map_from m (item ∷ items) key = to_map_from (put m (key item) item) items key

  unfoldable pub to_map : List V → (V → K) → List (K × V)
  unfolding to_map_from
  to_map items key = to_map_from [] items key

module _ {ℓ κ} {K : Type ℓ} {V : Type κ} where
  -- The values in the order in which the entries stand.
  unfoldable pub values : List (K × V) → List V
  values [] = []
  values ((k, v) ∷ m) = v ∷ values m

  unfoldable pub keys : List (K × V) → List K
  keys [] = []
  keys ((k, v) ∷ m) = k ∷ keys m
