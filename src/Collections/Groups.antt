-- ===== src/Collections/Groups.antt =====
-- What `GroupByFunc` keeps: every item stands in one group, and what holds of the items holds in
-- the groups.
use ydbops.Base.{
  ℕ, ◌+◌, ◌≡◌, inl, inr, List, [], ◌∷◌, ◌++◌, arith, Comparable, ◌==◌, eq_of_==, Bool-cases, All,
  All-append,
}
use ydbops.Collections.{get, put, or_empty, group_by_func, group_from}

-- The sum of the weights of the items, and of all groups together. Lists on which every weight has the
-- same sum hold the same items equally often.
abbrev pub sum_of {ℓ} : {V : Type ℓ} → (V → ℕ) → List V → ℕ
sum_of f [] = 0
sum_of f (v ∷ vs) = f v + sum_of f vs

sum_of-append {ℓ} :
    {V : Type ℓ} (f : V → ℕ) (vs ws : List V) → sum_of f (vs ++ ws) ≡ sum_of f vs + sum_of f ws
sum_of-append f [] ws = omega arith
sum_of-append f (v ∷ vs) ws = omega (arith, sum_of-append f vs ws)

abbrev pub total {ℓ κ} : {K : Type ℓ} {V : Type κ} → (V → ℕ) → List (K × List V) → ℕ
total f [] = 0
total f ((k, vs) ∷ m) = sum_of f vs + total f m

module _ {ℓ κ} {K : Type ℓ} {V : Type κ} ⦃c : Comparable K⦄ where
  total-put :
      (f : V → ℕ) (m : List (K × List V)) (k : K) (v : V)
      → total f (put m k (or_empty (get m k) ++ v ∷ [])) ≡ total f m + f v
  unfolding get put
  total-put f [] k v = omega arith
  total-put f ((j, vs) ∷ m) k v = elim (Bool-cases (j == k)) [
    | inl same ↦ rw same (omega (arith, sum_of-append f vs (v ∷ [])))
    | inr other ↦ rw other (omega (arith, total-put f m k v))
  ]

  total-group_from :
      (f : V → ℕ) (m : List (K × List V)) (items : List V) (fn : V → K)
      → total f (group_from m items fn) ≡ total f m + sum_of f items
  unfolding group_from
  total-group_from f m [] fn = omega arith
  total-group_from f m (item ∷ items) fn = omega (
    arith,
    total-group_from f (put m (fn item) (or_empty (get m (fn item)) ++ item ∷ [])) items fn,
    total-put f m (fn item) item,
  )

  pub total-group_by_func :
      (f : V → ℕ) (items : List V) (fn : V → K) → total f (group_by_func items fn) ≡ sum_of f items
  unfolding group_by_func
  total-group_by_func f items fn = omega (arith, total-group_from f [] items fn)

  module _ {ι} (P : K → V → Type ι) where
    -- Each item of a group stands in the relation to the group's key.
    abbrev pub Grouped : List (K × List V) → Type ι
    Grouped m = All (λ (k, vs). All (P k) vs) m

    Grouped-put :
        (m : List (K × List V)) (k : K) (v : V)
        → Grouped m
        → P k v
        → Grouped (put m k (or_empty (get m k) ++ v ∷ []))
    unfolding get put
    Grouped-put [] k v h p = ((p, tt), tt)
    Grouped-put ((j, vs) ∷ m) k v (q, h) p = elim (Bool-cases (j == k)) [
      | inl same ↦ rw same (All-append (P k) vs (v ∷ []) (rw (eq_of_== j k same) at q) (p, tt), h)
      | inr other ↦ rw other (q, Grouped-put m k v h p)
    ]

    Grouped-group_from :
        (m : List (K × List V)) (items : List V) (fn : V → K)
        → Grouped m
        → All (λ v. P (fn v) v) items
        → Grouped (group_from m items fn)
    unfolding group_from
    Grouped-group_from m [] fn h k = h
    Grouped-group_from m (item ∷ items) fn h (p, k) =
        Grouped-group_from (put m (fn item) (or_empty (get m (fn item)) ++ item ∷ [])) items fn
          (Grouped-put m (fn item) item h p) k

    pub Grouped-group_by_func :
        (items : List V) (fn : V → K)
        → All (λ v. P (fn v) v) items
        → Grouped (group_by_func items fn)
    unfolding group_by_func
    Grouped-group_by_func items fn k = Grouped-group_from [] items fn tt k
