-- ===== src/Collections/Maps.antt =====
-- Lookups in the maps that `ToMap` and `GroupByFunc` build.
use ydbops.Base.{◌≡◌, refl, List, [], ◌∷◌, arith, Comparable, ◌==◌, if◌then◌else◌, some}
use ydbops.Collections.{get, put}

module _ {ℓ κ} {K : Type ℓ} {V : Type κ} ⦃c : Comparable K⦄ where
  pub get-put :
      (m : List (K × V)) (k j : K) (v : V)
      → get (put m k v) j ≡ (if k == j then some v else get m j)
  unfolding get put
  get-put [] k j v = refl
  get-put ((i, w) ∷ m) k j v =
      ground (arith, get-put m k j v, c.equals_iff i k, c.equals_iff i j, c.equals_iff k j)
