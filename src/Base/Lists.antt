-- ===== src/Base/Lists.antt =====
-- Lists measured by native numbers, and predicates on their items.
use Prim.Native.Nat.{ℕ, suc, ◌+◌}
use mathlib.Core.Path.{◌≡◌, refl, sym, ap, subst}
use mathlib.Core.Logic.{◌⊎◌, inl, inr}
use mathlib.Core.List.{List, [], ◌∷◌, ◌++◌, map, Memᴰ}
use native.Mathlib.Omega.{arith}

module _ {ℓ} {A : Type ℓ} where
  abbrev pub length : List A → ℕ
  length [] = 0
  length (x ∷ xs) = suc (length xs)

  pub length-append : (xs ys : List A) → length (xs ++ ys) ≡ length xs + length ys
  length-append [] ys = omega arith
  length-append (x ∷ xs) ys = omega (arith, length-append xs ys)

  pub length-replace :
      (before after : List A) (v w : A)
      → length (before ++ v ∷ after) ≡ length (before ++ w ∷ after)
  length-replace before after v w =
      omega (arith, length-append before (v ∷ after), length-append before (w ∷ after))

  pub Memᴰ-append_left : {a : A} {xs : List A} (ys : List A) → Memᴰ a xs → Memᴰ a (xs ++ ys)
  Memᴰ-append_left ys (Memᴰ.head e) = Memᴰ.head e
  Memᴰ-append_left ys (Memᴰ.tail m) = Memᴰ.tail (Memᴰ-append_left ys m)

  pub Memᴰ-append_right : {a : A} (xs : List A) {ys : List A} → Memᴰ a ys → Memᴰ a (xs ++ ys)
  Memᴰ-append_right [] m = m
  Memᴰ-append_right (x ∷ xs) m = Memᴰ.tail (Memᴰ-append_right xs m)

  abbrev side_tail :
      {a x : A} {xs ys : List A} → Memᴰ a xs ⊎ Memᴰ a ys → Memᴰ a (x ∷ xs) ⊎ Memᴰ a ys
  side_tail (inl m) = inl (Memᴰ.tail m)
  side_tail (inr m) = inr m

  pub Memᴰ-append_cases :
      {a : A} (xs : List A) {ys : List A} → Memᴰ a (xs ++ ys) → Memᴰ a xs ⊎ Memᴰ a ys
  Memᴰ-append_cases [] m = inr m
  Memᴰ-append_cases (x ∷ xs) (Memᴰ.head e) = inl (Memᴰ.head e)
  Memᴰ-append_cases (x ∷ xs) (Memᴰ.tail m) = side_tail (Memᴰ-append_cases xs m)

  -- A list that grows at the tail only.
  pub Memᴰ-cons_mono :
      {a x : A} {xs ys : List A} → (Memᴰ a xs → Memᴰ a ys) → Memᴰ a (x ∷ xs) → Memᴰ a (x ∷ ys)
  Memᴰ-cons_mono f (Memᴰ.head e) = Memᴰ.head e
  Memᴰ-cons_mono f (Memᴰ.tail m) = Memᴰ.tail (f m)

  pub Memᴰ-cons_cases : {a x : A} {xs : List A} → Memᴰ a (x ∷ xs) → (a ≡ x) ⊎ Memᴰ a xs
  Memᴰ-cons_cases (Memᴰ.head e) = inl e
  Memᴰ-cons_cases (Memᴰ.tail m) = inr m

module _ {ℓ κ} {A : Type ℓ} {B : Type κ} where
  pub length-map : (f : A → B) (xs : List A) → length (map f xs) ≡ length xs
  length-map f [] = refl
  length-map f (x ∷ xs) = ap suc (length-map f xs)

  pub Memᴰ-map : (f : A → B) {a : A} {xs : List A} → Memᴰ a xs → Memᴰ (f a) (map f xs)
  Memᴰ-map f (Memᴰ.head e) = Memᴰ.head (ap f e)
  Memᴰ-map f (Memᴰ.tail m) = Memᴰ.tail (Memᴰ-map f m)

  pub of_Memᴰ-map :
      (f : A → B) {b : B} (xs : List A) → Memᴰ b (map f xs) → (a : A) × Memᴰ a xs × (b ≡ f a)
  of_Memᴰ-map f [] m = elim m [ ]
  of_Memᴰ-map f (x ∷ xs) (Memᴰ.head e) = (x, Memᴰ.head refl, e)
  of_Memᴰ-map f (x ∷ xs) (Memᴰ.tail m) =
      let (a, inside, e) = of_Memᴰ-map f xs m in (a, Memᴰ.tail inside, e)

module _ {ℓ κ} {A : Type ℓ} (P : A → Type κ) where
  abbrev pub All : List A → Type κ
  All [] = Unit
  All (x ∷ xs) = P x × All xs

  pub All-append : (xs ys : List A) → All xs → All ys → All (xs ++ ys)
  All-append [] ys h k = k
  All-append (x ∷ xs) ys (p, h) k = (p, All-append xs ys h k)

  pub All-replace :
      (before after : List A) (v w : A)
      → All (before ++ v ∷ after)
      → P w
      → All (before ++ w ∷ after)
  All-replace [] after v w (p, h) q = (q, h)
  All-replace (x ∷ before) after v w (p, h) q = (p, All-replace before after v w h q)

  pub All-remove :
      (before after : List A) (v : A) → All (before ++ v ∷ after) → All (before ++ after)
  All-remove [] after v (p, h) = h
  All-remove (x ∷ before) after v (p, h) = (p, All-remove before after v h)

  pub All-middle : (before after : List A) (v : A) → All (before ++ v ∷ after) → P v
  All-middle [] after v (p, h) = p
  All-middle (x ∷ before) after v (p, h) = All-middle before after v h

  pub All-at : (items : List A) {a : A} → All items → Memᴰ a items → P a
  All-at [] h m = elim m [ ]
  All-at (a ∷ items) (p, h) (Memᴰ.head e) = subst P (sym e) p
  All-at (a ∷ items) (p, h) (Memᴰ.tail m) = All-at items h m

  pub All-Memᴰ : (items : List A) → ((a : A) → Memᴰ a items → P a) → All items
  All-Memᴰ [] h = tt
  All-Memᴰ (a ∷ items) h = (h a (Memᴰ.head refl), All-Memᴰ items (λ b m. h b (Memᴰ.tail m)))
