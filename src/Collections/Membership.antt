-- ===== src/Collections/Membership.antt =====
-- What `Contains` and `FilterBy` decide and keep.
use ydbops.Base.{
  ◌≡◌, inl, inr, Bool, true, false, List, [], ◌∷◌, Memᴰ, arith, Comparable, ◌==◌, Bool-cases,
  if◌then◌else◌, ==_refl, eq_of_==,
}
use ydbops.Collections.{contains, filter_by}

module _ {ℓ} {T : Type ℓ} ⦃c : Comparable T⦄ where
  pub contains-Memᴰ : (elems : List T) {elem : T} → contains elems elem ≡ true → Memᴰ elem elems
  unfolding contains
  contains-Memᴰ [] h = cc
  contains-Memᴰ (e ∷ elems) {elem} h = elim (Bool-cases (elem == e)) [
    | inl same ↦ Memᴰ.head (eq_of_== elem e same)
    | inr other ↦ Memᴰ.tail (contains-Memᴰ elems (rw other at h))
  ]

  pub Memᴰ-contains : {elem : T} {elems : List T} → Memᴰ elem elems → contains elems elem ≡ true
  unfolding contains
  Memᴰ-contains {elem} (Memᴰ.head {x} e) = rw (e, ==_refl x)
  Memᴰ-contains {elem} (Memᴰ.tail {x} m) = ground (arith, Memᴰ-contains m)

  pub contains-eq-false :
      (elems : List T) {elem : T} → ¬ Memᴰ elem elems → contains elems elem ≡ false
  contains-eq-false elems {elem} h = elim (Bool-cases (contains elems elem)) [
    | inl inside ↦ absurd (h (contains-Memᴰ elems inside))
    | inr outside ↦ outside
  ]

module _ {ℓ} {T : Type ℓ} (f : T → Bool) where
  abbrev cons_kept :
      {t : T} (x : T) {rest : List T} (b : Bool)
      → Memᴰ t rest
      → Memᴰ t (if b then x ∷ rest else rest)
  cons_kept x true m = Memᴰ.tail m
  cons_kept x false m = m

  pub Memᴰ-filter_by :
      {t : T} {items : List T} → Memᴰ t items → f t ≡ true → Memᴰ t (filter_by items f)
  unfolding filter_by
  Memᴰ-filter_by (Memᴰ.head {x} e) h = rw ((rw e at h), filter_by) (Memᴰ.head e)
  Memᴰ-filter_by (Memᴰ.tail {x} m) h = cons_kept x (f x) (Memᴰ-filter_by m h)

  abbrev kept_tail :
      {t x : T} {items : List T} → Memᴰ t items × (f t ≡ true) → Memᴰ t (x ∷ items) × (f t ≡ true)
  kept_tail (m, h) = (Memᴰ.tail m, h)

  abbrev kept_cases :
      {t x : T} {items rest : List T}
      → f x ≡ true
      → (Memᴰ t rest → Memᴰ t items × (f t ≡ true))
      → Memᴰ t (x ∷ rest)
      → Memᴰ t (x ∷ items) × (f t ≡ true)
  kept_cases kept ih (Memᴰ.head e) = (Memᴰ.head e, rw e kept)
  kept_cases kept ih (Memᴰ.tail m) = kept_tail (ih m)

  pub of_Memᴰ-filter_by :
      (items : List T) {t : T} → Memᴰ t (filter_by items f) → Memᴰ t items × (f t ≡ true)
  unfolding filter_by
  of_Memᴰ-filter_by [] m = elim m [ ]
  of_Memᴰ-filter_by (x ∷ items) {t} m = elim (Bool-cases (f x)) [
    | inl kept ↦ kept_cases kept (of_Memᴰ-filter_by items) (rw kept at m)
    | inr dropped ↦ kept_tail (of_Memᴰ-filter_by items (rw dropped at m))
  ]
