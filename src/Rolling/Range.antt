-- ===== src/Rolling/Range.antt =====
-- When the checks of versions of rolling.go pass: `findLowHigh`, `checkWithinOneMajor`,
-- `checkWithPreviousMajors`.
use ydbops.Base.{
  ℕ, ◌+◌, ◌≤◌, ◌≡◌, refl, ◌↔◌, inl, inr, Bool, true, false, List, [], ◌∷◌, ltb, ◌||◌, not, ◌==◌,
  num_comparable, arith, if◌then◌else◌, All, Memᴰ, Memᴰ-cons_mono, Memᴰ-cons_cases, All-at,
  Bool-cases,
}
use ydbops.Base.Int.{pos, negsuc, ◌-ℤ◌, ltb_ℤ, max_int, wrap64}
use ydbops.Rolling.Compat.{
  minors_too_far, incompatible_major, too_far, differ, low_high_from, find_low_high,
  check_within_one_major,
}

abbrev pub least : ℕ → List ℕ → ℕ
least a [] = a
least a (m ∷ minors) = least (if ltb m a then m else a) minors

abbrev pub greatest : ℕ → List ℕ → ℕ
greatest a [] = a
greatest a (m ∷ minors) = greatest (if ltb a m then m else a) minors

lower :
    (m a : ℕ) → (if ltb_ℤ (pos m) (pos a) then pos m else pos a) ≡ pos (if ltb m a then m else a)
lower m a = ground arith

higher :
    (b m : ℕ) → (if ltb_ℤ (pos b) (pos m) then pos m else pos b) ≡ pos (if ltb b m then m else b)
higher b m = ground arith

low_high_from-pos :
    (a b : ℕ) (minors : List ℕ)
    → low_high_from (pos a) (pos b) minors ≡ (pos (least a minors), pos (greatest b minors))
unfolding low_high_from
low_high_from-pos a b [] = refl
low_high_from-pos a b (m ∷ minors) =
    rw (lower m a, higher b m)
      (low_high_from-pos (if ltb m a then m else a) (if ltb b m then m else b) minors)

from_max_int :
    (m : ℕ) → m ≤ max_int → (if ltb_ℤ (pos m) (pos max_int) then pos m else pos max_int) ≡ pos m
from_max_int m h = ground arith

from_min_int : (m : ℕ) → (if ltb_ℤ (negsuc max_int) (pos m) then pos m else negsuc max_int) ≡ pos m
from_min_int m = ground arith

find_low_high-cons :
    (m : ℕ) (minors : List ℕ)
    → m ≤ max_int
    → find_low_high (m ∷ minors) ≡ (pos (least m minors), pos (greatest m minors))
unfolding find_low_high low_high_from
find_low_high-cons m minors h = rw (from_max_int m h, from_min_int m) (low_high_from-pos m m minors)

least-Memᴰ : (a : ℕ) (minors : List ℕ) → Memᴰ (least a minors) (a ∷ minors)
least-Memᴰ a [] = Memᴰ.head refl
least-Memᴰ a (m ∷ minors) = elim (Bool-cases (ltb m a)) [
  | inl less ↦ rw less (Memᴰ.tail (least-Memᴰ m minors))
  | inr keep ↦ rw keep (Memᴰ-cons_mono Memᴰ.tail (least-Memᴰ a minors))
]

greatest-Memᴰ : (a : ℕ) (minors : List ℕ) → Memᴰ (greatest a minors) (a ∷ minors)
greatest-Memᴰ a [] = Memᴰ.head refl
greatest-Memᴰ a (m ∷ minors) = elim (Bool-cases (ltb a m)) [
  | inl more ↦ rw more (Memᴰ.tail (greatest-Memᴰ m minors))
  | inr keep ↦ rw keep (Memᴰ-cons_mono Memᴰ.tail (greatest-Memᴰ a minors))
]

smaller : (a m : ℕ) → ((if ltb m a then m else a) ≤ a) × ((if ltb m a then m else a) ≤ m)
smaller a m = ground arith

larger : (a m : ℕ) → (a ≤ (if ltb a m then m else a)) × (m ≤ (if ltb a m then m else a))
larger a m = ground arith

least_le_start : (a : ℕ) (minors : List ℕ) → least a minors ≤ a
least_le_start a [] = omega arith
least_le_start a (m ∷ minors) =
    omega (arith, least_le_start (if ltb m a then m else a) minors, (smaller a m).0)

least_le : {x : ℕ} (a : ℕ) (minors : List ℕ) → Memᴰ x minors → least a minors ≤ x
least_le a [] inside = elim inside [ ]
least_le a (m ∷ minors) (Memᴰ.head e) =
    omega (arith, least_le_start (if ltb m a then m else a) minors, (smaller a m).1, e)
least_le a (m ∷ minors) (Memᴰ.tail inside) = least_le (if ltb m a then m else a) minors inside

le_greatest_start : (a : ℕ) (minors : List ℕ) → a ≤ greatest a minors
le_greatest_start a [] = omega arith
le_greatest_start a (m ∷ minors) =
    omega (arith, le_greatest_start (if ltb a m then m else a) minors, (larger a m).0)

le_greatest : {x : ℕ} (a : ℕ) (minors : List ℕ) → Memᴰ x minors → x ≤ greatest a minors
le_greatest a [] inside = elim inside [ ]
le_greatest a (m ∷ minors) (Memᴰ.head e) =
    omega (arith, le_greatest_start (if ltb a m then m else a) minors, (larger a m).1, e)
le_greatest a (m ∷ minors) (Memᴰ.tail inside) = le_greatest (if ltb a m then m else a) minors inside

-- The minors of a major that was seen: there is one, and the least fits an `int`.
abbrev pub AreMinors : List ℕ → Type 0
AreMinors minors = (m : ℕ) × Memᴰ m minors × All (λ x. x ≤ max_int) minors

-- The lowest and the highest of them.
pub record Bounds (minors : List ℕ) : Type 0 where
  pub low : ℕ
  pub high : ℕ
  pub found : find_low_high minors ≡ (pos low, pos high)
  pub low_Memᴰ : Memᴰ low minors
  pub high_Memᴰ : Memᴰ high minors
  pub low_le : {x : ℕ} → Memᴰ x minors → low ≤ x
  pub le_high : {x : ℕ} → Memᴰ x minors → x ≤ high
  pub high_le : high ≤ max_int

pub bounds : (minors : List ℕ) → AreMinors minors → Bounds minors
bounds [] (m, inside, fit) = elim inside [ ]
bounds (m ∷ minors) (_, _, (fits, fit)) = record {
  low = least m minors;
  high = greatest m minors;
  found = find_low_high-cons m minors fits;
  low_Memᴰ = least-Memᴰ m minors;
  high_Memᴰ = greatest-Memᴰ m minors;
  low_le = λ inside. elim (Memᴰ-cons_cases inside) [
    | inl e ↦ rw e (least_le_start m minors)
    | inr later ↦ least_le m minors later
  ];
  le_high = λ inside. elim (Memᴰ-cons_cases inside) [
    | inl e ↦ rw e (le_greatest_start m minors)
    | inr later ↦ le_greatest m minors later
  ];
  high_le = All-at (λ x. x ≤ max_int) (m ∷ minors) (fits, fit) (greatest-Memᴰ m minors);
}

gap :
    (low high : ℕ)
    → low ≤ high
    → high ≤ max_int
    → ltb_ℤ (pos 1) (wrap64 (pos high -ℤ pos low)) ≡ ltb (low + 1) high
gap low high h k = ground arith

unequal :
    (low high : ℕ) → (ltb_ℤ (pos low) (pos high) || ltb_ℤ (pos high) (pos low)) ≡ not (low == high)
unequal low high = ground arith

-- A test that gives a line, and one that gives none.
line_iff : {A : Type 0} (b : Bool) (line : A) → ((if b then line ∷ [] else []) ≡ []) ↔ (b ≡ false)
line_iff true line = (λ e. cc, λ e. cc)
line_iff false line = (λ e. refl, λ e. refl)

close_of_test : (low high : ℕ) → ltb (low + 1) high ≡ false → high ≤ low + 1
close_of_test low high h = ground arith

test_of_close : (low high : ℕ) → high ≤ low + 1 → ltb (low + 1) high ≡ false
test_of_close low high h = ground arith

same_of_test : (low high : ℕ) → not (low == high) ≡ false → low ≡ high
same_of_test low high h = ground arith

test_of_same : (low high : ℕ) → low ≡ high → not (low == high) ≡ false
test_of_same low high h = ground arith

too_far_iff :
    (major low high : ℕ)
    → low ≤ high
    → high ≤ max_int
    → (too_far major (pos low, pos high) ≡ []) ↔ (high ≤ low + 1)
too_far_iff major low high h k = rw (gap low high h k) (
    let (to, from) = line_iff (ltb (low + 1) high) (minors_too_far major (pos high) (pos low)) in
    ((λ e. close_of_test low high (to e)), (λ e. from (test_of_close low high e))))

pub differ_iff :
    (cur_major prev_major low high : ℕ)
    → (differ cur_major prev_major (pos low, pos high) ≡ []) ↔ (low ≡ high)
differ_iff cur_major prev_major low high = rw (unequal low high) (
    let (to, from) =
      line_iff (not (low == high)) (incompatible_major cur_major prev_major (pos low)) in
    ((λ e. same_of_test low high (to e)), (λ e. from (test_of_same low high e))))

-- The minors of a major differ by 1 at most.
abbrev pub AreClose : List ℕ → Type 0
AreClose minors = (a b : ℕ) → Memᴰ a minors → Memᴰ b minors → a ≤ b + 1

pub check_within_one_major_iff :
    (major : ℕ) (minors : List ℕ)
    → AreMinors minors
    → (check_within_one_major major minors ≡ []) ↔ AreClose minors
unfolding check_within_one_major
check_within_one_major_iff major minors h =
    let b = bounds minors h in
    let (to, from) = too_far_iff major b.low b.high (b.low_le b.high_Memᴰ) b.high_le in
    rw b.found (
      (λ e x y x_in y_in. omega (arith, to e, b.le_high x_in, b.low_le y_in)),
      (λ close. from (close b.high b.low b.high_Memᴰ b.low_Memᴰ)),
    )
