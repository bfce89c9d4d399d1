-- ===== src/Hosts/NodeIds.antt =====
-- `GetNodeIds` of pkg/utils/utils.go on single ids and on ranges of ids.
use Prim.Native.String
use mathlib.Core.List.{append-nil}
use native.Mathlib.Decide.{ℕ_discrete}
use ydbops.Base.{
  ℕ, zero, suc, ◌+◌, ◌-◌, ◌%◌, ◌/◌, ◌^◌, ◌≤◌, ◌<◌, ◌≡◌, refl, ◌≢◌, ◌∙◌, ◌↔◌, inl, inr, String, true,
  false, Option, none, some, List, [], ◌∷◌, ◌++◌, map, All, Memᴰ, Memᴰ-cons_cases, arith,
  Bool-cases, ltb, if◌then◌else◌, ◌==◌, num_comparable,
}
use ydbops.Base.Int.{ℤ, pos, negsuc, max_int}
use ydbops.Base.Text.{
  codes, codes-append, digit_text, itoa_with, itoa, starts_with_digit, scan_digits,
}
use ydbops.Base.Printing.{codes-digit_append, scan_digits-itoa, itoa-digit_first}
use ydbops.Hosts.{
  Result, ok, bad_id, bad_range_start, bad_range_end, positive, in_range, or_fail, second_part,
  checked_id, ◌>>=◌, err, negative_id, unsigned, atoi, has_dash, split_dash, ids_from, range_ids,
  ids_of_host, get_node_ids,
}

abbrev IsNegative : Option ℤ → Type 0
IsNegative (some (negsuc n)) = Unit
IsNegative _ = ⊥

positive_nonneg : (o : Option ℕ) → ¬ IsNegative (positive o)
positive_nonneg none n = n
positive_nonneg (some m) n = n

atoi_nonneg : (cs : List ℕ) → has_dash cs ≡ false → ¬ IsNegative (atoi cs)
unfolding has_dash atoi unsigned
atoi_nonneg [] h n = n
atoi_nonneg (c ∷ cs) h n = elim (Bool-cases (c == b'-')) [
  | inl dash ↦ cc (rw dash at h)
  | inr digit ↦ signed_nonneg (rw digit at n)
]
  where
    signed_nonneg : ¬ IsNegative (
        if c == b'+'
        then positive (in_range max_int (unsigned cs))
        else positive (in_range max_int (unsigned (c ∷ cs))))
    signed_nonneg k = elim (Bool-cases (c == b'+')) [
      | inl plus ↦ positive_nonneg (in_range max_int (unsigned cs)) (rw plus at k)
      | inr digit ↦ positive_nonneg (in_range max_int (unsigned (c ∷ cs))) (rw digit at k)
    ]

ids_of_host-ne-negative : (cs : List ℕ) → ids_of_host cs ≢ err negative_id
unfolding ids_of_host
ids_of_host-ne-negative cs h = elim (Bool-cases (has_dash cs)) [
  | inl range ↦ range_errors (atoi (split_dash cs).0) (rw range at h)
  | inr single ↦ single_error (atoi cs) (atoi_nonneg cs single) (rw single at h)
]
  where
    range_errors :
        (start : Option ℤ)
        → (do
          s ← or_fail start bad_range_start
          e ← or_fail (atoi (second_part (split_dash cs).1)) bad_range_end
          ok (range_ids s e))
          ≢ err negative_id
    range_errors none e = cc
    range_errors (some s) e = ground arith

    single_error :
        (id : Option ℤ)
        → ¬ IsNegative id
        → (do i ← or_fail id bad_id; checked_id i) ≢ err negative_id
    single_error none nonneg e = cc
    single_error (some (pos n)) nonneg e = cc
    single_error (some (negsuc n)) nonneg e = nonneg tt

itoa-no_dash_with :
    (fuel n : ℕ) (tail : String) → has_dash (codes (itoa_with fuel n tail)) ≡ has_dash (codes tail)
unfolding itoa_with has_dash
itoa-no_dash_with zero n tail = refl
itoa-no_dash_with (suc fuel) n tail = elim (Bool-cases (ltb n 10)) [
  | inl one ↦ rw (one, codes-digit_append (n % 10) tail (omega arith)) (ground arith)
  | inr more ↦ rw more (
      itoa-no_dash_with fuel (n / 10) (String.◌++◌ (digit_text (n % 10)) tail)
      ∙ rw (codes-digit_append (n % 10) tail (omega arith)) (ground arith))
]

split_dash-append :
    (part rest : List ℕ)
    → has_dash part ≡ false
    → split_dash (part ++ b'-' ∷ rest) ≡ (part, (split_dash rest).0 ∷ (split_dash rest).1)
unfolding has_dash split_dash
split_dash-append [] rest h = refl
split_dash-append (c ∷ part) rest h = ground (arith, split_dash-append part rest)

split_dash_all : (part : List ℕ) → has_dash part ≡ false → split_dash part ≡ (part, [])
unfolding has_dash split_dash
split_dash_all [] h = refl
split_dash_all (c ∷ part) h = ground (arith, split_dash_all part)

has_dash-append : (part rest : List ℕ) → has_dash (part ++ b'-' ∷ rest) ≡ true
unfolding has_dash
has_dash-append [] rest = refl
has_dash-append (c ∷ part) rest = ground (arith, has_dash-append part rest)

atoi_of_digit :
    (cs : List ℕ)
    → starts_with_digit cs ≡ true
    → (n : ℕ) → n ≤ max_int
    → scan_digits 0 cs ≡ (n, [])
    → atoi cs ≡ some (pos n)
unfolding atoi unsigned
atoi_of_digit [] h n fits e = cc
atoi_of_digit (c ∷ cs) h n fits e =
    let not_minus : (c == b'-') ≡ false = ground arith in
    let not_plus : (c == b'+') ≡ false = ground arith in
    rw (not_minus, not_plus, unsigned, h, e) (ground arith)

module _ (n : ℕ) (fits : n < 2 ^ 32) where
  itoa-no_dash : has_dash (codes (itoa n)) ≡ false
  unfolding itoa has_dash
  itoa-no_dash = itoa-no_dash_with 20 n ""

  atoi-itoa : atoi (codes (itoa n)) ≡ some (pos n)
  atoi-itoa =
      atoi_of_digit (codes (itoa n)) (itoa-digit_first n (omega arith)) n (omega arith)
        (rw (← append-nil (codes (itoa n))) (scan_digits-itoa n (omega arith) [] refl))

  single_id : ids_of_host (codes (itoa n)) ≡ ok (n ∷ [])
  unfolding ids_of_host
  single_id = rw (itoa-no_dash, atoi-itoa) (ground arith)

-- Ids below 2^32, printed, are read back in their order.
pub get_node_ids-itoa :
    (ids : List ℕ) → All (λ id. id < 2 ^ 32) ids → get_node_ids (map itoa ids) ≡ ok ids
unfolding get_node_ids
get_node_ids-itoa [] h = refl
get_node_ids-itoa (id ∷ ids) (fits, h) = rw (single_id id fits, get_node_ids-itoa ids h)

-- The error for a negative id is never returned, whatever the hosts: an element with a minus sign
-- is read as a range.
pub get_node_ids-ne-negative : (hosts : List String) → get_node_ids hosts ≢ err negative_id
unfolding get_node_ids
get_node_ids-ne-negative [] h = cc
get_node_ids-ne-negative (host ∷ hosts) h =
    later (ids_of_host (codes host)) (ids_of_host-ne-negative (codes host)) (get_node_ids hosts)
      (get_node_ids-ne-negative hosts) h
  where
    later :
        (r : Result (List ℕ))
        → r ≢ err negative_id
        → (rest : Result (List ℕ)) → rest ≢ err negative_id
        → (do ids ← r; others ← rest; ok (ids ++ others)) ≢ err negative_id
    later (ok ids) fine (ok others) rest_fine e = cc
    later (ok ids) fine (err x) rest_fine e = rest_fine (cc)
    later (err x) fine rest rest_fine e = fine (cc)

ids_from_iff :
    (count start id : ℕ)
    → start + count ≤ 2 ^ 32
    → Memᴰ id (ids_from count start) ↔ ((start ≤ id) × (id < start + count))
unfolding ids_from
ids_from_iff zero start id h = ((λ m. elim m [ ]), (λ p. absurd (omega arith)))
ids_from_iff (suc count) start id h = (
  (λ m. elim (Memᴰ-cons_cases m) [
    | inl e ↦ (omega arith, omega arith)
    | inr later ↦
        let (low, high) = (ids_from_iff count (start + 1) id (omega arith)).0 later in
        (omega arith, omega arith)
  ]),
  (λ p. elim (ℕ_discrete id start) [
    | yes e ↦ Memᴰ.head (omega arith)
    | no other ↦
        Memᴰ.tail ((ids_from_iff count (start + 1) id (omega arith)).1 (omega arith, omega arith))
  ]),
)

abbrev pub Stands : Result (List ℕ) → ℕ → Type 0
Stands (ok ids) id = Memᴰ id ids
Stands (err e) id = ⊥

-- The text `a-b`.
abbrev pub dashed : ℕ → ℕ → String
dashed a b = String.◌++◌ (itoa a) (String.◌++◌ "-" (itoa b))

module _ (a b : ℕ) (ordered : a ≤ b) (fits : b < 2 ^ 32) where
  codes-dashed : codes (dashed a b) ≡ codes (itoa a) ++ b'-' ∷ codes (itoa b)
  codes-dashed = simp codes-append

  split_dashed : split_dash (codes (dashed a b)) ≡ (codes (itoa a), codes (itoa b) ∷ [])
  split_dashed = rw (
    codes-dashed,
    split_dash-append (codes (itoa a)) (codes (itoa b)) (itoa-no_dash a (omega arith)),
    split_dash_all (codes (itoa b)) (itoa-no_dash b fits),
  )

  ids_of_range : ids_of_host (codes (dashed a b)) ≡ ok (ids_from (b + 1 - a) a)
  unfolding ids_of_host
  ids_of_range =
      let dash : has_dash (codes (dashed a b)) ≡ true =
        rw codes-dashed (has_dash-append (codes (itoa a)) (codes (itoa b))) in
      rw (dash, split_dashed, atoi-itoa a (omega arith), atoi-itoa b fits)

  -- `a-b` stands for the ids from `a` to `b`, both included, where `a` is at most `b` and `b` is an
  -- id.
  pub get_node_ids_range :
      (id : ℕ) → Stands (get_node_ids (dashed a b ∷ [])) id ↔ ((a ≤ id) × (id ≤ b))
  unfolding get_node_ids
  get_node_ids_range id =
      let inside = ids_from_iff (b + 1 - a) a id (omega arith) in
      rw (ids_of_range, append-nil)
        (
          (λ m. let (low, high) = inside.0 m in (low, omega arith)),
          (λ p. inside.1 (p.0, omega arith)),
        )
