-- ===== src/Base/Printing.antt =====
-- The digits that `itoa` prints.
use Prim.Native.String
use Prim.Native.String.{String}
use Prim.Native.Nat.{ℕ, zero, suc, ◌+◌, ◌*◌, ◌/◌, ◌%◌, ◌≤◌, ◌<◌}
use mathlib.Core.Path.{◌≡◌, refl, ap, ◌∙◌}
use mathlib.Core.Logic.{inl, inr}
use mathlib.Core.Bool.{true, false}
use mathlib.Core.List.{List, [], ◌∷◌, ◌++◌}
use native.Mathlib.Omega.{arith}
use ydbops.Base.Tests.{ltb, ltb→lt, Bool-cases}
use ydbops.Base.Int.{max_int}
use ydbops.Base.Text.{
  codes, codes-append, is_digit, starts_with_digit, scan_digits, digit_text, itoa_with, itoa,
}

codes-digit_text : (d : ℕ) → d < 10 → codes (digit_text d) ≡ (b'0' + d) ∷ []
codes-digit_text zero h = refl
codes-digit_text (suc zero) h = refl
codes-digit_text (suc (suc zero)) h = refl
codes-digit_text (suc (suc (suc zero))) h = refl
codes-digit_text (suc (suc (suc (suc zero)))) h = refl
codes-digit_text (suc (suc (suc (suc (suc zero))))) h = refl
codes-digit_text (suc (suc (suc (suc (suc (suc zero)))))) h = refl
codes-digit_text (suc (suc (suc (suc (suc (suc (suc zero))))))) h = refl
codes-digit_text (suc (suc (suc (suc (suc (suc (suc (suc zero)))))))) h = refl
codes-digit_text (suc (suc (suc (suc (suc (suc (suc (suc (suc zero))))))))) h = refl
codes-digit_text (suc (suc (suc (suc (suc (suc (suc (suc (suc (suc n)))))))))) h =
    absurd (omega arith)

-- One more digit in front of a text.
pub codes-digit_append :
    (d : ℕ) (tail : String)
    → d < 10
    → codes (String.◌++◌ (digit_text d) tail) ≡ (b'0' + d) ∷ codes tail
codes-digit_append d tail h = rw (codes-append, codes-digit_text d h)

-- `n` has at most `fuel` digits.
abbrev pub IsShort : ℕ → ℕ → Type 0
IsShort zero n = n ≡ 0
IsShort (suc fuel) n = IsShort fuel (n / 10)

pub IsShort-of_le-max_int : (n : ℕ) → n ≤ max_int → IsShort 20 n
IsShort-of_le-max_int n h = omega arith

-- What is printed starts with a digit.
pub itoa_with-digit_first :
    (fuel n : ℕ) (tail : String) → starts_with_digit (codes (itoa_with (suc fuel) n tail)) ≡ true
unfolding itoa_with
itoa_with-digit_first zero n tail = elim (Bool-cases (ltb n 10)) [
  | inl one ↦ rw (one, codes-digit_append (n % 10) tail (omega arith)) (ground arith)
  | inr more ↦ rw (more, codes-digit_append (n % 10) tail (omega arith)) (ground arith)
]
itoa_with-digit_first (suc fuel) n tail = elim (Bool-cases (ltb n 10)) [
  | inl one ↦ rw (one, codes-digit_append (n % 10) tail (omega arith)) (ground arith)
  | inr more ↦
      rw more (itoa_with-digit_first fuel (n / 10) (String.◌++◌ (digit_text (n % 10)) tail))
]

is_digit-add : (d : ℕ) → d < 10 → is_digit (b'0' + d) ≡ true
is_digit-add d h = ground arith

-- Reading one more digit.
scan_digits-digit :
    (m n d : ℕ) (cs : List ℕ)
    → d < 10
    → m * 10 + d ≡ n
    → scan_digits m ((b'0' + d) ∷ cs) ≡ scan_digits n cs
unfolding scan_digits
scan_digits-digit m n d cs h e =
    rw (is_digit-add d h) (ap (λ (k : ℕ). scan_digits k cs) (omega arith))

-- A printed number is read back, up to where the digits go on in `tail` and `rest`.
pub scan_digits-itoa_with :
    (fuel n : ℕ) (tail : String) (rest : List ℕ)
    → IsShort fuel n
    → scan_digits 0 (codes (itoa_with fuel n tail) ++ rest) ≡ scan_digits n (codes tail ++ rest)
unfolding itoa_with
scan_digits-itoa_with zero n tail rest h = rw h refl
scan_digits-itoa_with (suc fuel) n tail rest h = elim (Bool-cases (ltb n 10)) [
  | inl one ↦
      rw (one, codes-digit_append (n % 10) tail (omega arith))
        (scan_digits-digit 0 n (n % 10) (codes tail ++ rest) (omega arith)
          (omega (arith, ltb→lt n 10 one)))
  | inr more ↦ rw more (
      scan_digits-itoa_with fuel (n / 10) (String.◌++◌ (digit_text (n % 10)) tail) rest h
      ∙ rw (codes-digit_append (n % 10) tail (omega arith))
          (scan_digits-digit (n / 10) n (n % 10) (codes tail ++ rest) (omega arith) (omega arith)))
]

module _ (n : ℕ) (fits : n ≤ max_int) where
  -- What is printed is read back in front of a text that starts with no digit.
  pub scan_digits-itoa :
      (rest : List ℕ)
      → starts_with_digit rest ≡ false
      → scan_digits 0 (codes (itoa n) ++ rest) ≡ (n, rest)
  unfolding itoa scan_digits
  scan_digits-itoa [] h = scan_digits-itoa_with 20 n "" [] (IsShort-of_le-max_int n fits)
  scan_digits-itoa (c ∷ rest) h =
      scan_digits-itoa_with 20 n "" (c ∷ rest) (IsShort-of_le-max_int n fits) ∙ rw h

  pub itoa-digit_first : starts_with_digit (codes (itoa n)) ≡ true
  unfolding itoa
  itoa-digit_first = itoa_with-digit_first 19 n ""
