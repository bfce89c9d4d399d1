-- ===== src/Versions/RoundTrip.antt =====
-- `String` of a version specification, and `parseVersionFlag` on what it prints.

use mathlib.Core.List.{append-nil}
use text.Mathlib.TextLemmas.{nil-append, cons-append}
use ydbops.Base.{ℕ, ◌≤◌, ◌≡◌, refl, ◌∙◌, String, true, false, some, List, [], ◌∷◌, ◌++◌, arith}
use ydbops.Base.Int.{max_int}
use ydbops.Base.Text.{codes, codes-append, starts_with_digit, itoa}
use ydbops.Base.Printing.{scan_digits-itoa, itoa-digit_first}
use ydbops.Versions.{
  major_minor_patch, scan_number, scan_component, dotted, to_string, parse_components,
  parse_version_flag,
}

starts_with_digit-append :
    (cs rest : List ℕ) → starts_with_digit cs ≡ true → starts_with_digit (cs ++ rest) ≡ true
starts_with_digit-append [] rest h = cc
starts_with_digit-append (c ∷ cs) rest h = h

scan_component_of_digit :
    (cs : List ℕ) → starts_with_digit cs ≡ true → scan_component cs ≡ scan_number cs
unfolding scan_component
scan_component_of_digit [] h = cc
scan_component_of_digit (c ∷ cs) h = ground arith

module _ (n : ℕ) (fits : n ≤ max_int) (rest : List ℕ) (ends : starts_with_digit rest ≡ false) where
  scan_number-itoa : scan_number (codes (itoa n) ++ rest) ≡ some (n, rest)
  unfolding scan_number
  scan_number-itoa =
      rw
        (
          starts_with_digit-append (codes (itoa n)) rest (itoa-digit_first n fits),
          scan_digits-itoa n fits rest ends,
        )
        (ground arith)

  scan_component-itoa : scan_component (codes (itoa n) ++ rest) ≡ some (n, rest)
  scan_component-itoa =
      scan_component_of_digit _
        (starts_with_digit-append (codes (itoa n)) rest (itoa-digit_first n fits))
      ∙ scan_number-itoa

-- The signs of the first pattern.
pub data Sign : Type 0 where
  greater less different compatible : Sign

abbrev pub sign_text : Sign → String
sign_text greater = ">"
sign_text less = "<"
sign_text different = "!="
sign_text compatible = "~="

codes-dotted :
    (major minor patch : ℕ)
    → codes (dotted major minor patch)
      ≡ codes (itoa major) ++ (b'.' ∷ (codes (itoa minor) ++ (b'.' ∷ (codes (itoa patch) ++ []))))
codes-dotted major minor patch = simp (codes-append, append-nil)

module _ (major minor patch : ℕ)
    (fits : (major ≤ max_int) × (minor ≤ max_int) × (patch ≤ max_int)) where
  parse_components-dotted :
      (sign : String)
      → parse_components sign (codes (dotted major minor patch))
        ≡ some (major_minor_patch sign major minor patch)
  unfolding parse_components
  parse_components-dotted sign =
      rw
        (
          codes-dotted major minor patch,
          scan_component-itoa major fits.0 _ refl,
          scan_component-itoa minor fits.1 _ refl,
          scan_component-itoa patch fits.2 _ refl,
        )
        refl

  -- A specification with three numbers, printed, is read as itself, whatever its sign of the four
  -- and for all numbers that an `int` holds.
  pub parse_version_flag-to_string :
      (sign : Sign)
      → parse_version_flag (to_string (major_minor_patch (sign_text sign) major minor patch))
        ≡ some (major_minor_patch (sign_text sign) major minor patch)
  unfolding parse_version_flag to_string
  parse_version_flag-to_string greater = rw (cons-append, nil-append, parse_components-dotted ">")
  parse_version_flag-to_string less = rw (cons-append, nil-append, parse_components-dotted "<")
  parse_version_flag-to_string different =
      rw (cons-append, cons-append, nil-append, parse_components-dotted "!=")
  parse_version_flag-to_string compatible =
      rw (cons-append, cons-append, nil-append, parse_components-dotted "~=")
