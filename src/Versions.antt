-- ===== src/Versions.antt =====
-- Version specifications: pkg/options/types.go, `parseVersionFlag` of pkg/options/targeting.go and
-- `ParseMajorMinorPatchFromVersion` of pkg/utils/utils.go. The regular expressions are matchers
-- over code points; their groups of digits are greedy and end at a character that is no digit.

mod Tests
pub mod Compare
pub mod RoundTrip
use ydbops.Base.{
  ℕ, zero, suc, ◌+◌, ◌-◌, ◌*◌, min, String, Bool, true, false, not, ◌&&◌, ◌||◌, Option, none, some,
  List, [], ◌∷◌, ltb, ◌==◌, if◌then◌else◌, num_comparable, text_comparable,
}
use Prim.Native.Char.{code}
use Prim.Native.String
use ydbops.Base.Int.{max_int}
use ydbops.Base.Text.{codes, starts_with_digit, scan_digits, itoa}

pub data VersionSpec : Type 0 where
  major_minor_patch : (sign : String) (major minor patch : ℕ) → VersionSpec
  raw : (sign text : String) → VersionSpec

abbrev pub Version : Type 0
Version = ℕ × ℕ × ℕ

pub data Comparison : Type 0 where
  less equal greater : Comparison

-- The loop over the three numbers, which stops at the first difference.
compare_numbers : Version → Version → Comparison
compare_numbers (a, b, c) (a', b', c') =
    if ltb a a'
    then less
    else if ltb a' a
    then greater
    else if ltb b b'
    then less
    else if ltb b' b
    then greater
    else if ltb c c'
    then less
    else if ltb c' c
    then greater
    else equal

abbrev pub is_equal : Comparison → Bool
is_equal equal = true
is_equal _ = false

abbrev pub is_less : Comparison → Bool
is_less less = true
is_less _ = false

abbrev pub is_greater : Comparison → Bool
is_greater greater = true
is_greater _ = false

unfoldable pub compare_major_minor_patch : String → Version → Version → Bool
unfolding compare_numbers
compare_major_minor_patch sign node_version user_version =
    let res = compare_numbers node_version user_version in
    if sign == "=="
    then is_equal res
    else if sign == "<"
    then is_less res
    else if sign == ">"
    then is_greater res
    else if sign == "!="
    then not (is_equal res)
    else false

unfoldable pub compare_raw : String → String → String → Bool
compare_raw sign node_version user_version =
    if sign == "=="
    then node_version == user_version
    else if sign == "!="
    then not (node_version == user_version)
    else false

-- `(\d+)`: its value and the rest. `strconv.Atoi` gives the largest `int` for a larger number; the
-- callers drop the error.
unfoldable pub scan_number : List ℕ → Option (ℕ × List ℕ)
unfolding scan_digits
scan_number cs =
    if starts_with_digit cs
    then (let (n, rest) = scan_digits 0 cs in some (min n max_int, rest))
    else none

-- A literal part of a pattern.
pub scan_literal : List ℕ → List ℕ → Option (List ℕ)
scan_literal [] cs = some cs
scan_literal (p ∷ ps) [] = none
scan_literal (p ∷ ps) (c ∷ cs) = if p == c then scan_literal ps cs else none

-- `.*$`: the rest has no line feed.
pub one_line : List ℕ → Bool
one_line [] = true
one_line (c ∷ cs) = not (c == 10) && one_line cs

infixl 5 ◌>>=◌
abbrev pub ◌>>=◌ {ℓ κ} : {A : Type ℓ} {B : Type κ} → Option A → (A → Option B) → Option B
none >>= f = none
some a >>= f = f a

-- A literal, three numbers with a separator between them, and anything after them.
unfoldable pub try_parse_with : List ℕ → List ℕ → List ℕ → Option Version
unfolding scan_number scan_literal one_line
try_parse_with literal separator version = do
  after_literal ← scan_literal literal version
  (major, s₁) ← scan_number after_literal
  s₂ ← scan_literal separator s₁
  (minor, s₃) ← scan_number s₂
  s₄ ← scan_literal separator s₃
  (patch, s₅) ← scan_number s₄
  if one_line s₅ then some (major, minor, patch) else none

abbrev pub or_else {ℓ} : {A : Type ℓ} → Option A → Option A → Option A
or_else none b = b
or_else (some a) b = some a

unfoldable pub parse_major_minor_patch_from_version : String → Option Version
unfolding try_parse_with
parse_major_minor_patch_from_version version =
    or_else (try_parse_with (codes "ydb-stable-") (codes "-") (codes version))
      (try_parse_with [] (codes ".") (codes version))

-- `none` is the error.
unfoldable pub satisfies : VersionSpec → String → Option Bool
unfolding compare_major_minor_patch compare_raw
satisfies (major_minor_patch sign major minor patch) other_version = do
  found ← parse_major_minor_patch_from_version other_version
  some (compare_major_minor_patch sign found (major, minor, patch))
satisfies (raw sign text) other_version = some (compare_raw sign other_version text)

-- `(\d+|\*)`: an asterisk is no number, so `strconv.Atoi` returns 0 and an error that is dropped.
scan_component : List ℕ → Option (ℕ × List ℕ)
unfolding scan_number
scan_component [] = none
scan_component (c ∷ cs) = if c == b'*' then some (0, cs) else scan_number (c ∷ cs)

abbrev at_end : List ℕ → Bool
at_end [] = true
at_end (_ ∷ _) = false

pub parse_components : String → List ℕ → Option VersionSpec
unfolding scan_component scan_literal
parse_components sign text = do
  (major, s₁) ← scan_component text
  s₂ ← scan_literal (codes ".") s₁
  (minor, s₃) ← scan_component s₂
  s₄ ← scan_literal (codes ".") s₃
  (patch, s₅) ← scan_component s₄
  if at_end s₅ then some (major_minor_patch sign major minor patch) else none

-- The text behind a literal prefix.
cut_prefix : String → String → Option String
cut_prefix String.[] text = some text
cut_prefix (String.◌∷◌ p ps) String.[] = none
cut_prefix (String.◌∷◌ p ps) (String.◌∷◌ c cs) = if code p == code c then cut_prefix ps cs else none

with_sign : String → String → Option VersionSpec
unfolding cut_prefix
with_sign flag sign = do rest ← cut_prefix sign flag; parse_components sign (codes rest)

with_raw_sign : String → String → Option VersionSpec
unfolding cut_prefix one_line
with_raw_sign flag sign = do
  rest ← cut_prefix sign flag
  if one_line (codes rest) then some (raw sign rest) else none

-- The two patterns in turn, each with the alternatives of its sign in their order.
unfoldable pub parse_version_flag : String → Option VersionSpec
unfolding with_sign with_raw_sign
parse_version_flag flag = or_else (with_sign flag ">") (
    or_else (with_sign flag "<") (
      or_else (with_sign flag "!=") (
        or_else (with_sign flag "~=")
          (or_else (with_raw_sign flag "==") (with_raw_sign flag "!=")))))

-- `%v.%v.%v`
abbrev pub dotted : ℕ → ℕ → ℕ → String
dotted major minor patch =
    String.◌++◌ (itoa major)
      (String.◌++◌ "." (String.◌++◌ (itoa minor) (String.◌++◌ "." (itoa patch))))

unfoldable pub to_string : VersionSpec → String
to_string (major_minor_patch sign major minor patch) = String.◌++◌ sign (dotted major minor patch)
to_string (raw sign text) = String.◌++◌ sign text
