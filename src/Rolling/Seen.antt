-- ===== src/Rolling/Seen.antt =====
-- `tryDetectCompatibilityIssues` of rolling.go: the versions that it has seen fit an `int`, and each
-- major has a minor.
use mathlib.Core.Path.{subst}
use ydbops.Base.{
  ℕ, min, ◌≤◌, ◌≡◌, refl, inl, inr, Bool, true, false, Option, none, some, String, List, [], ◌∷◌,
  All, All-append, Memᴰ, Memᴰ-append_right, arith, Bool-cases, if◌then◌else◌, ◌==◌, num_comparable,
}
use ydbops.Base.Int.{max_int}
use ydbops.Base.Text.{codes, starts_with_digit, scan_digits}
use ydbops.Collections.{contains, get, put, or_empty}
use ydbops.Collections.Membership.{contains-Memᴰ}
use ydbops.Cluster.{Node}
use ydbops.Versions.{
  Version, ◌>>=◌, scan_number, scan_literal, one_line, try_parse_with, or_else,
  parse_major_minor_patch_from_version,
}
use ydbops.Rolling.State.{MajorToMinors}
use ydbops.Rolling.Compat.{add_minor, remember_parsed, remember_version, remember_versions}
use ydbops.Rolling.Range.{AreMinors}

abbrev pub IsSeen : ℕ × List ℕ → Type 0
IsSeen (major, minors) = AreMinors minors

-- What holds of the result, if there is one.
abbrev pub Sat {ℓ κ} : {A : Type ℓ} → (A → Type κ) → Option A → Type κ
Sat P none = Unit
Sat P (some a) = P a

Sat-bind {ℓ κ ι} :
    {A : Type ℓ} {B : Type κ} (P : B → Type ι) (o : Option A) (f : A → Option B)
    → ((a : A) → o ≡ some a → Sat P (f a))
    → Sat P (o >>= f)
Sat-bind P none f h = tt
Sat-bind P (some a) f h = h a refl

Sat-if {ℓ κ} :
    {A : Type ℓ} (P : A → Type κ) (b : Bool) (a : A) → P a → Sat P (if b then some a else none)
Sat-if P true a p = p
Sat-if P false a p = tt

Sat-or_else {ℓ κ} :
    {A : Type ℓ} (P : A → Type κ) (o o' : Option A) → Sat P o → Sat P o' → Sat P (or_else o o')
Sat-or_else P none o' h k = k
Sat-or_else P (some a) o' h k = h

some-injective {ℓ} : {A : Type ℓ} {a b : A} → some a ≡ some b → a ≡ b
some-injective e = cc

of_Sat {ℓ κ} : {A : Type ℓ} (P : A → Type κ) (o : Option A) {a : A} → Sat P o → o ≡ some a → P a
of_Sat P none h e = cc
of_Sat P (some a) h e = subst P (some-injective e) h

abbrev FirstFits : ℕ × List ℕ → Type 0
FirstFits (n, rest) = n ≤ max_int

scan_number-FirstFits : (cs : List ℕ) → Sat FirstFits (scan_number cs)
unfolding scan_number
scan_number-FirstFits cs =
    Sat-if FirstFits (starts_with_digit cs) (min (scan_digits 0 cs).0 max_int, (scan_digits 0 cs).1)
      (omega arith)

-- The minor of a version fits an `int`.
abbrev MinorFits : Version → Type 0
MinorFits (major, minor, patch) = minor ≤ max_int

try_parse_with-MinorFits :
    (literal separator version : List ℕ) → Sat MinorFits (try_parse_with literal separator version)
unfolding try_parse_with
try_parse_with-MinorFits literal separator version =
    Sat-bind MinorFits (scan_literal literal version) _ (λ s₀ _.
      Sat-bind MinorFits (scan_number s₀) _ (λ major _.
        Sat-bind MinorFits (scan_literal separator major.1) _ (λ s₂ _.
          Sat-bind MinorFits (scan_number s₂) _ (λ minor number.
            Sat-bind MinorFits (scan_literal separator minor.1) _ (λ s₄ _.
              Sat-bind MinorFits (scan_number s₄) _ (λ patch _.
                Sat-if MinorFits (one_line patch.1) (major.0, minor.0, patch.0)
                  (of_Sat FirstFits (scan_number s₂) (scan_number-FirstFits s₂) number)))))))

parse-MinorFits : (version : String) → Sat MinorFits (parse_major_minor_patch_from_version version)
unfolding parse_major_minor_patch_from_version
parse-MinorFits version =
    Sat-or_else MinorFits (try_parse_with (codes "ydb-stable-") (codes "-") (codes version))
      (try_parse_with [] (codes ".") (codes version))
      (try_parse_with-MinorFits (codes "ydb-stable-") (codes "-") (codes version))
      (try_parse_with-MinorFits [] (codes ".") (codes version))

put-IsSeen :
    (known : MajorToMinors) (major : ℕ) (minors : List ℕ)
    → All IsSeen known
    → AreMinors minors
    → All IsSeen (put known major minors)
unfolding put
put-IsSeen [] major minors h seen = (seen, tt)
put-IsSeen ((j, others) ∷ known) major minors (k, h) seen = elim (Bool-cases (j == major)) [
  | inl same ↦ rw same (seen, h)
  | inr other ↦ rw other (k, put-IsSeen known major minors h seen)
]

-- The minors that are known for a major, none where it is new.
known_minors_fit :
    (known : MajorToMinors) (major : ℕ)
    → All IsSeen known
    → All (λ m. m ≤ max_int) (or_empty (get known major))
unfolding get
known_minors_fit [] major h = tt
known_minors_fit ((j, minors) ∷ known) major (seen, h) = elim (Bool-cases (j == major)) [
  | inl same ↦ rw same seen.2
  | inr other ↦ rw other (known_minors_fit known major h)
]

add_minor-AreMinors :
    (minors : List ℕ) (minor : ℕ)
    → All (λ m. m ≤ max_int) minors
    → minor ≤ max_int
    → AreMinors (add_minor minors minor)
add_minor-AreMinors minors minor h fits = elim (Bool-cases (contains minors minor)) [
  | inl old ↦ rw old (minor, contains-Memᴰ minors old, h)
  | inr new ↦ rw new (
    minor,
    Memᴰ-append_right minors (Memᴰ.head refl),
    All-append (λ m. m ≤ max_int) minors (minor ∷ []) h (fits, tt),
  )
]

remember_parsed-IsSeen :
    (known : MajorToMinors) (parsed : Option Version)
    → All IsSeen known
    → Sat MinorFits parsed
    → All IsSeen (remember_parsed known parsed)
remember_parsed-IsSeen known none h fits = h
remember_parsed-IsSeen known (some (major, minor, patch)) h fits =
    put-IsSeen known major (add_minor (or_empty (get known major)) minor) h
      (add_minor-AreMinors (or_empty (get known major)) minor (known_minors_fit known major h) fits)

pub remember_versions-IsSeen :
    (known : MajorToMinors) (nodes : List Node)
    → All IsSeen known
    → All IsSeen (remember_versions known nodes)
unfolding remember_versions remember_version
remember_versions-IsSeen known [] h = h
remember_versions-IsSeen known (node ∷ nodes) h =
    remember_versions-IsSeen (remember_version known node.version) nodes (
      remember_parsed-IsSeen known (parse_major_minor_patch_from_version node.version) h
        (parse-MinorFits node.version))
