-- ===== src/Rolling/Compat.antt =====
-- rolling.go: `tryDetectCompatibilityIssues` and its checks. A message is the list of its lines, as
-- values; the order of the entries of the map is the order of the list.
use ydbops.Base.{
  ℕ, String, Option, none, some, List, [], ◌∷◌, ◌++◌, ltb, ◌||◌, if◌then◌else◌, num_comparable,
}
use ydbops.Base.Int.{ℤ, pos, negsuc, ◌-ℤ◌, ltb_ℤ, max_int, wrap64}
use ydbops.Collections.{contains, get, put, or_empty}
use ydbops.Cluster.{Node}
use ydbops.Versions.{Version, parse_major_minor_patch_from_version}
use ydbops.Rolling.State.{MajorToMinors, State}

-- A line of the message, with the numbers that it names.
pub data Issue : Type 0 where
  minors_too_far : (major : ℕ) (high low : ℤ) → Issue
  incompatible_major : (cur_major prev_major : ℕ) (prev_low : ℤ) → Issue

unfoldable pub low_high_from : ℤ → ℤ → List ℕ → ℤ × ℤ
low_high_from low high [] = (low, high)
low_high_from low high (minor ∷ minors) =
    low_high_from (if ltb_ℤ (pos minor) low then pos minor else low)
      (if ltb_ℤ high (pos minor) then pos minor else high) minors

-- From `math.MaxInt` and `math.MinInt`.
unfoldable pub find_low_high : List ℕ → ℤ × ℤ
unfolding low_high_from
find_low_high minors = low_high_from (pos max_int) (negsuc max_int) minors

abbrev pub too_far : ℕ → ℤ × ℤ → List Issue
too_far major (low, high) =
    if ltb_ℤ (pos 1) (wrap64 (high -ℤ low)) then minors_too_far major high low ∷ [] else []

unfoldable pub check_within_one_major : ℕ → List ℕ → List Issue
unfolding find_low_high
check_within_one_major major minors = too_far major (find_low_high minors)

abbrev pub differ : ℕ → ℕ → ℤ × ℤ → List Issue
differ cur_major prev_major (low, high) =
    if ltb_ℤ low high || ltb_ℤ high low
    then incompatible_major cur_major prev_major low ∷ []
    else []

unfoldable pub check_with_previous_majors : ℕ → MajorToMinors → List Issue
unfolding find_low_high
check_with_previous_majors cur_major [] = []
check_with_previous_majors cur_major ((prev_major, prev_minors) ∷ known_versions) =
    let rest = check_with_previous_majors cur_major known_versions in
    if ltb prev_major cur_major
    then differ cur_major prev_major (find_low_high prev_minors) ++ rest
    else rest

-- The loop over the known versions.
unfoldable pub check_majors : MajorToMinors → MajorToMinors → List Issue
check_majors known_versions [] = []
check_majors known_versions ((major, minors) ∷ rest) =
    (check_within_one_major major minors ++ check_with_previous_majors major known_versions)
    ++ check_majors known_versions rest

-- `knownVersions[major][minor] = true`
abbrev pub add_minor : List ℕ → ℕ → List ℕ
add_minor minors minor = if contains minors minor then minors else minors ++ minor ∷ []

abbrev pub remember_parsed : MajorToMinors → Option Version → MajorToMinors
remember_parsed known_versions none = known_versions
remember_parsed known_versions (some (major, minor, patch)) =
    put known_versions major (add_minor (or_empty (get known_versions major)) minor)

unfoldable pub remember_version : MajorToMinors → String → MajorToMinors
remember_version known_versions version =
    remember_parsed known_versions (parse_major_minor_patch_from_version version)

unfoldable pub remember_versions : MajorToMinors → List Node → MajorToMinors
remember_versions known_versions [] = known_versions
remember_versions known_versions (node ∷ nodes) =
    remember_versions (remember_version known_versions node.version) nodes

-- How the check ends.
pub data Compatibility {ℓ} (Error : Type ℓ) : Type ℓ where
  compatible : Compatibility Error
  not_fetched : Error → Compatibility Error
  incompatible : List Issue → Compatibility Error

abbrev pub of_issues {ℓ} : {Error : Type ℓ} → List Issue → Compatibility Error
of_issues [] = compatible
of_issues (issue ∷ issues) = incompatible (issue ∷ issues)

-- The nodes, or the error of `Nodes`.
pub data Fetched {ℓ} (Error : Type ℓ) : Type ℓ where
  nodes_are : List Node → Fetched Error
  failed : Error → Fetched Error

unfoldable pub try_detect_compatibility_issues {ℓ} :
    {Error : Type ℓ} → State → Fetched Error → State × Compatibility Error
unfolding remember_versions check_majors
try_detect_compatibility_issues r (failed err) = (r, not_fetched err)
try_detect_compatibility_issues r (nodes_are nodes) =
    let known = remember_versions r.known_versions nodes in
    (record r { known_versions = known }, of_issues (check_majors known known))
