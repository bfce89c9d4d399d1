-- ===== src/Rolling/Exact.antt =====
-- `tryDetectCompatibilityIssues` of rolling.go: for which versions it reports none.
use ydbops.Base.{
  ℕ, ◌<◌, ◌≡◌, refl, ◌↔◌, ◌⊎◌, inl, inr, false, List, [], ◌∷◌, ◌++◌, ltb, ltb→lt, arith, All, Memᴰ,
  Bool-cases,
}
use ydbops.Cluster.{Node}
use ydbops.Rolling.State.{MajorToMinors, State}
use ydbops.Rolling.Compat.{
  Issue, differ, find_low_high, check_within_one_major, check_with_previous_majors, check_majors,
  Compatibility, compatible, of_issues, nodes_are, try_detect_compatibility_issues,
  remember_versions,
}
use ydbops.Rolling.Seen.{IsSeen, remember_versions-IsSeen}
use ydbops.Rolling.Recorded.{IsRecorded, IsRun, remember_versions_iff}
use ydbops.Rolling.Range.{AreMinors, AreClose, bounds, differ_iff, check_within_one_major_iff}

abbrev pub AreSame : List ℕ → Type 0
AreSame minors = (a b : ℕ) → Memᴰ a minors → Memᴰ b minors → a ≡ b

append-empty : {A : Type 0} (xs ys : List A) → (xs ++ ys ≡ []) ↔ ((xs ≡ []) × (ys ≡ []))
append-empty [] ys = (λ e. (refl, e), λ (_, e). e)
append-empty (x ∷ xs) ys = (λ e. cc, λ (e, _). cc)

differ-AreSame :
    (cur_major prev_major : ℕ) (minors : List ℕ)
    → AreMinors minors
    → (differ cur_major prev_major (find_low_high minors) ≡ []) ↔ AreSame minors
differ-AreSame cur_major prev_major minors h =
    let b = bounds minors h in
    let (to, from) = differ_iff cur_major prev_major b.low b.high in
    rw b.found (
      (λ e x y x_in y_in.
          omega (arith, to e, b.le_high x_in, b.low_le x_in, b.le_high y_in, b.low_le y_in)),
      (λ same. from (same b.low b.high b.low_Memᴰ b.high_Memᴰ)),
    )

not_less : (a b : ℕ) → ltb a b ≡ false → ¬ (a < b)
not_less a b h = ground arith

-- Every older major has one minor only.
abbrev pub OlderAreSame : ℕ → MajorToMinors → Type 0
OlderAreSame cur_major known_versions =
    All (λ (prev_major, prev_minors). prev_major < cur_major → AreSame prev_minors) known_versions

check_with_previous_majors_iff :
    (cur_major : ℕ) (known_versions : MajorToMinors)
    → All IsSeen known_versions
    → (check_with_previous_majors cur_major known_versions ≡ [])
      ↔ OlderAreSame cur_major known_versions
unfolding check_with_previous_majors
check_with_previous_majors_iff cur_major [] h = (λ e. tt, λ k. refl)
check_with_previous_majors_iff cur_major ((prev_major, minors) ∷ known_versions) (seen, h) =
    let (to, from) = check_with_previous_majors_iff cur_major known_versions h in
    elim (Bool-cases (ltb prev_major cur_major)) [
      | inl older ↦ rw older (
          let (split, join) =
            append-empty (differ cur_major prev_major (find_low_high minors))
              (check_with_previous_majors cur_major known_versions) in
          let (same, line) = differ-AreSame cur_major prev_major minors seen in
          (
            (λ e. ((λ _. same (split e).0), to (split e).1)),
            (λ (k, l). join (line (k (ltb→lt prev_major cur_major older)), from l)),
          ))
      | inr newer ↦ rw newer (
        (λ e. ((λ less. absurd (not_less prev_major cur_major newer less)), to e)),
        (λ (_, l). from l),
      )
    ]

-- The minors of each major differ by 1 at most, and each major with a newer one has one minor only.
abbrev pub AreCompatible : MajorToMinors → MajorToMinors → Type 0
AreCompatible known_versions rest =
    All (λ (major, minors). AreClose minors × OlderAreSame major known_versions) rest

check_majors_iff :
    (known_versions rest : MajorToMinors)
    → All IsSeen known_versions
    → All IsSeen rest
    → (check_majors known_versions rest ≡ []) ↔ AreCompatible known_versions rest
unfolding check_majors
check_majors_iff known_versions [] h k = (λ e. tt, λ l. refl)
check_majors_iff known_versions ((major, minors) ∷ rest) h (seen, k) =
    let (to, from) = check_majors_iff known_versions rest h k in
    let (close, within) = check_within_one_major_iff major minors seen in
    let (older, previous) = check_with_previous_majors_iff major known_versions h in
    let (split, join) =
      append-empty
        (check_within_one_major major minors ++ check_with_previous_majors major known_versions)
        (check_majors known_versions rest) in
    let (split', join') =
      append-empty (check_within_one_major major minors)
        (check_with_previous_majors major known_versions) in
    (
      (λ e. let (a, b) = split e in let (c, d) = split' a in ((close c, older d), to b)),
      (λ ((c, d), b). join (join' (within c, previous d), from b)),
    )

compatible_iff :
    {Error : Type 0} (issues : List Issue)
    → (◌≡◌ {A = Compatibility Error} (of_issues issues) compatible) ↔ (issues ≡ [])
compatible_iff [] = (λ e. refl, λ e. refl)
compatible_iff (issue ∷ issues) = (λ e. cc, λ e. cc)

-- Where the versions known before have for each major one minor or more, which fit an `int` (at the
-- start there are none), the check of the nodes finds no issue exactly if the minors of each major,
-- those of the nodes included, differ by 1 at most and each major with a newer one has one minor
-- only. The majors themselves may be any number apart. The versions known after the check are just
-- those known before and those of the nodes whose version parses.
pub try_detect_compatibility_issues_iff :
    {Error : Type 0} (r : State) (nodes : List Node)
    → All IsSeen r.known_versions
    → let (r', verdict) = try_detect_compatibility_issues {Error = Error} r (nodes_are nodes) in
      ((verdict ≡ compatible) ↔ AreCompatible r'.known_versions r'.known_versions)
      × ((major minor : ℕ)
          → IsRecorded r'.known_versions major minor
            ↔ (IsRecorded r.known_versions major minor ⊎ IsRun nodes major minor))
unfolding try_detect_compatibility_issues
try_detect_compatibility_issues_iff {Error} r nodes before =
    let seen = remember_versions-IsSeen r.known_versions nodes before in
    let known = remember_versions r.known_versions nodes in
    let (to, from) = check_majors_iff known known seen seen in
    let (none_found, found) = compatible_iff {Error = Error} (check_majors known known) in
    (
      ((λ e. to (none_found e)), (λ k. found (from k))),
      remember_versions_iff r.known_versions nodes,
    )
