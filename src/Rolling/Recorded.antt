-- ===== src/Rolling/Recorded.antt =====
-- `tryDetectCompatibilityIssues` of rolling.go: the versions that it remembers are those of the nodes and
-- those that it knew before.
use ydbops.Base.{
  ℕ, ◌≡◌, refl, sym, ◌↔◌, ◌⊎◌, inl, inr, Option, none, some, List, [], ◌∷◌, Memᴰ, Bool-cases, ◌==◌,
  num_comparable, Memᴰ-append_cases, Memᴰ-append_left, Memᴰ-append_right, Memᴰ-cons_cases, eq_of_==,
  ==_refl,
}
use ydbops.Collections.{get, or_empty, contains}
use ydbops.Collections.Maps.{get-put}
use ydbops.Collections.Membership.{contains-Memᴰ}
use ydbops.Cluster.{Node}
use ydbops.Versions.{Version, parse_major_minor_patch_from_version}
use ydbops.Rolling.State.{MajorToMinors}
use ydbops.Rolling.Compat.{add_minor, remember_parsed, remember_version, remember_versions}

-- The minor is remembered for the major.
abbrev pub IsRecorded : MajorToMinors → ℕ → ℕ → Type 0
IsRecorded known_versions major minor = Memᴰ minor (or_empty (get known_versions major))

-- Some node runs a version with these numbers.
abbrev pub IsRun : List Node → ℕ → ℕ → Type 0
IsRun nodes major minor =
    (node : Node) × Memᴰ node nodes
    × (patch : ℕ) × (parse_major_minor_patch_from_version node.version ≡ some (major, minor, patch))

of_add_minor : (minors : List ℕ) (m n : ℕ) → Memᴰ n (add_minor minors m) → Memᴰ n minors ⊎ (m ≡ n)
of_add_minor minors m n h = elim (Bool-cases (contains minors m)) [
  | inl had ↦ inl (rw had at h)
  | inr lacked ↦ elim (Memᴰ-append_cases minors (rw lacked at h)) [
    | inl old ↦ inl old
    | inr new ↦ elim (Memᴰ-cons_cases new) [
      | inl this ↦ inr (sym this)
      | inr nothing ↦ elim nothing [ ]
    ]
  ]
]

kept_by_add_minor : (minors : List ℕ) (m n : ℕ) → Memᴰ n minors → Memᴰ n (add_minor minors m)
kept_by_add_minor minors m n h = elim (Bool-cases (contains minors m)) [
  | inl had ↦ rw had h
  | inr lacked ↦ rw lacked (Memᴰ-append_left (m ∷ []) h)
]

added_by_add_minor : (minors : List ℕ) (m : ℕ) → Memᴰ m (add_minor minors m)
added_by_add_minor minors m = elim (Bool-cases (contains minors m)) [
  | inl had ↦ rw had (contains-Memᴰ minors had)
  | inr lacked ↦ rw lacked (Memᴰ-append_right minors (Memᴰ.head refl))
]

module _ (known : MajorToMinors) (major minor : ℕ) where
  of_remember_parsed :
      (version : Option Version)
      → IsRecorded (remember_parsed known version) major minor
      → IsRecorded known major minor ⊎ ((patch : ℕ) × (version ≡ some (major, minor, patch)))
  of_remember_parsed none h = inl h
  of_remember_parsed (some (j, m, patch)) h = elim (Bool-cases (j == major)) [
    | inl same ↦
        let e = eq_of_== j major same in
        elim (of_add_minor (or_empty (get known j)) m minor (rw (get-put, same) at h)) [
          | inl old ↦ inl (rw e at old)
          | inr this ↦ inr (patch, λ i. some (e i, this i, patch))
        ]
    | inr other ↦ inl (rw (get-put, other) at h)
  ]

  kept_by_remember_parsed :
      (version : Option Version)
      → IsRecorded known major minor
      → IsRecorded (remember_parsed known version) major minor
  kept_by_remember_parsed none h = h
  kept_by_remember_parsed (some (j, m, patch)) h = rw get-put (elim (Bool-cases (j == major)) [
    | inl same ↦
        rw same (kept_by_add_minor (or_empty (get known j)) m minor (rw (eq_of_== j major same) h))
    | inr other ↦ rw other h
  ])

  added_by_remember_parsed :
      (patch : ℕ) → IsRecorded (remember_parsed known (some (major, minor, patch))) major minor
  added_by_remember_parsed patch =
      rw (get-put, ==_refl major) (added_by_add_minor (or_empty (get known major)) minor)

of_remember_versions :
    (known : MajorToMinors) (nodes : List Node) (major minor : ℕ)
    → IsRecorded (remember_versions known nodes) major minor
    → IsRecorded known major minor ⊎ IsRun nodes major minor
unfolding remember_versions remember_version
of_remember_versions known [] major minor h = inl h
of_remember_versions known (x ∷ nodes) major minor h =
    elim (of_remember_versions (remember_version known x.version) nodes major minor h) [
      | inl before ↦
          elim (of_remember_parsed known major minor
            (parse_major_minor_patch_from_version x.version) before) [
              | inl old ↦ inl old
              | inr (patch, e) ↦ inr (x, Memᴰ.head refl, patch, e)
            ]
      | inr (node, inside, patch, e) ↦ inr (node, Memᴰ.tail inside, patch, e)
    ]

kept_by_remember_versions :
    (known : MajorToMinors) (nodes : List Node) (major minor : ℕ)
    → IsRecorded known major minor
    → IsRecorded (remember_versions known nodes) major minor
unfolding remember_versions remember_version
kept_by_remember_versions known [] major minor h = h
kept_by_remember_versions known (x ∷ nodes) major minor h =
    kept_by_remember_versions (remember_version known x.version) nodes major minor
      (kept_by_remember_parsed known major minor (parse_major_minor_patch_from_version x.version) h)

added_by_remember_versions :
    {node : Node} (known : MajorToMinors) (major minor patch : ℕ) {nodes : List Node}
    → Memᴰ node nodes
    → parse_major_minor_patch_from_version node.version ≡ some (major, minor, patch)
    → IsRecorded (remember_versions known nodes) major minor
unfolding remember_versions remember_version
added_by_remember_versions {node} known major minor patch (Memᴰ.head {x} {xs} same) e =
    kept_by_remember_versions (remember_version known x.version) xs major minor
      (rw (← same, e) (added_by_remember_parsed known major minor patch))
added_by_remember_versions known major minor patch (Memᴰ.tail {x} {xs} inside) e =
    added_by_remember_versions (remember_version known x.version) major minor patch inside e

-- Just the versions that were known before and those of the nodes are remembered.
pub remember_versions_iff :
    (known : MajorToMinors) (nodes : List Node) (major minor : ℕ)
    → IsRecorded (remember_versions known nodes) major minor
      ↔ (IsRecorded known major minor ⊎ IsRun nodes major minor)
remember_versions_iff known nodes major minor = (
  of_remember_versions known nodes major minor,
  (λ h. elim h [
    | inl old ↦ kept_by_remember_versions known nodes major minor old
    | inr (node, inside, patch, e) ↦ added_by_remember_versions known major minor patch inside e
  ]),
)
