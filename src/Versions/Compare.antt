-- ===== src/Versions/Compare.antt =====
-- The signs of a version specification against the lexicographic order of versions.
use ydbops.Base.{ℕ, ◌<◌, ◌≡◌, ◌≢◌, ◌↔◌, ◌⊎◌, String, true, some, arith}
use ydbops.Versions.{Version, compare_major_minor_patch, major_minor_patch, satisfies}

-- Version `v` comes before version `u`.
abbrev pub Before : Version → Version → Type 0
Before (a, b, c) (a', b', c') = (a < a') ⊎ ((a ≡ a') × ((b < b') ⊎ ((b ≡ b') × (c < c'))))

-- The four signs that a comparison knows decide the lexicographic order of the node's version and
-- the version given: `<` before, `>` after, `==` equal, `!=` different.
pub compare_decides_order :
    (v u : Version)
    → ((compare_major_minor_patch "<" v u ≡ true) ↔ Before v u)
      × ((compare_major_minor_patch ">" v u ≡ true) ↔ Before u v)
      × ((compare_major_minor_patch "==" v u ≡ true) ↔ (v ≡ u))
      × ((compare_major_minor_patch "!=" v u ≡ true) ↔ (v ≢ u))
unfolding compare_major_minor_patch
compare_decides_order (a, b, c) (a', b', c') = (
  (ground arith, ground arith),
  (ground arith, ground arith),
  (ground arith, ground arith),
  (ground arith, ground arith),
)

-- No version of a node satisfies a specification with the sign `~=`, whatever its numbers.
compatible_sign_never_satisfied :
    (major minor patch : ℕ) (version : String)
    → satisfies (major_minor_patch "~=" major minor patch) version ≢ some true
unfolding satisfies
compatible_sign_never_satisfied major minor patch version = ground arith
