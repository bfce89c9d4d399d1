-- ===== src/Versions/Tests.antt =====
-- Runs of the version matchers at inputs that the source's comments name.
use ydbops.Base.{◌≡◌, ◌≢◌, ◌↔◌, refl, some, none, true, false, arith}
use ydbops.Versions.{
  major_minor_patch, raw, parse_major_minor_patch_from_version, parse_components,
  parse_version_flag, satisfies, to_string, Version, compare_major_minor_patch,
}
use ydbops.Versions.RoundTrip.{different, sign_text, parse_version_flag-to_string}
use ydbops.Versions.Compare.{Before, compare_decides_order}

parse_version_tests :
    (parse_major_minor_patch_from_version "ydb-stable-24-1-12-hotfix" ≡ some (24, 1, 12))
    × (parse_major_minor_patch_from_version "24.1.2-rc" ≡ some (24, 1, 2))
    × (parse_major_minor_patch_from_version "main.24.1" ≡ none)
unfolding parse_major_minor_patch_from_version
parse_version_tests = (refl, refl, refl)

parse_flag_tests :
    (parse_version_flag "~=24.1.2" ≡ some (major_minor_patch "~=" 24 1 2))
    × (parse_version_flag ">24.*.*" ≡ some (major_minor_patch ">" 24 0 0))
    × (parse_version_flag "!=24.1.2-fix" ≡ some (raw "!=" "24.1.2-fix"))
    × (parse_version_flag "=24.1.2" ≡ none)
unfolding parse_version_flag parse_components
parse_flag_tests = (refl, refl, refl, refl)

satisfies_tests :
    (satisfies (major_minor_patch "<" 24 1 2) "24.1.1" ≡ some true)
    × (satisfies (major_minor_patch "<" 24 1 2) "trunk" ≡ none)
    × (satisfies (raw "==" "trunk") "trunk" ≡ some true)
    × (satisfies (major_minor_patch "~=" 24 1 2) "24.1.2" ≡ some false)
unfolding satisfies parse_major_minor_patch_from_version
satisfies_tests = (refl, refl, refl, refl)

parse_version_flag-to_string_example :
    parse_version_flag (to_string (major_minor_patch (sign_text different) 24 1 2))
    ≡ some (major_minor_patch (sign_text different) 24 1 2)
parse_version_flag-to_string_example =
    parse_version_flag-to_string 24 1 2 (omega arith, omega arith, omega arith) different

compare_decides_order_example :
    ((compare_major_minor_patch "<" (24, 1, 9) (24, 2, 0) ≡ true) ↔ Before (24, 1, 9) (24, 2, 0))
    × ((compare_major_minor_patch ">" (24, 1, 9) (24, 2, 0) ≡ true) ↔ Before (24, 2, 0) (24, 1, 9))
    × ((compare_major_minor_patch "==" (24, 1, 9) (24, 2, 0) ≡ true)
        ↔ ◌≡◌ {A = Version} (24, 1, 9) (24, 2, 0))
    × ((compare_major_minor_patch "!=" (24, 1, 9) (24, 2, 0) ≡ true)
        ↔ ◌≢◌ {A = Version} (24, 1, 9) (24, 2, 0))
compare_decides_order_example = compare_decides_order (24, 1, 9) (24, 2, 0)
