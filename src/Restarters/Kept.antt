-- ===== src/Restarters/Kept.antt =====
-- What `ExcludeByCommonFields` of primitives.go keeps, described without its loop and its guards.
use text.Mathlib.TextEquality.{eq_iff}
use ydbops.Base.{
  ◌<◌, ◌≡◌, refl, ◌≢◌, ◌↔◌, ◌⊎◌, true, Option, none, some, List, [], ◌∷◌, Memᴰ, arith,
  num_comparable, text_comparable,
}
use ydbops.Base.Text.{itoa}
use ydbops.Collections.{filter_by}
use ydbops.Collections.Membership.{
  contains-eq-false, Memᴰ-contains, Memᴰ-filter_by, of_Memᴰ-filter_by,
}
use ydbops.Cluster.{Node, as_time}
use ydbops.Versions.{VersionSpec, satisfies}
use ydbops.Restarters.Primitives.{
  StartedTime, FilterNodeParams, satisfies_starting_time, satisfies_version, keeps, common_loop,
  exclude_by_common_fields,
}

-- The node's start lies on the side of the timestamp that the direction asks for, and is not the
-- zero time.
abbrev pub StartMatches : Node → Option StartedTime → Type 0
StartMatches node none = Unit
StartMatches node (some started) =
    (as_time node.start_time ≢ 0)
    × (((started.direction ≡ b'<') × (as_time node.start_time < started.timestamp))
        ⊎ ((started.direction ≢ b'<') × (started.timestamp < as_time node.start_time)))

abbrev pub VersionMatches : Node → Option VersionSpec → Type 0
VersionMatches node none = Unit
VersionMatches node (some version) =
    (node.version ≢ "") × (satisfies version node.version ≡ some true)

pub record Kept (spec : FilterNodeParams) (node : Node) : Type 0 where
  pub id_allowed : ¬ Memᴰ (itoa node.node_id) spec.exclude_hosts
  pub host_allowed : ¬ Memᴰ node.host spec.exclude_hosts
  pub start : StartMatches node spec.started_time
  pub version : VersionMatches node spec.version

pub satisfies_starting_time_iff :
    (node : Node) (started : Option StartedTime)
    → (satisfies_starting_time node started ≡ true) ↔ StartMatches node started
unfolding satisfies_starting_time
satisfies_starting_time_iff node none = ((λ _. tt), (λ _. refl))
satisfies_starting_time_iff node (some started) = (ground arith, ground arith)

satisfies_version_iff :
    (node : Node) (version : Option VersionSpec)
    → (satisfies_version node version ≡ true) ↔ VersionMatches node version
unfolding satisfies_version
satisfies_version_iff node none = ((λ _. tt), (λ _. refl))
satisfies_version_iff node (some version) =
    (ground (arith, eq_iff node.version ""), ground (arith, eq_iff node.version ""))

pub keeps_iff : (spec : FilterNodeParams) (node : Node) → (keeps spec node ≡ true) ↔ Kept spec node
unfolding keeps
keeps_iff spec node = (
  λ h. record {
    id_allowed = λ m. ground (arith, Memᴰ-contains m);
    host_allowed = λ m. ground (arith, Memᴰ-contains m);
    start = (satisfies_starting_time_iff node spec.started_time).0 (ground arith);
    version = (satisfies_version_iff node spec.version).0 (ground arith);
  },
  λ k. rw (
    contains-eq-false spec.exclude_hosts k.id_allowed,
    contains-eq-false spec.exclude_hosts k.host_allowed,
    (satisfies_starting_time_iff node spec.started_time).1 k.start,
    (satisfies_version_iff node spec.version).1 k.version,
  ),
)

common_loop-eq-filter_by :
    (spec : FilterNodeParams) (nodes : List Node)
    → common_loop spec nodes ≡ filter_by nodes (keeps spec)
unfolding common_loop filter_by
common_loop-eq-filter_by spec [] = refl
common_loop-eq-filter_by spec (node ∷ nodes) = rw (common_loop-eq-filter_by spec nodes)

pub exclude_by_common_fields-eq :
    (nodes : List Node) (spec : FilterNodeParams)
    → exclude_by_common_fields nodes spec ≡ filter_by nodes (keeps spec)
unfolding exclude_by_common_fields
exclude_by_common_fields-eq nodes spec = common_loop-eq-filter_by spec nodes

-- A node passes the common exclusion exactly if it was there before and is kept.
pub exclude_by_common_fields_iff :
    (spec : FilterNodeParams) (nodes : List Node) (node : Node)
    → Memᴰ node (exclude_by_common_fields nodes spec) ↔ (Memᴰ node nodes × Kept spec node)
exclude_by_common_fields_iff spec nodes node = rw exclude_by_common_fields-eq (
  (λ m.
      let (inside, h) = of_Memᴰ-filter_by (keeps spec) nodes m in
      (inside, (keeps_iff spec node).0 h)),
  (λ p. Memᴰ-filter_by (keeps spec) p.0 ((keeps_iff spec node).1 p.1)),
)
