-- ===== src/Options/Valid.antt =====
-- What `Validate` of targeting.go and of pkg/rolling/options.go guarantees to the code behind it.
use mathlib.Core.Path.{subst}
use ydbops.Base.{
  ◌≡◌, refl, sym, ap, ◌∙◌, Bool, true, false, String, Option, List, not, ◌&&◌, ◌==◌,
  text_comparable,
}
use ydbops.Collections.{contains}
use ydbops.Cluster.{Instant}
use ydbops.Hosts.{get_node_ids, get_node_fqdns, parse_ssh_args}
use ydbops.Restarters.Primitives.{is_empty}
use ydbops.Rolling.Actions.{is_negative}
use ydbops.Rolling.Start.{both_failed}
use ydbops.Options.{
  TargetingOptions, OptionError, Checked, valid, invalid, ◌>>=◌, reject_if, parse_started,
  parse_version, validate_targeting, availability_modes, unknown_availability_mode,
  no_k8s_namespace, negative_max_static_node_id, tenant_not_specified, hosts_not_parsed,
  negative_query_interval, negative_retry_number, negative_restart_duration,
  negative_tenants_inflight,
}
use ydbops.Options.Restart.{RestartOptions, validate}

bind-valid {ℓ κ} :
    {A : Type ℓ} {B : Type κ} (o : Checked A) (f : A → Checked B) {b : B}
    → o >>= f ≡ valid b
    → (a : A) × (o ≡ valid a) × (f a ≡ valid b)
bind-valid (valid a) f e = (a, refl, e)
bind-valid (invalid err) f e = cc

valid-injective {ℓ} : {A : Type ℓ} {a b : A} → valid a ≡ valid b → a ≡ b
valid-injective e = cc

reject_if-valid {ℓ} :
    {A : Type ℓ} (b : Bool) (err : OptionError) (a : A) {a' : A}
    → reject_if b err a ≡ valid a'
    → (b ≡ false) × (a ≡ a')
reject_if-valid true err a e = cc
reject_if-valid false err a e = (refl, valid-injective e)

-- What a list of hosts needs for the code behind the options.
abbrev pub HostsParse : (String → Bool) → List String → Type 0
HostsParse url_parses hosts =
    both_failed (get_node_ids hosts) (get_node_fqdns url_parses hosts) ≡ false

-- What the options given and those that `Validate` leaves have in common, and what holds of the latter.
abbrev pub Guaranteed : (String → Bool) → RestartOptions → RestartOptions → Type 0
Guaranteed url_parses o o' =
    (is_negative o'.restart_retry_number ≡ false)
    × (is_negative o'.tenants_inflight ≡ false)
    × HostsParse url_parses o'.targeting.hosts
    × (o'.ssh_args ≡ parse_ssh_args o.ssh_args_flag)
    × (o'.nodes_inflight ≡ o.nodes_inflight)

module _ (parse_time : String → Option Instant) (url_parses : String → Bool) where
  validate_targeting-HostsParse :
      (o o' : TargetingOptions)
      → validate_targeting parse_time url_parses o ≡ valid o'
      → HostsParse url_parses o'.hosts
  unfolding validate_targeting
  validate_targeting-HostsParse o o' e =
      let (o₁, _, e₁) =
        bind-valid
          (reject_if (not (contains availability_modes o.availability_mode))
            unknown_availability_mode o)
          _ e in
      let (o₂, _, e₂) =
        bind-valid
          (reject_if (not (o.kubeconfig_path == "") && o.k8s_namespace == "") no_k8s_namespace o₁) _
          e₁ in
      let (o₃, _, e₃) =
        bind-valid (reject_if (is_negative o.max_static_node_id) negative_max_static_node_id o₂) _
          e₂ in
      let (o₄, _, e₄) =
        bind-valid
          (reject_if (not (is_empty o.tenant_list) && not o.tenant) tenant_not_specified o₃) _ e₃ in
      let (o₅, _, e₅) = bind-valid (parse_started parse_time o₄ o₄.started_flag) _ e₄ in
      let (o₆, _, e₆) = bind-valid (parse_version o₅) _ e₅ in
      let (parses, same) =
        reject_if-valid (both_failed (get_node_ids o₆.hosts) (get_node_fqdns url_parses o₆.hosts))
          hosts_not_parsed o₆ e₆ in
      subst (λ p. HostsParse url_parses p.hosts) same parses

  -- Options that pass `Validate` have a retry number and a number of tenants in flight that are not
  -- negative, hosts that parse as node ids or as names, and the SSH arguments that their flag holds.
  -- The number of nodes in flight is as it was given, negative or not.
  pub validate_lem :
      (o o' : RestartOptions)
      → validate parse_time url_parses o ≡ valid o'
      → Guaranteed url_parses o o'
  unfolding validate
  validate_lem o o' e =
      let (t, parsed, e₁) = bind-valid (validate_targeting parse_time url_parses o.targeting) _ e in
      let (o₁, a₁, e₂) =
        bind-valid (reject_if (is_negative o.cms_query_interval) negative_query_interval o) _ e₁ in
      let (o₂, a₂, e₃) =
        bind-valid (reject_if (is_negative o.restart_retry_number) negative_retry_number o₁) _ e₂ in
      let (o₃, a₃, e₄) =
        bind-valid (reject_if (is_negative o.restart_duration) negative_restart_duration o₂) _ e₃ in
      let (o₄, a₄, e₅) =
        bind-valid (reject_if (is_negative o.tenants_inflight) negative_tenants_inflight o₃) _ e₄ in
      let (_, s₁) =
        reject_if-valid (is_negative o.cms_query_interval) negative_query_interval o a₁ in
      let (retries, s₂) =
        reject_if-valid (is_negative o.restart_retry_number) negative_retry_number o₁ a₂ in
      let (_, s₃) =
        reject_if-valid (is_negative o.restart_duration) negative_restart_duration o₂ a₃ in
      let (tenants, s₄) =
        reject_if-valid (is_negative o.tenants_inflight) negative_tenants_inflight o₃ a₄ in
      let kept : o₄ ≡ o = sym (s₁ ∙ (s₂ ∙ (s₃ ∙ s₄))) in
      let result : record o { targeting = t; ssh_args = parse_ssh_args o.ssh_args_flag } ≡ o' =
        ap {A = RestartOptions} {B = RestartOptions}
          (λ x. record x { targeting = t; ssh_args = parse_ssh_args x.ssh_args_flag }) (sym kept)
        ∙ valid-injective e₅ in
      subst (Guaranteed url_parses o) result
        (retries, tenants, validate_targeting-HostsParse o.targeting t parsed, refl, refl)
