-- ===== src/Server.antt =====
-- controllers/server/server_util.go: what the manager sends to the proxies of a VirtualApp.
-- `regex_match` is Go's regexp, `none` for an expression that does not compile.
pub mod Partition
pub mod Generated
pub mod Routing
pub mod Isolated
use controllermesh.Prelude.{
  String, List, [], ◌∷◌, ◌++◌, Option, none, some, Bool, true, false, not, ◌||◌, ◌==◌, is_some,
  select, map, nonempty, if◌then◌else◌, all, ◌≡◌,
}
use controllermesh.Prelude.Maps.{Map, lookup, put}
use controllermesh.Prelude.Sorting.{text_lt, sort_stable}
use controllermesh.Proto
use controllermesh.Proto.{Endpoint, ProxySpec}
use controllermesh.Selector.{LabelSelector, validated_label_selector_as_selector}
use controllermesh.Selector.Meaning.{Matching, compiled_matches, selects}
use controllermesh.Kube.{Pod, Namespace, ContainerStatus, label_of, is_pod_ready}
use controllermesh.VirtualApp
use controllermesh.VirtualApp.{VirtualApp, MatchLimitSelector, SubRule, Subset, slice}

-- The JSON texts of selectors: util.DumpJSON at the manager, json.Unmarshal at the proxy.
pub record SelectorJson : Type 0 where
  pub dump : LabelSelector → String
  pub decode : String → LabelSelector
  pub dump_nonempty : (s : LabelSelector) → (dump s == "") ≡ false

abbrev pub running_names : List ContainerStatus → List String
running_names [] = []
running_names (c ∷ cs) = if c.running then c.name ∷ running_names cs else running_names cs

unfoldable pub get_running_containers : Pod → List String
get_running_containers pod = running_names pod.container_statuses

-- The inner loop: every label of the subset has its value on the pod.
abbrev pub labels_match : Map String → Map String → Bool
labels_match [] pod_labels = true
labels_match ((k, v) ∷ labels) pod_labels =
    if not (label_of k pod_labels == v) then false else labels_match labels pod_labels

abbrev pub first_subset : List Subset → Map String → String
first_subset [] pod_labels = ""
first_subset (s ∷ ss) pod_labels =
    if labels_match s.labels pod_labels then s.name else first_subset ss pod_labels

unfoldable pub determine_pod_subset : VirtualApp → Pod → String
determine_pod_subset v_app pod = first_subset v_app.spec.subsets pod.labels

unfoldable pub generate_api_resources :
    List VirtualApp.ApiGroupResource → List Proto.ApiGroupResource
generate_api_resources resources =
    map (λ r. record { api_groups = r.api_groups; resources = r.resources }) resources

abbrev pub endpoints_of : VirtualApp → List Pod → List Endpoint
endpoints_of v_app [] = []
endpoints_of v_app (pod ∷ pods) =
    let e : Endpoint = record {
      name = pod.name;
      ip = pod.pod_ip;
      subset = determine_pod_subset v_app pod;
    } in
    if is_pod_ready pod then e ∷ endpoints_of v_app pods else endpoints_of v_app pods

unfoldable pub generate_proto_endpoints : VirtualApp → List Pod → List Endpoint
unfolding determine_pod_subset
generate_proto_endpoints v_app pods =
    sort_stable (λ e f. text_lt e.name f.name) (endpoints_of v_app pods)

abbrev pub Rules : Type 0
Rules = List Proto.MatchLimitRule × List Proto.MatchLimitRule

abbrev pub is_namespace_limit : MatchLimitSelector → Bool
is_namespace_limit ms = is_some ms.namespace_selector || is_some ms.namespace_regex

abbrev pub rules_map : List SubRule → Map (List MatchLimitSelector) → Map (List MatchLimitSelector)
rules_map [] m = m
rules_map (r ∷ rs) m = rules_map rs (put r.name r.match_limits m)

-- `append(subsetLimits, rulesMap[ruleName]...)` over the rules of a subset
abbrev pub limits_of_rules : Map (List MatchLimitSelector) → List String → List MatchLimitSelector
limits_of_rules rules [] = []
limits_of_rules rules (name ∷ names) =
    (elim (lookup name rules) [ none ↦ [] | some limits ↦ limits ]) ++ limits_of_rules rules names

abbrev pub sub_rules_of : Option VirtualApp.Route → List SubRule
sub_rules_of none = []
sub_rules_of (some r) = r.sub_rules

abbrev pub with_default :
    List Proto.SubsetLimit × List Proto.MatchLimitRule → List Proto.SubsetLimit
with_default (limits, excludes) = limits ++ record { subset = ""; limits = excludes } ∷ []

abbrev pub rule_over : List String → List Proto.ApiGroupResource → Proto.MatchLimitRule
rule_over namespaces resources = record {
  namespaces = namespaces;
  object_selector = "";
  resources = resources;
}

module _ (m : Matching) (regex_match : String → String → Option Bool) where
  abbrev pub regex_matches : Option String → String → Bool
  regex_matches none name = false
  regex_matches (some regex) name = elim (regex_match regex name) [ none ↦ false | some b ↦ b ]

  -- A selector or a regex that does not compile matches nothing.
  unfoldable pub is_namespace_matched : MatchLimitSelector → Namespace → Bool
  is_namespace_matched ms ns =
      if is_some ms.namespace_selector
      then selects m ns.labels ms.namespace_selector
      else regex_matches ms.namespace_regex ns.name

  -- The loop over the namespaces fills both lists.
  abbrev pub matched_names : MatchLimitSelector → List Namespace → List String
  matched_names ms [] = []
  matched_names ms (ns ∷ nss) =
      if is_namespace_matched ms ns then ns.name ∷ matched_names ms nss else matched_names ms nss

  abbrev pub unmatched_names : MatchLimitSelector → List Namespace → List String
  unmatched_names ms [] = []
  unmatched_names ms (ns ∷ nss) =
      if is_namespace_matched ms ns
      then unmatched_names ms nss
      else ns.name ∷ unmatched_names ms nss

  module _ (json : SelectorJson) (namespaces : List Namespace) where
    -- What one limit adds to the rules behind it.
    abbrev pub add_rules : MatchLimitSelector → Rules → Rules
    add_rules ms (includes, excludes) =
        let resources = generate_api_resources (slice ms.resources) in
        if is_namespace_limit ms
        then (
          rule_over (matched_names ms namespaces) resources ∷ includes,
          rule_over (unmatched_names ms namespaces) resources ∷ excludes,
        )
        else (elim ms.object_selector [
          | none ↦ (includes, excludes)
          | some s ↦ (
            record { namespaces = []; object_selector = json.dump s; resources = resources }
                ∷ includes,
            excludes,
          )
        ])

    -- includeRules and excludeRules
    unfoldable pub generate_match_limit_rules : List MatchLimitSelector → Rules
    unfolding generate_api_resources
    generate_match_limit_rules [] = ([], [])
    generate_match_limit_rules (ms ∷ limits) = add_rules ms (generate_match_limit_rules limits)

    -- The subset limits, and allExcludeLimits.
    abbrev pub generate_subset_limits :
        Map (List MatchLimitSelector)
        → List Subset
        → List Proto.SubsetLimit × List Proto.MatchLimitRule
    generate_subset_limits rules [] = ([], [])
    generate_subset_limits rules (s ∷ ss) =
        let (includes, excludes) =
          generate_match_limit_rules (limits_of_rules rules s.route_rules) in
        let (limits, all_excludes) = generate_subset_limits rules ss in
        (record { subset = s.name; limits = includes } ∷ limits, excludes ++ all_excludes)

    unfoldable pub generate_proto_route : VirtualApp → Proto.Route
    unfolding generate_match_limit_rules
    generate_proto_route v_app =
        let route = v_app.spec.route in
        let rules = rules_map (sub_rules_of route) [] in
        record {
          subset = "";
          global_limits = (elim route [
            | none ↦ []
            | some r ↦ (generate_match_limit_rules r.global_limits).0
          ]);
          subset_limits = with_default (generate_subset_limits rules v_app.spec.subsets);
          subset_public_resources = (elim route [
            | none ↦ []
            | some r ↦ generate_api_resources r.subset_public_resources
          ]);
          subset_default_only_user_agents = (elim route [
            | none ↦ []
            | some r ↦ r.subset_default_only_user_agents
          ]);
        }

-- The spec that the reconciler sends to a pod of a subset.
unfoldable pub new_spec : VirtualApp → String → String → Proto.Route → List Endpoint → ProxySpec
new_spec v_app hash subset proto_route endpoints = record {
  meta = record { v_app_name = v_app.name; hash = hash };
  route = record proto_route { subset = subset };
  endpoints = endpoints;
}
