-- ===== src/Traffic/Rules.antt =====
-- proxy/filters/traffic/rules_util.go: which requests a rule is about.
use text.Mathlib.Text.{starts_with}
use controllermesh.Prelude.{
  String, List, [], ◌∷◌, Bool, true, false, not, ◌||◌, ◌==◌, has, if◌then◌else◌,
}
use controllermesh.Prelude.Texts.{concat_text, has_suffix, trim_suffix}
use controllermesh.Route.{is_wildcard}
use controllermesh.Traffic.{ResourceRule, NonResourceRule, ApiServerRules}

-- request.RequestInfo, as far as it is read
pub record RequestInfo : Type 0 where
  pub is_resource_request : Bool
  pub path : String
  pub verb : String
  pub api_group : String
  pub namespace : String
  pub resource : String
  pub subresource : String

-- The copy of the function of the same name in apis/ctrlmesh/proto.
unfoldable pub contains_string : String → List String → String → Bool
contains_string x list wildcard = if is_wildcard list wildcard then true else has x list

unfoldable pub rs_join : String → String → String
rs_join resource subresource =
    if subresource == "" then resource else concat_text resource (concat_text "/" subresource)

-- rulePrefix
abbrev pub url_prefix : String → String
url_prefix rule_path =
    let rule_prefix = trim_suffix rule_path "*" in
    if has_suffix rule_prefix "/" then rule_prefix else concat_text rule_prefix "/"

unfoldable pub match_non_resource_url : List String → String → Bool
match_non_resource_url [] path = false
match_non_resource_url (rule_path ∷ paths) path =
    let rest = match_non_resource_url paths path in
    if rule_path == "*" || rule_path == path
    then true
    else if starts_with path (url_prefix rule_path)
    then true
    else rest

unfoldable pub matches_resource_policy_rule : RequestInfo → ResourceRule → Bool
unfolding contains_string rs_join
matches_resource_policy_rule ri rule =
    if not (contains_string ri.verb rule.verbs "*")
    then false
    else if not (contains_string (rs_join ri.resource ri.subresource) rule.resources "*")
    then false
    else if not (contains_string ri.api_group rule.api_groups "*")
    then false
    else if ri.namespace == ""
    then rule.cluster_scope
    else contains_string ri.namespace rule.namespaces "*"

unfoldable pub matches_non_resource_policy_rule : RequestInfo → NonResourceRule → Bool
unfolding contains_string match_non_resource_url
matches_non_resource_policy_rule ri rule =
    if not (contains_string ri.verb rule.verbs "*")
    then false
    else match_non_resource_url rule.non_resource_urls ri.path

unfoldable pub matches_a_resource_rule : RequestInfo → List ResourceRule → Bool
unfolding matches_resource_policy_rule
matches_a_resource_rule ri [] = false
matches_a_resource_rule ri (r ∷ rs) =
    let rest = matches_a_resource_rule ri rs in
    if matches_resource_policy_rule ri r then true else rest

unfoldable pub matches_a_non_resource_rule : RequestInfo → List NonResourceRule → Bool
unfolding matches_non_resource_policy_rule
matches_a_non_resource_rule ri [] = false
matches_a_non_resource_rule ri (r ∷ rs) =
    let rest = matches_a_non_resource_rule ri rs in
    if matches_non_resource_policy_rule ri r then true else rest

unfoldable pub matches_api_server_rules : RequestInfo → ApiServerRules → Bool
unfolding matches_a_resource_rule matches_a_non_resource_rule
matches_api_server_rules ri rules =
    if ri.is_resource_request
    then matches_a_resource_rule ri rules.resource_rules
    else matches_a_non_resource_rule ri rules.non_resource_rules
