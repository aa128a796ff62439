-- ===== src/Examples/Routing.antt =====
-- The proxies of two subsets.
use controllermesh.Prelude.{
  String, [], ◌∷◌, none, some, true, false, ◌≡◌, ◌≢◌, refl, inl, inr, map, select, ◌↔◌, ◌⊎◌, ◌&&◌,
  all, any, eq_iff, arith,
}
use controllermesh.Prelude.Maps.{Map}
use controllermesh.Selector.{
  merge_label_selector, validated_label_selector_as_selector, new_requirement,
}
use controllermesh.Selector.Merge.{one_label}
use controllermesh.Route.{
  determine_namespace_subset, is_namespace_match, get_matched_subset_endpoint, get_object_selector,
  all_subset_public, passes_global_limits, visit_subsets, visit_limits, visit_limit,
  is_gr_matched_api_resources, contains_string, merge_limits, merge_subsets,
}
use controllermesh.Route.Reference.{subset_of, determine_namespace_subset-subset_of}
use controllermesh.Route.Isolation.{
  SharesLimits, get_matched_subset_endpoint-self, get_matched_subset_endpoint-redirect, in_subset,
}
use controllermesh.Route.Objects.{
  IsConsistent, passes, limit_passes, subsets_pass, get_object_selector-passes,
}
use controllermesh.Route.Exclusion.{objects_exclusive, discriminates}
use controllermesh.Server.Routing.{determine-generated, routed_subset, received}
use controllermesh.Route.Convert.{
  convert_proto_spec_to_internal, convert_proto_match_limit_rule_to_internal, convert_rule,
}
use controllermesh.Server.{
  new_spec, generate_proto_route, generate_match_limit_rules, is_namespace_matched,
  generate_api_resources,
}
use controllermesh.Server.Isolated.{received_exclusive}
use controllermesh.Examples.{
  matching, json, regex_match, pods, proxy, team_proxy, team_limits, namespace, v_app_with,
  configuration,
}

determine_namespace_subset-subset_of_example :
    determine_namespace_subset (proxy "a").route_internal "n2" pods
    ≡ subset_of (proxy "a").route_internal "n2" pods
determine_namespace_subset-subset_of_example =
    determine_namespace_subset-subset_of (proxy "a").route_internal "n2" pods

a_and_b : SharesLimits (proxy "a") (proxy "b")
a_and_b = record { globals = refl; subsets = refl; publics = refl }

get_matched_subset_endpoint-self_example :
    ((get_matched_subset_endpoint (proxy "a") "n2" pods).self
      ≡ is_namespace_match (proxy "a") "n2" pods)
    × (((get_matched_subset_endpoint (proxy "a") "n2" pods).ignore ≡ true)
        ↔ (determine_namespace_subset (proxy "a").route_internal "n2" pods ≡ none))
get_matched_subset_endpoint-self_example = get_matched_subset_endpoint-self "n2" pods (proxy "a")

a_redirects_n2 :
    ((get_matched_subset_endpoint (proxy "a") "n2" pods).ignore ≡ false)
    × ((get_matched_subset_endpoint (proxy "a") "n2" pods).self ≡ false)
    × (determine_namespace_subset (proxy "a").route_internal "n2" pods ≡ some "b")
unfolding get_matched_subset_endpoint determine_namespace_subset passes_global_limits visit_subsets
    visit_limits visit_limit is_gr_matched_api_resources
a_redirects_n2 = (refl, refl, refl)

get_matched_subset_endpoint-redirect_example :
    ((get_matched_subset_endpoint (proxy "a") "n2" pods).hosts
      ≡ map (λ e. e.ip) (select (in_subset "n2" pods "b") (proxy "a").proxy_spec.endpoints))
    × (is_namespace_match (proxy "b") "n2" pods ≡ true)
get_matched_subset_endpoint-redirect_example =
    get_matched_subset_endpoint-redirect "n2" pods (proxy "a") (proxy "b") a_and_b a_redirects_n2.0
      a_redirects_n2.1 a_redirects_n2.2

-- The labels of all object selectors of the example.
abbrev team : Map String
team = ("team", "x") ∷ []

team-IsConsistent : IsConsistent team (one_label "team" "x")
team-IsConsistent = record { distinct = (refl, tt); within = (refl, tt); known = tt }

get_object_selector-passes_example :
    passes matching team (get_object_selector (team_proxy "a") pods) ≡ (
      all (limit_passes matching team pods true) (team_proxy "a").route_internal.global_limits
      && subsets_pass matching team pods "a" (team_proxy "a").route_internal.subset_limits)
get_object_selector-passes_example =
    get_object_selector-passes matching team team (team_proxy "a") pods tt
      ((team-IsConsistent, tt), tt)

a_is_passed : passes matching team (get_object_selector (team_proxy "a") pods) ≡ true
unfolding get_object_selector merge_subsets merge_limits is_gr_matched_api_resources contains_string
    merge_label_selector validated_label_selector_as_selector new_requirement
a_is_passed = refl

a_is_not_b : (proxy "a").route_internal.subset ≢ (proxy "b").route_internal.subset
a_is_not_b e =
    ground (arith, eq_iff (proxy "a").route_internal.subset (proxy "b").route_internal.subset)

team_discriminates : any (discriminates pods) (team_limits "a").limits ≡ true
unfolding is_gr_matched_api_resources contains_string
team_discriminates = refl

objects_exclusive_example : passes matching team (get_object_selector (team_proxy "b") pods) ≡ false
objects_exclusive_example =
    objects_exclusive matching team team (team_proxy "a") (team_proxy "b") pods [] []
      (team_limits "a") (record { globals = refl; subsets = refl; publics = refl }) refl refl refl
      refl a_is_not_b team_discriminates tt ((team-IsConsistent, tt), tt) a_is_passed

determine-generated_example :
    determine_namespace_subset
      (received matching regex_match json
        (namespace "n2")
        pods
        (namespace "n1" ∷ namespace "n2" ∷ [])
        (inr (refl, inl (refl, refl)))
        (v_app_with (some configuration))
        "1"
        "a"
        []).route_internal
      "n2"
      pods
    ≡ routed_subset matching regex_match (v_app_with (some configuration)) (namespace "n2") pods
determine-generated_example =
    determine-generated matching regex_match json (namespace "n2") pods
      (namespace "n1" ∷ namespace "n2" ∷ []) (inr (refl, inl (refl, refl)))
      (v_app_with (some configuration)) "1" "a" []

-- Routes from before and after the namespace "n1" was there.
received_early :
    is_namespace_match
      (received matching regex_match json
        (namespace "n2")
        pods
        (namespace "n2" ∷ [])
        (inl (refl, refl))
        (v_app_with (some configuration))
        "1"
        "b"
        [])
      "n2"
      pods
    ≡ true
unfolding is_namespace_match determine_namespace_subset passes_global_limits visit_subsets
    visit_limits visit_limit is_gr_matched_api_resources contains_string
    convert_proto_spec_to_internal convert_proto_match_limit_rule_to_internal convert_rule new_spec
    generate_proto_route generate_match_limit_rules is_namespace_matched generate_api_resources
    validated_label_selector_as_selector new_requirement
received_early = refl

received_late :
    is_namespace_match
      (received matching regex_match json
        (namespace "n2")
        pods
        (namespace "n1" ∷ namespace "n2" ∷ [])
        (inr (refl, inl (refl, refl)))
        (v_app_with (some configuration))
        "2"
        "b"
        [])
      "n2"
      pods
    ≡ true
unfolding is_namespace_match determine_namespace_subset passes_global_limits visit_subsets
    visit_limits visit_limit is_gr_matched_api_resources contains_string
    convert_proto_spec_to_internal convert_proto_match_limit_rule_to_internal convert_rule new_spec
    generate_proto_route generate_match_limit_rules is_namespace_matched generate_api_resources
    validated_label_selector_as_selector new_requirement
received_late = refl

received_exclusive_example :
    (◌≡◌ {A = String} "b" "b")
    ⊎ (routed_subset matching regex_match (v_app_with (some configuration)) (namespace "n2") pods
        ≡ some all_subset_public)
received_exclusive_example =
    received_exclusive matching regex_match json (namespace "n2") pods
      (v_app_with (some configuration)) (namespace "n2" ∷ []) (namespace "n1" ∷ namespace "n2" ∷ [])
      (inl (refl, refl)) (inr (refl, inl (refl, refl))) "1" "2" "b" "b" [] [] received_early
      received_late
