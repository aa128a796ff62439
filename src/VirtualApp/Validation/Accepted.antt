-- ===== src/VirtualApp/Validation/Accepted.antt =====
-- The VirtualApps that the validation accepts, described with no loop state.
use controllermesh.Prelude.{
  String, List, [], ◌∷◌, ◌++◌, Option, none, some, Bool, true, false, not, ◌&&◌, ◌||◌, ◌==◌, ◌≡◌,
  refl, arith, has, insert, insert_all, is_some, nonempty, all, map, ap, ap₂, ◌∙◌,
}
use controllermesh.Prelude.Int.{is_positive}
use controllermesh.Prelude.Results.{ok, ◌>>=◌}
use controllermesh.Selector.{LabelSelector}
use controllermesh.VirtualApp.{
  VirtualApp, MatchLimitSelector, SubRule, Subset, Route, Configuration, ControllerConfiguration,
  WebhookConfiguration,
}
use controllermesh.VirtualApp.Validation.{
  is_selector, regex_compiles, validate_match_limit_selector, validate_limits, validate_sub_rules,
  validate_route, validate_rule_names, validate_subsets, validate_configuration, validate,
  validate_selector,
}
use controllermesh.VirtualApp.Validation.Checks.{
  succeeds, distinct, all_new, all_new-nil, all_new-append, succeeds-then, succeeds-chain,
  succeeds-bind,
}

module _ (as_selector : Option LabelSelector → Option Bool) (compiles : String → Bool) where
  -- Exactly one of the three selectors is set, it parses, and an object selector names resources.
  abbrev pub limit_is_valid : MatchLimitSelector → Bool
  limit_is_valid m =
      let by_selector = is_some m.namespace_selector in
      let by_regex = is_some m.namespace_regex in
      let by_object = is_some m.object_selector in
      by_selector
        && not by_regex
        && not by_object
        && is_selector as_selector compiles m.namespace_selector
      || not by_selector
        && by_regex
        && not by_object
        && regex_compiles as_selector compiles m.namespace_regex
      || not by_selector
        && not by_regex
        && by_object
        && is_selector as_selector compiles m.object_selector
        && is_some m.resources

  validate_match_limit_selector-succeeds :
      (m : MatchLimitSelector)
      → succeeds (validate_match_limit_selector as_selector compiles m) ≡ limit_is_valid m
  unfolding validate_match_limit_selector
  validate_match_limit_selector-succeeds m = ground arith

  validate_limits-succeeds :
      (ms : List MatchLimitSelector)
      → succeeds (validate_limits as_selector compiles ms) ≡ all limit_is_valid ms
  unfolding validate_limits
  validate_limits-succeeds [] = refl
  validate_limits-succeeds (m ∷ ms) =
      succeeds-then (validate_match_limit_selector as_selector compiles m)
        (validate_limits as_selector compiles ms)
      ∙ ap₂ ◌&&◌ (validate_match_limit_selector-succeeds m) (validate_limits-succeeds ms)

  abbrev pub sub_rule_is_valid : SubRule → Bool
  sub_rule_is_valid r =
      not (r.name == "") && nonempty r.match_limits && all limit_is_valid r.match_limits

  abbrev rule_names : List SubRule → List String
  rule_names rs = map (λ r. r.name) rs

  -- The loop fails, or returns the set with all names added.
  validate_sub_rules_lem :
      (rs : List SubRule) (used : List String)
      → (succeeds (validate_sub_rules as_selector compiles rs used)
          ≡ (all sub_rule_is_valid rs && all_new (rule_names rs) used))
  unfolding validate_sub_rules
  validate_sub_rules_lem [] used = refl
  validate_sub_rules_lem (r ∷ rs) used = ground (
    arith,
    validate_limits-succeeds r.match_limits,
    validate_sub_rules_lem rs (insert r.name used),
  )

  validate_sub_rules-value :
      (rs : List SubRule) (used s : List String)
      → validate_sub_rules as_selector compiles rs used ≡ ok s
      → s ≡ insert_all (rule_names rs) used
  unfolding validate_sub_rules
  validate_sub_rules-value [] used s h = ground arith
  validate_sub_rules-value (r ∷ rs) used s h =
      ground (arith, validate_sub_rules-value rs (insert r.name used) s)

  abbrev pub rules_of : Option Route → List SubRule
  rules_of none = []
  rules_of (some r) = r.sub_rules

  abbrev pub route_is_valid : Option Route → Bool
  route_is_valid none = true
  route_is_valid (some r) =
      all limit_is_valid r.global_limits
      && all sub_rule_is_valid r.sub_rules
      && distinct (rule_names r.sub_rules)

  validate_route-succeeds :
      (r : Option Route) → succeeds (validate_route as_selector compiles r) ≡ route_is_valid r
  unfolding validate_route
  validate_route-succeeds none = refl
  validate_route-succeeds (some r) = ground (
    arith,
    validate_limits-succeeds r.global_limits,
    validate_sub_rules_lem r.sub_rules [],
    all_new-nil (rule_names r.sub_rules),
  )

  validate_route-value :
      (r : Option Route) (s : List String)
      → validate_route as_selector compiles r ≡ ok s
      → s ≡ insert_all (rule_names (rules_of r)) []
  unfolding validate_route
  validate_route-value none s h = ground arith
  validate_route-value (some r) s h = ground (arith, validate_sub_rules-value r.sub_rules [] s)

  validate_rule_names-succeeds :
      (known names used : List String)
      → succeeds (validate_rule_names as_selector compiles known names used)
        ≡ (all (λ n. has n known) names && all_new names used)
  unfolding validate_rule_names
  validate_rule_names-succeeds known [] used = refl
  validate_rule_names-succeeds known (n ∷ names) used =
      ground (arith, validate_rule_names-succeeds known names (insert n used))

  validate_rule_names-value :
      (known names used s : List String)
      → validate_rule_names as_selector compiles known names used ≡ ok s
      → s ≡ insert_all names used
  unfolding validate_rule_names
  validate_rule_names-value known [] used s h = ground arith
  validate_rule_names-value known (n ∷ names) used s h =
      ground (arith, validate_rule_names-value known names (insert n used) s)

  abbrev pub subset_is_valid : List String → Subset → Bool
  subset_is_valid known s =
      not (s.name == "")
      && nonempty s.labels
      && nonempty s.route_rules
      && all (λ n. has n known) s.route_rules

  abbrev subset_names : List Subset → List String
  subset_names ss = map (λ s. s.name) ss

  -- The rules that the subsets use, in order.
  abbrev pub used_rules : List Subset → List String
  used_rules [] = []
  used_rules (s ∷ ss) = s.route_rules ++ used_rules ss

  validate_subsets-succeeds :
      (known : List String) (ss : List Subset) (names used : List String)
      → succeeds (validate_subsets as_selector compiles known ss names used) ≡ (
          all (subset_is_valid known) ss
          && all_new (subset_names ss) names
          && all_new (used_rules ss) used)
  unfolding validate_subsets
  validate_subsets-succeeds known [] names used = refl
  validate_subsets-succeeds known (s ∷ ss) names used =
      let rest = λ (used' : List String).
        validate_subsets as_selector compiles known ss (insert s.name names) used' in
      ground (
        arith,
        succeeds-bind (validate_rule_names as_selector compiles known s.route_rules used) rest
            (insert_all s.route_rules used) (validate_rule_names-value known s.route_rules used),
        validate_rule_names-succeeds known s.route_rules used,
        validate_subsets-succeeds known ss (insert s.name names) (insert_all s.route_rules used),
        all_new-append s.route_rules (used_rules ss) used,
      )

  abbrev pub controller_is_valid : Option ControllerConfiguration → Bool
  controller_is_valid none = true
  controller_is_valid (some c) = not (c.leader_election_name == "")

  abbrev pub webhook_is_valid : Option WebhookConfiguration → Bool
  webhook_is_valid none = true
  webhook_is_valid (some w) = not (w.cert_dir == "") && is_positive w.port

  -- A configuration is there, and with subsets it has a controller or a webhook.
  abbrev pub configuration_is_valid : List Subset → Option Configuration → Bool
  configuration_is_valid ss none = false
  configuration_is_valid ss (some c) =
      (not (nonempty ss) || is_some c.controller || is_some c.webhook)
      && controller_is_valid c.controller
      && webhook_is_valid c.webhook

  validate_configuration-succeeds :
      (ss : List Subset) (c : Option Configuration)
      → succeeds (validate_configuration as_selector compiles ss c) ≡ configuration_is_valid ss c
  unfolding validate_configuration
  validate_configuration-succeeds ss none = refl
  validate_configuration-succeeds ss (some c) = ground arith

  abbrev pub selector_is_valid : Option LabelSelector → Bool
  selector_is_valid s = elim (as_selector s) [ none ↦ false | some is_empty ↦ not is_empty ]

  validate_selector-succeeds :
      (s : Option LabelSelector)
      → succeeds (validate_selector as_selector compiles s) ≡ selector_is_valid s
  validate_selector-succeeds s = ground arith

  -- Subsets are named apart, have labels, and use rules that there are, each rule once.
  abbrev pub is_well_formed : VirtualApp → Bool
  is_well_formed obj =
      let known = insert_all (rule_names (rules_of obj.spec.route)) [] in
      selector_is_valid obj.spec.selector
      && configuration_is_valid obj.spec.subsets obj.spec.configuration
      && route_is_valid obj.spec.route
      && all (subset_is_valid known) obj.spec.subsets
      && distinct (subset_names obj.spec.subsets)
      && distinct (used_rules obj.spec.subsets)

  validate_lem :
      (obj : VirtualApp)
      → succeeds (validate as_selector compiles obj) ≡ (
          selector_is_valid obj.spec.selector
          && succeeds
              (validate_configuration as_selector compiles obj.spec.subsets obj.spec.configuration)
          && succeeds (
              validate_route as_selector compiles obj.spec.route >>= λ known.
              validate_subsets as_selector compiles known obj.spec.subsets [] []))
  unfolding validate
  validate_lem obj =
      let rest = validate_route as_selector compiles obj.spec.route >>= λ known.
      validate_subsets as_selector compiles known obj.spec.subsets [] [] in
      succeeds-chain (validate_selector as_selector compiles obj.spec.selector)
        (validate_configuration as_selector compiles obj.spec.subsets obj.spec.configuration) rest
      ∙ ap
          (λ (b : Bool).
            b
            && succeeds (
                validate_configuration as_selector compiles obj.spec.subsets obj.spec.configuration)
            && succeeds rest)
          (validate_selector-succeeds obj.spec.selector)

  -- The validation accepts exactly the well-formed VirtualApps.
  pub validate-is_well_formed :
      (obj : VirtualApp) → succeeds (validate as_selector compiles obj) ≡ is_well_formed obj
  validate-is_well_formed obj =
      let route = validate_route as_selector compiles obj.spec.route in
      let subsets = λ (known : List String).
        validate_subsets as_selector compiles known obj.spec.subsets [] [] in
      let known = insert_all (rule_names (rules_of obj.spec.route)) [] in
      ground (
        arith,
        validate_lem obj,
        validate_configuration-succeeds obj.spec.subsets obj.spec.configuration,
        succeeds-bind route subsets known (validate_route-value obj.spec.route),
        validate_route-succeeds obj.spec.route,
        validate_subsets-succeeds known obj.spec.subsets [] [],
        all_new-nil (subset_names obj.spec.subsets),
        all_new-nil (used_rules obj.spec.subsets),
      )
