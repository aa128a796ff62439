-- ===== src/Server/Routing.antt =====
-- The routes that the manager generates, end to end: which subset the proxies determine.
use mathlib.Core.List.{map-append}
use controllermesh.Prelude.{
  String, List, [], ◌∷◌, ◌++◌, Option, none, some, Bool, true, not, ◌&&◌, ◌||◌, ◌==◌, ◌≡◌, refl,
  arith, all, any, map, if◌then◌else◌, or_else, ap, fun_ext, ◌∙◌,
}
use controllermesh.Proto
use controllermesh.Proto.{ProxySpec, Endpoint}
use controllermesh.Selector.Meaning.{Matching}
use controllermesh.Kube.{Namespace}
use controllermesh.Route.{
  GroupResource, SubsetLimit, InternalSpec, is_gr_matched_api_resources, determine_namespace_subset,
  all_subset_public,
}
use controllermesh.Route.Convert.{
  convert_subset_limit, convert_proto_match_limit_rule_to_internal, convert_proto_spec_to_internal,
}
use controllermesh.Route.Reference.{
  admits, first_claim, any_names, determine_namespace_subset-subset_of,
}
use controllermesh.VirtualApp
use controllermesh.VirtualApp.{VirtualApp, MatchLimitSelector, Subset}
use controllermesh.Server.{
  SelectorJson, generate_api_resources, is_namespace_matched, generate_match_limit_rules,
  generate_subset_limits, rules_map, sub_rules_of, with_default, generate_proto_route, new_spec,
}
use controllermesh.Server.Partition.{
  IsListed, concerns, is_named_by, is_excluded_by, included-admits,
}
use controllermesh.Server.Generated.{
  Rules, any_limit, first_with, any_limit-split, excludes-claims, excludes-names,
  first_claim-generated, any_names-generated,
}

-- A limit is about a public resource only by name.
concerns_public :
    (gr : GroupResource) (rules : Rules) (ss : List Subset)
    → any_limit rules (concerns gr true) ss ≡ any_limit rules (is_named_by gr) ss
unfolding concerns is_named_by
concerns_public gr rules ss =
    let same : concerns gr true ≡ is_named_by gr = fun_ext λ ms. ground arith in
    ap (λ (p : MatchLimitSelector → Bool). any_limit rules p ss) same

abbrev pub rules_of : VirtualApp → Rules
rules_of v_app = rules_map (sub_rules_of v_app.spec.route) []

abbrev pub global_limits_of : Option VirtualApp.Route → List MatchLimitSelector
global_limits_of none = []
global_limits_of (some r) = r.global_limits

abbrev pub public_resources_of : Option VirtualApp.Route → List Proto.ApiGroupResource
public_resources_of none = []
public_resources_of (some r) = generate_api_resources r.subset_public_resources

module _ (m : Matching) (regex_match : String → String → Option Bool) where
  -- What the VirtualApp says about a request.
  abbrev pub routed_subset : VirtualApp → Namespace → GroupResource → Option String
  routed_subset v_app ns gr =
      let is_public = is_gr_matched_api_resources gr (public_resources_of v_app.spec.route) in
      let ss = v_app.spec.subsets in
      let matched = λ (ms : MatchLimitSelector).
        concerns gr is_public ms && is_namespace_matched m regex_match ms ns in
      if ns.name == ""
      then some ""
      else if any (is_excluded_by m regex_match ns gr) (global_limits_of v_app.spec.route)
      then none
      else or_else (first_with (rules_of v_app) matched ss) (
          if any_limit (rules_of v_app) (concerns gr is_public) ss
          then some ""
          else if is_public
          then some all_subset_public
          else none)

concerned-public :
    (is_public : Bool) (gr : GroupResource) (rules : Rules) (ss : List Subset)
    → is_public ≡ true
    → any_limit rules (concerns gr is_public) ss ≡ any_limit rules (is_named_by gr) ss
concerned-public is_public gr rules ss e = rw e (concerns_public gr rules ss)

-- The cases of `subset_of` and of `routed_subset` agree.
finish :
    (cluster excluded is_public concerned unmatched named_once : Bool)
    (first claimed : Option String) (admitted named : Bool)
    → admitted ≡ not excluded
    → claimed ≡ or_else first (if unmatched then some "" else none)
    → named ≡ (named_once || named_once)
    → (first ≡ none → unmatched ≡ concerned)
    → (is_public ≡ true → concerned ≡ named_once)
    → (if cluster
        then some ""
        else if admitted
        then or_else claimed (if is_public && not named then some all_subset_public else none)
        else none)
      ≡ (if cluster
          then some ""
          else if excluded
          then none
          else or_else first
              (if concerned then some "" else if is_public then some all_subset_public else none))
finish cluster excluded is_public concerned unmatched named_once first claimed admitted named a b c
      d e =
    ground arith

module _ (m : Matching) (regex_match : String → String → Option Bool) (json : SelectorJson)
    (ns : Namespace) (gr : GroupResource) (nss : List Namespace) (listed : IsListed ns nss) where
  global_limits-admit :
      (route : Option VirtualApp.Route)
      → all (admits ns.name gr) (
          convert_proto_match_limit_rule_to_internal json.decode (elim route [
            | none ↦ []
            | some r ↦ (generate_match_limit_rules m regex_match json nss r.global_limits).0
          ]))
        ≡ not (any (is_excluded_by m regex_match ns gr) (global_limits_of route))
  unfolding convert_proto_match_limit_rule_to_internal
  global_limits-admit none = refl
  global_limits-admit (some r) = included-admits m regex_match json ns gr nss listed r.global_limits

  default_limit : Rules → List Subset → SubsetLimit
  default_limit rules ss =
      convert_subset_limit json.decode (record {
        subset = "";
        limits = (generate_subset_limits m regex_match json nss rules ss).1;
      })

  limits-map :
      (rules : Rules) (ss : List Subset)
      → map
          (convert_subset_limit json.decode)
          (with_default (generate_subset_limits m regex_match json nss rules ss))
        ≡ map
            (convert_subset_limit json.decode)
            (generate_subset_limits m regex_match json nss rules ss).0
          ++ default_limit rules ss ∷ []
  unfolding default_limit
  limits-map rules ss =
      map-append (convert_subset_limit json.decode)
        (generate_subset_limits m regex_match json nss rules ss).0 _

  abbrev is_here : MatchLimitSelector → Bool
  is_here ms = is_namespace_matched m regex_match ms ns

  sent-first_claim :
      (rules : Rules) (is_public : Bool) (ss : List Subset)
      → first_claim ns.name gr is_public (
          map
            (convert_subset_limit json.decode)
            (with_default (generate_subset_limits m regex_match json nss rules ss)))
        ≡ or_else (first_with rules (λ ms. concerns gr is_public ms && is_here ms) ss) (
            if any_limit rules (λ ms. concerns gr is_public ms && not (is_here ms)) ss
            then some ""
            else none)
  unfolding default_limit convert_proto_match_limit_rule_to_internal
  sent-first_claim rules is_public ss = rw (
    limits-map rules ss,
    first_claim-generated m regex_match json ns gr nss listed rules is_public ss
        (default_limit rules ss),
    excludes-claims m regex_match json ns gr nss listed rules is_public ss,
  )

  sent-any_names :
      (rules : Rules) (ss : List Subset)
      → any_names ns.name gr (
          map
            (convert_subset_limit json.decode)
            (with_default (generate_subset_limits m regex_match json nss rules ss)))
        ≡ (any_limit rules (is_named_by gr) ss || any_limit rules (is_named_by gr) ss)
  unfolding default_limit convert_proto_match_limit_rule_to_internal
  sent-any_names rules ss = rw (
    limits-map rules ss,
    any_names-generated m regex_match json ns gr nss listed rules ss (default_limit rules ss),
    excludes-names m regex_match json ns gr nss listed rules ss,
  )

  -- The spec that a proxy of the subset `own` has received.
  abbrev pub received : VirtualApp → String → String → List Endpoint → InternalSpec
  received v_app hash own endpoints =
      convert_proto_spec_to_internal json.decode
        (new_spec v_app hash own (generate_proto_route m regex_match json nss v_app) endpoints)

  -- Every proxy of the application that has received a generated route determines, of a request for
  -- a listed namespace, the subset that the VirtualApp names: nobody, if a global limit excludes
  -- the namespace; the first subset with a rule that is about the resource and matches the
  -- namespace; else the default subset, if any rule is about the resource; else everybody, if it
  -- is public.
  pub determine-generated :
      (v_app : VirtualApp) (hash own : String) (endpoints : List Endpoint)
      → determine_namespace_subset (received v_app hash own endpoints).route_internal ns.name gr
        ≡ routed_subset m regex_match v_app ns gr
  determine-generated v_app hash own endpoints =
      determine_namespace_subset-subset_of _ ns.name gr
      ∙ (unfold convert_proto_spec_to_internal new_spec generate_proto_route in
          let is_public = is_gr_matched_api_resources gr (public_resources_of v_app.spec.route) in
          finish (ns.name == "")
            (any (is_excluded_by m regex_match ns gr) (global_limits_of v_app.spec.route)) is_public
            _ _ _ _ _ _ _ (global_limits-admit v_app.spec.route)
            (sent-first_claim (rules_of v_app) is_public v_app.spec.subsets)
            (sent-any_names (rules_of v_app) v_app.spec.subsets)
            (any_limit-split (rules_of v_app) (concerns gr is_public) is_here v_app.spec.subsets)
            (concerned-public is_public gr (rules_of v_app) v_app.spec.subsets))
