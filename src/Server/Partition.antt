-- ===== src/Server/Partition.antt =====
-- The rules that the manager makes of one limit, as a proxy reads them.
use controllermesh.Prelude.{
  String, List, [], ◌∷◌, Option, none, some, Bool, true, false, not, ◌&&◌, ◌||◌, ◌==◌, ◌≡◌, ◌⊎◌,
  inl, inr, refl, arith, has, all, any, nonempty, map, if◌then◌else◌, eq_refl,
}
use controllermesh.Proto
use controllermesh.Selector.{LabelSelector, empty_selector}
use controllermesh.Selector.Meaning.{Matching}
use controllermesh.Kube.{Namespace}
use controllermesh.Route.{GroupResource, MatchLimitRule, is_gr_matched_api_resources}
use controllermesh.Route.Convert.{convert_rule}
use controllermesh.Route.Reference.{claims, names, admits}
use controllermesh.VirtualApp.{MatchLimitSelector, slice}
use controllermesh.Server.{
  SelectorJson, generate_api_resources, is_namespace_matched, matched_names, unmatched_names,
  is_namespace_limit, add_rules, generate_match_limit_rules, Rules,
}

abbrev pub same_name : Namespace → Namespace → Bool
same_name ns n = ns.name == n.name

-- The namespace is in the list, and no other entry has its name.
abbrev pub IsListed : Namespace → List Namespace → Type 0
IsListed ns [] = ⊥
IsListed ns (n ∷ nss) =
    ((n ≡ ns) × (any (same_name ns) nss ≡ false)) ⊎ ((same_name ns n ≡ false) × IsListed ns nss)

module _ (m : Matching) (regex_match : String → String → Option Bool) (ns : Namespace) where
  has-matched_names_absent :
      (ms : MatchLimitSelector) (nss : List Namespace)
      → any (same_name ns) nss ≡ false
      → (has ns.name (matched_names m regex_match ms nss) ≡ false)
        × (has ns.name (unmatched_names m regex_match ms nss) ≡ false)
  has-matched_names_absent ms [] h = (refl, refl)
  has-matched_names_absent ms (n ∷ nss) h = ground (arith, has-matched_names_absent ms nss)

  has-matched_names :
      (ms : MatchLimitSelector) (nss : List Namespace)
      → IsListed ns nss
      → (has ns.name (matched_names m regex_match ms nss)
          ≡ is_namespace_matched m regex_match ms ns)
        × (has ns.name (unmatched_names m regex_match ms nss)
            ≡ not (is_namespace_matched m regex_match ms ns))
  has-matched_names ms [] h = absurd h
  has-matched_names ms (n ∷ nss) (inl (e, h)) =
      ground (arith, has-matched_names_absent ms nss h, eq_refl ns.name)
  has-matched_names ms (n ∷ nss) (inr (e, h)) = ground (arith, has-matched_names ms nss h)

-- A limit over these resources is about the resource: by name or, unless that is public, as any.
abbrev pub is_about : GroupResource → Bool → List Proto.ApiGroupResource → Bool
is_about gr is_public resources =
    if nonempty resources then is_gr_matched_api_resources gr resources else not is_public

abbrev pub sent_resources : MatchLimitSelector → List Proto.ApiGroupResource
sent_resources ms = generate_api_resources (slice ms.resources)

-- The limit selects namespaces, and is about the resource.
unfoldable pub concerns : GroupResource → Bool → MatchLimitSelector → Bool
concerns gr is_public ms = is_namespace_limit ms && is_about gr is_public (sent_resources ms)

unfoldable pub is_named_by : GroupResource → MatchLimitSelector → Bool
is_named_by gr ms =
    is_namespace_limit ms
    && nonempty (sent_resources ms)
    && is_gr_matched_api_resources gr (sent_resources ms)

-- A global limit excludes the namespaces that it does not match.
unfoldable pub is_excluded_by :
    Matching
    → (String → String → Option Bool)
    → Namespace
    → GroupResource
    → MatchLimitSelector
    → Bool
is_excluded_by m regex_match ns gr ms =
    is_namespace_limit ms
    && not
        (nonempty (sent_resources ms) && not (is_gr_matched_api_resources gr (sent_resources ms)))
    && not (is_namespace_matched m regex_match ms ns)

abbrev pub receive : SelectorJson → Proto.MatchLimitRule → MatchLimitRule
receive json = convert_rule json.decode

abbrev rule_for : List String → List Proto.ApiGroupResource → Proto.MatchLimitRule
rule_for namespaces resources = record {
  namespaces = namespaces;
  object_selector = "";
  resources = resources;
}

abbrev rule_with : SelectorJson → LabelSelector → List Proto.ApiGroupResource → Proto.MatchLimitRule
rule_with json s resources = record {
  namespaces = [];
  object_selector = json.dump s;
  resources = resources;
}

abbrev selector_or_empty : Option LabelSelector → LabelSelector
selector_or_empty none = empty_selector
selector_or_empty (some s) = s

module _ (json : SelectorJson) (ns : String) (gr : GroupResource) where
  rule_for-claims :
      (is_public : Bool) (namespaces : List String) (rs : List Proto.ApiGroupResource)
      → (claims ns gr is_public (receive json (rule_for namespaces rs))
          ≡ (is_about gr is_public rs && has ns namespaces))
        × (names ns gr (receive json (rule_for namespaces rs))
            ≡ (nonempty rs && is_gr_matched_api_resources gr rs))
        × (admits ns gr (receive json (rule_for namespaces rs))
            ≡ (nonempty rs && not (is_gr_matched_api_resources gr rs) || has ns namespaces))
  unfolding claims convert_rule
  rule_for-claims is_public namespaces rs = ground arith

  rule_with-claims :
      (is_public : Bool) (s : LabelSelector) (rs : List Proto.ApiGroupResource)
      → (claims ns gr is_public (receive json (rule_with json s rs)) ≡ false)
        × (names ns gr (receive json (rule_with json s rs)) ≡ false)
        × (admits ns gr (receive json (rule_with json s rs)) ≡ true)
  unfolding claims convert_rule
  rule_with-claims is_public s rs = ground (arith, json.dump_nonempty s)

module _ (m : Matching) (regex_match : String → String → Option Bool) (json : SelectorJson)
    (ns : Namespace) (gr : GroupResource) (nss : List Namespace) (listed : IsListed ns nss) where
  abbrev pub generated : List MatchLimitSelector → Rules
  generated = generate_match_limit_rules m regex_match json nss

  abbrev pub matches_here : MatchLimitSelector → Bool
  matches_here ms = is_namespace_matched m regex_match ms ns

  abbrev included : MatchLimitSelector → List String
  included ms = matched_names m regex_match ms nss

  abbrev excluded : MatchLimitSelector → List String
  excluded ms = unmatched_names m regex_match ms nss

  abbrev add : MatchLimitSelector → Rules → Rules
  add = add_rules m regex_match json nss

  -- A proxy reads a list of rules.
  abbrev pub any_claims : Bool → List Proto.MatchLimitRule → Bool
  any_claims is_public rules = any (claims ns.name gr is_public) (map (receive json) rules)

  abbrev pub any_names_it : List Proto.MatchLimitRule → Bool
  any_names_it rules = any (names ns.name gr) (map (receive json) rules)

  abbrev pub all_admit : List Proto.MatchLimitRule → Bool
  all_admit rules = all (admits ns.name gr) (map (receive json) rules)

  module _ (is_public : Bool) (ms : MatchLimitSelector) (rest : Rules) where
    add-claims_included :
        any_claims is_public (add ms rest).0
        ≡ ((concerns gr is_public ms && matches_here ms) || any_claims is_public rest.0)
    unfolding concerns
    add-claims_included = ground (
      arith,
      has-matched_names m regex_match ns ms nss listed,
      rule_for-claims json ns.name gr is_public (included ms) (sent_resources ms),
      rule_with-claims json ns.name gr is_public (selector_or_empty ms.object_selector)
          (sent_resources ms),
    )

    add-claims_excluded :
        any_claims is_public (add ms rest).1
        ≡ ((concerns gr is_public ms && not (matches_here ms)) || any_claims is_public rest.1)
    unfolding concerns
    add-claims_excluded = ground (
      arith,
      has-matched_names m regex_match ns ms nss listed,
      rule_for-claims json ns.name gr is_public (excluded ms) (sent_resources ms),
      rule_with-claims json ns.name gr is_public (selector_or_empty ms.object_selector)
          (sent_resources ms),
    )

    add-names_included : any_names_it (add ms rest).0 ≡ (is_named_by gr ms || any_names_it rest.0)
    unfolding is_named_by
    add-names_included = ground (
      arith,
      has-matched_names m regex_match ns ms nss listed,
      rule_for-claims json ns.name gr is_public (included ms) (sent_resources ms),
      rule_with-claims json ns.name gr is_public (selector_or_empty ms.object_selector)
          (sent_resources ms),
    )

    add-names_excluded : any_names_it (add ms rest).1 ≡ (is_named_by gr ms || any_names_it rest.1)
    unfolding is_named_by
    add-names_excluded = ground (
      arith,
      has-matched_names m regex_match ns ms nss listed,
      rule_for-claims json ns.name gr is_public (excluded ms) (sent_resources ms),
      rule_with-claims json ns.name gr is_public (selector_or_empty ms.object_selector)
          (sent_resources ms),
    )

    add-admits :
        all_admit (add ms rest).0
        ≡ (not (is_excluded_by m regex_match ns gr ms) && all_admit rest.0)
    unfolding is_excluded_by
    add-admits = ground (
      arith,
      has-matched_names m regex_match ns ms nss listed,
      rule_for-claims json ns.name gr is_public (included ms) (sent_resources ms),
      rule_with-claims json ns.name gr is_public (selector_or_empty ms.object_selector)
          (sent_resources ms),
    )

  -- A proxy that reads the included rules claims what the limits concern and match.
  pub included-claims :
      (is_public : Bool) (limits : List MatchLimitSelector)
      → any_claims is_public (generated limits).0
        ≡ any (λ ms. concerns gr is_public ms && matches_here ms) limits
  unfolding generate_match_limit_rules
  included-claims is_public [] = refl
  included-claims is_public (ms ∷ limits) =
      rw (add-claims_included is_public ms (generated limits), included-claims is_public limits)

  -- A proxy that reads the excluded rules claims what the limits concern and do not match.
  pub excluded-claims :
      (is_public : Bool) (limits : List MatchLimitSelector)
      → any_claims is_public (generated limits).1
        ≡ any (λ ms. concerns gr is_public ms && not (matches_here ms)) limits
  unfolding generate_match_limit_rules
  excluded-claims is_public [] = refl
  excluded-claims is_public (ms ∷ limits) =
      rw (add-claims_excluded is_public ms (generated limits), excluded-claims is_public limits)

  pub included-names :
      (limits : List MatchLimitSelector)
      → any_names_it (generated limits).0 ≡ any (is_named_by gr) limits
  unfolding generate_match_limit_rules
  included-names [] = refl
  included-names (ms ∷ limits) =
      rw (add-names_included true ms (generated limits), included-names limits)

  pub excluded-names :
      (limits : List MatchLimitSelector)
      → any_names_it (generated limits).1 ≡ any (is_named_by gr) limits
  unfolding generate_match_limit_rules
  excluded-names [] = refl
  excluded-names (ms ∷ limits) =
      rw (add-names_excluded true ms (generated limits), excluded-names limits)

  pub included-admits :
      (limits : List MatchLimitSelector)
      → all_admit (generated limits).0 ≡ not (any (is_excluded_by m regex_match ns gr) limits)
  unfolding generate_match_limit_rules
  included-admits [] = refl
  included-admits (ms ∷ limits) =
      rw (add-admits true ms (generated limits), included-admits limits) (ground arith)
