-- ===== src/Server/Generated.antt =====
-- The limits that a proxy makes of the generated rules.
use controllermesh.Prelude.{
  String, List, [], ◌∷◌, ◌++◌, Option, none, some, Bool, false, not, ◌&&◌, ◌||◌, ◌≡◌, refl, arith,
  any, map, if◌then◌else◌, or_else, ap₂, ◌∙◌,
}
use controllermesh.Prelude.Maps.{Map}
use controllermesh.Proto
use controllermesh.Proto.{ProxySpec, Endpoint}
use controllermesh.Selector.Meaning.{Matching}
use controllermesh.Kube.{Namespace}
use controllermesh.Route.{GroupResource, SubsetLimit}
use controllermesh.Route.Convert.{convert_subset_limit, convert_proto_match_limit_rule_to_internal}
use controllermesh.Route.Reference.{claims, names, first_claim, any_names}
use controllermesh.VirtualApp.{MatchLimitSelector, Subset}
use controllermesh.Server.{
  SelectorJson, generate_match_limit_rules, generate_subset_limits, limits_of_rules,
}
use controllermesh.Server.Partition.{
  IsListed, concerns, is_named_by, receive, any_claims, any_names_it, matches_here, included-claims,
  excluded-claims, included-names, excluded-names,
}

abbrev pub Rules : Type 0
Rules = Map (List MatchLimitSelector)

any-append {ℓ} :
    {A : Type ℓ} (p : A → Bool) (xs ys : List A) → any p (xs ++ ys) ≡ (any p xs || any p ys)
any-append p [] ys = refl
any-append p (x ∷ xs) ys = ground (arith, any-append p xs ys)

any-map_append {ℓ κ} :
    {A : Type ℓ} {B : Type κ} (p : B → Bool) (f : A → B) (xs ys : List A)
    → any p (map f (xs ++ ys)) ≡ (any p (map f xs) || any p (map f ys))
any-map_append p f [] ys = refl
any-map_append p f (x ∷ xs) ys = ground (arith, any-map_append p f xs ys)

module _ (rules : Rules) where
  -- Some limit of some subset satisfies `p`.
  abbrev pub any_limit : (MatchLimitSelector → Bool) → List Subset → Bool
  any_limit p ss = any (λ s. any p (limits_of_rules rules s.route_rules)) ss

  -- The first subset with a limit that satisfies `p`.
  abbrev pub first_with : (MatchLimitSelector → Bool) → List Subset → Option String
  first_with p [] = none
  first_with p (s ∷ ss) =
      if any p (limits_of_rules rules s.route_rules) then some s.name else first_with p ss

any-split :
    (p q : MatchLimitSelector → Bool) (xs : List MatchLimitSelector)
    → any (λ x. p x && q x) xs ≡ false
    → any (λ x. p x && not (q x)) xs ≡ any p xs
any-split p q [] h = refl
any-split p q (x ∷ xs) h = ground (arith, any-split p q xs)

-- Where no limit that satisfies `p` satisfies `q`, all that satisfy `p` fail `q`.
pub any_limit-split :
    (rules : Rules) (p q : MatchLimitSelector → Bool) (ss : List Subset)
    → first_with rules (λ x. p x && q x) ss ≡ none
    → any_limit rules (λ x. p x && not (q x)) ss ≡ any_limit rules p ss
any_limit-split rules p q [] h = refl
any_limit-split rules p q (s ∷ ss) h =
    ground
      (arith, any-split p q (limits_of_rules rules s.route_rules), any_limit-split rules p q ss)

module _ (m : Matching) (regex_match : String → String → Option Bool) (json : SelectorJson)
    (ns : Namespace) (gr : GroupResource) (nss : List Namespace) (listed : IsListed ns nss) where
  abbrev here : MatchLimitSelector → Bool
  here = matches_here m regex_match json ns gr nss listed

  abbrev generated_limits : Rules → List Subset → List Proto.SubsetLimit × List Proto.MatchLimitRule
  generated_limits = generate_subset_limits m regex_match json nss

  abbrev convert : Proto.SubsetLimit → SubsetLimit
  convert = convert_subset_limit json.decode

  pub excludes-claims :
      (rules : Rules) (is_public : Bool) (ss : List Subset)
      → any_claims m regex_match json ns gr nss listed is_public (generated_limits rules ss).1
        ≡ any_limit rules (λ ms. concerns gr is_public ms && not (here ms)) ss
  excludes-claims rules is_public [] = refl
  excludes-claims rules is_public (s ∷ ss) =
      let limits = limits_of_rules rules s.route_rules in
      any-map_append (claims ns.name gr is_public) (receive json)
        (generate_match_limit_rules m regex_match json nss limits).1 (generated_limits rules ss).1
      ∙ ap₂ ◌||◌ (excluded-claims m regex_match json ns gr nss listed is_public limits)
          (excludes-claims rules is_public ss)

  pub excludes-names :
      (rules : Rules) (ss : List Subset)
      → any_names_it m regex_match json ns gr nss listed (generated_limits rules ss).1
        ≡ any_limit rules (is_named_by gr) ss
  excludes-names rules [] = refl
  excludes-names rules (s ∷ ss) =
      let limits = limits_of_rules rules s.route_rules in
      any-map_append (names ns.name gr) (receive json)
        (generate_match_limit_rules m regex_match json nss limits).1 (generated_limits rules ss).1
      ∙ ap₂ ◌||◌ (excluded-names m regex_match json ns gr nss listed limits)
          (excludes-names rules ss)

  pub first_claim-generated :
      (rules : Rules) (is_public : Bool) (ss : List Subset) (d : SubsetLimit)
      → first_claim ns.name gr is_public (map convert (generated_limits rules ss).0 ++ d ∷ [])
        ≡ or_else
            (first_with rules (λ ms. concerns gr is_public ms && here ms) ss)
            (if any (claims ns.name gr is_public) d.limits then some d.subset else none)
  unfolding convert_proto_match_limit_rule_to_internal
  first_claim-generated rules is_public [] d = refl
  first_claim-generated rules is_public (s ∷ ss) d =
      let limits = limits_of_rules rules s.route_rules in
      ground (
        arith,
        included-claims m regex_match json ns gr nss listed is_public limits,
        first_claim-generated rules is_public ss d,
      )

  pub any_names-generated :
      (rules : Rules) (ss : List Subset) (d : SubsetLimit)
      → any_names ns.name gr (map convert (generated_limits rules ss).0 ++ d ∷ [])
        ≡ (any_limit rules (is_named_by gr) ss || any (names ns.name gr) d.limits)
  unfolding convert_proto_match_limit_rule_to_internal
  any_names-generated rules [] d = ground arith
  any_names-generated rules (s ∷ ss) d =
      let limits = limits_of_rules rules s.route_rules in
      ground (
        arith,
        included-names m regex_match json ns gr nss listed limits,
        any_names-generated rules ss d,
      )
