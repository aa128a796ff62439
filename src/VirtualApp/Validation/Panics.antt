-- ===== src/VirtualApp/Validation/Panics.antt =====
-- The VirtualApps that the validation panics at.
use controllermesh.Prelude.{
  String, List, [], ◌∷◌, Option, none, some, Bool, true, false, not, ◌&&◌, ◌≡◌, refl, arith, insert,
  is_some,
}
use controllermesh.Prelude.Results.{Result, ok, err, panic, ◌>>=◌}
use controllermesh.Selector.{LabelSelector}
use controllermesh.VirtualApp.{
  VirtualApp, MatchLimitSelector, SubRule, Subset, Route, Configuration,
}
use controllermesh.VirtualApp.Validation.{
  validate_match_limit_selector, validate_limits, validate_sub_rules, validate_route,
  validate_rule_names, validate_subsets, validate_configuration, validate,
}
use controllermesh.VirtualApp.Validation.Accepted.{selector_is_valid}

abbrev pub is_panic {ℓ} : {E A : Type ℓ} → Result E A → Bool
is_panic (ok a) = false
is_panic (err e) = false
is_panic panic = true

-- A part that does not panic, in front of another that does not for any of its results.
is_panic-bind {ℓ} :
    {E A B : Type ℓ} (r : Result E A) (f : A → Result E B)
    → is_panic r ≡ false
    → ((a : A) → is_panic (f a) ≡ false)
    → is_panic (r >>= f) ≡ false
is_panic-bind (ok a) f h k = k a
is_panic-bind (err e) f h k = refl
is_panic-bind panic f h k = h

module _ (as_selector : Option LabelSelector → Option Bool) (compiles : String → Bool) where
  limit-returns :
      (ms : MatchLimitSelector)
      → is_panic (validate_match_limit_selector as_selector compiles ms) ≡ false
  unfolding validate_match_limit_selector
  limit-returns ms = ground arith

  limits-return :
      (ms : List MatchLimitSelector) → is_panic (validate_limits as_selector compiles ms) ≡ false
  unfolding validate_limits
  limits-return [] = refl
  limits-return (m ∷ ms) =
      is_panic-bind (validate_match_limit_selector as_selector compiles m)
        (λ _. validate_limits as_selector compiles ms) (limit-returns m) (λ _. limits-return ms)

  sub_rules-return :
      (rs : List SubRule) (used : List String)
      → is_panic (validate_sub_rules as_selector compiles rs used) ≡ false
  unfolding validate_sub_rules
  sub_rules-return [] used = refl
  sub_rules-return (r ∷ rs) used =
      ground (arith, limits-return r.match_limits, sub_rules-return rs (insert r.name used))

  route-returns :
      (route : Option Route) → is_panic (validate_route as_selector compiles route) ≡ false
  unfolding validate_route
  route-returns none = refl
  route-returns (some r) =
      ground (arith, limits-return r.global_limits, sub_rules-return r.sub_rules [])

  rule_names-return :
      (known names used : List String)
      → is_panic (validate_rule_names as_selector compiles known names used) ≡ false
  unfolding validate_rule_names
  rule_names-return known [] used = refl
  rule_names-return known (name ∷ names) used =
      ground (arith, rule_names-return known names (insert name used))

  subsets-return :
      (known : List String) (ss : List Subset) (names used : List String)
      → is_panic (validate_subsets as_selector compiles known ss names used) ≡ false
  unfolding validate_subsets
  subsets-return known [] names used = refl
  subsets-return known (s ∷ ss) names used =
      let rest =
        is_panic-bind (validate_rule_names as_selector compiles known s.route_rules used)
          (λ used'. validate_subsets as_selector compiles known ss (insert s.name names) used')
          (rule_names-return known s.route_rules used)
          (λ used'. subsets-return known ss (insert s.name names) used') in
      ground (arith, rest)

  configuration-panics :
      (ss : List Subset) (c : Option Configuration)
      → is_panic (validate_configuration as_selector compiles ss c) ≡ not (is_some c)
  unfolding validate_configuration
  configuration-panics ss none = refl
  configuration-panics ss (some c) = ground arith

  -- The validation panics at exactly the VirtualApps that have a valid selector and no configuration:
  -- at all others, whatever their routes and subsets are, it returns.
  pub validate-panics :
      (obj : VirtualApp)
      → is_panic (validate as_selector compiles obj) ≡ (
          selector_is_valid as_selector compiles obj.spec.selector
          && not (is_some obj.spec.configuration))
  unfolding validate
  validate-panics obj =
      let rest =
        is_panic-bind (validate_route as_selector compiles obj.spec.route)
          (λ known. validate_subsets as_selector compiles known obj.spec.subsets [] [])
          (route-returns obj.spec.route) (λ known. subsets-return known obj.spec.subsets [] []) in
      ground (arith, configuration-panics obj.spec.subsets obj.spec.configuration, rest)
