-- ===== src/Route/Reference.antt =====
-- A reference definition of the subset of a request, with no loop state, and its equivalence.
use controllermesh.Prelude.{
  String, List, [], ◌∷◌, Option, none, some, Bool, false, not, ◌&&◌, ◌||◌, ◌==◌, ◌≡◌, refl, arith,
  has, nonempty, is_some, if◌then◌else◌, all, any, or_else,
}
use controllermesh.Route.{
  GroupResource, MatchLimitRule, SubsetLimit, InternalRoute, is_gr_matched_api_resources,
  is_for_others, passes_global_limits, visit_limit, visit_limits, visit_subsets, claimed_or_public,
  determine_namespace_subset, all_subset_public,
}

module _ (ns : String) (gr : GroupResource) where
  -- A global limit excludes the namespaces that it does not list, for the resources that it is
  -- about; a limit with an object selector excludes none.
  abbrev pub admits : MatchLimitRule → Bool
  admits limit = is_for_others gr limit || is_some limit.object_selector || has ns limit.namespaces

  -- The limit names this resource.
  unfoldable pub names : MatchLimitRule → Bool
  names limit =
      not (is_some limit.object_selector)
      && nonempty limit.resources
      && is_gr_matched_api_resources gr limit.resources

  -- The limit is about this resource, by name or, unless the resource is public, as any other.
  unfoldable pub applies : Bool → MatchLimitRule → Bool
  unfolding names
  applies is_public limit =
      names limit
      || (not (is_some limit.object_selector) && not (nonempty limit.resources) && not is_public)

  unfoldable pub claims : Bool → MatchLimitRule → Bool
  unfolding applies
  claims is_public limit = applies is_public limit && has ns limit.namespaces

  -- The first subset with a limit that claims the namespace.
  abbrev pub first_claim : Bool → List SubsetLimit → Option String
  first_claim is_public [] = none
  first_claim is_public (s ∷ ss) =
      if any (claims is_public) s.limits then some s.subset else first_claim is_public ss

  abbrev pub any_names : List SubsetLimit → Bool
  any_names ss = any (λ s. any names s.limits) ss

  passes_global_limits-all :
      (limits : List MatchLimitRule) → passes_global_limits ns gr limits ≡ all admits limits
  unfolding passes_global_limits
  passes_global_limits-all [] = refl
  passes_global_limits-all (l ∷ ls) = ground (arith, passes_global_limits-all ls)

  visit_limit_lem :
      (is_public : Bool) (l : MatchLimitRule) (flag : Bool)
      → visit_limit ns gr is_public l flag ≡ (claims is_public l, flag || names l)
  unfolding visit_limit claims
  visit_limit_lem is_public l flag = ground arith

  -- Where no limit claims, all were visited.
  visit_limits_lem :
      (is_public : Bool) (ls : List MatchLimitRule) (flag : Bool)
      → ((visit_limits ns gr is_public ls flag).0 ≡ any (claims is_public) ls)
        × (any (claims is_public) ls ≡ false
            → (visit_limits ns gr is_public ls flag).1 ≡ (flag || any names ls))
  unfolding visit_limits
  visit_limits_lem is_public [] flag = ground arith
  visit_limits_lem is_public (l ∷ ls) flag =
      ground
        (arith, visit_limit_lem is_public l flag, visit_limits_lem is_public ls (flag || names l))

  visit_subsets_lem :
      (is_public : Bool) (ss : List SubsetLimit) (flag : Bool)
      → ((visit_subsets ns gr is_public ss flag).0 ≡ first_claim is_public ss)
        × (first_claim is_public ss ≡ none
            → (visit_subsets ns gr is_public ss flag).1 ≡ (flag || any_names ss))
  unfolding visit_subsets
  visit_subsets_lem is_public [] flag = ground arith
  visit_subsets_lem is_public (s ∷ ss) flag = ground (
    arith,
    visit_limits_lem is_public s.limits flag,
    visit_subsets_lem is_public ss (flag || any names s.limits),
  )

  claimed_or_public_lem :
      (is_public : Bool) (r : Option String × Bool) (first : Option String) (named : Bool)
      → r.0 ≡ first
      → (first ≡ none → r.1 ≡ named)
      → claimed_or_public is_public r
        ≡ or_else first (if is_public && not named then some all_subset_public else none)
  claimed_or_public_lem is_public (some s, flag) first named e h = ground arith
  claimed_or_public_lem is_public (none, flag) first named e h = ground arith

-- The subset of a request, by cases: the cluster scope is the default subset's; a namespace that a
-- global limit excludes is nobody's; then the first subset that claims it; then everybody's, if the
-- resource is public and no limit names it.
abbrev pub subset_of : InternalRoute → String → GroupResource → Option String
subset_of ir ns gr =
    let is_public = is_gr_matched_api_resources gr ir.subset_public_resources in
    if ns == ""
    then some ""
    else if all (admits ns gr) ir.global_limits
    then or_else (first_claim ns gr is_public ir.subset_limits) (
        if is_public && not (any_names ns gr ir.subset_limits)
        then some all_subset_public
        else none)
    else none

-- The loops with their flag and early returns compute the reference definition, on every route.
pub determine_namespace_subset-subset_of :
    (ir : InternalRoute) (ns : String) (gr : GroupResource)
    → determine_namespace_subset ir ns gr ≡ subset_of ir ns gr
unfolding determine_namespace_subset
determine_namespace_subset-subset_of ir ns gr =
    let is_public = is_gr_matched_api_resources gr ir.subset_public_resources in
    let scan = visit_subsets_lem ns gr is_public ir.subset_limits false in
    rw (
      passes_global_limits-all ns gr ir.global_limits,
      claimed_or_public_lem ns gr is_public (visit_subsets ns gr is_public ir.subset_limits false)
          (first_claim ns gr is_public ir.subset_limits) (any_names ns gr ir.subset_limits) scan.0
          scan.1,
    )
