-- ===== src/Route.antt =====
-- apis/ctrlmesh/proto/ctrlmesh_internal.go: which subset handles a request. A `sets.String` is a
-- list of its members; `(string, bool)` results are options.
pub mod Convert
pub mod Reference
pub mod Isolation
pub mod Objects
pub mod Exclusion
use controllermesh.Prelude.{
  String, List, [], ◌∷◌, Option, none, some, Bool, true, false, not, ◌&&◌, ◌||◌, ◌==◌, has,
  nonempty, is_some, if◌then◌else◌,
}
use controllermesh.Proto
use controllermesh.Proto.{ApiGroupResource, Endpoint, ProxySpec}
use controllermesh.Selector.{LabelSelector, merge_label_selector, negate_label_selector}

abbrev pub all_subset_public : String
all_subset_public = "AllSubsetPublic"

abbrev pub resource_all : String
resource_all = "*"

-- schema.GroupResource
pub record GroupResource : Type 0 where
  pub group : String
  pub resource : String

pub record MatchLimitRule : Type 0 where
  pub namespaces : List String
  pub object_selector : Option LabelSelector
  pub resources : List ApiGroupResource

pub record SubsetLimit : Type 0 where
  pub subset : String
  pub limits : List MatchLimitRule

pub record InternalRoute : Type 0 where
  pub subset : String
  pub global_limits : List MatchLimitRule
  pub subset_limits : List SubsetLimit
  pub subset_public_resources : List ApiGroupResource
  pub subset_default_only_user_agents : List String

pub record InternalSpec : Type 0 where
  pub proxy_spec : ProxySpec
  pub route_internal : InternalRoute

-- `len(list) == 1 && list[0] == wildcard`
abbrev pub is_wildcard : List String → String → Bool
is_wildcard (y ∷ []) wildcard = y == wildcard
is_wildcard _ wildcard = false

unfoldable pub contains_string : String → List String → String → Bool
contains_string x list wildcard = if is_wildcard list wildcard then true else has x list

unfoldable pub is_gr_matched_api_resources : GroupResource → List ApiGroupResource → Bool
unfolding contains_string
is_gr_matched_api_resources gr [] = false
is_gr_matched_api_resources gr (r ∷ rs) =
    if contains_string gr.group r.api_groups resource_all
      && contains_string gr.resource r.resources resource_all
    then true
    else is_gr_matched_api_resources gr rs

-- `len(limit.resources) > 0 && !isGRMatchedAPIResources(gr, limit.resources)`
abbrev pub is_for_others : GroupResource → MatchLimitRule → Bool
is_for_others gr limit =
    nonempty limit.resources && not (is_gr_matched_api_resources gr limit.resources)

-- The loop over the global limits; `false` is its early return.
unfoldable pub passes_global_limits : String → GroupResource → List MatchLimitRule → Bool
passes_global_limits ns gr [] = true
passes_global_limits ns gr (limit ∷ limits) =
    let rest = passes_global_limits ns gr limits in
    if is_for_others gr limit
    then rest
    else if is_some limit.object_selector
    then rest
    else if has ns limit.namespaces
    then rest
    else false

-- The loops over the subset limits return the subset that claims the namespace, if any, and the
-- flag isResourceMatchLimit.
module _ (ns : String) (gr : GroupResource) (is_public : Bool) where
  -- One round of the inner loop: does this limit claim the namespace, and the flag after it.
  unfoldable pub visit_limit : MatchLimitRule → Bool → Bool × Bool
  visit_limit limit flag =
      if is_some limit.object_selector
      then (false, flag)
      else if nonempty limit.resources
      then (if not (is_gr_matched_api_resources gr limit.resources)
          then (false, flag)
          else (has ns limit.namespaces, true))
      else if is_public
      then (false, flag)
      else (has ns limit.namespaces, flag)

  unfoldable pub visit_limits : List MatchLimitRule → Bool → Bool × Bool
  visit_limits [] flag = (false, flag)
  visit_limits (limit ∷ limits) flag =
      let (claimed, flag') = visit_limit limit flag in
      let rest = visit_limits limits flag' in if claimed then (true, flag') else rest

  unfoldable pub visit_subsets : List SubsetLimit → Bool → Option String × Bool
  visit_subsets [] flag = (none, flag)
  visit_subsets (s ∷ ss) flag =
      let (claimed, flag') = visit_limits s.limits flag in
      let rest = visit_subsets ss flag' in if claimed then (some s.subset, flag') else rest

-- What follows the loops.
abbrev pub claimed_or_public : Bool → Option String × Bool → Option String
claimed_or_public is_public (some subset, flag) = some subset
claimed_or_public is_public (none, flag) =
    if is_public && not flag then some all_subset_public else none

unfoldable pub determine_namespace_subset : InternalRoute → String → GroupResource → Option String
determine_namespace_subset ir ns gr =
    if ns == ""
    then some ""
    else if passes_global_limits ns gr ir.global_limits
    then (let is_public = is_gr_matched_api_resources gr ir.subset_public_resources in
        claimed_or_public is_public (visit_subsets ns gr is_public ir.subset_limits false))
    else none

unfoldable pub is_user_agent_match : InternalSpec → String → Bool
is_user_agent_match spec user_agent =
    let r = spec.route_internal in
    if has user_agent r.subset_default_only_user_agents then r.subset == "" else true

-- `subset == AllSubsetPublic || subset == is.routeInternal.subset`
abbrev pub is_own_subset : InternalSpec → String → Bool
is_own_subset spec subset = subset == all_subset_public || subset == spec.route_internal.subset

unfoldable pub is_namespace_match : InternalSpec → String → GroupResource → Bool
is_namespace_match spec ns gr = elim (determine_namespace_subset spec.route_internal ns gr) [
  | none ↦ false
  | some subset ↦ is_own_subset spec subset
]

abbrev pub hosts_of : String → List Endpoint → List String
hosts_of subset [] = []
hosts_of subset (e ∷ es) =
    if e.subset == subset then e.ip ∷ hosts_of subset es else hosts_of subset es

-- The result triple (ignore, self, hosts).
pub record SubsetEndpoint : Type 0 where
  pub ignore : Bool
  pub self : Bool
  pub hosts : List String

unfoldable pub get_matched_subset_endpoint : InternalSpec → String → GroupResource → SubsetEndpoint
get_matched_subset_endpoint spec ns gr =
    elim (determine_namespace_subset spec.route_internal ns gr) [
      | none ↦ record { ignore = true; self = false; hosts = [] }
      | some subset ↦
          if is_own_subset spec subset
          then record { ignore = false; self = true; hosts = [] }
          else record {
            ignore = false;
            self = false;
            hosts = hosts_of subset spec.proxy_spec.endpoints;
          }
    ]

-- One round of the loops over limits in `getObjectSelector`.
abbrev pub merge_limit :
    GroupResource → Bool → MatchLimitRule → Option LabelSelector → Option LabelSelector
merge_limit gr is_self limit sel = elim limit.object_selector [
  | none ↦ sel
  | some s ↦
      if is_for_others gr limit
      then sel
      else if is_self
      then merge_label_selector sel (some s)
      else merge_label_selector sel (negate_label_selector (some s))
]

unfoldable pub merge_limits :
    GroupResource → Bool → List MatchLimitRule → Option LabelSelector → Option LabelSelector
merge_limits gr is_self [] sel = sel
merge_limits gr is_self (limit ∷ limits) sel =
    merge_limits gr is_self limits (merge_limit gr is_self limit sel)

-- The loop over the subsets ends behind the own one.
unfoldable pub merge_subsets :
    GroupResource → String → List SubsetLimit → Option LabelSelector → Option LabelSelector
merge_subsets gr own [] sel = sel
merge_subsets gr own (s ∷ ss) sel =
    let sel' = merge_limits gr (s.subset == own) s.limits sel in
    let rest = merge_subsets gr own ss sel' in if s.subset == own then sel' else rest

unfoldable pub get_object_selector : InternalSpec → GroupResource → Option LabelSelector
get_object_selector spec gr =
    let r = spec.route_internal in
    merge_subsets gr r.subset r.subset_limits (merge_limits gr true r.global_limits none)
