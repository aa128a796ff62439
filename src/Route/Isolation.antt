-- ===== src/Route/Isolation.antt =====
-- What the proxies of different subsets, which are sent the same limits, make of one request.
use controllermesh.Prelude.{
  String, List, [], ◌∷◌, Option, none, some, Bool, true, false, ◌==◌, ◌≡◌, ◌⊎◌, refl, arith, eq_iff,
  eq_refl, ◌↔◌, map, select,
}
use controllermesh.Proto.{Endpoint}
use controllermesh.Route.{
  GroupResource, InternalSpec, determine_namespace_subset, is_namespace_match, is_own_subset,
  get_matched_subset_endpoint, hosts_of, all_subset_public,
}

-- The manager sends all proxies of an application the same limits, each with its own subset.
pub record SharesLimits (a b : InternalSpec) : Type 0 where
  pub globals : a.route_internal.global_limits ≡ b.route_internal.global_limits
  pub subsets : a.route_internal.subset_limits ≡ b.route_internal.subset_limits
  pub publics : a.route_internal.subset_public_resources ≡ b.route_internal.subset_public_resources

module _ (ns : String) (gr : GroupResource) where
  -- All proxies determine the same subset.
  pub determine-SharesLimits :
      (a b : InternalSpec)
      → SharesLimits a b
      → determine_namespace_subset a.route_internal ns gr
        ≡ determine_namespace_subset b.route_internal ns gr
  unfolding determine_namespace_subset
  determine-SharesLimits a b s = rw (s.globals, s.subsets, s.publics)

  -- The subset that a proxy takes a request of is its own, or the request is everybody's.
  pub own_cases :
      (a : InternalSpec) (o : Option String)
      → elim o [ none ↦ false | some subset ↦ is_own_subset a subset ] ≡ true
      → (o ≡ some all_subset_public) ⊎ (o ≡ some a.route_internal.subset)
  own_cases a none h = cc
  own_cases a (some x) h =
      ground (arith, eq_iff x all_subset_public, eq_iff x a.route_internal.subset)

  abbrev pub in_subset : String → Endpoint → Bool
  in_subset subset e = e.subset == subset

  -- A webhook request is served here exactly when its namespace matches, and ignored exactly when
  -- no subset is determined for it.
  pub get_matched_subset_endpoint-self :
      (a : InternalSpec)
      → ((get_matched_subset_endpoint a ns gr).self ≡ is_namespace_match a ns gr)
        × (((get_matched_subset_endpoint a ns gr).ignore ≡ true)
            ↔ (determine_namespace_subset a.route_internal ns gr ≡ none))
  unfolding is_namespace_match get_matched_subset_endpoint
  get_matched_subset_endpoint-self a = ground arith

  hosts_of-select :
      (subset : String) (es : List Endpoint)
      → hosts_of subset es ≡ map (λ e. e.ip) (select (in_subset subset) es)
  hosts_of-select subset [] = refl
  hosts_of-select subset (e ∷ es) = ground (arith, hosts_of-select subset es)

  -- A webhook request that is neither served here nor ignored goes to the endpoints of the
  -- determined subset, in their order, and a proxy of that subset with the same limits serves it.
  pub get_matched_subset_endpoint-redirect :
      (a b : InternalSpec)
      → SharesLimits a b
      → (get_matched_subset_endpoint a ns gr).ignore ≡ false
      → (get_matched_subset_endpoint a ns gr).self ≡ false
      → determine_namespace_subset a.route_internal ns gr ≡ some b.route_internal.subset
      → ((get_matched_subset_endpoint a ns gr).hosts
          ≡ map (λ e. e.ip) (select (in_subset b.route_internal.subset) a.proxy_spec.endpoints))
        × (is_namespace_match b ns gr ≡ true)
  unfolding is_namespace_match get_matched_subset_endpoint
  get_matched_subset_endpoint-redirect a b s i o d = ground (
    arith,
    determine-SharesLimits a b s,
    hosts_of-select b.route_internal.subset a.proxy_spec.endpoints,
    eq_refl b.route_internal.subset,
  )

-- Only the default subset lets requests of the cluster scope through, whatever the limits.
pub is_namespace_match-cluster_scope :
    (a : InternalSpec) (gr : GroupResource)
    → is_namespace_match a "" gr ≡ ("" == a.route_internal.subset)
unfolding is_namespace_match determine_namespace_subset
is_namespace_match-cluster_scope a gr = refl
