-- ===== src/Server/Isolated.antt =====
-- Proxies of one VirtualApp whose routes the manager has generated at different times.
use controllermesh.Prelude.{String, List, Option, some, Bool, true, ◌≡◌, ◌⊎◌, refl, arith}
use controllermesh.Proto.{Endpoint}
use controllermesh.Selector.Meaning.{Matching}
use controllermesh.Kube.{Namespace}
use controllermesh.Route.{
  GroupResource, determine_namespace_subset, is_namespace_match, all_subset_public,
}
use controllermesh.Route.Convert.{convert_proto_spec_to_internal}
use controllermesh.Route.Isolation.{own_cases}
use controllermesh.VirtualApp.{VirtualApp}
use controllermesh.Server.{SelectorJson, new_spec}
use controllermesh.Server.Partition.{IsListed}
use controllermesh.Server.Routing.{received, routed_subset, determine-generated}

module _ (m : Matching) (regex_match : String → String → Option Bool) (json : SelectorJson)
    (ns : Namespace) (gr : GroupResource) where
  module _ (nss : List Namespace) (listed : IsListed ns nss) where
    own-received :
        (v_app : VirtualApp) (hash own : String) (es : List Endpoint)
        → (received m regex_match json ns gr nss listed v_app hash own es).route_internal.subset
          ≡ own
    unfolding convert_proto_spec_to_internal new_spec
    own-received v_app hash own es = refl

    received-cases :
        (v_app : VirtualApp) (hash own : String) (es : List Endpoint)
        → is_namespace_match
            (received m regex_match json ns gr nss listed v_app hash own es)
            ns.name
            gr
          ≡ true
        → (routed_subset m regex_match v_app ns gr ≡ some all_subset_public)
          ⊎ (routed_subset m regex_match v_app ns gr ≡ some own)
    unfolding is_namespace_match
    received-cases v_app hash own es h =
        let spec = received m regex_match json ns gr nss listed v_app hash own es in
        ground (
          arith,
          own-received v_app hash own es,
          determine-generated m regex_match json ns gr nss listed v_app hash own es,
          own_cases ns.name gr spec (determine_namespace_subset spec.route_internal ns.name gr) h,
        )

  -- Two proxies of one VirtualApp whose routes were generated from two lists of namespaces, each with
  -- the namespace of the request: where both let the request through, they are of one subset, or the
  -- VirtualApp leaves the request to everybody.
  pub received_exclusive :
      (v_app : VirtualApp) (nss nss' : List Namespace) (listed : IsListed ns nss)
      (listed' : IsListed ns nss') (hash hash' own own' : String) (es es' : List Endpoint)
      → is_namespace_match
          (received m regex_match json ns gr nss listed v_app hash own es)
          ns.name
          gr
        ≡ true
      → is_namespace_match
          (received m regex_match json ns gr nss' listed' v_app hash' own' es')
          ns.name
          gr
        ≡ true
      → (own ≡ own') ⊎ (routed_subset m regex_match v_app ns gr ≡ some all_subset_public)
  received_exclusive v_app nss nss' listed listed' hash hash' own own' es es' h h' = ground (
    arith,
    received-cases nss listed v_app hash own es h,
    received-cases nss' listed' v_app hash' own' es' h',
  )
