-- ===== src/Router/Decided.antt =====
-- What the routers tell the manager of specs about a request.
use controllermesh.Prelude.{
  String, List, [], ◌∷◌, Option, none, some, Bool, true, false, ◌≡◌, refl, arith, subst, ◌∙◌,
}
use controllermesh.Selector.{LabelSelector}
use controllermesh.Route.{GroupResource, InternalSpec}
use controllermesh.RequestsStore.{ResourceRequest}
use controllermesh.SpecManager.{Env}
use controllermesh.SpecManager.Loadable.{namespaces_agree}
use controllermesh.SpecManager.Invariant.{is_decided, may_release}
use controllermesh.Router.{
  RequestInfo, Discovery, Item, ListObject, unstructured, typed, route, filter_items, filter_event,
  filter_typed, filter_unstructured, empty_request, note_namespace,
}

module _ (env : Env) (is_plain : GroupResource → Bool) (spec : InternalSpec) where
  -- The request that `Route` releases the spec with is decided by the spec, in every branch.
  pub route-may_release :
      (inject_ok : LabelSelector → Bool) (info : RequestInfo) (answer : Discovery)
      → is_plain info.group_resource ≡ true
      → may_release env is_plain (some spec) (route inject_ok (some spec) info answer).1 ≡ true
  unfolding route is_decided namespaces_agree
  route-may_release inject_ok info answer p = ground arith

  note_namespace-decided :
      (ns : String) (rr : ResourceRequest)
      → is_decided env is_plain spec rr ≡ true
      → is_decided env is_plain spec (note_namespace spec rr.gr ns rr) ≡ true
  unfolding is_decided namespaces_agree
  note_namespace-decided ns rr h = ground arith

  note_namespace-gr :
      (gr : GroupResource) (ns : String) (rr : ResourceRequest)
      → (note_namespace spec gr ns rr).gr ≡ rr.gr
  note_namespace-gr gr ns rr = ground arith

  -- The same for the group and resource that the handler carries.
  noted-decided :
      (gr : GroupResource) (ns : String) (rr : ResourceRequest)
      → rr.gr ≡ gr
      → is_decided env is_plain spec rr ≡ true
      → is_decided env is_plain spec (note_namespace spec gr ns rr) ≡ true
  noted-decided gr ns rr e h =
      subst (λ g. is_decided env is_plain spec (note_namespace spec g ns rr) ≡ true) e
        (note_namespace-decided ns rr h)

  module _ (gr : GroupResource) where
    filter_unstructured-decided :
        (items : List Item) (rr : ResourceRequest)
        → rr.gr ≡ gr
        → is_decided env is_plain spec rr ≡ true
        → is_decided env is_plain spec (filter_unstructured spec gr items rr).request ≡ true
    unfolding filter_unstructured
    filter_unstructured-decided [] rr e h = h
    filter_unstructured-decided (item ∷ items) rr e h =
        let noted = note_namespace spec gr item.namespace rr in
        let rest =
          filter_unstructured-decided items noted (note_namespace-gr gr item.namespace rr ∙ e)
            (noted-decided gr item.namespace rr e h) in
        ground arith

    filter_typed-decided :
        (items : List Item) (rr : ResourceRequest)
        → rr.gr ≡ gr
        → is_decided env is_plain spec rr ≡ true
        → is_decided env is_plain spec (filter_typed spec gr items rr).request ≡ true
    unfolding filter_typed
    filter_typed-decided [] rr e h = h
    filter_typed-decided (item ∷ items) rr e h =
        let noted = note_namespace spec gr item.namespace rr in
        let rest =
          filter_typed-decided items noted (note_namespace-gr gr item.namespace rr ∙ e)
            (noted-decided gr item.namespace rr e h) in
        let rest' = filter_typed-decided items rr e h in ground arith

    empty-decided : is_plain gr ≡ true → is_decided env is_plain spec (empty_request gr) ≡ true
    unfolding is_decided namespaces_agree
    empty-decided p = ground arith

    -- So is the request that a filtered list is released with, where there is one.
    pub filter_items-may_release :
        (denied : Bool) (list : ListObject)
        → is_plain gr ≡ true
        → may_release env is_plain (some spec) (filter_items spec gr denied list).1 ≡ true
    unfolding filter_items
    filter_items-may_release denied (unstructured none) p = ground (arith, empty-decided)
    filter_items-may_release denied (typed false items) p = ground (arith, empty-decided)
    filter_items-may_release denied (unstructured (some items)) p =
        ground (arith, filter_unstructured-decided items (empty_request gr) refl (empty-decided p))
    filter_items-may_release denied (typed true items) p =
        ground (arith, filter_typed-decided items (empty_request gr) refl (empty-decided p))

    -- And the request of an event.
    pub filter_event-may_release :
        (denied : Bool) (meta : Option String)
        → is_plain gr ≡ true
        → may_release env is_plain (some spec) (filter_event spec gr denied meta).1 ≡ true
    unfolding filter_event is_decided namespaces_agree
    filter_event-may_release denied meta p = ground arith
