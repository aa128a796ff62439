-- ===== src/Router/Filter.antt =====
-- What a client gets of a list: the objects of its proxy's namespaces.
use controllermesh.Prelude.{
  List, [], ◌∷◌, none, some, Bool, true, false, not, ◌||◌, ◌≡◌, refl, arith, all, select,
  if◌then◌else◌,
}
use controllermesh.Route.{GroupResource, InternalSpec, is_namespace_match}
use controllermesh.RequestsStore.{ResourceRequest}
use controllermesh.Router.{
  Item, ListObject, unstructured, typed, filter_items, filter_typed, filter_unstructured,
  empty_request, note_namespace,
}

module _ (spec : InternalSpec) (gr : GroupResource) where
  -- The items that a list is to keep: those that are no objects are only in typed lists.
  abbrev pub is_kept : Item → Bool
  is_kept item = not item.is_object || is_namespace_match spec item.namespace gr

  filter_typed-items :
      (items : List Item) (rr : ResourceRequest)
      → (filter_typed spec gr items rr).items ≡ select is_kept items
  unfolding filter_typed
  filter_typed-items [] rr = refl
  filter_typed-items (item ∷ items) rr = ground (
    arith,
    filter_typed-items items (note_namespace spec gr item.namespace rr),
    filter_typed-items items rr,
  )

  filter_unstructured-failed :
      (items : List Item) (rr : ResourceRequest)
      → (filter_unstructured spec gr items rr).failed ≡ not (all (λ i. i.is_object) items)
  unfolding filter_unstructured
  filter_unstructured-failed [] rr = refl
  filter_unstructured-failed (item ∷ items) rr =
      ground (arith, filter_unstructured-failed items (note_namespace spec gr item.namespace rr))

  filter_unstructured-items :
      (items : List Item) (rr : ResourceRequest)
      → all (λ i. i.is_object) items ≡ true
      → (filter_unstructured spec gr items rr).items ≡ select is_kept items
  unfolding filter_unstructured
  filter_unstructured-items [] rr h = refl
  filter_unstructured-items (item ∷ items) rr h =
      ground (arith, filter_unstructured-items items (note_namespace spec gr item.namespace rr))

  -- The items of a list object; none where they cannot be got.
  abbrev pub items_of : ListObject → List Item
  items_of (unstructured none) = []
  items_of (unstructured (some items)) = items
  items_of (typed extracted items) = items

  -- An unstructured list with a member that is no object, and a typed one that ExtractList does not
  -- take, go on unfiltered.
  abbrev pub kept_items : ListObject → List Item
  kept_items (unstructured (some items)) =
      if all (λ i. i.is_object) items then select is_kept items else items
  kept_items (typed false items) = items
  kept_items list = select is_kept (items_of list)

  -- A client whose user agent is denied gets no items. Another one gets, in their order, the items
  -- whose namespace the spec has for the proxy, and the items of a typed list that are no objects;
  -- but an unstructured list with a member that is no object, and a typed one whose items cannot be
  -- extracted, go on with all their items.
  pub filter_items-kept_items :
      (denied : Bool) (list : ListObject)
      → (filter_items spec gr denied list).0 ≡ (if denied then [] else kept_items list)
  unfolding filter_items
  filter_items-kept_items denied (unstructured none) = ground arith
  filter_items-kept_items denied (typed false items) = ground arith
  filter_items-kept_items denied (unstructured (some items)) = ground (
    arith,
    filter_unstructured-failed items (empty_request gr),
    filter_unstructured-items items (empty_request gr),
  )
  filter_items-kept_items denied (typed true items) =
      ground (arith, filter_typed-items items (empty_request gr))
