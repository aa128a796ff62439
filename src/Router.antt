-- ===== src/Router.antt =====
-- proxy/apiserver/router/router.go and proxy/webhook/router/router.go: what a proxy does about a
-- request, and what it tells the manager of specs about it. Discovery, the parsing and writing of a
-- query's selector and the codecs of responses are other packages': their answers are arguments.
pub mod Decided
pub mod Filter
pub mod Watch
use controllermesh.Prelude.{
  ℕ, String, List, [], ◌∷◌, ◌++◌, Option, none, some, Bool, true, false, not, ◌||◌, ◌==◌, nonempty,
  insert, if◌then◌else◌,
}
use controllermesh.Selector.{LabelSelector}
use controllermesh.Route.{
  GroupResource, InternalSpec, SubsetEndpoint, is_user_agent_match, is_namespace_match,
  get_object_selector, get_matched_subset_endpoint,
}
use controllermesh.RequestsStore.{ResourceRequest}

-- request.RequestInfo and the request's user agent
pub record RequestInfo : Type 0 where
  pub is_resource_request : Bool
  pub group_resource : GroupResource
  pub namespace : String
  pub verb : String
  pub user_agent : String

-- utildiscovery.DiscoverGVR
pub data Discovery : Type 0 where
  discovered no_resource undiscovered : Discovery

-- RouteAccept by what it modifies, Error by its code; `crashed` is the panic at a nil spec.
pub data Answer : Type 0 where
  accept : Answer
  accept_list accept_watch : Bool → Answer
  refuse : ℕ → Answer
  crashed : Answer

abbrev pub empty_request : GroupResource → ResourceRequest
empty_request gr = record {
  gr = gr;
  object_selector = none;
  namespace_passed = [];
  namespace_denied = [];
  user_agent_passed = none;
  user_agent_denied = none;
}

abbrev pub agent_request : Bool → String → GroupResource → ResourceRequest
agent_request matched ua gr =
    if matched
    then record (empty_request gr) { user_agent_passed = some ua }
    else record (empty_request gr) { user_agent_denied = some ua }

-- The cases of the switch that return.
abbrev pub accept_stream : String → Bool → Answer
accept_stream verb denied = if verb == "list" then accept_list denied else accept_watch denied

module _ (inject_ok : LabelSelector → Bool) where
  abbrev pub route_stream :
      InternalSpec
      → RequestInfo
      → Bool
      → ResourceRequest
      → Option LabelSelector
      → Answer × ResourceRequest
  route_stream spec info matched rr none = (accept_stream info.verb (not matched), rr)
  route_stream spec info matched rr (some sel) =
      if inject_ok sel
      then (accept_stream info.verb (not matched), record rr { object_selector = some sel })
      else (refuse 500, rr)

  -- `Route` between AcquireSpec and ReleaseSpec.
  abbrev pub route_with : InternalSpec → RequestInfo → Discovery → Answer × ResourceRequest
  route_with spec info discovery =
      let gr = info.group_resource in
      let matched = is_user_agent_match spec info.user_agent in
      let rr = agent_request matched info.user_agent gr in
      elim discovery [
        | no_resource ↦ (accept, rr)
        | undiscovered ↦ (refuse 404, rr)
        | discovered ↦
            if info.verb == "list" || info.verb == "watch"
            then route_stream spec info matched rr (get_object_selector spec gr)
            else if not matched
            then (refuse 403, rr)
            else if not (is_namespace_match spec info.namespace gr)
            then (refuse 403, rr)
            else (accept, rr)
      ]

  -- The answer, and the request that the spec is released with, if it was acquired.
  unfoldable pub route :
      Option InternalSpec → RequestInfo → Discovery → Answer × Option ResourceRequest
  route current info discovery =
      if not info.is_resource_request then (accept, none) else (elim current [
        | none ↦ (crashed, some (empty_request info.group_resource))
        | some spec ↦ let (answer, rr) = route_with spec info discovery in (answer, some rr)
      ])

-- An item of a list: is it an object at all, that is, a map of an unstructured list or an item
-- that apimeta.Accessor takes, and its namespace.
pub record Item : Type 0 where
  pub is_object : Bool
  pub namespace : String

-- `obj`. An unstructured one without a list of items is `none`; a typed one says whether
-- apimeta.ExtractList takes it.
pub data ListObject : Type 0 where
  unstructured : Option (List Item) → ListObject
  typed : Bool → List Item → ListObject

-- What a loop leaves behind: the new items, the record, and whether it returned an error.
pub record Filtered : Type 0 where
  pub items : List Item
  pub request : ResourceRequest
  pub failed : Bool

module _ (spec : InternalSpec) (gr : GroupResource) where
  -- `rr.NamespacePassed.Insert(ns)` or `rr.NamespaceDenied.Insert(ns)`, if `ns` is not empty
  abbrev pub note_namespace : String → ResourceRequest → ResourceRequest
  note_namespace ns rr =
      if ns == ""
      then rr
      else if is_namespace_match spec ns gr
      then record rr { namespace_passed = insert ns rr.namespace_passed }
      else record rr { namespace_denied = insert ns rr.namespace_denied }

  abbrev pub keep_item : Bool → Item → Filtered → Filtered
  keep_item kept item f = if kept then record f { items = item ∷ f.items } else f

  unfoldable pub filter_unstructured : List Item → ResourceRequest → Filtered
  filter_unstructured [] rr = record { items = []; request = rr; failed = false }
  filter_unstructured (item ∷ items) rr =
      let rest = filter_unstructured items (note_namespace item.namespace rr) in
      if not item.is_object
      then record { items = []; request = rr; failed = true }
      else keep_item (is_namespace_match spec item.namespace gr) item rest

  unfoldable pub filter_typed : List Item → ResourceRequest → Filtered
  filter_typed [] rr = record { items = []; request = rr; failed = false }
  filter_typed (item ∷ items) rr =
      let rest =
        filter_typed items (if item.is_object then note_namespace item.namespace rr else rr) in
      keep_item (not item.is_object || is_namespace_match spec item.namespace gr) item rest

  -- filterItems behind AcquireSpec; the items are replaced where there is no error.
  abbrev pub filter_list : ListObject → Filtered
  filter_list (unstructured none) = record { items = []; request = empty_request gr; failed = true }
  filter_list (unstructured (some items)) =
      let f = filter_unstructured items (empty_request gr) in
      if f.failed then record f { items = items } else f
  filter_list (typed false items) = record {
    items = items;
    request = empty_request gr;
    failed = true;
  }
  filter_list (typed true items) = filter_typed items (empty_request gr)

-- The items that the client gets, where there are any, and the request that is released.
unfoldable pub filter_items :
    InternalSpec → GroupResource → Bool → ListObject → List Item × Option ResourceRequest
unfolding filter_unstructured filter_typed
filter_items spec gr user_agent_denied list =
    if user_agent_denied
    then ([], none)
    else (let f = filter_list spec gr list in (f.items, some f.request))

-- filterEvent: does the event go on as it is (or become a bookmark), and the request that is
-- released. `meta` is the object's namespace, where it has one to read.
pub data EventResult : Type 0 where
  as_it_is bookmark event_error : EventResult

unfoldable pub filter_event :
    InternalSpec → GroupResource → Bool → Option String → EventResult × Option ResourceRequest
filter_event spec gr user_agent_denied meta =
    if user_agent_denied then (bookmark, none) else (elim meta [
      | none ↦ (event_error, none)
      | some ns ↦
          if not (is_namespace_match spec ns gr)
          then (bookmark, some (record (empty_request gr) { namespace_denied = ns ∷ [] }))
          else (as_it_is, some (record (empty_request gr) { namespace_passed = ns ∷ [] }))
    ])

-- The webhook proxy's Route: exactly one of its four results.
pub data Admission : Type 0 where
  admit ignore : Admission
  redirect : List String → Admission
  no_endpoints : Admission

unfoldable pub route_admission : InternalSpec → String → GroupResource → Admission
unfolding get_matched_subset_endpoint
route_admission spec ns gr =
    let e = get_matched_subset_endpoint spec ns gr in
    if e.ignore
    then ignore
    else if e.self
    then admit
    else if nonempty e.hosts
    then redirect e.hosts
    else no_endpoints
