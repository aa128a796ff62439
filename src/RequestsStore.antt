-- ===== src/RequestsStore.antt =====
-- proxy/protomanager/requests_store.go: the decisions that a proxy has made, which a new spec must
-- not contradict. `gr_string` is GroupResource.String, `deep_equal` reflect.DeepEqual on selectors.
-- A nil set is the empty one. `add` returns the pack and whether it is to be written.
pub mod Growth
use controllermesh.Prelude.{
  String, List, [], ◌∷◌, Option, none, some, Bool, true, false, not, ◌||◌, has, insert, insert_all,
  difference, is_some, nonempty, if◌then◌else◌,
}
use controllermesh.Prelude.Maps.{Map, lookup, put}
use controllermesh.Selector.{LabelSelector}
use controllermesh.Route.{GroupResource}

-- ctrlmeshproto.ResourceRequest
pub record ResourceRequest : Type 0 where
  pub gr : GroupResource
  pub object_selector : Option LabelSelector
  pub namespace_passed : List String
  pub namespace_denied : List String
  pub user_agent_passed : Option String
  pub user_agent_denied : Option String

pub record RequestsPack : Type 0 where
  pub requests_by_gr : Map ResourceRequest
  pub user_agent_passed : List String
  pub user_agent_denied : List String

abbrev pub empty_pack : RequestsPack
empty_pack = record { requests_by_gr = []; user_agent_passed = []; user_agent_denied = [] }

-- The first `if` of `add`.
unfoldable pub add_user_agent : ResourceRequest → RequestsPack → RequestsPack × Bool
add_user_agent req pack = elim req.user_agent_passed [
  | some ua ↦
      if has ua pack.user_agent_passed
      then (pack, false)
      else (record pack { user_agent_passed = insert ua pack.user_agent_passed }, true)
  | none ↦ (elim req.user_agent_denied [
    | none ↦ (pack, false)
    | some ua ↦
        if has ua pack.user_agent_denied
        then (pack, false)
        else (record pack { user_agent_denied = insert ua pack.user_agent_denied }, true)
  ])
]

module _ (gr_string : GroupResource → String)
    (deep_equal : Option LabelSelector → Option LabelSelector → Bool) where
  -- The three updates of the record that is there.
  unfoldable pub merge_record : ResourceRequest → ResourceRequest → ResourceRequest × Bool
  merge_record old req =
      let passed = difference req.namespace_passed old.namespace_passed in
      let denied = difference req.namespace_denied old.namespace_denied in
      let same = deep_equal old.object_selector req.object_selector in
      (
        record old {
          object_selector = (if same then old.object_selector else req.object_selector);
          namespace_passed = insert_all passed old.namespace_passed;
          namespace_denied = insert_all denied old.namespace_denied;
        },
        not same || nonempty passed || nonempty denied,
      )

  -- `req.ObjectSelector != nil || req.NamespacePassed.Len() > 0 || req.NamespaceDenied.Len() > 0`
  abbrev pub has_record : ResourceRequest → Bool
  has_record req =
      is_some req.object_selector || nonempty req.namespace_passed || nonempty req.namespace_denied

  abbrev put_record : ResourceRequest → RequestsPack → Option ResourceRequest → RequestsPack × Bool
  put_record req pack none =
      (record pack { requests_by_gr = put (gr_string req.gr) req pack.requests_by_gr }, true)
  put_record req pack (some old) =
      let (new, changed) = merge_record old req in
      (record pack { requests_by_gr = put (gr_string req.gr) new pack.requests_by_gr }, changed)

  -- The second `if` of `add`.
  unfoldable pub add_record : ResourceRequest → RequestsPack → RequestsPack × Bool
  unfolding merge_record
  add_record req pack =
      if has_record req
      then put_record req pack (lookup (gr_string req.gr) pack.requests_by_gr)
      else (pack, false)

  unfoldable pub add : Option ResourceRequest → RequestsPack → RequestsPack × Bool
  unfolding add_user_agent add_record
  add none pack = (pack, false)
  add (some req) pack =
      let (pack', changed) = add_user_agent req pack in
      let (pack'', changed') = add_record req pack' in (pack'', changed || changed')

module _ {E : Type 0} (fn : ResourceRequest → Option E) where
  -- One loop of `rangeRequests`. The callback's `false` comes with an error, and ends this loop
  -- only; the error of a later loop replaces it.
  abbrev pub range_loop : List ResourceRequest → Option E → Option E
  range_loop [] err = err
  range_loop (r ∷ rs) err =
      let rest = range_loop rs err in elim (fn r) [ none ↦ rest | some e ↦ some e ]

abbrev pub passed_request : String → ResourceRequest
passed_request ua = record {
  gr = record { group = ""; resource = "" };
  object_selector = none;
  namespace_passed = [];
  namespace_denied = [];
  user_agent_passed = some ua;
  user_agent_denied = none;
}

abbrev pub denied_request : String → ResourceRequest
denied_request ua = record {
  gr = record { group = ""; resource = "" };
  object_selector = none;
  namespace_passed = [];
  namespace_denied = [];
  user_agent_passed = none;
  user_agent_denied = some ua;
}

abbrev pub records_of : Map ResourceRequest → List ResourceRequest
records_of [] = []
records_of ((k, r) ∷ m) = r ∷ records_of m

abbrev pub each : (String → ResourceRequest) → List String → List ResourceRequest
each f [] = []
each f (x ∷ xs) = f x ∷ each f xs

-- The error that the callback has left behind.
unfoldable pub range_requests :
    {E : Type 0} → (ResourceRequest → Option E) → RequestsPack → Option E
range_requests fn pack = range_loop fn (records_of pack.requests_by_gr) (
    range_loop fn (each denied_request pack.user_agent_denied)
      (range_loop fn (each passed_request pack.user_agent_passed) none))
