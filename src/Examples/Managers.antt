-- ===== src/Examples/Managers.antt =====
-- A proxy's manager of specs: it loads a spec, records a request, and takes or refuses the next spec.
use controllermesh.Prelude.{
  List, [], ◌∷◌, Option, none, some, Bool, true, false, not, ◌≡◌, refl, ◌&&◌, ◌==◌, is_some, arith,
  eq_iff, if◌then◌else◌,
}
use controllermesh.Proto.{ProxySpec}
use controllermesh.Selector.{LabelSelector, empty_selector}
use controllermesh.Route.{
  GroupResource, InternalSpec, is_namespace_match, is_user_agent_match, determine_namespace_subset,
  passes_global_limits, visit_subsets, visit_limits, visit_limit, is_gr_matched_api_resources,
}
use controllermesh.Route.Convert.{
  convert_proto_spec_to_internal, convert_proto_match_limit_rule_to_internal, convert_rule,
}
use controllermesh.RequestsStore.{
  ResourceRequest, RequestsPack, empty_pack, add, add_user_agent, add_record, merge_record,
}
use controllermesh.SpecManager.{
  Env, Io, SpecManager, done, check_loadable, update_spec, release_spec,
}
use controllermesh.SpecManager.Loadable.{is_loadable, namespaces_agree, check_loadable-is_loadable}
use controllermesh.SpecManager.Invariant.{
  is_decided, Plain, Reachable, IsConsistent, start, next, update, release, may_release,
}
use controllermesh.SpecManager.Invariant.Reached.{Reachable-IsConsistent}
use controllermesh.Router.{
  RequestInfo, discovered, route, filter_items, filter_event, Item, typed, unstructured,
}
use controllermesh.Router.Decided.{
  route-may_release, filter_items-may_release, filter_event-may_release,
}
use controllermesh.Router.Filter.{filter_items-kept_items, kept_items}
use controllermesh.Examples.{pods, proxy}

abbrev same_presence : Option LabelSelector → Option LabelSelector → Bool
same_presence none none = true
same_presence (some a) (some b) = true
same_presence _ _ = false

abbrev pub env : Env
env = record {
  gr_string = λ gr. gr.resource;
  deep_equal = same_presence;
  election_equal = λ a b. false;
  decode = λ t. empty_selector;
  marshal_spec = λ s. s.meta.hash;
  unmarshal_spec = λ t. none;
  marshal_pack = λ p. "{}";
  unmarshal_pack = λ t. none;
  reason_text = λ r. "reason";
}

abbrev is_plain : GroupResource → Bool
is_plain gr = gr.group == "" && not (gr.resource == "")

gr_equal : (a b : GroupResource) → a.group ≡ b.group → a.resource ≡ b.resource → a ≡ b
gr_equal a b e f = ground arith

plain : Plain env is_plain
plain = record {
  filled = λ gr p. ground arith;
  apart = λ a b p q e. gr_equal a b (ground (arith, eq_iff a.group "", eq_iff b.group "")) e;
}

-- The request of a client whose user agent is known, for the pods of "n1".
abbrev pub n1_passed : ResourceRequest
n1_passed = record {
  gr = pods;
  object_selector = none;
  namespace_passed = "n1" ∷ [];
  namespace_denied = "n2" ∷ [];
  user_agent_passed = some "kubectl";
  user_agent_denied = none;
}

abbrev pub one_pack : RequestsPack
one_pack = record {
  requests_by_gr = ("pods", n1_passed) ∷ [];
  user_agent_passed = "kubectl" ∷ [];
  user_agent_denied = [];
}

-- A request that has namespaces only, where a selector is recorded.
abbrev selected_pack : RequestsPack
selected_pack = record one_pack {
  requests_by_gr = ("pods", record n1_passed { object_selector = some empty_selector }) ∷ [];
}

abbrev never_equal : Option LabelSelector → Option LabelSelector → Bool
never_equal a b = false

add_again : (add env.gr_string env.deep_equal (some n1_passed) one_pack).1 ≡ false
unfolding add add_user_agent add_record merge_record
add_again = refl

check_loadable-is_loadable_example :
    is_some (check_loadable env (some (proxy "a")) (proxy "b") one_pack)
    ≡ not (is_loadable env (proxy "a") (proxy "b") one_pack)
check_loadable-is_loadable_example = check_loadable-is_loadable env (proxy "a") (proxy "b") one_pack

abbrev pub io : Io
io = record { expected_ok = true; current_ok = true; history_ok = true }

abbrev pub spec : ProxySpec
spec = record {
  meta = record { v_app_name = "app"; hash = "1" };
  route = record {
    subset = "a";
    global_limits = [];
    subset_limits =
        record {
          subset = "a";
          limits = record { namespaces = "n1" ∷ []; object_selector = ""; resources = [] } ∷ [];
        }
        ∷ [];
    subset_public_resources = [];
    subset_default_only_user_agents = [];
  };
  endpoints = [];
}

abbrev fresh : SpecManager
fresh = record {
  disk = record { expected_spec = ""; current_spec = ""; history_requests = "" };
  expected = none;
  current = none;
  unload_reason = "";
  pack = empty_pack;
  leader_election_state = none;
  reports = 0;
}

abbrev pub internal : InternalSpec
internal = convert_proto_spec_to_internal env.decode spec

abbrev pub loaded : SpecManager
loaded = record {
  disk = record { expected_spec = "1"; current_spec = "1"; history_requests = "" };
  expected = some internal;
  current = some internal;
  unload_reason = "";
  pack = empty_pack;
  leader_election_state = none;
  reports = 0;
}

abbrev recorded : SpecManager
recorded = record {
  disk = record { expected_spec = "1"; current_spec = "1"; history_requests = "{}" };
  expected = some internal;
  current = some internal;
  unload_reason = "";
  pack = one_pack;
  leader_election_state = none;
  reports = 0;
}

fresh-loads : update_spec env io spec fresh ≡ done loaded
unfolding update_spec check_loadable convert_proto_spec_to_internal
fresh-loads = refl

loaded-decides : may_release env is_plain (some internal) (some n1_passed) ≡ true
unfolding is_decided namespaces_agree convert_proto_spec_to_internal
    convert_proto_match_limit_rule_to_internal convert_rule is_user_agent_match is_namespace_match
    determine_namespace_subset passes_global_limits visit_subsets visit_limits visit_limit
    is_gr_matched_api_resources
loaded-decides = refl

loaded-records : release_spec env io (some n1_passed) loaded ≡ done recorded
unfolding release_spec add add_user_agent add_record
loaded-records = refl

recorded-Reachable : Reachable env is_plain recorded
recorded-Reachable =
    next loaded recorded
      (next fresh loaded (start fresh refl refl) (update io spec fresh loaded tt fresh-loads))
      (release io (some n1_passed) loaded recorded loaded-decides loaded-records)

Reachable-IsConsistent_example : IsConsistent env is_plain recorded.current recorded.pack
Reachable-IsConsistent_example =
    Reachable-IsConsistent env is_plain plain recorded recorded-Reachable

abbrev get_pods : RequestInfo
get_pods = record {
  is_resource_request = true;
  group_resource = pods;
  namespace = "n2";
  verb = "get";
  user_agent = "kubectl";
}

route-may_release_example :
    may_release env is_plain
      (some (proxy "a"))
      (route (λ s. true) (some (proxy "a")) get_pods discovered).1
    ≡ true
route-may_release_example =
    route-may_release env is_plain (proxy "a") (λ s. true) get_pods discovered refl

abbrev pods_of : List Item
pods_of =
    record { is_object = true; namespace = "n1" }
    ∷ record { is_object = true; namespace = "n2" }
    ∷ []

filter_items-may_release_example :
    may_release env is_plain
      (some (proxy "a"))
      (filter_items (proxy "a") pods false (typed true pods_of)).1
    ≡ true
filter_items-may_release_example =
    filter_items-may_release env is_plain (proxy "a") pods false (typed true pods_of) refl

filter_event-may_release_example :
    may_release env is_plain (some (proxy "a")) (filter_event (proxy "a") pods false (some "n2")).1
    ≡ true
filter_event-may_release_example =
    filter_event-may_release env is_plain (proxy "a") pods false (some "n2") refl

filter_items-kept_items_example :
    (filter_items (proxy "a") pods false (unstructured (some pods_of))).0
    ≡ (if false then [] else kept_items (proxy "a") pods (unstructured (some pods_of)))
filter_items-kept_items_example =
    filter_items-kept_items (proxy "a") pods false (unstructured (some pods_of))
