-- ===== src/Examples.antt =====
-- Runs at concrete inputs: an application of two subsets, and what its manager and proxies make of it.
mod Routing
mod Restarts
mod Changes
mod Selectors
mod Managers
mod Reconciling
mod Limits
mod Streams
mod Requests
mod Injections
mod Configurations
use controllermesh.Prelude.{
  String, List, [], ◌∷◌, Option, none, some, Bool, true, false, not, has, is_some, refl,
  if◌then◌else◌,
}
use controllermesh.Prelude.Maps.{Map, lookup}
use controllermesh.Proto.{Endpoint}
use controllermesh.Selector.{
  LabelRequirement, LabelSelector, Selection, equals, in_set, not_in_set, present, absent,
  empty_selector,
}
use controllermesh.Selector.Meaning.{Matching}
use controllermesh.Selector.Merge.{one_label}
use controllermesh.Kube.{Namespace}
use controllermesh.Route.{GroupResource, InternalRoute, InternalSpec, MatchLimitRule, SubsetLimit}
use controllermesh.Proto
use controllermesh.Server.{SelectorJson}
use controllermesh.VirtualApp
use controllermesh.VirtualApp.{VirtualApp, MatchLimitSelector}

abbrev is_in : Option String → List String → Bool
is_in none vs = false
is_in (some v) vs = has v vs

abbrev holds : Selection → String → List String → Map String → Bool
holds equals k vs ls = is_in (lookup k ls) vs
holds in_set k vs ls = is_in (lookup k ls) vs
holds not_in_set k vs ls = not (is_in (lookup k ls) vs)
holds present k vs ls = is_some (lookup k ls)
holds absent k vs ls = not (is_some (lookup k ls))

-- labels.Requirement.Matches, of the operators that the program uses.
abbrev pub matching : Matching
matching = record {
  matches = λ r ls. holds r.operator r.key r.values ls;
  not_in_complements = λ k vs ls. refl;
  absent_complements = λ k vs ls. refl;
  equals_in = λ k v ls. refl;
}

abbrev pub json : SelectorJson
json = record { dump = λ s. "{}"; decode = λ t. empty_selector; dump_nonempty = λ s. refl }

abbrev pub regex_match : String → String → Option Bool
regex_match regex name = some (has regex (name ∷ ".*" ∷ []))

abbrev pub pods : GroupResource
pods = record { group = ""; resource = "pods" }

abbrev pub all_resources : List Proto.ApiGroupResource
all_resources = record { api_groups = "*" ∷ []; resources = "*" ∷ [] } ∷ []

abbrev names_limit : List String → MatchLimitRule
names_limit nss = record { namespaces = nss; object_selector = none; resources = [] }

abbrev objects_limit : LabelSelector → MatchLimitRule
objects_limit s = record { namespaces = []; object_selector = some s; resources = all_resources }

abbrev spec_of : List SubsetLimit → List Endpoint → String → InternalSpec
spec_of limits endpoints own = record {
  proxy_spec = record {
    meta = record { v_app_name = "app"; hash = "1" };
    route = record {
      subset = own;
      global_limits = [];
      subset_limits = [];
      subset_public_resources = [];
      subset_default_only_user_agents = [];
    };
    endpoints = endpoints;
  };
  route_internal = record {
    subset = own;
    global_limits = [];
    subset_limits = limits;
    subset_public_resources = [];
    subset_default_only_user_agents = [];
  };
}

abbrev endpoints : List Endpoint
endpoints =
    record { name = "p1"; subset = "a"; ip = "10.0.0.1" }
    ∷ record { name = "p2"; subset = "b"; ip = "10.0.0.2" }
    ∷ []

-- The proxies of the subsets "a", with the namespace "n1", and "b", with "n2".
abbrev pub proxy : String → InternalSpec
proxy own =
    spec_of
      (record { subset = "a"; limits = names_limit ("n1" ∷ []) ∷ [] }
        ∷ record { subset = "b"; limits = names_limit ("n2" ∷ []) ∷ [] }
        ∷ [])
      endpoints own

-- The same, by the label "team" of objects.
abbrev pub team_limits : String → SubsetLimit
team_limits own = record { subset = own; limits = objects_limit (one_label "team" "x") ∷ [] }

abbrev pub team_proxy : String → InternalSpec
team_proxy own = spec_of (team_limits "a" ∷ []) endpoints own

abbrev pub namespace : String → Namespace
namespace name = record { name = name; labels = ("env", name) ∷ []; deleting = false }

abbrev env_limit : String → MatchLimitSelector
env_limit value = record {
  namespace_selector = some (one_label "env" value);
  object_selector = none;
  namespace_regex = none;
  resources = none;
}

abbrev subset_by : String → String → VirtualApp.Subset
subset_by name rule = record {
  name = name;
  labels = ("subset", name) ∷ [];
  route_rules = rule ∷ [];
}

abbrev pub configuration : VirtualApp.Configuration
configuration = record {
  controller = some (record { leader_election_name = "leader" });
  webhook = none;
  rest_config_overrides = none;
}

-- A VirtualApp with those subsets.
abbrev pub v_app_with : Option VirtualApp.Configuration → VirtualApp
v_app_with conf = record {
  namespace = "default";
  name = "app";
  spec = record {
    selector = some (one_label "app" "x");
    configuration = conf;
    route = some (record {
      global_limits = [];
      sub_rules =
          record { name = "r1"; match_limits = env_limit "n1" ∷ [] }
          ∷ record { name = "r2"; match_limits = env_limit "n2" ∷ [] }
          ∷ [];
      subset_public_resources = [];
      subset_default_only_user_agents = [];
    });
    subsets = subset_by "a" "r1" ∷ subset_by "b" "r2" ∷ [];
  };
}
