-- ===== src/Events.antt =====
-- controllers/server/virtualapp_event_handler.go: which VirtualApps are put into the work queue when a
-- pod or a namespace changes. The answers of the cache are arguments; `same_labels` is
-- reflect.DeepEqual on labels.
pub mod Alike
pub mod Missed
use controllermesh.Prelude.{
  ℕ, String, List, [], ◌∷◌, Option, none, some, Bool, true, false, not, ◌&&◌, ◌||◌, ◌==◌, any,
  select, is_some, map, nonempty, length, nat_eq, if◌then◌else◌,
}
use controllermesh.Prelude.Maps.{Map, delete}
use controllermesh.Selector.Meaning.{Matching}
use controllermesh.Kube.{
  Pod, Namespace, Phase, pending, running, succeeded, failed, unknown_phase, label_of, is_pod_ready,
}
use controllermesh.VirtualApp.{VirtualApp, MatchLimitSelector, SubRule, Route}
use controllermesh.Server.{get_running_containers, determine_pod_subset, is_namespace_matched}
use controllermesh.Reconciler.{ServerState, Got, found, not_found}

-- types.NamespacedName
pub record Key : Type 0 where
  pub namespace : String
  pub name : String

abbrev pub key_of : VirtualApp → Key
key_of v_app = record { namespace = v_app.namespace; name = v_app.name }

abbrev pub injected_key : String
injected_key = "ctrlmesh.kruise.io/virtual-app-injected"

abbrev pub same_phase : Phase → Phase → Bool
same_phase pending pending = true
same_phase running running = true
same_phase succeeded succeeded = true
same_phase failed failed = true
same_phase unknown_phase unknown_phase = true
same_phase _ _ = false

abbrev pub same_test : Bool → Bool → Bool
same_test true b = b
same_test false b = not b

module _ (read : Key → Got) where
  -- getVAppForPod; its callers do nothing about an error either.
  unfoldable pub get_v_app_for_pod : Pod → Option VirtualApp
  get_v_app_for_pod pod =
      let name = label_of injected_key pod.labels in
      if name == ""
      then none
      else (elim (read (record { namespace = pod.namespace; name = name })) [
        | found v_app ↦ some v_app
        | not_found ↦ none
        | Got.failed ↦ none
      ])

  unfoldable pub pod_create : Pod → List Key
  pod_create pod = elim (get_v_app_for_pod pod) [ none ↦ [] | some v_app ↦ key_of v_app ∷ [] ]

  -- The conditions of `Update` behind getVAppForPod.
  unfoldable pub pod_changed : VirtualApp → Pod → Pod → Bool
  pod_changed v_app old new =
      if new.deleting
      then not old.deleting
        || not (nat_eq (length (get_running_containers old)) (length (get_running_containers new)))
      else not (determine_pod_subset v_app old == determine_pod_subset v_app new)
        || not (same_phase old.phase new.phase)
        || not (same_test (is_pod_ready old) (is_pod_ready new))

  unfoldable pub pod_update : Pod → Pod → List Key
  unfolding pod_changed
  pod_update old new = elim (get_v_app_for_pod new) [
    | none ↦ []
    | some v_app ↦ if pod_changed v_app old new then key_of v_app ∷ [] else []
  ]

  unfoldable pub pod_delete : Pod → ServerState → ServerState × List Key
  pod_delete pod s = elim (get_v_app_for_pod pod) [
    | none ↦ (s, [])
    | some v_app ↦ (
      record s {
        pod_hash_expectation = delete pod.uid s.pod_hash_expectation;
        pod_deletion_expectation = select (λ uid. not (uid == pod.uid)) s.pod_deletion_expectation;
      },
      key_of v_app ∷ [],
    )
  ]

abbrev pub has_limits : Option Route → Bool
has_limits none = false
has_limits (some r) = nonempty r.global_limits || nonempty r.sub_rules

-- getSensitiveVApps; `none` is an error of the cache.
unfoldable pub get_sensitive_v_apps : Option (List VirtualApp) → List VirtualApp
get_sensitive_v_apps none = []
get_sensitive_v_apps (some v_apps) = select (λ v. has_limits v.spec.route) v_apps

-- Create and Delete of the handler of namespaces.
unfoldable pub namespace_create : Option (List VirtualApp) → List Key
unfolding get_sensitive_v_apps
namespace_create v_apps = map key_of (get_sensitive_v_apps v_apps)

module _ (m : Matching) (regex_match : String → String → Option Bool)
    (same_labels : Map String → Map String → Bool) (old new : Namespace) where
  abbrev pub match_differs : MatchLimitSelector → Bool
  match_differs ms = not (
      same_test (is_namespace_matched m regex_match ms old)
        (is_namespace_matched m regex_match ms new))

  -- The loops over the limits and the rules, that stop at the first difference.
  abbrev pub route_differs : Option Route → Bool
  route_differs none = false
  route_differs (some r) =
      any match_differs r.global_limits
      || any (λ rule. any match_differs rule.match_limits) r.sub_rules

  unfoldable pub namespace_update : Option (List VirtualApp) → List Key
  unfolding get_sensitive_v_apps
  namespace_update v_apps =
      if same_labels new.labels old.labels
      then []
      else map key_of (select (λ v. route_differs v.spec.route) (get_sensitive_v_apps v_apps))
