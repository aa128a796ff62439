-- ===== src/Examples/Injections.antt =====
-- A pod that gets the containers of the application, and the locks of its controller.
use controllermesh.Prelude.{
  String, List, [], ◌∷◌, Option, none, some, true, false, ◌≡◌, ◌≢◌, refl, select,
}
use controllermesh.Prelude.Texts.{concat_text}
use controllermesh.Kube.{Pod, is_pod_active}
use controllermesh.VirtualApp.{VirtualApp}
use controllermesh.Selector.{validated_label_selector_as_selector, new_requirement}
use controllermesh.Stream.{pod_found, registered, register_v1, store_connection}
use controllermesh.Injection.{PodSpec, get_kubernetes_service_host_port, get_image_pull_secrets}
use controllermesh.Injection.Containers.{
  World, Containers, init_container, proxy_container, add_envs, configure_controller,
}
use controllermesh.Injection.Inject.{
  injected, inject_by_virtual_app, inject_matched, find_match, labels_of, matches_pod,
}
use controllermesh.Injection.Labelled.{Labelled, injected-registers}
use controllermesh.LeaderElection.{
  ElectionHandler, Lock, drained, unread, encoded, handle, handled, get_hold_identity, lease,
}
use controllermesh.LeaderElection.Locks.{lock_request, own_name, handle-own_name}
use controllermesh.Examples.{matching, v_app_with, configuration}
use controllermesh.Examples.Reconciling.{pod, state}
use controllermesh.Examples.Streams.{first_report}

abbrev v_app : VirtualApp
v_app = v_app_with (some configuration)

abbrev world : World
world = record {
  flags = record {
    init_image = "init";
    proxy_image = "proxy";
    proxy_image_pull_secrets = "";
    proxy_image_pull_policy = "Always";
    proxy_resource_cpu = "100m";
    proxy_resource_memory = "200Mi";
    proxy_log_level = 3;
    proxy_extra_envs = "A=1;B";
  };
  itoa = λ n. "3";
  port_text = λ p. "443";
  is_quantity = λ t. true;
  manager_namespace = "system";
  secrets = λ name. record {
    found = false;
    injection_found = false;
    manager_found = false;
    created = false;
  };
}

abbrev app_pod : PodSpec
app_pod = record {
  namespace = "default";
  name = "p1";
  labels = some (("app", "x") ∷ []);
  host_network = false;
  init_containers = [];
  containers = [];
  volumes = [];
  image_pull_secrets = [];
}

abbrev containers : Containers
containers =
    configure_controller (some (record { leader_election_name = "leader" }))
      (add_envs [] (record { init = init_container world; proxy = proxy_container world }))

abbrev changed_pod : PodSpec
changed_pod = record {
  namespace = "default";
  name = "p1";
  labels = some (("app", "x") ∷ ("ctrlmesh.kruise.io/virtual-app-injected", "app") ∷ []);
  host_network = false;
  init_containers = containers.init ∷ [];
  containers = containers.proxy ∷ [];
  volumes = "ctrlmesh" ∷ [];
  image_pull_secrets = [];
}

abbrev list_apps : String → Option (List VirtualApp)
list_apps ns = some (v_app ∷ [])

matches_one : select (matches_pod matching (labels_of app_pod)) (v_app ∷ []) ≡ v_app ∷ []
unfolding validated_label_selector_as_selector new_requirement
matches_one = refl

gets_containers : inject_by_virtual_app world matching list_apps app_pod ≡ injected changed_pod []
unfolding inject_by_virtual_app find_match inject_matched validated_label_selector_as_selector
    new_requirement get_kubernetes_service_host_port get_image_pull_secrets
gets_containers = refl

abbrev running_pod : Pod
running_pod = record pod { labels = labels_of changed_pod }

is_active : is_pod_active running_pod ≡ true
unfolding is_pod_active
is_active = refl

injected-registers_example :
    Labelled v_app app_pod changed_pod
    × (register_v1 (some first_report) (pod_found running_pod) state
        ≡ registered "u1" "app" (store_connection first_report running_pod state))
injected-registers_example =
    injected-registers world matching list_apps app_pod changed_pod (v_app ∷ []) v_app []
      first_report running_pod state refl matches_one refl gets_containers refl is_active refl

abbrev handler_of : String → ElectionHandler
handler_of subset = record { namespace = "default"; lock_name = "lock"; subset = subset }

abbrev lock : Lock
lock = record { name = "lock"; annotation = none; holder_identity = some "p1" }

holds_identity : get_hold_identity (λ t. none) lease lock ≡ some "p1"
unfolding get_hold_identity
holds_identity = refl

handle-own_name_example :
    (handle
        (λ t. none)
        (handler_of "a")
        (lock_request (handler_of "a") "get" lease)
        (record { path = concat_text "/leases/" "lock"; body = drained })
      ≡ handled
          (record { path = concat_text "/leases/" (own_name (handler_of "a")); body = drained })
          none)
    × (handle
          (λ t. none)
          (handler_of "a")
          (lock_request (handler_of "a") "create" lease)
          (record { path = "/leases"; body = unread (some lock) })
        ≡ handled
            (record {
              path = "/leases";
              body = encoded (record lock { name = own_name (handler_of "a") });
            })
            (some "p1"))
    × (own_name (handler_of "a") ≢ own_name (handler_of ""))
handle-own_name_example =
    handle-own_name (λ t. none) (handler_of "a") (handler_of "") lease "/leases/" "/leases" "p1"
      drained lock refl (λ e. cc) refl holds_identity
