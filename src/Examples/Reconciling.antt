-- ===== src/Examples/Reconciling.antt =====
-- A run of the reconciler over one connected pod.
use controllermesh.Prelude.{[], ◌∷◌, none, some, true, false, ◌≡◌, refl, nonempty, all}
use controllermesh.Kube.{Pod, running, is_pod_active}
use controllermesh.VirtualApp.{VirtualApp}
use controllermesh.Server.{generate_proto_route}
use controllermesh.Reconciler.{
  ServerState, World, found, reconcile, get_pods_for_v_app, get_active_namespaces, scan, visit,
  plan_of, decide, carry_out, send_specs,
}
use controllermesh.Reconciler.Order.{is_ordered, reconcile-is_ordered}
use controllermesh.Reconciler.Expected.{is_expected, reconcile-expected, reconcile-waits}
use controllermesh.Reconciler.Settled.{is_settled, reconcile-settled}
use controllermesh.Examples.{matching, regex_match, json, namespace, v_app_with, configuration}

abbrev pub pod : Pod
pod = record {
  namespace = "default";
  name = "p1";
  uid = "u1";
  labels = ("subset", "a") ∷ [];
  phase = running;
  deleting = false;
  conditions = record { type = "Ready"; status = "True" } ∷ [];
  container_statuses = [];
  pod_ip = "10.0.0.1";
  age = 100;
}

abbrev v_app : VirtualApp
v_app = v_app_with (some configuration)

abbrev pub world : World
world = record {
  got = found v_app;
  pods = some (pod ∷ []);
  namespaces = some (namespace "n1" ∷ []);
  delete_ok = λ p. true;
  send_ok = λ p. true;
  route_of = λ app nss. generate_proto_route matching regex_match json nss app;
  spec_hash = λ r es. "2";
}

-- The pod's proxy has connected and reported nothing of a spec.
abbrev pub state : ServerState
state = record {
  cached_grpc_srv_connection =
      (
        "u1",
        record {
          status = record { self_info = none; meta_state = none; leader_election_state = none };
          send_times = 0;
          disconnected = false;
        },
      )
      ∷ [];
  pod_hash_expectation = [];
  pod_deletion_expectation = [];
}

reconcile-is_ordered_example : is_ordered v_app (reconcile world state).effects ≡ true
reconcile-is_ordered_example = reconcile-is_ordered v_app world state refl

state-sends : nonempty (reconcile world state).effects ≡ true
unfolding reconcile get_pods_for_v_app get_active_namespaces scan visit is_pod_active plan_of decide
    carry_out send_specs
state-sends = refl

lists_pod : get_pods_for_v_app world.pods ≡ some (pod ∷ [])
unfolding get_pods_for_v_app
lists_pod = refl

reconcile-settled_example : all (is_settled state) (pod ∷ []) ≡ true
reconcile-settled_example =
    reconcile-settled world state v_app (pod ∷ []) refl lists_pod state-sends

reconcile-expected_example :
    all
      (is_expected world.delete_ok world.send_ok (reconcile world state).state)
      (reconcile world state).effects
    ≡ true
reconcile-expected_example = reconcile-expected world state

abbrev deleting : ServerState
deleting = record state { pod_deletion_expectation = "u1" ∷ [] }

pod_is_active : is_pod_active pod ≡ true
unfolding is_pod_active
pod_is_active = refl

reconcile-waits_example : (reconcile world deleting).effects ≡ []
reconcile-waits_example =
    reconcile-waits world deleting v_app [] [] pod refl lists_pod pod_is_active refl
