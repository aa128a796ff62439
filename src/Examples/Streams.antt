-- ===== src/Examples/Streams.antt =====
-- A proxy finds the manager, registers, takes a spec in, and shows a watch to its client.
use controllermesh.Prelude.{
  ℕ, List, [], ◌∷◌, ◌++◌, none, some, Bool, true, false, ◌≡◌, refl, arith, nonempty,
}
use controllermesh.Prelude.Maps.{lookup}
use controllermesh.Proto.{ProxyStatus}
use controllermesh.Kube.{Pod, is_pod_active}
use controllermesh.Reconciler.{
  Connection, ServerState, World, visit, connected, scan, reconcile, get_pods_for_v_app,
  get_active_namespaces,
}
use controllermesh.Router.Watch.{decoded, Events, Watch}
use controllermesh.Router.Watch.Complete.{read_all, shown, bodies, read_all-shown}
use controllermesh.ManagerState.{
  ManagerStatus, ManagerPorts, StateWorld, state_found, created, reconcile_state,
}
use controllermesh.ManagerState.Dialled.{status_after, reconcile_state-dialled}
use controllermesh.Stream.{
  Message, dial_address, pod_found, registered, register_v1, store_connection,
}
use controllermesh.Stream.Link.{Ends, opened, exchange, goes_on, exchange-goes_on}
use controllermesh.Stream.Registered.{fresh_sync}
use controllermesh.Stream.Planned.{is_stopped, registered-reconciled}
use controllermesh.Examples.{pods, proxy, namespace, v_app_with, configuration}
use controllermesh.Examples.Managers.{env, io, spec, loaded}
use controllermesh.Examples.Reconciling.{pod, state, world}

abbrev pub first_report : ProxyStatus
first_report = record {
  self_info = some (record { namespace = "default"; name = "p1" });
  meta_state = none;
  leader_election_state = none;
}

abbrev equal : ProxyStatus → ProxyStatus → Bool
equal a b = false

abbrev connection : Connection
connection = record { status = first_report; send_times = 1; disconnected = false }

abbrev ends : Ends
ends = record {
  client = record { spec_manager = loaded; prev_spec = none };
  prev_status = none;
  upstream = [];
  connection = connection;
}

abbrev message : Message
message = record { meta = some spec.meta; route = some spec.route; endpoints = [] }

exchange-goes_on_example :
    goes_on env equal pod "1" (exchange env equal io (some message) ends) ≡ true
exchange-goes_on_example =
    exchange-goes_on env equal (λ a b e. cc) ends io (some message) spec pod (opened refl) refl refl
      refl refl

abbrev pub injected_pod : Pod
injected_pod = record pod { labels = ("ctrlmesh.kruise.io/virtual-app-injected", "app") ∷ [] }

pod_registers :
    register_v1 (some first_report) (pod_found injected_pod) state
    ≡ registered "u1" "app" (store_connection first_report injected_pod state)
unfolding register_v1 is_pod_active
pod_registers = refl

-- The run of the example, with the pod that has registered.
abbrev pod_world : World
pod_world = record world { pods = some (injected_pod ∷ []) }

abbrev with_registered : ServerState
with_registered = store_connection first_report injected_pod state

lists_registered : get_pods_for_v_app pod_world.pods ≡ some (injected_pod ∷ [])
unfolding get_pods_for_v_app
lists_registered = refl

lists_namespaces : get_active_namespaces pod_world.namespaces ≡ some (namespace "n1" ∷ [])
unfolding get_active_namespaces
lists_namespaces = refl

waits_for_none : is_stopped (scan (injected_pod ∷ []) with_registered) ≡ false
unfolding scan visit is_pod_active
waits_for_none = refl

registered-reconciled_example :
    (visit with_registered injected_pod ≡ connected (fresh_sync first_report injected_pod))
    × (nonempty (reconcile pod_world with_registered).effects ≡ true)
    × (lookup "u2" with_registered.cached_grpc_srv_connection
        ≡ lookup "u2" state.cached_grpc_srv_connection)
    × (lookup "u2" with_registered.pod_hash_expectation ≡ lookup "u2" state.pod_hash_expectation)
registered-reconciled_example =
    registered-reconciled first_report injected_pod pod_world (v_app_with (some configuration))
      state with_registered "u1" "app" "u2" [] [] (namespace "n1" ∷ []) pod_registers refl refl
      lists_registered lists_namespaces waits_for_none refl

abbrev ports : ManagerPorts
ports = record { grpc_leader_election_port = 8071; grpc_non_leader_election_port = 8072 }

abbrev old_status : ManagerStatus
old_status = record { namespace = "system"; endpoints = []; ports = none }

-- The pod of the examples, as the manager.
abbrev state_world : StateWorld
state_world = record {
  namespace = "system";
  local_name = "p1";
  ports = ports;
  pods = some (pod ∷ []);
  got = state_found old_status;
  creation = created;
  update_ok = true;
  equal = λ a b. false;
}

is_active : is_pod_active pod ≡ true
unfolding is_pod_active
is_active = refl

reconcile_state-dialled_example :
    ((reconcile_state state_world "ctrlmesh-manager").0 ≡ false)
    × (dial_address (
          some
            (status_after state_world old_status (reconcile_state state_world "ctrlmesh-manager")))
        ≡ some ("10.0.0.1", 8071))
reconcile_state-dialled_example =
    reconcile_state-dialled state_world old_status (pod ∷ []) pod (λ a b e. cc) refl refl
      (ground (arith, is_active)) refl refl

-- An event is a number; its bytes are it and a line's end, of a bookmark 0 and that.
abbrev events : Events ℕ
events = record { encode = λ e. some (e ∷ 10 ∷ []); to_bookmark = λ e. 0 }

-- An event of the subset's own namespace and one of the other's, behind a byte that is left.
abbrev watch : Watch events (proxy "a") pods false
watch = record {
  remaining = 7 ∷ [];
  coming = decoded 1 (some (some "n1")) ∷ decoded 2 (some (some "n2")) ∷ [];
}

abbrev ones : List ℕ
ones = 1 ∷ 1 ∷ 1 ∷ 1 ∷ 1 ∷ 1 ∷ 1 ∷ []

read_all-shown_example :
    read_all events (proxy "a") pods false ones watch
    ≡ watch.remaining
      ++ bodies events (proxy "a") pods false (shown events (proxy "a") pods false) watch.coming
read_all-shown_example = read_all-shown events (proxy "a") pods false ones watch refl (omega arith)
