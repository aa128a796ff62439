-- ===== src/Reconciler.antt =====
-- controllers/server/virtualapp_controller.go: what the manager does about the pods of a VirtualApp,
-- and the connection of controllers/server/grpc_server.go. The answers of the API server and of the
-- streams are arguments; the calls that it makes of them are the effects of a run, in their order.
pub mod Order
pub mod Settled
pub mod Expected
use controllermesh.Prelude.{
  ℕ, suc, ◌-◌, String, List, [], ◌∷◌, Option, none, some, Bool, true, false, not, ◌&&◌, ◌||◌, ◌==◌,
  is_some, select, has, insert, nonempty, if◌then◌else◌, ltb,
}
use controllermesh.Prelude.Maps.{Map, lookup, put, delete}
use controllermesh.Prelude.Sorting.{text_lt, sort_stable}
use controllermesh.Proto.{ProxySpec, ProxyStatus, MetaState, Endpoint}
use controllermesh.Proto
use controllermesh.Kube.{Pod, Namespace, Phase, running, pending, is_pod_active, is_pod_ready}
use controllermesh.VirtualApp.{VirtualApp}
use controllermesh.Server.{
  SelectorJson, get_running_containers, determine_pod_subset, generate_proto_endpoints,
  generate_proto_route, new_spec,
}

-- grpcSrvConnection
pub record Connection : Type 0 where
  pub status : ProxyStatus
  pub send_times : ℕ
  pub disconnected : Bool

-- The three maps of the package, by the UIDs of pods; the last is a set.
pub record ServerState : Type 0 where
  pub cached_grpc_srv_connection : Map Connection
  pub pod_hash_expectation : Map String
  pub pod_deletion_expectation : List String

-- syncPod; the connection is the one in the map, and newSpec follows from the rest.
pub record SyncPod : Type 0 where
  pub pod : Pod
  pub dispatched : Bool
  pub current_status : ProxyStatus

-- r.Get
pub data Got : Type 0 where
  found : VirtualApp → Got
  not_found failed : Got

pub data Effect : Type 0 where
  delete_pod : SyncPod → Effect
  send_spec : SyncPod → ProxySpec → Effect

-- A return of `Reconcile`: `requeue_after` in seconds, 0 for none.
pub record Done : Type 0 where
  pub requeue_after : ℕ
  pub failed : Bool
  pub state : ServerState
  pub effects : List Effect

-- What the first loop does about a pod: go on without it, return, count it as active only, or
-- also synchronise it.
pub data Visit : Type 0 where
  inactive : Visit
  waits : ℕ → Visit
  unconnected : Visit
  connected : SyncPod → Visit

pub data Scan : Type 0 where
  stopped : ℕ → ServerState → Scan
  scanned : List Pod → List SyncPod → ServerState → Scan

unfoldable pub get_pods_for_v_app : Option (List Pod) → Option (List Pod)
get_pods_for_v_app none = none
get_pods_for_v_app (some pods) = some (sort_stable (λ p q. text_lt p.name q.name) pods)

unfoldable pub get_active_namespaces : Option (List Namespace) → Option (List Namespace)
get_active_namespaces none = none
get_active_namespaces (some nss) =
    some (sort_stable (λ n o. text_lt n.name o.name) (select (λ ns. not ns.deleting) nss))

abbrev pub is_running : Phase → Bool
is_running running = true
is_running _ = false

abbrev pub is_pending : Phase → Bool
is_pending pending = true
is_pending _ = false

-- `status.MetaState != nil && expectHash == status.MetaState.ExpectedHash`
abbrev pub hash_reported : String → ProxyStatus → Bool
hash_reported hash status = elim status.meta_state [
  | none ↦ false
  | some m ↦ hash == m.expected_hash
]

abbrev pub visit_connection : Pod → Option String → Connection → Visit
visit_connection pod expectation conn =
    let sync : SyncPod = record {
      pod = pod;
      dispatched = ltb 0 conn.send_times;
      current_status = conn.status;
    } in
    if conn.disconnected then waits 0 else (elim expectation [
      | none ↦ connected sync
      | some hash ↦ if hash_reported hash conn.status then connected sync else waits 0
    ])

abbrev pub visit_unconnected : Pod → Visit
visit_unconnected pod =
    if is_running pod.phase && is_pod_ready pod
    then waits 60
    else if is_pending pod.phase && ltb pod.age 60
    then waits (60 - pod.age)
    else unconnected

-- One round of the first loop of `Reconcile`.
unfoldable pub visit : ServerState → Pod → Visit
visit s pod =
    if not (is_pod_active pod)
    then (if nonempty (get_running_containers pod) then waits 0 else inactive)
    else if has pod.uid s.pod_deletion_expectation
    then waits 0
    else (elim (lookup pod.uid s.cached_grpc_srv_connection) [
      | none ↦ visit_unconnected pod
      | some conn ↦ visit_connection pod (lookup pod.uid s.pod_hash_expectation) conn
    ])

-- `podHashExpectation.Delete`; the map is as it was when there is no expectation.
abbrev pub satisfy : String → ServerState → ServerState
satisfy uid s = record s { pod_hash_expectation = delete uid s.pod_hash_expectation }

abbrev pub after_visit : Visit → Pod → ServerState → ServerState
after_visit (connected sync) pod s = satisfy pod.uid s
after_visit _ pod s = s

abbrev pub add_active : Pod → Scan → Scan
add_active pod (stopped t s) = stopped t s
add_active pod (scanned pods syncs s) = scanned (pod ∷ pods) syncs s

abbrev pub add_sync : SyncPod → Scan → Scan
add_sync sync (stopped t s) = stopped t s
add_sync sync (scanned pods syncs s) = scanned (sync.pod ∷ pods) (sync ∷ syncs) s

unfoldable pub scan : List Pod → ServerState → Scan
unfolding visit
scan [] s = scanned [] [] s
scan (pod ∷ pods) s =
    let visited = visit s pod in
    let rest = scan pods (after_visit visited pod s) in
    elim visited [
      | inactive ↦ rest
      | waits t ↦ stopped t s
      | unconnected ↦ add_active pod rest
      | connected sync ↦ add_sync sync rest
    ]

pub data Decision : Type 0 where
  to_dispatch to_update to_delete_leader to_delete_other to_keep : Decision

abbrev pub delete_by_role : ProxyStatus → Decision
delete_by_role status = elim status.leader_election_state [
  | none ↦ to_delete_other
  | some le ↦ if le.is_leader then to_delete_leader else to_delete_other
]

-- One round of the second loop.
unfoldable pub decide : String → String → SyncPod → Decision
decide subset hash sync = elim sync.current_status.meta_state [
  | none ↦ to_dispatch
  | some m ↦
      if not (m.subset == subset)
      then delete_by_role sync.current_status
      else if not (m.expected_hash == m.current_hash)
      then delete_by_role sync.current_status
      else if not (hash == m.expected_hash)
      then to_update
      else if not sync.dispatched
      then to_dispatch
      else to_keep
]

-- The four lists of the second loop.
pub record Plan : Type 0 where
  pub dispatches : List SyncPod
  pub updates : List SyncPod
  pub leaders : List SyncPod
  pub others : List SyncPod

abbrev pub put_in_plan : SyncPod → Decision → Plan → Plan
put_in_plan sync to_dispatch p = record p { dispatches = sync ∷ p.dispatches }
put_in_plan sync to_update p = record p { updates = sync ∷ p.updates }
put_in_plan sync to_delete_leader p = record p { leaders = sync ∷ p.leaders }
put_in_plan sync to_delete_other p = record p { others = sync ∷ p.others }
put_in_plan sync to_keep p = p

unfoldable pub plan_of : (SyncPod → Decision) → List SyncPod → Plan
plan_of f [] = record { dispatches = []; updates = []; leaders = []; others = [] }
plan_of f (sync ∷ syncs) = put_in_plan sync (f sync) (plan_of f syncs)

-- `conn.send`: the count goes up before the stream answers.
abbrev pub count_send : String → ServerState → ServerState
count_send uid s = elim (lookup uid s.cached_grpc_srv_connection) [
  | none ↦ s
  | some conn ↦ record s {
    cached_grpc_srv_connection =
        put uid (record conn { send_times = suc conn.send_times }) s.cached_grpc_srv_connection;
  }
]

abbrev pub after_delete : Bool → String → ServerState → ServerState
after_delete ok uid s =
    if ok then record s { pod_deletion_expectation = insert uid s.pod_deletion_expectation } else s

abbrev pub after_send : Bool → String → String → ServerState → ServerState
after_send ok uid hash s =
    let counted = count_send uid s in
    if ok
    then record counted { pod_hash_expectation = put uid hash counted.pod_hash_expectation }
    else counted

-- What the loops below leave behind: the error of the last call, the state and the effects.
abbrev pub then_effect : Effect → Done → Done
then_effect e d = record d { effects = e ∷ d.effects }

module _ (delete_ok : Pod → Bool) where
  unfoldable pub delete_pods : List SyncPod → Bool → ServerState → Done
  delete_pods [] err s = record { requeue_after = 0; failed = err; state = s; effects = [] }
  delete_pods (sync ∷ syncs) err s =
      let ok = delete_ok sync.pod in
      then_effect (delete_pod sync) (delete_pods syncs (not ok) (after_delete ok sync.pod.uid s))

module _ (spec_of : SyncPod → ProxySpec) (send_ok : Pod → Bool) where
  unfoldable pub send_specs : List SyncPod → Bool → ServerState → Done
  send_specs [] err s = record { requeue_after = 0; failed = err; state = s; effects = [] }
  send_specs (sync ∷ syncs) err s =
      let ok = send_ok sync.pod in
      let spec = spec_of sync in
      then_effect (send_spec sync spec)
        (send_specs syncs (not ok) (after_send ok sync.pod.uid spec.meta.hash s))

abbrev pub nothing_done : ServerState → Done
nothing_done s = record { requeue_after = 0; failed = false; state = s; effects = [] }

abbrev pub failed_with : ServerState → Done
failed_with s = record { requeue_after = 0; failed = true; state = s; effects = [] }

module _ (delete_ok send_ok : Pod → Bool) (spec_of : SyncPod → ProxySpec) where
  -- The end of `Reconcile`, from `firstly delete those non-leader Pods`.
  unfoldable pub carry_out : Plan → ServerState → Done
  unfolding delete_pods send_specs
  carry_out p s =
      let deleted = if nonempty p.others then p.others else p.leaders in
      if nonempty deleted
      then delete_pods delete_ok deleted false s
      else if nonempty p.updates
      then send_specs spec_of send_ok p.updates false s
      else send_specs spec_of send_ok p.dispatches false s

-- What a run is given: the answers of the API server and of the streams; `spec_hash` is
-- calculateSpecHash, and `route_of` generateProtoRoute.
pub record World : Type 0 where
  pub got : Got
  pub pods : Option (List Pod)
  pub namespaces : Option (List Namespace)
  pub delete_ok : Pod → Bool
  pub send_ok : Pod → Bool
  pub route_of : VirtualApp → List Namespace → Proto.Route
  pub spec_hash : Proto.Route → List Endpoint → String

module _ (w : World) where
  -- The spec that the run sends to a pod, and its hash.
  abbrev pub hash_for : VirtualApp → List Namespace → List Pod → String
  hash_for v_app nss active =
      w.spec_hash (w.route_of v_app nss) (generate_proto_endpoints v_app active)

  abbrev pub spec_for : VirtualApp → List Namespace → List Pod → SyncPod → ProxySpec
  spec_for v_app nss active sync =
      new_spec v_app (hash_for v_app nss active) (determine_pod_subset v_app sync.pod)
        (w.route_of v_app nss) (generate_proto_endpoints v_app active)

  abbrev pub plan_for : VirtualApp → List Namespace → List Pod → List SyncPod → Plan
  plan_for v_app nss active syncs =
      plan_of
        (λ sync. decide (determine_pod_subset v_app sync.pod) (hash_for v_app nss active) sync)
        syncs

  -- `Reconcile` behind its first loop: what getActiveNamespaces returns comes last.
  abbrev pub sync_with :
      VirtualApp → List Pod → List SyncPod → ServerState → Option (List Namespace) → Done
  sync_with v_app active syncs s none = failed_with s
  sync_with v_app active syncs s (some nss) =
      carry_out w.delete_ok w.send_ok (spec_for v_app nss active) (plan_for v_app nss active syncs)
        s

  abbrev pub sync_pods : VirtualApp → Scan → Done
  sync_pods v_app (stopped t s) = record (nothing_done s) { requeue_after = t }
  sync_pods v_app (scanned active syncs s) =
      sync_with v_app active syncs s (get_active_namespaces w.namespaces)

  -- `Reconcile` behind getPodsForVApp, whose result comes last.
  abbrev pub sync_listed : VirtualApp → ServerState → Option (List Pod) → Done
  sync_listed v_app s none = failed_with s
  sync_listed v_app s (some pods) = sync_pods v_app (scan pods s)

  abbrev pub reconcile_got : ServerState → Got → Done
  reconcile_got s not_found = nothing_done s
  reconcile_got s failed = failed_with s
  reconcile_got s (found v_app) = sync_listed v_app s (get_pods_for_v_app w.pods)

  unfoldable pub reconcile : ServerState → Done
  unfolding scan carry_out plan_of decide get_pods_for_v_app get_active_namespaces
  reconcile s = reconcile_got s w.got
