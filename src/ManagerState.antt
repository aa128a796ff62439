-- ===== src/ManagerState.antt =====
-- ManagerState of apis/ctrlmesh/v1alpha1/managerstate_types.go, by which the proxies find the
-- manager, and controllers/managerstate/managerstate_controller.go, which keeps it.
pub mod Dialled
use controllermesh.Prelude.{
  ℕ, String, List, [], ◌∷◌, Option, none, some, Bool, true, false, not, ◌==◌, any, if◌then◌else◌,
}
use controllermesh.Prelude.Sorting.{text_lt, sort_stable}
use controllermesh.Kube.{Pod, is_pod_active}

-- ManagerStateEndpoint
pub record ManagerEndpoint : Type 0 where
  pub name : String
  pub pod_ip : String
  pub leader : Bool

-- ManagerStatePorts
pub record ManagerPorts : Type 0 where
  pub grpc_leader_election_port : ℕ
  pub grpc_non_leader_election_port : ℕ

-- ManagerStateStatus
pub record ManagerStatus : Type 0 where
  pub namespace : String
  pub endpoints : List ManagerEndpoint
  pub ports : Option ManagerPorts

abbrev pub endpoint_less : ManagerEndpoint → ManagerEndpoint → Bool
endpoint_less e f = text_lt e.name f.name

-- r.Get
pub data StateAnswer : Type 0 where
  state_found : ManagerStatus → StateAnswer
  state_missing state_error : StateAnswer

-- The answer to a creation.
pub data Creation : Type 0 where
  created already_exists creation_error : Creation

-- What a run of `Reconcile` writes.
pub data Write : Type 0 where
  no_write : Write
  create_state update_status : ManagerStatus → Write

pub record StateWorld : Type 0 where
  pub namespace : String
  pub local_name : String
  pub ports : ManagerPorts
  pub pods : Option (List Pod)
  pub got : StateAnswer
  pub creation : Creation
  pub update_ok : Bool
  -- reflect.DeepEqual
  pub equal : ManagerStatus → ManagerStatus → Bool

module _ (w : StateWorld) where
  -- The loop over the pods.
  unfoldable pub endpoints_of : List Pod → List ManagerEndpoint
  endpoints_of [] = []
  endpoints_of (pod ∷ pods) =
      let e : ManagerEndpoint = record {
        name = pod.name;
        pod_ip = pod.pod_ip;
        leader = pod.name == w.local_name;
      } in
      let rest = endpoints_of pods in if not (is_pod_active pod) then rest else e ∷ rest

  abbrev pub new_status : List ManagerEndpoint → ManagerStatus
  new_status endpoints = record {
    namespace = w.namespace;
    endpoints = sort_stable endpoint_less endpoints;
    ports = some w.ports;
  }

  -- A creation that finds the state there is returned as an error, though the code tests for it.
  abbrev pub is_creation_error : Creation → Bool
  is_creation_error created = false
  is_creation_error _ = true

  -- Is an error returned, and what is written, or tried to be.
  abbrev pub write_status : ManagerStatus → StateAnswer → Bool × Write
  write_status status state_error = (true, no_write)
  write_status status state_missing = (is_creation_error w.creation, create_state status)
  write_status status (state_found old) =
      if w.equal old status then (false, no_write) else (not w.update_ok, update_status status)

  abbrev pub reconcile_endpoints : List ManagerEndpoint → Bool × Write
  reconcile_endpoints endpoints =
      if not (any (λ e. e.leader) endpoints)
      then (true, no_write)
      else write_status (new_status endpoints) w.got

  abbrev pub reconcile_pods : Option (List Pod) → Bool × Write
  reconcile_pods none = (true, no_write)
  reconcile_pods (some pods) = reconcile_endpoints (endpoints_of pods)

  unfoldable pub reconcile_state : String → Bool × Write
  unfolding endpoints_of
  reconcile_state name =
      if not (name == "ctrlmesh-manager") then (false, no_write) else reconcile_pods w.pods
