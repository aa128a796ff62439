-- ===== src/Stream.antt =====
-- The gRPC stream between a proxy and the manager: proxy/protomanager/proto_manager_grpc.go at the
-- proxy's end, RegisterV1 of controllers/server/grpc_server.go at the manager's.

pub mod Registered
pub mod Planned
pub mod Reported
pub mod Link
use controllermesh.Prelude.{
  ℕ, ◌+◌, String, List, [], ◌∷◌, Option, none, some, Bool, true, false, not, ◌&&◌, ◌||◌, ◌==◌,
  nat_eq, if◌then◌else◌,
}
use controllermesh.Prelude.Maps.{Map, lookup, put}
use controllermesh.Proto.{ProxySpec, ProxyStatus, SpecMeta, SelfInfo, Endpoint}
use controllermesh.Proto
use controllermesh.Kube.{Pod, is_pod_active, label_of}
use controllermesh.ManagerState.{ManagerEndpoint, ManagerStatus}
use controllermesh.Events.{injected_key}
use controllermesh.SpecManager.{
  SpecManager, Env, Io, Outcome, done, panicked, update_spec, get_status,
}
use controllermesh.Reconciler.{Connection, ServerState, satisfy}

-- The first endpoint with `Leader`.
abbrev pub find_leader : List ManagerEndpoint → Option ManagerEndpoint
find_leader [] = none
find_leader (e ∷ es) = if e.leader then some e else find_leader es

-- The address that a round of the loop of `connect` dials, by the lister's answer; `none` where it
-- goes on waiting.
unfoldable pub dial_address : Option ManagerStatus → Option (String × ℕ)
dial_address none = none
dial_address (some status) = elim status.ports [
  | none ↦ none
  | some ports ↦
      if nat_eq ports.grpc_leader_election_port 0
      then none
      else (elim (find_leader status.endpoints) [
        | none ↦ none
        | some leader ↦ some (leader.pod_ip, ports.grpc_leader_election_port)
      ])
]

-- ProxySpecV1 as it arrives, where the message fields may be missing.
pub record Message : Type 0 where
  pub meta : Option SpecMeta
  pub route : Option Proto.Route
  pub endpoints : List Endpoint

-- grpcClient: its manager of specs and `prevSpec`
pub record Client : Type 0 where
  pub spec_manager : SpecManager
  pub prev_spec : Option ProxySpec

-- The test of `recv`, `none` for an invalid spec.
abbrev pub valid_spec : Option Message → Option ProxySpec
valid_spec none = none
valid_spec (some m) = elim m.meta [
  | none ↦ none
  | some meta ↦ (elim m.route [
    | none ↦ none
    | some route ↦ some (record { meta = meta; route = route; endpoints = m.endpoints })
  ])
]

abbrev pub map_outcome : {A B : Type 0} → (A → B) → Outcome A → Outcome B
map_outcome f (done a) = done (f a)
map_outcome f panicked = panicked

-- c.reportTriggerChan <- struct{}{}
abbrev pub trigger_report : Client → Client
trigger_report c = record c {
  spec_manager = record c.spec_manager { reports = c.spec_manager.reports + 1 };
}

abbrev pub empty_status : ProxyStatus
empty_status = record { self_info = none; meta_state = none; leader_election_state = none }

abbrev pub status_or_empty : Option ProxyStatus → ProxyStatus
status_or_empty none = empty_status
status_or_empty (some status) = status

-- What `send` sends, if it sends: `equal` is proto.Equal, which nil is not to any status.
abbrev pub is_known : (ProxyStatus → ProxyStatus → Bool) → ProxyStatus → Option ProxyStatus → Bool
is_known equal status none = false
is_known equal status (some prev) = equal status prev

abbrev pub new_status :
    (ProxyStatus → ProxyStatus → Bool)
    → Option ProxyStatus
    → Option ProxyStatus
    → Option ProxyStatus
new_status equal prev none = none
new_status equal prev (some status) = if is_known equal status prev then none else some status

abbrev pub triggered : Option Client → Option Client
triggered none = none
triggered (some c) = some (trigger_report c)

module _ (env : Env) where
  abbrev pub recv_spec : Io → Option ProxySpec → Client → Outcome Client
  recv_spec io none c = done c
  recv_spec io (some spec) c =
      map_outcome (λ sm. record { spec_manager = sm; prev_spec = some spec })
        (update_spec env io spec c.spec_manager)

  -- `received` is the result of Recv, `none` an error, as is that of this function.
  unfoldable pub recv : Io → Option (Option Message) → Client → Outcome (Option Client)
  unfolding update_spec
  recv io none c = done none
  recv io (some m) c = map_outcome some (recv_spec io (valid_spec m) c)

  -- A round of the last loop of `syncing`; `none` ends it.
  abbrev pub sync_round : Io → Option (Option Message) → Client → Outcome (Option Client)
  sync_round io received c = map_outcome triggered (recv io received c)

  -- The first message of `syncing`.
  abbrev pub first_status : SelfInfo → SpecManager → Outcome ProxyStatus
  first_status self sm =
      map_outcome (λ st. record (status_or_empty st) { self_info = some self }) (get_status env sm)

  unfoldable pub send :
      (ProxyStatus → ProxyStatus → Bool)
      → Option ProxyStatus
      → SpecManager
      → Outcome (Option ProxyStatus)
  unfolding get_status
  send equal prev sm = map_outcome (new_status equal prev) (get_status env sm)

-- The end of RegisterV1 in an error, by its code.
pub data Code : Type 0 where
  aborted invalid_argument not_found internal canceled : Code

-- s.reader.Get
pub data PodAnswer : Type 0 where
  pod_found : Pod → PodAnswer
  pod_missing pod_error : PodAnswer

pub data Registration : Type 0 where
  refused : Code → Registration
  -- the UID of the pod, and the name in the event that triggers a run of `Reconcile`
  registered : String → String → ServerState → Registration

abbrev pub new_connection : ProxyStatus → Connection
new_connection status = record { status = status; send_times = 0; disconnected = false }

abbrev pub is_valid_self : Option SelfInfo → Bool
is_valid_self none = false
is_valid_self (some self) = not (self.namespace == "" || self.name == "")

abbrev pub store_connection : ProxyStatus → Pod → ServerState → ServerState
store_connection status pod s = satisfy pod.uid (record s {
  cached_grpc_srv_connection = put pod.uid (new_connection status) s.cached_grpc_srv_connection;
})

abbrev pub register_pod : ProxyStatus → PodAnswer → ServerState → Registration
register_pod status pod_missing s = refused not_found
register_pod status pod_error s = refused internal
register_pod status (pod_found pod) s =
    if not (is_pod_active pod)
    then refused canceled
    else if label_of injected_key pod.labels == ""
    then refused invalid_argument
    else registered pod.uid (label_of injected_key pod.labels) (store_connection status pod s)

-- RegisterV1 up to its first event; `none` is an error of the first Recv.
unfoldable pub register_v1 : Option ProxyStatus → PodAnswer → ServerState → Registration
unfolding is_pod_active
register_v1 none answer s = refused aborted
register_v1 (some status) answer s =
    if is_valid_self status.self_info
    then register_pod status answer s
    else refused invalid_argument

-- A message of the loop that RegisterV1 starts: the connection, and whether it triggers an event.
unfoldable pub receive_status :
    (ProxyStatus → ProxyStatus → Bool) → ProxyStatus → Connection → Connection × Bool
receive_status equal status conn = (record conn { status = status }, not (equal conn.status status))

abbrev pub disconnect : Connection → Connection
disconnect conn = record conn { disconnected = true }

-- The end of RegisterV1 when the stream is over; `current` says whether the map still has the
-- connection of this stream for the pod.
unfoldable pub close_stream : Bool → String → Connection → ServerState → ServerState
close_stream current uid conn s =
    let s' = satisfy uid s in
    if current
    then record s' {
      cached_grpc_srv_connection = put uid (disconnect conn) s'.cached_grpc_srv_connection;
    }
    else s'
