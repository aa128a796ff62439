-- ===== src/Stream/Registered.antt =====
-- A proxy registers at the manager, for the first time or again.
use controllermesh.Prelude.{String, some, true, false, ◌==◌, ◌≡◌, arith}
use controllermesh.Prelude.Maps.{lookup, lookup-put, lookup-delete}
use controllermesh.Proto.{ProxyStatus}
use controllermesh.Kube.{Pod, is_pod_active}
use controllermesh.Reconciler.{ServerState, SyncPod}
use controllermesh.Stream.{pod_found, registered, register_v1, new_connection, store_connection}

abbrev pub fresh_sync : ProxyStatus → Pod → SyncPod
fresh_sync status pod = record { pod = pod; dispatched = false; current_status = status }

pub registered-stored :
    (status : ProxyStatus) (pod : Pod) (s s' : ServerState) (uid v_app : String)
    → register_v1 (some status) (pod_found pod) s ≡ registered uid v_app s'
    → (is_pod_active pod ≡ true) × (s' ≡ store_connection status pod s)
unfolding register_v1
registered-stored status pod s s' uid v_app e = ground arith

pub stored-other :
    (status : ProxyStatus) (pod : Pod) (s : ServerState) (other : String)
    → (other == pod.uid) ≡ false
    → (lookup other (store_connection status pod s).cached_grpc_srv_connection
        ≡ lookup other s.cached_grpc_srv_connection)
      × (lookup other (store_connection status pod s).pod_hash_expectation
          ≡ lookup other s.pod_hash_expectation)
stored-other status pod s other n = ground (
  arith,
  n,
  lookup-put pod.uid other (new_connection status) s.cached_grpc_srv_connection,
  lookup-delete pod.uid other s.pod_hash_expectation,
)
