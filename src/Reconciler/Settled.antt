-- ===== src/Reconciler/Settled.antt =====
-- When a run of `Reconcile` holds back.
use controllermesh.Prelude.{
  String, List, [], ◌∷◌, Option, none, some, Bool, true, false, not, ◌&&◌, ◌≡◌, refl, arith, all,
  has, nonempty, if◌then◌else◌, ltb, ap, ◌∙◌, sym, eq_iff,
}
use controllermesh.Prelude.Maps.{lookup, lookup-delete}
use controllermesh.Kube.{Pod, is_pod_active, is_pod_ready}
use controllermesh.VirtualApp.{VirtualApp}
use controllermesh.Server.{get_running_containers}
use controllermesh.Reconciler.{
  ServerState, Connection, Visit, Scan, World, found, stopped, scanned, waits, connected, visit,
  satisfy, after_visit, scan, reconcile, reconcile_got, sync_listed, sync_pods, get_pods_for_v_app,
  is_running, is_pending, hash_reported,
}

-- The stream is up and the proxy has reported the hash that it was sent last.
abbrev pub is_answered : Option String → Option Connection → Pod → Bool
is_answered expectation none pod =
    not (is_running pod.phase && is_pod_ready pod) && not (is_pending pod.phase && ltb pod.age 60)
is_answered none (some conn) pod = not conn.disconnected
is_answered (some hash) (some conn) pod = not conn.disconnected && hash_reported hash conn.status

-- No container of the pod runs on when it is done or being deleted; else it has not been deleted by
-- an earlier run, and its proxy has answered or need not be waited for.
unfoldable pub is_settled : ServerState → Pod → Bool
is_settled s pod =
    if is_pod_active pod
    then not (has pod.uid s.pod_deletion_expectation)
      && is_answered (lookup pod.uid s.pod_hash_expectation)
          (lookup pod.uid s.cached_grpc_srv_connection) pod
    else not (nonempty (get_running_containers pod))

abbrev is_waiting : Visit → Bool
is_waiting (waits t) = true
is_waiting _ = false

abbrev is_connected : Visit → Bool
is_connected (connected sync) = true
is_connected _ = false

abbrev is_scanned : Scan → Bool
is_scanned (stopped t s) = false
is_scanned (scanned pods syncs s) = true

visit-settled : (s : ServerState) (pod : Pod) → is_waiting (visit s pod) ≡ not (is_settled s pod)
unfolding visit is_settled
visit-settled s pod = ground arith

satisfy-settled :
    (s : ServerState) (a b : Pod)
    → is_connected (visit s a) ≡ true
    → is_settled (satisfy a.uid s) b ≡ true
    → is_settled s b ≡ true
unfolding visit is_settled
satisfy-settled s a b c h =
    ground (arith, lookup-delete a.uid b.uid s.pod_hash_expectation, eq_iff b.uid a.uid)

after_visit-settled :
    (s : ServerState) (a : Pod) (pods : List Pod)
    → all (is_settled (after_visit (visit s a) a s)) pods ≡ true
    → all (is_settled s) pods ≡ true
after_visit-settled s a [] h = refl
after_visit-settled s a (b ∷ pods) h =
    ground (arith, satisfy-settled s a b, after_visit-settled s a pods)

scan-settled :
    (pods : List Pod) (s : ServerState)
    → is_scanned (scan pods s) ≡ true
    → all (is_settled s) pods ≡ true
unfolding scan
scan-settled [] s h = refl
scan-settled (pod ∷ pods) s h = ground (
  arith,
  visit-settled s pod,
  scan-settled pods (after_visit (visit s pod) pod s),
  after_visit-settled s pod pods,
)

pub nonempty-nil : {A : Type 0} (xs : List A) → nonempty xs ≡ false → xs ≡ []
nonempty-nil [] h = refl
nonempty-nil (x ∷ xs) h = ground arith

sync_pods-scanned :
    (w : World) (v_app : VirtualApp) (sc : Scan)
    → nonempty (sync_pods w v_app sc).effects ≡ true
    → is_scanned sc ≡ true
sync_pods-scanned w v_app (stopped t s) h = h
sync_pods-scanned w v_app (scanned active syncs s) h = refl

-- When a run of `Reconcile` on a VirtualApp deletes a pod or sends a spec, every pod that it has
-- listed is settled.
pub reconcile-settled :
    (w : World) (s : ServerState) (v_app : VirtualApp) (pods : List Pod)
    → w.got ≡ found v_app
    → get_pods_for_v_app w.pods ≡ some pods
    → nonempty (reconcile w s).effects ≡ true
    → all (is_settled s) pods ≡ true
unfolding reconcile
reconcile-settled w s v_app pods g l h = scan-settled pods s (
    sync_pods-scanned w v_app (scan pods s) (
      sym (ap (λ o. nonempty (sync_listed w v_app s o).effects) l)
      ∙ (sym (ap (λ g. nonempty (reconcile_got w s g).effects) g) ∙ h)))
