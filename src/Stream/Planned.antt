-- ===== src/Stream/Planned.antt =====
-- What the manager does about a proxy that has registered.
use controllermesh.Prelude.{
  String, List, [], ◌∷◌, ◌++◌, Option, none, some, Bool, true, false, ◌||◌, ◌==◌, ◌≡◌, refl, arith,
  any, has, nonempty, ap, sym, subst, ◌∙◌, eq_refl,
}
use controllermesh.Prelude.Maps.{lookup, lookup-put, lookup-delete}
use controllermesh.Proto.{ProxySpec, ProxyStatus}
use controllermesh.Kube.{Pod, Namespace, is_pod_active}
use controllermesh.VirtualApp.{VirtualApp}
use controllermesh.Server.{determine_pod_subset}
use controllermesh.Reconciler.{
  ServerState, SyncPod, Visit, connected, Scan, stopped, scanned, Decision, Plan, World, found,
  to_keep, visit, after_visit, satisfy, scan, decide, plan_of, delete_pods, send_specs, carry_out,
  get_pods_for_v_app, get_active_namespaces, reconcile, reconcile_got, sync_listed, sync_pods,
  sync_with, spec_for, hash_for,
}
use controllermesh.Stream.{pod_found, registered, register_v1, new_connection, store_connection}
use controllermesh.Stream.Registered.{fresh_sync, registered-stored, stored-other}

-- The state knows the registration and expects nothing of the pod.
abbrev IsFresh : ProxyStatus → Pod → ServerState → Type 0
IsFresh status pod t =
    (lookup pod.uid t.cached_grpc_srv_connection ≡ some (new_connection status))
    × (lookup pod.uid t.pod_hash_expectation ≡ none)
    × (has pod.uid t.pod_deletion_expectation ≡ false)

-- The run waits for a pod.
abbrev pub is_stopped : Scan → Bool
is_stopped (stopped t s) = true
is_stopped (scanned pods syncs s) = false

-- It waits for a pod, or goes on with a sync of the kind.
abbrev carries : (SyncPod → Bool) → Scan → Bool
carries p (stopped t s) = true
carries p (scanned pods syncs s) = any p syncs

abbrev is_planned : Decision → Bool
is_planned to_keep = false
is_planned _ = true

module _ (status : ProxyStatus) (pod : Pod) where
  stored-IsFresh :
      (s : ServerState)
      → has pod.uid s.pod_deletion_expectation ≡ false
      → IsFresh status pod (store_connection status pod s)
  stored-IsFresh s d = ground (
    arith,
    d,
    eq_refl pod.uid,
    lookup-put pod.uid pod.uid (new_connection status) s.cached_grpc_srv_connection,
    lookup-delete pod.uid pod.uid s.pod_hash_expectation,
  )

  fresh-visit :
      (t : ServerState)
      → is_pod_active pod ≡ true
      → IsFresh status pod t
      → visit t pod ≡ connected (fresh_sync status pod)
  unfolding visit
  fresh-visit t a f = ground (arith, a, f.0, f.1, f.2)

  satisfy-IsFresh :
      (uid : String) (t : ServerState) → IsFresh status pod t → IsFresh status pod (satisfy uid t)
  satisfy-IsFresh uid t f =
      ground (arith, f.0, f.1, f.2, lookup-delete uid pod.uid t.pod_hash_expectation)

  after_visit-IsFresh :
      (v : Visit) (other : Pod) (t : ServerState)
      → IsFresh status pod t
      → IsFresh status pod (after_visit v other t)
  after_visit-IsFresh v other t f =
      let satisfied = satisfy-IsFresh other.uid t f in ground (arith, f.0, f.1, f.2, satisfied)

  scan-carries :
      (p : SyncPod → Bool) (before after : List Pod) (t : ServerState)
      → p (fresh_sync status pod) ≡ true
      → is_pod_active pod ≡ true
      → IsFresh status pod t
      → carries p (scan (before ++ pod ∷ after) t) ≡ true
  unfolding scan
  scan-carries p [] after t h a f = ground (arith, h, fresh-visit t a f)
  scan-carries p (x ∷ before) after t h a f =
      let next = after_visit (visit t x) x t in
      let rest = scan-carries p before after next h a (after_visit-IsFresh (visit t x) x t f) in
      ground (arith, rest)

  fresh-is_planned :
      (subset hash : String) → is_planned (decide subset hash (fresh_sync status pod)) ≡ true
  unfolding decide
  fresh-is_planned subset hash = ground arith

abbrev has_work : Plan → Bool
has_work p = nonempty p.others || nonempty p.leaders || nonempty p.updates || nonempty p.dispatches

plan_of-has_work :
    (f : SyncPod → Decision) (syncs : List SyncPod)
    → any (λ sync. is_planned (f sync)) syncs ≡ true
    → has_work (plan_of f syncs) ≡ true
unfolding plan_of
plan_of-has_work f [] h = cc
plan_of-has_work f (sync ∷ syncs) h = ground (arith, plan_of-has_work f syncs)

delete_pods-nonempty :
    (ok : Pod → Bool) (syncs : List SyncPod) (err : Bool) (s : ServerState)
    → nonempty (delete_pods ok syncs err s).effects ≡ nonempty syncs
unfolding delete_pods
delete_pods-nonempty ok [] err s = refl
delete_pods-nonempty ok (sync ∷ syncs) err s = refl

send_specs-nonempty :
    (spec_of : SyncPod → ProxySpec) (ok : Pod → Bool) (syncs : List SyncPod) (err : Bool)
    (s : ServerState)
    → nonempty (send_specs spec_of ok syncs err s).effects ≡ nonempty syncs
unfolding send_specs
send_specs-nonempty spec_of ok [] err s = refl
send_specs-nonempty spec_of ok (sync ∷ syncs) err s = refl

carry_out-nonempty :
    (delete_ok send_ok : Pod → Bool) (spec_of : SyncPod → ProxySpec) (p : Plan) (s : ServerState)
    → nonempty (carry_out delete_ok send_ok spec_of p s).effects ≡ has_work p
unfolding carry_out
carry_out-nonempty delete_ok send_ok spec_of p s = ground (
  arith,
  delete_pods-nonempty delete_ok p.others false s,
  delete_pods-nonempty delete_ok p.leaders false s,
  send_specs-nonempty spec_of send_ok p.updates false s,
  send_specs-nonempty spec_of send_ok p.dispatches false s,
)

module _ (status : ProxyStatus) (pod : Pod) (w : World) (v_app : VirtualApp) where
  sync_with-nonempty :
      (active : List Pod) (syncs : List SyncPod) (t : ServerState) (nss : List Namespace)
      (o : Option (List Namespace))
      → o ≡ some nss
      → ((p : SyncPod → Bool) → p (fresh_sync status pod) ≡ true → any p syncs ≡ true)
      → nonempty (sync_with w v_app active syncs t o).effects ≡ true
  sync_with-nonempty active syncs t nss none e h = cc
  sync_with-nonempty active syncs t nss (some listed) e h =
      let decision = λ (sync : SyncPod).
        decide (determine_pod_subset v_app sync.pod) (hash_for w v_app listed active) sync in
      carry_out-nonempty w.delete_ok w.send_ok (spec_for w v_app listed active)
        (plan_of decision syncs) t
      ∙ plan_of-has_work decision syncs (
          h (λ sync. is_planned (decision sync))
            (fresh-is_planned status pod (determine_pod_subset v_app pod)
              (hash_for w v_app listed active)))

  sync_pods-nonempty :
      (sc : Scan) (nss : List Namespace)
      → get_active_namespaces w.namespaces ≡ some nss
      → is_stopped sc ≡ false
      → ((p : SyncPod → Bool) → p (fresh_sync status pod) ≡ true → carries p sc ≡ true)
      → nonempty (sync_pods w v_app sc).effects ≡ true
  sync_pods-nonempty (stopped t s) nss l n h = cc
  sync_pods-nonempty (scanned active syncs s) nss l n h =
      sync_with-nonempty active syncs s nss (get_active_namespaces w.namespaces) l h

  -- A proxy registers, whatever was known of its pod before, and the pod is not expected to be
  -- deleted. The next run of `Reconcile` on a VirtualApp that lists the pod among its pods, and that
  -- lists the namespaces, finds the pod connected with the status that it registered with and waits
  -- for no hash of it; and if the run waits for no other pod, it deletes a pod or sends a spec. Of a
  -- pod with another UID the registration changes neither the connection nor the expected hash.
  pub registered-reconciled :
      (s s' : ServerState) (uid name other : String) (before after : List Pod)
      (nss : List Namespace)
      → register_v1 (some status) (pod_found pod) s ≡ registered uid name s'
      → has pod.uid s.pod_deletion_expectation ≡ false
      → w.got ≡ found v_app
      → get_pods_for_v_app w.pods ≡ some (before ++ pod ∷ after)
      → get_active_namespaces w.namespaces ≡ some nss
      → is_stopped (scan (before ++ pod ∷ after) s') ≡ false
      → (other == pod.uid) ≡ false
      → (visit s' pod ≡ connected (fresh_sync status pod))
        × (nonempty (reconcile w s').effects ≡ true)
        × (lookup other s'.cached_grpc_srv_connection ≡ lookup other s.cached_grpc_srv_connection)
        × (lookup other s'.pod_hash_expectation ≡ lookup other s.pod_hash_expectation)
  unfolding reconcile
  registered-reconciled s s' uid name other before after nss e d g l n go ne =
      let (active, stored) = registered-stored status pod s s' uid name e in
      let fresh : IsFresh status pod s' =
        subst (IsFresh status pod) (sym stored) (stored-IsFresh status pod s d) in
      (
        fresh-visit status pod s' active fresh,
        ap (λ got. nonempty (reconcile_got w s' got).effects) g
            ∙ ap (λ o. nonempty (sync_listed w v_app s' o).effects) l
            ∙ sync_pods-nonempty (scan (before ++ pod ∷ after) s') nss n go
                (λ p h. scan-carries status pod p before after s' h active fresh),
        rw stored (stored-other status pod s other ne).0,
        rw stored (stored-other status pod s other ne).1,
      )
