-- ===== src/Reconciler/Expected.antt =====
-- What a run of `Reconcile` leaves for the next runs to wait for.
use controllermesh.Prelude.{
  String, List, [], ◌∷◌, ◌++◌, Option, none, some, Bool, true, false, not, ◌||◌, ◌==◌, ◌≡◌, refl,
  arith, all, has, has-insert, eq_refl, nonempty, Bool-cases, inl, inr,
}
use controllermesh.Prelude.Maps.{lookup, lookup-put}
use controllermesh.Proto.{ProxySpec}
use controllermesh.Kube.{Pod, Namespace, is_pod_active}
use controllermesh.VirtualApp.{VirtualApp}
use controllermesh.Server.{new_spec}
use controllermesh.Reconciler.{
  ServerState, SyncPod, Effect, Done, Plan, Scan, World, Got, delete_pod, send_spec, found,
  not_found, failed, stopped, scanned, delete_pods, send_specs, after_delete, after_send,
  count_send, carry_out, reconcile, reconcile_got, sync_listed, sync_pods, sync_with, spec_for,
  plan_for, hash_for, get_pods_for_v_app, get_active_namespaces, scan,
}
use controllermesh.Reconciler.Settled.{is_settled, reconcile-settled, nonempty-nil}

abbrev pub is_hash : String → Option String → Bool
is_hash hash none = false
is_hash hash (some h) = hash == h

module _ (delete_ok send_ok : Pod → Bool) where
  -- The next run waits for the pod of a deletion or a sending that went well.
  abbrev pub is_expected : ServerState → Effect → Bool
  is_expected s (delete_pod sync) =
      not (delete_ok sync.pod) || has sync.pod.uid s.pod_deletion_expectation
  is_expected s (send_spec sync spec) =
      not (send_ok sync.pod) || is_hash spec.meta.hash (lookup sync.pod.uid s.pod_hash_expectation)

  delete_pods-keeps :
      (syncs : List SyncPod) (err : Bool) (s : ServerState) (uid : String)
      → has uid s.pod_deletion_expectation ≡ true
      → has uid (delete_pods delete_ok syncs err s).state.pod_deletion_expectation ≡ true
  unfolding delete_pods
  delete_pods-keeps [] err s uid h = h
  delete_pods-keeps (sync ∷ syncs) err s uid h =
      let ok = delete_ok sync.pod in
      delete_pods-keeps syncs (not ok) (after_delete ok sync.pod.uid s) uid
        (ground (arith, has-insert uid sync.pod.uid s.pod_deletion_expectation))

  delete_pods-expected :
      (syncs : List SyncPod) (err : Bool) (s : ServerState)
      → let d = delete_pods delete_ok syncs err s in all (is_expected d.state) d.effects ≡ true
  unfolding delete_pods
  delete_pods-expected [] err s = refl
  delete_pods-expected (sync ∷ syncs) err s =
      let ok = delete_ok sync.pod in
      let s' = after_delete ok sync.pod.uid s in
      ground (
        arith,
        has-insert sync.pod.uid sync.pod.uid s.pod_deletion_expectation,
        eq_refl sync.pod.uid,
        delete_pods-keeps syncs (not ok) s' sync.pod.uid,
        delete_pods-expected syncs (not ok) s',
      )

  module _ (spec_of : SyncPod → ProxySpec) (hash : String)
      (one_hash : (sync : SyncPod) → (spec_of sync).meta.hash ≡ hash) where
    count_send-expectation :
        (uid : String) (s : ServerState)
        → (count_send uid s).pod_hash_expectation ≡ s.pod_hash_expectation
    count_send-expectation uid s = ground arith

    send_specs-keeps :
        (syncs : List SyncPod) (err : Bool) (s : ServerState) (uid : String)
        → is_hash hash (lookup uid s.pod_hash_expectation) ≡ true
        → is_hash hash
            (lookup uid (send_specs spec_of send_ok syncs err s).state.pod_hash_expectation)
          ≡ true
    unfolding send_specs
    send_specs-keeps [] err s uid h = h
    send_specs-keeps (sync ∷ syncs) err s uid h =
        let ok = send_ok sync.pod in
        let sent = (spec_of sync).meta.hash in
        send_specs-keeps syncs (not ok) (after_send ok sync.pod.uid sent s) uid (
          ground (
            arith,
            one_hash sync,
            eq_refl hash,
            count_send-expectation sync.pod.uid s,
            lookup-put sync.pod.uid uid sent s.pod_hash_expectation,
          ))

    send_specs-expected :
        (syncs : List SyncPod) (err : Bool) (s : ServerState)
        → let d = send_specs spec_of send_ok syncs err s in
          all (is_expected d.state) d.effects ≡ true
    unfolding send_specs
    send_specs-expected [] err s = refl
    send_specs-expected (sync ∷ syncs) err s =
        let ok = send_ok sync.pod in
        let sent = (spec_of sync).meta.hash in
        let s' = after_send ok sync.pod.uid sent s in
        ground (
          arith,
          one_hash sync,
          eq_refl hash,
          count_send-expectation sync.pod.uid s,
          lookup-put sync.pod.uid sync.pod.uid sent s.pod_hash_expectation,
          eq_refl sync.pod.uid,
          send_specs-keeps syncs (not ok) s' sync.pod.uid,
          send_specs-expected syncs (not ok) s',
        )

    carry_out-expected :
        (p : Plan) (s : ServerState)
        → let d = carry_out delete_ok send_ok spec_of p s in
          all (is_expected d.state) d.effects ≡ true
    unfolding carry_out
    carry_out-expected p s = ground (
      arith,
      delete_pods-expected p.others false s,
      delete_pods-expected p.leaders false s,
      send_specs-expected p.updates false s,
      send_specs-expected p.dispatches false s,
    )

abbrev IsExpectedAfter : World → Done → Type 0
IsExpectedAfter w d = all (is_expected w.delete_ok w.send_ok d.state) d.effects ≡ true

sync_with-expected :
    (w : World) (v_app : VirtualApp) (active : List Pod) (syncs : List SyncPod) (s : ServerState)
    (o : Option (List Namespace))
    → IsExpectedAfter w (sync_with w v_app active syncs s o)
unfolding new_spec
sync_with-expected w v_app active syncs s none = refl
sync_with-expected w v_app active syncs s (some nss) =
    carry_out-expected w.delete_ok w.send_ok (spec_for w v_app nss active)
      (hash_for w v_app nss active) (λ sync. refl) (plan_for w v_app nss active syncs) s

sync_pods-expected :
    (w : World) (v_app : VirtualApp) (sc : Scan) → IsExpectedAfter w (sync_pods w v_app sc)
sync_pods-expected w v_app (stopped t s) = refl
sync_pods-expected w v_app (scanned active syncs s) =
    sync_with-expected w v_app active syncs s (get_active_namespaces w.namespaces)

sync_listed-expected :
    (w : World) (v_app : VirtualApp) (s : ServerState) (o : Option (List Pod))
    → IsExpectedAfter w (sync_listed w v_app s o)
sync_listed-expected w v_app s none = refl
sync_listed-expected w v_app s (some pods) = sync_pods-expected w v_app (scan pods s)

reconcile_got-expected :
    (w : World) (s : ServerState) (g : Got) → IsExpectedAfter w (reconcile_got w s g)
reconcile_got-expected w s not_found = refl
reconcile_got-expected w s failed = refl
reconcile_got-expected w s (found v_app) =
    sync_listed-expected w v_app s (get_pods_for_v_app w.pods)

-- After a run every pod whose deletion went well is one that is expected to be deleted, and of every
-- pod that a spec went to the hash of that spec is expected.
pub reconcile-expected :
    (w : World) (s : ServerState)
    → all (is_expected w.delete_ok w.send_ok (reconcile w s).state) (reconcile w s).effects ≡ true
unfolding reconcile
reconcile-expected w s = reconcile_got-expected w s w.got

all-at :
    (p : Pod → Bool) (before : List Pod) (pod : Pod) (after : List Pod)
    → all p (before ++ pod ∷ after) ≡ true
    → p pod ≡ true
all-at p [] pod after h = ground arith
all-at p (x ∷ before) pod after h = ground (arith, all-at p before pod after)

deleted-unsettled :
    (s : ServerState) (pod : Pod)
    → is_pod_active pod ≡ true
    → has pod.uid s.pod_deletion_expectation ≡ true
    → is_settled s pod ≡ false
unfolding is_settled
deleted-unsettled s pod a d = ground arith

-- As long as an active pod is listed that is expected to be deleted, a run deletes nothing and sends
-- nothing.
pub reconcile-waits :
    (w : World) (s : ServerState) (v_app : VirtualApp) (before after : List Pod) (pod : Pod)
    → w.got ≡ found v_app
    → get_pods_for_v_app w.pods ≡ some (before ++ pod ∷ after)
    → is_pod_active pod ≡ true
    → has pod.uid s.pod_deletion_expectation ≡ true
    → (reconcile w s).effects ≡ []
reconcile-waits w s v_app before after pod g l a d =
    elim (Bool-cases (nonempty (reconcile w s).effects)) [
      | inr n ↦ nonempty-nil (reconcile w s).effects n
      | inl n ↦
          let settled : is_settled s pod ≡ true =
            all-at (is_settled s) before pod after
              (reconcile-settled w s v_app (before ++ pod ∷ after) g l n) in
          ground (arith, deleted-unsettled s pod a d)
    ]
