-- ===== src/Reconciler/Order.antt =====
-- What a run of `Reconcile` does: which pods it deletes and which it sends a spec to.
use controllermesh.Prelude.{
  String, List, [], ◌∷◌, Option, none, some, Bool, true, false, not, ◌&&◌, ◌||◌, ◌==◌, ◌≡◌, refl,
  arith, all, ap, eq_refl, if◌then◌else◌, ◌∙◌,
}
use controllermesh.Proto.{ProxySpec, ProxyStatus}
use controllermesh.Kube.{Pod, Namespace}
use controllermesh.VirtualApp.{VirtualApp}
use controllermesh.Reconciler.{
  ServerState, SyncPod, Effect, Plan, Scan, World, found, stopped, scanned, after_delete,
  after_send, get_pods_for_v_app, delete_pod, send_spec, to_dispatch, to_update, to_delete_leader,
  to_delete_other, to_keep, decide, plan_of, delete_pods, send_specs, carry_out, scan, reconcile,
  sync_pods, sync_with, sync_listed, reconcile_got, spec_for, plan_for, hash_for,
  get_active_namespaces,
}
use controllermesh.Server.{new_spec, determine_pod_subset}

abbrev pub is_leader : ProxyStatus → Bool
is_leader status = elim status.leader_election_state [ none ↦ false | some le ↦ le.is_leader ]

-- The proxy has reported a subset that is not its pod's, or has refused the spec it was sent.
abbrev pub is_diverged : String → ProxyStatus → Bool
is_diverged subset status = elim status.meta_state [
  | none ↦ false
  | some m ↦ not (m.subset == subset) || not (m.expected_hash == m.current_hash)
]

module _ (v_app : VirtualApp) where
  abbrev pub diverged : SyncPod → Bool
  diverged sync = is_diverged (determine_pod_subset v_app sync.pod) sync.current_status

  -- A deletion of a diverged pod, of the role.
  abbrev pub deletes_diverged : Bool → Effect → Bool
  deletes_diverged leader (delete_pod sync) =
      diverged sync
      && (if leader then is_leader sync.current_status else not (is_leader sync.current_status))
  deletes_diverged leader (send_spec sync spec) = false

  -- A spec of the application and of the pod's subset for a pod that has not diverged.
  abbrev pub sends_own : Effect → Bool
  sends_own (delete_pod sync) = false
  sends_own (send_spec sync spec) =
      not (diverged sync)
      && spec.route.subset == determine_pod_subset v_app sync.pod
      && spec.meta.v_app_name == v_app.name

  -- The three kinds of runs.
  unfoldable pub is_ordered : List Effect → Bool
  is_ordered effects =
      all (deletes_diverged false) effects
      || all (deletes_diverged true) effects
      || all sends_own effects

  -- Each list of a plan holds what it is for.
  unfoldable is_sorted_out : Plan → Bool
  is_sorted_out p =
      all (λ sync. deletes_diverged false (delete_pod sync)) p.others
      && all (λ sync. deletes_diverged true (delete_pod sync)) p.leaders
      && all (λ sync. not (diverged sync)) p.updates
      && all (λ sync. not (diverged sync)) p.dispatches

  decide-diverged :
      (hash : String) (sync : SyncPod)
      → (elim (decide (determine_pod_subset v_app sync.pod) hash sync) [
        | to_delete_leader ↦ deletes_diverged true (delete_pod sync)
        | to_delete_other ↦ deletes_diverged false (delete_pod sync)
        | to_keep ↦ true
        | to_update ↦ not (diverged sync)
        | to_dispatch ↦ not (diverged sync)
      ])
        ≡ true
  unfolding decide
  decide-diverged hash sync = ground arith

  plan_of-is_sorted_out :
      (hash : String) (syncs : List SyncPod)
      → is_sorted_out
          (plan_of (λ sync. decide (determine_pod_subset v_app sync.pod) hash sync) syncs)
        ≡ true
  unfolding plan_of is_sorted_out
  plan_of-is_sorted_out hash [] = refl
  plan_of-is_sorted_out hash (sync ∷ syncs) =
      ground (arith, decide-diverged hash sync, plan_of-is_sorted_out hash syncs)

  delete_pods-effects :
      (delete_ok : Pod → Bool) (leader : Bool) (syncs : List SyncPod) (err : Bool) (s : ServerState)
      → all (deletes_diverged leader) (delete_pods delete_ok syncs err s).effects
        ≡ all (λ sync. deletes_diverged leader (delete_pod sync)) syncs
  unfolding delete_pods
  delete_pods-effects delete_ok leader [] err s = refl
  delete_pods-effects delete_ok leader (sync ∷ syncs) err s =
      let ok = delete_ok sync.pod in
      ap (λ b. deletes_diverged leader (delete_pod sync) && b)
        (delete_pods-effects delete_ok leader syncs (not ok) (after_delete ok sync.pod.uid s))

  send_specs-effects :
      (spec_of : SyncPod → ProxySpec) (send_ok : Pod → Bool) (syncs : List SyncPod) (err : Bool)
      (s : ServerState)
      → all sends_own (send_specs spec_of send_ok syncs err s).effects
        ≡ all (λ sync. sends_own (send_spec sync (spec_of sync))) syncs
  unfolding send_specs
  send_specs-effects spec_of send_ok [] err s = refl
  send_specs-effects spec_of send_ok (sync ∷ syncs) err s =
      let ok = send_ok sync.pod in
      ap (λ b. sends_own (send_spec sync (spec_of sync)) && b)
        (send_specs-effects spec_of send_ok syncs (not ok)
          (after_send ok sync.pod.uid (spec_of sync).meta.hash s))

  module _ (w : World) (nss : List Namespace) (active : List Pod) where
    spec_for-sends_own :
        (syncs : List SyncPod)
        → all (λ sync. sends_own (send_spec sync (spec_for w v_app nss active sync))) syncs
          ≡ all (λ sync. not (diverged sync)) syncs
    unfolding new_spec
    spec_for-sends_own [] = refl
    spec_for-sends_own (sync ∷ syncs) = ground (
      arith,
      spec_for-sends_own syncs,
      eq_refl v_app.name,
      eq_refl (determine_pod_subset v_app sync.pod),
    )

    carry_out-is_ordered :
        (p : Plan) (s : ServerState)
        → is_sorted_out p ≡ true
        → is_ordered (carry_out w.delete_ok w.send_ok (spec_for w v_app nss active) p s).effects
          ≡ true
    unfolding carry_out is_ordered is_sorted_out
    carry_out-is_ordered p s h =
        let spec_of = spec_for w v_app nss active in
        ground (
          arith,
          delete_pods-effects w.delete_ok false p.others false s,
          delete_pods-effects w.delete_ok true p.leaders false s,
          send_specs-effects spec_of w.send_ok p.updates false s,
          send_specs-effects spec_of w.send_ok p.dispatches false s,
          spec_for-sends_own p.updates,
          spec_for-sends_own p.dispatches,
        )

  nothing-is_ordered : is_ordered [] ≡ true
  unfolding is_ordered
  nothing-is_ordered = refl

  sync_with-is_ordered :
      (w : World) (active : List Pod) (syncs : List SyncPod) (s : ServerState)
      (o : Option (List Namespace))
      → is_ordered (sync_with w v_app active syncs s o).effects ≡ true
  sync_with-is_ordered w active syncs s none = nothing-is_ordered
  sync_with-is_ordered w active syncs s (some nss) =
      carry_out-is_ordered w nss active (plan_for w v_app nss active syncs) s
        (plan_of-is_sorted_out (hash_for w v_app nss active) syncs)

  sync_pods-is_ordered : (w : World) (sc : Scan) → is_ordered (sync_pods w v_app sc).effects ≡ true
  sync_pods-is_ordered w (stopped t s) = nothing-is_ordered
  sync_pods-is_ordered w (scanned active syncs s) =
      sync_with-is_ordered w active syncs s (get_active_namespaces w.namespaces)

  sync_listed-is_ordered :
      (w : World) (s : ServerState) (o : Option (List Pod))
      → is_ordered (sync_listed w v_app s o).effects ≡ true
  sync_listed-is_ordered w s none = nothing-is_ordered
  sync_listed-is_ordered w s (some pods) = sync_pods-is_ordered w (scan pods s)

  -- A run of `Reconcile` on a VirtualApp only deletes pods of proxies that do not lead, or only
  -- deletes pods of leaders, or only sends specs. It deletes a pod only when its proxy reports
  -- another subset than the pod's or has refused its spec, and it sends a spec, which is the
  -- application's and the pod's subset's, only to a pod that it need not delete.
  pub reconcile-is_ordered :
      (w : World) (s : ServerState)
      → w.got ≡ found v_app
      → is_ordered (reconcile w s).effects ≡ true
  unfolding reconcile
  reconcile-is_ordered w s e =
      ap (λ g. is_ordered (reconcile_got w s g).effects) e
      ∙ sync_listed-is_ordered w s (get_pods_for_v_app w.pods)
