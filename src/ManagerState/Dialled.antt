-- ===== src/ManagerState/Dialled.antt =====
-- The manager that the proxies dial.
use controllermesh.Prelude.{
  List, [], ◌∷◌, some, Bool, true, false, ◌&&◌, ◌==◌, ◌≡◌, refl, ap, ◌∙◌, arith, any, select, map,
  nat_eq, if◌then◌else◌,
}
use controllermesh.Prelude.Sorting.{sort_stable, insert_sorted}
use controllermesh.Kube.{Pod, is_pod_active}
use controllermesh.ManagerState.{
  ManagerEndpoint, ManagerStatus, endpoint_less, state_found, Write, no_write, create_state,
  update_status, StateWorld, endpoints_of, new_status, reconcile_state,
}
use controllermesh.Stream.{dial_address, find_leader}

abbrev leaders : List ManagerEndpoint → List ManagerEndpoint
leaders = select (λ e. e.leader)

abbrev sorted : List ManagerEndpoint → List ManagerEndpoint
sorted = sort_stable endpoint_less

leaders-insert_other :
    (x : ManagerEndpoint) (ys : List ManagerEndpoint)
    → x.leader ≡ false
    → leaders (insert_sorted endpoint_less x ys) ≡ leaders ys
leaders-insert_other x [] e = ground (arith, e)
leaders-insert_other x (y ∷ ys) e = ground (arith, e, leaders-insert_other x ys)

leaders-insert_leader :
    (x : ManagerEndpoint) (ys : List ManagerEndpoint)
    → x.leader ≡ true
    → leaders ys ≡ []
    → leaders (insert_sorted endpoint_less x ys) ≡ x ∷ []
leaders-insert_leader x [] e n = ground (arith, e)
leaders-insert_leader x (y ∷ ys) e n = ground (arith, e, n, leaders-insert_leader x ys)

leaders-sorted_none : (xs : List ManagerEndpoint) → leaders xs ≡ [] → leaders (sorted xs) ≡ []
leaders-sorted_none [] n = refl
leaders-sorted_none (x ∷ xs) n =
    ground (arith, n, leaders-sorted_none xs, leaders-insert_other x (sorted xs))

leaders-sorted_one :
    (xs : List ManagerEndpoint) (e : ManagerEndpoint)
    → leaders xs ≡ e ∷ []
    → leaders (sorted xs) ≡ e ∷ []
leaders-sorted_one [] e n = n
leaders-sorted_one (x ∷ xs) e n = ground (
  arith,
  n,
  leaders-sorted_one xs e,
  leaders-sorted_none xs,
  leaders-insert_other x (sorted xs),
  leaders-insert_leader x (sorted xs),
)

find_leader-leaders :
    (xs : List ManagerEndpoint) (e : ManagerEndpoint)
    → leaders xs ≡ e ∷ []
    → find_leader xs ≡ some e
find_leader-leaders [] e n = cc
find_leader-leaders (x ∷ xs) e n = ground (arith, n, find_leader-leaders xs e)

any-leaders :
    (xs : List ManagerEndpoint) (e : ManagerEndpoint)
    → leaders xs ≡ e ∷ []
    → any (λ f. f.leader) xs ≡ true
any-leaders [] e n = cc
any-leaders (x ∷ xs) e n = ground (arith, n, any-leaders xs e)

module _ (w : StateWorld) where
  -- The pods that are the manager at hand.
  abbrev pub is_local : Pod → Bool
  is_local pod = is_pod_active pod && pod.name == w.local_name

  abbrev local_endpoint : Pod → ManagerEndpoint
  local_endpoint pod = record { name = pod.name; pod_ip = pod.pod_ip; leader = true }

  leaders-endpoints_of :
      (pods : List Pod) → leaders (endpoints_of w pods) ≡ map local_endpoint (select is_local pods)
  unfolding endpoints_of
  leaders-endpoints_of [] = refl
  leaders-endpoints_of (p ∷ ps) = ground (arith, leaders-endpoints_of ps)

  -- The status that a run leaves, of the one that there was.
  abbrev pub status_after : ManagerStatus → Bool × Write → ManagerStatus
  status_after old (failed, no_write) = old
  status_after old (failed, create_state status) = old
  status_after old (failed, update_status status) = if failed then old else status

  new_status-dialled :
      (pods : List Pod) (pod : Pod)
      → select is_local pods ≡ pod ∷ []
      → nat_eq w.ports.grpc_leader_election_port 0 ≡ false
      → dial_address (some (new_status w (endpoints_of w pods)))
        ≡ some (pod.pod_ip, w.ports.grpc_leader_election_port)
  unfolding dial_address
  new_status-dialled pods pod one port =
      let e = leaders-endpoints_of pods ∙ ap (map local_endpoint) one in
      let found =
        find_leader-leaders (sorted (endpoints_of w pods)) (local_endpoint pod)
          (leaders-sorted_one (endpoints_of w pods) (local_endpoint pod) e) in
      ground (arith, found, port)

  -- Of the pods of the manager exactly one is active with the name of the one at hand, the state is
  -- there, its update would succeed, DeepEqual holds of equal statuses only, and the port is set: a
  -- run of `Reconcile` returns no error, and a proxy that reads the state behind it dials the
  -- address of that pod at that port.
  pub reconcile_state-dialled :
      (old : ManagerStatus) (pods : List Pod) (pod : Pod)
      → ((a b : ManagerStatus) → w.equal a b ≡ true → a ≡ b)
      → w.got ≡ state_found old
      → w.pods ≡ some pods
      → select is_local pods ≡ pod ∷ []
      → w.update_ok ≡ true
      → nat_eq w.ports.grpc_leader_election_port 0 ≡ false
      → ((reconcile_state w "ctrlmesh-manager").0 ≡ false)
        × (dial_address (some (status_after old (reconcile_state w "ctrlmesh-manager")))
            ≡ some (pod.pod_ip, w.ports.grpc_leader_election_port))
  unfolding reconcile_state
  reconcile_state-dialled old pods pod sound got listed one ok port =
      let e = leaders-endpoints_of pods ∙ ap (map local_endpoint) one in
      ground (
        arith,
        got,
        listed,
        ok,
        any-leaders (endpoints_of w pods) (local_endpoint pod) e,
        new_status-dialled pods pod one port,
        sound old (new_status w (endpoints_of w pods)),
      )
