-- ===== src/SpecManager/Loadable.antt =====
-- When a new spec may replace the current one.
use controllermesh.Prelude.{
  String, List, [], ◌∷◌, Option, none, some, Bool, true, false, not, ◌&&◌, ◌||◌, ◌==◌, ◌≡◌, refl,
  arith, is_some, all, any,
}
use controllermesh.Route.{
  InternalSpec, is_user_agent_match, is_namespace_match, get_object_selector,
}
use controllermesh.RequestsStore.{
  ResourceRequest, RequestsPack, range_loop, range_requests, passed_request, denied_request,
  records_of, each,
}
use controllermesh.SpecManager
use controllermesh.SpecManager.{
  Env, Reason, is_empty_gr, check_namespaces, check_user_agent, check_record, check_request,
  check_against, check_loadable,
}

range_loop-is_some :
    {E : Type 0} (fn : ResourceRequest → Option E) (rs : List ResourceRequest) (err : Option E)
    → is_some (range_loop fn rs err) ≡ (any (λ r. is_some (fn r)) rs || is_some err)
range_loop-is_some fn [] err = refl
range_loop-is_some fn (r ∷ rs) err = ground (arith, range_loop-is_some fn rs err)

check_namespaces-matched :
    (matches : String → Bool) (reason : String → Reason) (nss : List String)
    → is_some (check_namespaces matches true reason nss) ≡ not (all matches nss)
check_namespaces-matched matches reason [] = refl
check_namespaces-matched matches reason (ns ∷ nss) =
    ground (arith, check_namespaces-matched matches reason nss)

check_namespaces-unmatched :
    (matches : String → Bool) (reason : String → Reason) (nss : List String)
    → is_some (check_namespaces matches false reason nss) ≡ not (all (λ ns. not (matches ns)) nss)
check_namespaces-unmatched matches reason [] = refl
check_namespaces-unmatched matches reason (ns ∷ nss) =
    ground (arith, check_namespaces-unmatched matches reason nss)

-- The recorded user agents of a request are decided by the spec as they were.
abbrev pub user_agents_agree : InternalSpec → ResourceRequest → Bool
user_agents_agree spec req =
    (elim req.user_agent_passed [ none ↦ true | some ua ↦ is_user_agent_match spec ua ])
    && (elim req.user_agent_denied [ none ↦ true | some ua ↦ not (is_user_agent_match spec ua) ])

-- The recorded namespaces of a record are decided by the spec as they were.
unfoldable pub namespaces_agree : InternalSpec → ResourceRequest → Bool
namespaces_agree spec req =
    all (λ ns. is_namespace_match spec ns req.gr) req.namespace_passed
    && all (λ ns. not (is_namespace_match spec ns req.gr)) req.namespace_denied

module _ (env : Env) where
  -- A record with a group or a resource also has the object selector that the spec gives.
  abbrev pub record_agrees : InternalSpec → ResourceRequest → Bool
  record_agrees spec req =
      user_agents_agree spec req
      && (is_empty_gr req.gr
          || env.deep_equal (get_object_selector spec req.gr) req.object_selector
            && namespaces_agree spec req)

  check_record-is_some :
      (spec : InternalSpec) (req : ResourceRequest)
      → is_some (check_record env spec req)
        ≡ not (
            env.deep_equal (get_object_selector spec req.gr) req.object_selector
            && namespaces_agree spec req)
  unfolding check_record namespaces_agree
  check_record-is_some spec req = ground (
    arith,
    check_namespaces-matched (λ ns. is_namespace_match spec ns req.gr)
        (λ ns. SpecManager.namespace_not_matched ns req.gr) req.namespace_passed,
    check_namespaces-unmatched (λ ns. is_namespace_match spec ns req.gr)
        (λ ns. SpecManager.namespace_matched ns req.gr) req.namespace_denied,
  )

  check_request-is_some :
      (spec : InternalSpec) (req : ResourceRequest)
      → is_some (check_request env spec req) ≡ not (record_agrees spec req)
  unfolding check_request
  check_request-is_some spec req = ground (arith, check_record-is_some spec req)

  passed-is_some :
      (spec : InternalSpec) (uas : List String)
      → any (λ r. is_some (check_request env spec r)) (each passed_request uas)
        ≡ not (all (is_user_agent_match spec) uas)
  passed-is_some spec [] = refl
  passed-is_some spec (ua ∷ uas) =
      ground (arith, check_request-is_some spec (passed_request ua), passed-is_some spec uas)

  denied-is_some :
      (spec : InternalSpec) (uas : List String)
      → any (λ r. is_some (check_request env spec r)) (each denied_request uas)
        ≡ not (all (λ ua. not (is_user_agent_match spec ua)) uas)
  denied-is_some spec [] = refl
  denied-is_some spec (ua ∷ uas) =
      ground (arith, check_request-is_some spec (denied_request ua), denied-is_some spec uas)

  records-is_some :
      (spec : InternalSpec) (rs : List ResourceRequest)
      → any (λ r. is_some (check_request env spec r)) rs ≡ not (all (record_agrees spec) rs)
  records-is_some spec [] = refl
  records-is_some spec (r ∷ rs) =
      ground (arith, check_request-is_some spec r, records-is_some spec rs)

  -- Every recorded decision is the spec's too.
  unfoldable pub pack_agrees : InternalSpec → RequestsPack → Bool
  pack_agrees spec pack =
      all (is_user_agent_match spec) pack.user_agent_passed
      && all (λ ua. not (is_user_agent_match spec ua)) pack.user_agent_denied
      && all (record_agrees spec) (records_of pack.requests_by_gr)

  range_requests-pack_agrees :
      (spec : InternalSpec) (pack : RequestsPack)
      → is_some (range_requests (check_request env spec) pack) ≡ not (pack_agrees spec pack)
  unfolding range_requests pack_agrees
  range_requests-pack_agrees spec pack =
      let fn = check_request env spec in
      let passed = each passed_request pack.user_agent_passed in
      let denied = each denied_request pack.user_agent_denied in
      let after_passed = range_loop fn passed none in
      ground (
        arith,
        range_loop-is_some fn (records_of pack.requests_by_gr) (range_loop fn denied after_passed),
        range_loop-is_some fn denied after_passed,
        range_loop-is_some fn passed none,
        passed-is_some spec pack.user_agent_passed,
        denied-is_some spec pack.user_agent_denied,
        records-is_some spec (records_of pack.requests_by_gr),
      )

  abbrev pub is_loadable : InternalSpec → InternalSpec → RequestsPack → Bool
  is_loadable cur new pack =
      let a = cur.proxy_spec in
      let b = new.proxy_spec in
      a.meta.v_app_name == b.meta.v_app_name
      && a.route.subset == b.route.subset
      && (a.meta.hash == b.meta.hash || pack_agrees new pack)

  -- A new spec is refused exactly when its application or its subset is another, or when its hash
  -- is another and it contradicts a recorded decision: the order of the three loops over the
  -- records, which replace each other's error, does not matter.
  pub check_loadable-is_loadable :
      (cur new : InternalSpec) (pack : RequestsPack)
      → is_some (check_loadable env (some cur) new pack) ≡ not (is_loadable cur new pack)
  unfolding check_loadable
  check_loadable-is_loadable cur new pack = ground (arith, range_requests-pack_agrees new pack)
