-- ===== src/SpecManager/Invariant/Kept.antt =====
-- Recorded decisions under another spec and when a request joins them.
use controllermesh.Prelude.{
  String, List, [], ◌∷◌, some, Bool, true, false, not, ◌≡◌, refl, arith, all, Option-cases, inl,
  inr, ap, sym, insert_all, difference, eq_iff, eq_refl, subst,
}
use controllermesh.Prelude.Maps.{Map, put, lookup}
use controllermesh.Proto.{ProxySpec}
use controllermesh.Route.{GroupResource, InternalSpec, is_user_agent_match, is_namespace_match}
use controllermesh.Route.Convert.{convert_proto_spec_to_internal}
use controllermesh.RequestsStore.{
  ResourceRequest, RequestsPack, add, add_record, add_user_agent, merge_record, records_of,
}
use controllermesh.SpecManager.{Env, is_empty_gr}
use controllermesh.SpecManager.Loadable.{pack_agrees, namespaces_agree, record_agrees}
use controllermesh.SpecManager.Invariant.{is_decided, record_kept, is_kept, Plain}

all-insert_all :
    (p : String → Bool) (xs ys s : List String)
    → all p xs ≡ true
    → all p s ≡ true
    → all p (insert_all (difference xs ys) s) ≡ true
all-insert_all p [] ys s h k = k
all-insert_all p (x ∷ xs) ys s h k =
    ground (arith, all-insert_all p xs ys s, all-insert_all p xs ys (x ∷ s))

all-lookup :
    (p : String × ResourceRequest → Bool) (k : String) (r : ResourceRequest)
    (m : Map ResourceRequest)
    → all p m ≡ true
    → lookup k m ≡ some r
    → p (k, r) ≡ true
all-lookup p k r [] h e = ground arith
all-lookup p k r ((j, w) ∷ m) h e = ground (arith, eq_iff k j, all-lookup p k r m)

all-put :
    (p : String × ResourceRequest → Bool) (k : String) (r : ResourceRequest)
    (m : Map ResourceRequest)
    → all p m ≡ true
    → p (k, r) ≡ true
    → all p (put k r m) ≡ true
all-put p k r [] h e = ground arith
all-put p k r ((j, w) ∷ m) h e = ground (arith, all-put p k r m)

module _ (env : Env) (is_plain : GroupResource → Bool) where
  pub kept-route :
      (a b : InternalSpec) (pack : RequestsPack)
      → a.route_internal ≡ b.route_internal
      → is_kept env is_plain a pack ≡ is_kept env is_plain b pack
  unfolding is_kept namespaces_agree is_namespace_match is_user_agent_match
  kept-route a b pack e = ap (λ r. is_kept env is_plain (record a { route_internal = r }) pack) e

  pub same_route :
      (a b : ProxySpec)
      → a.route ≡ b.route
      → (convert_proto_spec_to_internal env.decode a).route_internal
        ≡ (convert_proto_spec_to_internal env.decode b).route_internal
  unfolding convert_proto_spec_to_internal
  same_route a b e =
      ap (λ r. (convert_proto_spec_to_internal env.decode (record a { route = r })).route_internal)
        e

  pub convert-proxy_spec :
      (spec : ProxySpec) → (convert_proto_spec_to_internal env.decode spec).proxy_spec ≡ spec
  unfolding convert_proto_spec_to_internal
  convert-proxy_spec spec = refl

  pub record_agrees-namespaces :
      (spec : InternalSpec) (r : ResourceRequest)
      → is_empty_gr r.gr ≡ false
      → record_agrees env spec r ≡ true
      → namespaces_agree spec r ≡ true
  record_agrees-namespaces spec r e h = ground arith

  pub records-kept :
      (plain : Plain env is_plain) (cur new : InternalSpec) (m : Map ResourceRequest)
      → all (record_kept env is_plain cur) m ≡ true
      → all (record_agrees env new) (records_of m) ≡ true
      → all (record_kept env is_plain new) m ≡ true
  records-kept plain cur new [] h a = refl
  records-kept plain cur new ((k, r) ∷ m) h a =
      ground
        (arith, record_agrees-namespaces new r, plain.filled r.gr, records-kept plain cur new m)

  pub agrees-kept :
      (plain : Plain env is_plain) (cur new : InternalSpec) (pack : RequestsPack)
      → is_kept env is_plain cur pack ≡ true
      → pack_agrees env new pack ≡ true
      → is_kept env is_plain new pack ≡ true
  unfolding is_kept pack_agrees
  agrees-kept plain cur new pack h a =
      ground (arith, records-kept plain cur new pack.requests_by_gr)

  pub merged-namespaces :
      (cur : InternalSpec) (old req : ResourceRequest)
      → old.gr ≡ req.gr
      → namespaces_agree cur old ≡ true
      → namespaces_agree cur req ≡ true
      → namespaces_agree cur (merge_record env.gr_string env.deep_equal old req).0 ≡ true
  unfolding merge_record namespaces_agree
  merged-namespaces cur old req e h d =
      let moved : namespaces_agree cur (record req { gr = old.gr }) ≡ true =
        subst (λ gr. namespaces_agree cur (record req { gr = gr }) ≡ true) (sym e) d in
      ground (
        arith,
        all-insert_all (λ ns. is_namespace_match cur ns old.gr) req.namespace_passed
            old.namespace_passed old.namespace_passed,
        all-insert_all (λ ns. not (is_namespace_match cur ns old.gr)) req.namespace_denied
            old.namespace_denied old.namespace_denied,
      )

  pub kept-merge :
      (plain : Plain env is_plain) (cur : InternalSpec) (old req : ResourceRequest)
      → record_kept env is_plain cur (env.gr_string req.gr, old) ≡ true
      → is_decided env is_plain cur req ≡ true
      → record_kept env is_plain cur
          (env.gr_string req.gr, (merge_record env.gr_string env.deep_equal old req).0)
        ≡ true
  unfolding is_decided merge_record
  kept-merge plain cur old req h d =
      let new = (merge_record env.gr_string env.deep_equal old req).0 in
      let same : old.gr ≡ req.gr =
        plain.apart old.gr req.gr (ground arith) (ground arith)
          (ground (arith, eq_iff (env.gr_string req.gr) (env.gr_string old.gr))) in
      let agrees : namespaces_agree cur new ≡ true =
        merged-namespaces cur old req same (ground arith) (ground arith) in
      ground arith

  pub decided-kept :
      (cur : InternalSpec) (req : ResourceRequest)
      → is_decided env is_plain cur req ≡ true
      → record_kept env is_plain cur (env.gr_string req.gr, req) ≡ true
  unfolding is_decided
  decided-kept cur req d = ground (arith, eq_refl (env.gr_string req.gr))

  pub kept-add_record :
      (plain : Plain env is_plain) (cur : InternalSpec) (req : ResourceRequest)
      (pack : RequestsPack)
      → is_kept env is_plain cur pack ≡ true
      → is_decided env is_plain cur req ≡ true
      → is_kept env is_plain cur (add_record env.gr_string env.deep_equal req pack).0 ≡ true
  unfolding add_record is_kept
  kept-add_record plain cur req pack h d =
      let key = env.gr_string req.gr in
      let kept : record_kept env is_plain cur (key, req) ≡ true = decided-kept cur req d in
      elim (Option-cases (lookup key pack.requests_by_gr)) [
        | inl e ↦ ground (arith, all-put (record_kept env is_plain cur) key req pack.requests_by_gr)
        | inr (old, e) ↦ ground (
          arith,
          all-put (record_kept env is_plain cur) key
              (merge_record env.gr_string env.deep_equal old req).0 pack.requests_by_gr,
          kept-merge plain cur old req
              (all-lookup (record_kept env is_plain cur) key old pack.requests_by_gr (ground arith)
                e)
              d,
        )
      ]

  pub kept-add_user_agent :
      (cur : InternalSpec) (req : ResourceRequest) (pack : RequestsPack)
      → is_kept env is_plain cur pack ≡ true
      → is_decided env is_plain cur req ≡ true
      → is_kept env is_plain cur (add_user_agent req pack).0 ≡ true
  unfolding add_user_agent is_kept is_decided
  kept-add_user_agent cur req pack h d = ground arith

  pub kept-add :
      (plain : Plain env is_plain) (cur : InternalSpec) (req : ResourceRequest)
      (pack : RequestsPack)
      → is_kept env is_plain cur pack ≡ true
      → is_decided env is_plain cur req ≡ true
      → is_kept env is_plain cur (add env.gr_string env.deep_equal (some req) pack).0 ≡ true
  unfolding add
  kept-add plain cur req pack h d =
      kept-add_record plain cur req (add_user_agent req pack).0
        (kept-add_user_agent cur req pack h d) d
