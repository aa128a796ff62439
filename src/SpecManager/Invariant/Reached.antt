-- ===== src/SpecManager/Invariant/Reached.antt =====
-- The states that a manager of specs gets into.
use controllermesh.Prelude.{
  String, Option, none, some, Bool, true, false, ◌==◌, ◌≡◌, refl, arith, is_some, Bool-cases, inl,
  inr, ap, sym, ◌∙◌, ◌⊎◌, eq_iff, subst,
}
use controllermesh.Proto.{ProxySpec, LeaderElectionState}
use controllermesh.Route.{GroupResource, InternalSpec}
use controllermesh.Route.Convert.{convert_proto_spec_to_internal}
use controllermesh.RequestsStore.{ResourceRequest, RequestsPack, empty_pack, add}
use controllermesh.SpecManager.{
  Env, Io, SpecManager, done, check_loadable, update_spec, update_leader_election, release_spec,
  release_panicked,
}
use controllermesh.SpecManager.Loadable.{pack_agrees, is_loadable, check_loadable-is_loadable}
use controllermesh.SpecManager.Invariant.{
  is_kept, may_release, HashTells, Step, update, elect, release, recover, Reachable, start, next,
  IsConsistent, Plain,
}
use controllermesh.SpecManager.Invariant.Kept.{
  kept-route, same_route, convert-proxy_spec, agrees-kept, kept-add,
}

module _ (env : Env) (is_plain : GroupResource → Bool) where
  kept-pack :
      (plain : Plain env is_plain) (current : Option InternalSpec) (req : Option ResourceRequest)
      (pack : RequestsPack)
      → IsConsistent env is_plain current pack
      → may_release env is_plain current req ≡ true
      → IsConsistent env is_plain current (add env.gr_string env.deep_equal req pack).0
  unfolding add
  kept-pack plain current none pack c m = c
  kept-pack plain none (some req) pack c m = ground arith
  kept-pack plain (some cur) (some req) pack c m =
      (c.0, kept-add env is_plain plain cur req pack c.1 m)

  release-result :
      (io : Io) (req : Option ResourceRequest) (sm sm' : SpecManager)
      → release_spec env io req sm ≡ done sm'
      → (sm'.current ≡ sm.current) × (sm'.pack ≡ (add env.gr_string env.deep_equal req sm.pack).0)
  unfolding release_spec
  release-result io req sm sm' e = ground arith

  update-result :
      (io : Io) (spec : ProxySpec) (sm sm' : SpecManager)
      → update_spec env io spec sm ≡ done sm'
      → let new = convert_proto_spec_to_internal env.decode spec in
        (sm'.pack ≡ sm.pack)
        × ((sm'.current ≡ sm.current)
            ⊎ (sm'.current ≡ some new)
              × (is_some (check_loadable env sm.current new sm.pack) ≡ false))
  unfolding update_spec
  update-result io spec sm sm' e = ground arith

  kept-same_route :
      (cur : InternalSpec) (spec : ProxySpec) (pack : RequestsPack)
      → IsConsistent env is_plain (some cur) pack
      → cur.proxy_spec.route ≡ spec.route
      → is_kept env is_plain (convert_proto_spec_to_internal env.decode spec) pack ≡ true
  kept-same_route cur spec pack c e =
      sym (
        kept-route env is_plain cur (convert_proto_spec_to_internal env.decode spec) pack
          (ap (λ s. s.route_internal) c.0 ∙ same_route env is_plain cur.proxy_spec spec e))
      ∙ c.1

  empty-kept : (spec : InternalSpec) → is_kept env is_plain spec empty_pack ≡ true
  unfolding is_kept
  empty-kept spec = refl

  same-subset :
      (cur : InternalSpec) (spec : ProxySpec) (pack : RequestsPack)
      → is_loadable env cur (convert_proto_spec_to_internal env.decode spec) pack ≡ true
      → (cur.proxy_spec.route.subset == spec.route.subset) ≡ true
  unfolding convert_proto_spec_to_internal
  same-subset cur spec pack l = ground arith

  other-agrees :
      (cur : InternalSpec) (spec : ProxySpec) (pack : RequestsPack)
      → is_loadable env cur (convert_proto_spec_to_internal env.decode spec) pack ≡ true
      → (cur.proxy_spec.meta.hash == spec.meta.hash) ≡ false
      → pack_agrees env (convert_proto_spec_to_internal env.decode spec) pack ≡ true
  unfolding convert_proto_spec_to_internal
  other-agrees cur spec pack l o = ground arith

  kept-load :
      (plain : Plain env is_plain) (current : Option InternalSpec) (spec : ProxySpec)
      (pack : RequestsPack)
      → IsConsistent env is_plain current pack
      → HashTells env is_plain current spec
      → is_some (check_loadable env current (convert_proto_spec_to_internal env.decode spec) pack)
        ≡ false
      → IsConsistent env is_plain (some (convert_proto_spec_to_internal env.decode spec)) pack
  kept-load plain none spec pack c t e =
      let new = convert_proto_spec_to_internal env.decode spec in
      (
        ap (convert_proto_spec_to_internal env.decode) (sym (convert-proxy_spec env is_plain spec)),
        ap (is_kept env is_plain new) c ∙ empty-kept new,
      )
  kept-load plain (some cur) spec pack c t e =
      let new = convert_proto_spec_to_internal env.decode spec in
      let loadable : is_loadable env cur new pack ≡ true =
        ground (arith, check_loadable-is_loadable env cur new pack) in
      (
        ap (convert_proto_spec_to_internal env.decode) (sym (convert-proxy_spec env is_plain spec)),
        elim (Bool-cases (cur.proxy_spec.meta.hash == spec.meta.hash)) [
          | inl same ↦ kept-same_route cur spec pack c (
              t ((eq_iff cur.proxy_spec.meta.hash spec.meta.hash).0 same) (
                (eq_iff cur.proxy_spec.route.subset spec.route.subset).0
                  (same-subset cur spec pack loadable)))
          | inr other ↦
              agrees-kept env is_plain plain cur new pack c.1
                (other-agrees cur spec pack loadable other)
        ],
      )

  elect-result :
      (le : Option LeaderElectionState) (sm : SpecManager)
      → ((update_leader_election env le sm).current ≡ sm.current)
        × ((update_leader_election env le sm).pack ≡ sm.pack)
  unfolding update_leader_election
  elect-result le sm = (refl, refl)

  recover-result :
      (history : String) (req : Option ResourceRequest) (sm : SpecManager)
      → ((release_panicked env history req sm).current ≡ sm.current)
        × ((release_panicked env history req sm).pack
            ≡ (add env.gr_string env.deep_equal req sm.pack).0)
  unfolding release_panicked
  recover-result history req sm = (refl, refl)

  -- Two equal states of the parts that matter.
  moved-IsConsistent :
      (a b : Option InternalSpec) (p q : RequestsPack)
      → b ≡ a
      → q ≡ p
      → IsConsistent env is_plain a p
      → IsConsistent env is_plain b q
  moved-IsConsistent a b p q e f c =
      subst (λ o. IsConsistent env is_plain o q) (sym e)
        (subst (λ r. IsConsistent env is_plain a r) (sym f) c)

  Step-IsConsistent :
      (plain : Plain env is_plain) (sm sm' : SpecManager)
      → IsConsistent env is_plain sm.current sm.pack
      → Step env is_plain sm sm'
      → IsConsistent env is_plain sm'.current sm'.pack
  Step-IsConsistent plain sm sm' c (update io spec _ _ t e) =
      let (p, kept_or_new) = update-result io spec sm sm' e in
      let new = convert_proto_spec_to_internal env.decode spec in
      elim kept_or_new [
        | inl k ↦ moved-IsConsistent sm.current sm'.current sm.pack sm'.pack k p c
        | inr (n, l) ↦
            moved-IsConsistent (some new) sm'.current sm.pack sm'.pack n p
              (kept-load plain sm.current spec sm.pack c t l)
      ]
  Step-IsConsistent plain sm sm' c (elect le _) =
      let (k, p) = elect-result le sm in
      moved-IsConsistent sm.current (update_leader_election env le sm).current sm.pack
        (update_leader_election env le sm).pack k p c
  Step-IsConsistent plain sm sm' c (release io req _ _ m e) =
      let (k, p) = release-result io req sm sm' e in
      moved-IsConsistent sm.current sm'.current (add env.gr_string env.deep_equal req sm.pack).0
        sm'.pack k p (kept-pack plain sm.current req sm.pack c m)
  Step-IsConsistent plain sm sm' c (recover io req history _ m e) =
      let (k, p) = recover-result history req sm in
      moved-IsConsistent sm.current (release_panicked env history req sm).current
        (add env.gr_string env.deep_equal req sm.pack).0 (release_panicked env history req sm).pack
        k p (kept-pack plain sm.current req sm.pack c m)

  -- From a start with nothing recorded, where each call releases the spec with a request that the
  -- spec decides and equal hashes of one subset come with equal routes, and where the texts of the
  -- names met differ: in every reachable state, also behind releases that panicked, the current spec decides every recorded user agent
  -- and every recorded namespace as it was decided; without a current spec nothing is recorded.
  pub Reachable-IsConsistent :
      (plain : Plain env is_plain) (sm : SpecManager)
      → Reachable env is_plain sm
      → IsConsistent env is_plain sm.current sm.pack
  Reachable-IsConsistent plain sm (start _ c p) =
      moved-IsConsistent none sm.current empty_pack sm.pack c p refl
  Reachable-IsConsistent plain sm (next before _ r step) =
      Step-IsConsistent plain before sm (Reachable-IsConsistent plain before r) step
