-- ===== src/SpecManager/Invariant.antt =====
-- What a manager of specs keeps to between its calls, and the calls that are made of it.
pub mod Kept
pub mod Reached
use controllermesh.Prelude.{
  String, List, [], ◌∷◌, Option, none, some, Bool, true, false, not, ◌&&◌, ◌||◌, ◌==◌, ◌≡◌, refl,
  arith, is_some, Bool-cases, all, if◌then◌else◌, Option-cases, inl, inr, ap, sym, ◌∙◌, has, insert,
  insert_all, difference, ◌⊎◌, eq_iff, eq_refl, subst,
}
use controllermesh.Prelude.Maps.{Map, put, lookup}
use controllermesh.Proto.{ProxySpec, LeaderElectionState}
use controllermesh.Selector.{LabelSelector}
use controllermesh.Route.{GroupResource, InternalSpec, is_user_agent_match, is_namespace_match}
use controllermesh.Route.Convert.{convert_proto_spec_to_internal}
use controllermesh.RequestsStore.{
  ResourceRequest, RequestsPack, empty_pack, add, add_record, add_user_agent, merge_record,
  records_of, has_record,
}
use controllermesh.SpecManager.{
  Disk, Env, Io, Outcome, SpecManager, done, panicked, is_empty_gr, check_loadable, update_spec,
  update_leader_election, release_spec, release_panicked, load_spec, store_pack,
}
use controllermesh.SpecManager.Loadable.{
  pack_agrees, namespaces_agree, is_loadable, check_loadable-is_loadable, record_agrees,
  user_agents_agree,
}

-- The spec decides the user agents and the namespaces of a request as the request says.
abbrev pub decides_agent : Bool → InternalSpec → Option String → Bool
decides_agent passed spec none = true
decides_agent passed spec (some ua) =
    if passed then is_user_agent_match spec ua else not (is_user_agent_match spec ua)

-- `is_plain` tells the names that the manager meets: those that are not empty and whose texts differ.
module _ (env : Env) (is_plain : GroupResource → Bool) where
  unfoldable pub is_decided : InternalSpec → ResourceRequest → Bool
  unfolding namespaces_agree
  is_decided spec req =
      decides_agent true spec req.user_agent_passed
      && decides_agent false spec req.user_agent_denied
      && is_plain req.gr
      && namespaces_agree spec req

  -- A record agrees with the spec and stands under the key of its group and resource.
  abbrev pub record_kept : InternalSpec → String × ResourceRequest → Bool
  record_kept spec (k, r) = is_plain r.gr && k == env.gr_string r.gr && namespaces_agree spec r

  unfoldable pub is_kept : InternalSpec → RequestsPack → Bool
  is_kept spec pack =
      all (is_user_agent_match spec) pack.user_agent_passed
      && all (λ ua. not (is_user_agent_match spec ua)) pack.user_agent_denied
      && all (record_kept spec) pack.requests_by_gr

  -- A request that the proxy releases a spec with was decided by that spec, which no update can
  -- have replaced meanwhile; without a spec there is no request.
  abbrev pub may_release : Option InternalSpec → Option ResourceRequest → Bool
  may_release current none = true
  may_release none (some req) = false
  may_release (some cur) (some req) = is_decided cur req

  -- The hash of a spec tells its route from the current one.
  abbrev pub HashTells : Option InternalSpec → ProxySpec → Type 0
  HashTells none spec = Unit
  HashTells (some cur) spec =
      cur.proxy_spec.meta.hash ≡ spec.meta.hash
      → cur.proxy_spec.route.subset ≡ spec.route.subset
      → cur.proxy_spec.route ≡ spec.route

  -- The calls that the stream of specs, the leader election and the routers make. The process ends
  -- with an update that panics; the server of a router recovers from a release that does.
  pub data Step : SpecManager → SpecManager → Type 0 where
    update :
        (io : Io) (spec : ProxySpec) (sm sm' : SpecManager)
        → HashTells sm.current spec
        → update_spec env io spec sm ≡ done sm'
        → Step sm sm'
    elect :
        (le : Option LeaderElectionState) (sm : SpecManager)
        → Step sm (update_leader_election env le sm)
    release :
        (io : Io) (req : Option ResourceRequest) (sm sm' : SpecManager)
        → may_release sm.current req ≡ true
        → release_spec env io req sm ≡ done sm'
        → Step sm sm'
    recover :
        (io : Io) (req : Option ResourceRequest) (history : String) (sm : SpecManager)
        → may_release sm.current req ≡ true
        → release_spec env io req sm ≡ panicked
        → Step sm (release_panicked env history req sm)

  -- The states from a start with an empty disk.
  pub data Reachable : SpecManager → Type 0 where
    start : (sm : SpecManager) → sm.current ≡ none → sm.pack ≡ empty_pack → Reachable sm
    next : (sm sm' : SpecManager) → Reachable sm → Step sm sm' → Reachable sm'

  -- The current spec is a converted one and decides every record; without one there is no record.
  abbrev pub IsConsistent : Option InternalSpec → RequestsPack → Type 0
  IsConsistent none pack = pack ≡ empty_pack
  IsConsistent (some cur) pack =
      (cur ≡ convert_proto_spec_to_internal env.decode cur.proxy_spec) × (is_kept cur pack ≡ true)

  -- What is used of a name: it is not empty, and names that are plain have their own texts.
  pub record Plain : Type 0 where
    pub filled : (gr : GroupResource) → is_plain gr ≡ true → is_empty_gr gr ≡ false
    pub apart :
        (a b : GroupResource)
        → is_plain a ≡ true
        → is_plain b ≡ true
        → env.gr_string a ≡ env.gr_string b
        → a ≡ b
