-- ===== src/SpecManager.antt =====
-- proxy/protomanager/proto_manager.go and proto_storage.go: the spec that a proxy runs by, the spec
-- that it should run by, and the decisions that stand between them.
pub mod Loadable
pub mod Invariant
pub mod Restart
use controllermesh.Prelude.{
  ℕ, ◌+◌, String, List, [], ◌∷◌, Option, none, some, Bool, true, false, not, ◌&&◌, ◌||◌, ◌==◌, ◌≡◌,
  ◌↔◌, is_some, nonempty, or_else, if◌then◌else◌,
}
use controllermesh.Prelude.Texts.{concat_text}
use controllermesh.Proto.{ProxySpec, ProxyStatus, LeaderElectionState}
use controllermesh.Selector.{LabelSelector}
use controllermesh.Route.{
  GroupResource, InternalSpec, is_user_agent_match, is_namespace_match, get_object_selector,
}
use controllermesh.Route.Convert.{convert_proto_spec_to_internal}
use controllermesh.RequestsStore.{ResourceRequest, RequestsPack, empty_pack, add, range_requests}

-- The three files. A write goes on behind what was read or written before.
pub record Disk : Type 0 where
  pub expected_spec : String
  pub current_spec : String
  pub history_requests : String

-- The errors of `checkLoadable`.
pub data Reason : Type 0 where
  app_changed subset_changed : String → String → Reason
  user_agent_not_matched user_agent_matched : String → Reason
  object_selector_changed : GroupResource → Reason
  namespace_not_matched namespace_matched : String → GroupResource → Reason

-- What the manager uses of other packages: GroupResource.String, reflect.DeepEqual and proto.Equal
-- on the types at hand, the codecs of the files, the decoder of selectors, the text of an error.
pub record Env : Type 0 where
  pub gr_string : GroupResource → String
  pub deep_equal : Option LabelSelector → Option LabelSelector → Bool
  pub election_equal : Option LeaderElectionState → Option LeaderElectionState → Bool
  pub decode : String → LabelSelector
  pub marshal_spec : ProxySpec → String
  pub unmarshal_spec : String → Option ProxySpec
  pub marshal_pack : RequestsPack → String
  pub unmarshal_pack : String → Option RequestsPack
  pub reason_text : Reason → String

pub record SpecManager : Type 0 where
  pub disk : Disk
  pub expected : Option InternalSpec
  pub current : Option InternalSpec
  pub unload_reason : String
  pub pack : RequestsPack
  pub leader_election_state : Option LeaderElectionState
  -- how many messages have been put into reportTriggerChan
  pub reports : ℕ

-- The outcome of a method that may panic at a failing write.
pub data Outcome (A : Type 0) : Type 0 where
  done : A → Outcome A
  panicked : Outcome A

-- Which of the writes of a call succeed: a mock failure, a codec's error or the file's is a failure.
pub record Io : Type 0 where
  pub expected_ok : Bool
  pub current_ok : Bool
  pub history_ok : Bool

-- schema.GroupResource.Empty
abbrev pub is_empty_gr : GroupResource → Bool
is_empty_gr gr = gr.group == "" && gr.resource == ""

-- The first namespace whose match is not the wanted one.
abbrev pub check_namespaces :
    (String → Bool) → Bool → (String → Reason) → List String → Option Reason
check_namespaces matches wanted reason [] = none
check_namespaces matches wanted reason (ns ∷ nss) =
    let rest = check_namespaces matches wanted reason nss in
    if (if wanted then matches ns else not (matches ns)) then rest else some (reason ns)

abbrev pub check_user_agent :
    (String → Bool) → Bool → (String → Reason) → Option String → Option Reason
check_user_agent matches wanted reason none = none
check_user_agent matches wanted reason (some ua) =
    if (if wanted then matches ua else not (matches ua)) then none else some (reason ua)

module _ (env : Env) where
  -- The part of the callback behind `req.GR.Empty()`.
  unfoldable pub check_record : InternalSpec → ResourceRequest → Option Reason
  check_record spec req =
      let matches = λ (ns : String). is_namespace_match spec ns req.gr in
      if not (env.deep_equal (get_object_selector spec req.gr) req.object_selector)
      then some (object_selector_changed req.gr)
      else or_else
          (check_namespaces matches true (λ ns. namespace_not_matched ns req.gr)
            req.namespace_passed)
          (check_namespaces matches false (λ ns. namespace_matched ns req.gr) req.namespace_denied)

  -- The callback that `checkLoadable` passes to `rangeRequests`; `none` goes on.
  unfoldable pub check_request : InternalSpec → ResourceRequest → Option Reason
  unfolding check_record
  check_request spec req =
      let matches = is_user_agent_match spec in
      or_else (check_user_agent matches true user_agent_not_matched req.user_agent_passed) (
        or_else (check_user_agent matches false user_agent_matched req.user_agent_denied)
          (if is_empty_gr req.gr then none else check_record spec req))

  abbrev pub check_against : InternalSpec → InternalSpec → RequestsPack → Option Reason
  check_against cur new pack =
      let cur_spec = cur.proxy_spec in
      let new_spec = new.proxy_spec in
      if not (cur_spec.meta.v_app_name == new_spec.meta.v_app_name)
      then some (app_changed cur_spec.meta.v_app_name new_spec.meta.v_app_name)
      else if not (cur_spec.route.subset == new_spec.route.subset)
      then some (subset_changed cur_spec.route.subset new_spec.route.subset)
      else if cur_spec.meta.hash == new_spec.meta.hash
      then none
      else range_requests (check_request new) pack

  unfoldable pub check_loadable : Option InternalSpec → InternalSpec → RequestsPack → Option Reason
  unfolding check_request
  check_loadable none new pack = none
  check_loadable (some cur) new pack = check_against cur new pack

  abbrev pub write_expected : ProxySpec → SpecManager → SpecManager
  write_expected spec sm = record sm {
    disk = record (sm.disk) {
      expected_spec = concat_text sm.disk.expected_spec (env.marshal_spec spec);
    };
  }

  abbrev pub write_current : ProxySpec → SpecManager → SpecManager
  write_current spec sm = record sm {
    disk = record (sm.disk) {
      current_spec = concat_text sm.disk.current_spec (env.marshal_spec spec);
    };
  }

  abbrev pub write_history : RequestsPack → SpecManager → SpecManager
  write_history pack sm = record sm {
    disk = record (sm.disk) {
      history_requests = concat_text sm.disk.history_requests (env.marshal_pack pack);
    };
  }

  -- The part of `UpdateSpec` under the lock.
  abbrev pub load_spec : Io → InternalSpec → SpecManager → Outcome SpecManager
  load_spec io new sm = elim (check_loadable sm.current new sm.pack) [
    | some reason ↦ done (record sm { unload_reason = env.reason_text reason })
    | none ↦
        if io.current_ok
        then done (write_current new.proxy_spec (record sm { current = some new }))
        else panicked
  ]

  unfoldable pub update_spec : Io → ProxySpec → SpecManager → Outcome SpecManager
  update_spec io spec sm =
      let new = convert_proto_spec_to_internal env.decode spec in
      if io.expected_ok
      then load_spec io new (write_expected spec (record sm { expected = some new }))
      else panicked

  unfoldable pub update_leader_election : Option LeaderElectionState → SpecManager → SpecManager
  update_leader_election le sm = record sm {
    leader_election_state = le;
    reports =
        (if not (env.election_equal sm.leader_election_state le)
          then sm.reports + 1
          else sm.reports);
  }

  -- The spec is read under the lock that `release_spec` gives back.
  unfoldable pub acquire_spec : SpecManager → Option InternalSpec
  acquire_spec sm = sm.current

  abbrev pub store_pack : Io → RequestsPack × Bool → SpecManager → Outcome SpecManager
  store_pack io (pack, changed) sm =
      if changed
      then (if io.history_ok
          then done (write_history pack (record sm { pack = pack }))
          else panicked)
      else done (record sm { pack = pack })

  unfoldable pub release_spec : Io → Option ResourceRequest → SpecManager → Outcome SpecManager
  release_spec io req sm = store_pack io (add env.gr_string env.deep_equal req sm.pack) sm

  -- What a release leaves behind that panics at the write: the pack in memory is changed already, and
  -- the history file holds what the failing write has made of it.
  unfoldable pub release_panicked : String → Option ResourceRequest → SpecManager → SpecManager
  release_panicked history req sm = record sm {
    disk = record (sm.disk) { history_requests = history };
    pack = (add env.gr_string env.deep_equal req sm.pack).0;
  }

  abbrev pub status_of : InternalSpec → InternalSpec → SpecManager → ProxyStatus
  status_of cur new sm = record {
    self_info = none;
    meta_state = some (record {
      subset = cur.proxy_spec.route.subset;
      expected_hash = new.proxy_spec.meta.hash;
      current_hash = cur.proxy_spec.meta.hash;
      hash_unload_reason = sm.unload_reason;
    });
    leader_election_state = sm.leader_election_state;
  }

  -- With a current spec and no expected one the code would panic.
  unfoldable pub get_status : SpecManager → Outcome (Option ProxyStatus)
  get_status sm = elim sm.current [
    | none ↦ done none
    | some cur ↦ (elim sm.expected [
      | none ↦ panicked
      | some new ↦ done (some (status_of cur new sm))
    ])
  ]
