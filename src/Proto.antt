-- ===== src/Proto.antt =====
-- apis/ctrlmesh/proto/ctrlmesh.proto: the messages between the manager and the proxies. A message
-- field of the specs that the code follows with no test for nil (Meta, Route) is not optional here:
-- `recv` of proxy/protomanager/proto_manager_grpc.go drops a spec without them.
use controllermesh.Prelude.{String, List, Bool, Option}

-- message APIGroupResourceV1
pub record ApiGroupResource : Type 0 where
  pub api_groups : List String
  pub resources : List String

-- message MatchLimitRuleV1. An object selector is JSON text; "" is none.
pub record MatchLimitRule : Type 0 where
  pub namespaces : List String
  pub object_selector : String
  pub resources : List ApiGroupResource

-- message SubsetLimitV1
pub record SubsetLimit : Type 0 where
  pub subset : String
  pub limits : List MatchLimitRule

-- message RouteV1
pub record Route : Type 0 where
  pub subset : String
  pub global_limits : List MatchLimitRule
  pub subset_limits : List SubsetLimit
  pub subset_public_resources : List ApiGroupResource
  pub subset_default_only_user_agents : List String

-- message EndpointV1
pub record Endpoint : Type 0 where
  pub name : String
  pub subset : String
  pub ip : String

-- message SpecMetaV1
pub record SpecMeta : Type 0 where
  pub v_app_name : String
  pub hash : String

-- message ProxySpecV1
pub record ProxySpec : Type 0 where
  pub meta : SpecMeta
  pub route : Route
  pub endpoints : List Endpoint

-- message SelfInfo
pub record SelfInfo : Type 0 where
  pub namespace : String
  pub name : String

-- message MetaStateV1
pub record MetaState : Type 0 where
  pub subset : String
  pub expected_hash : String
  pub current_hash : String
  pub hash_unload_reason : String

-- message LeaderElectionStateV1
pub record LeaderElectionState : Type 0 where
  pub identity : String
  pub is_leader : Bool

-- message ProxyStatusV1
pub record ProxyStatus : Type 0 where
  pub self_info : Option SelfInfo
  pub meta_state : Option MetaState
  pub leader_election_state : Option LeaderElectionState
