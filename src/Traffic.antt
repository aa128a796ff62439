-- ===== src/Traffic.antt =====
-- proxy/filters/traffic/traffic.go and apis/ctrlmesh/v1alpha1/trafficpolicy_types.go: the policies that
-- stop or slow down the requests of a controller. The `int32` fields of a policy are not negative.
pub mod Rules
pub mod Backoff
pub mod Rate
pub mod Filter
use controllermesh.Prelude.{ℕ, String, List, Option, Bool}

-- flowcontrol's ResourcePolicyRule and NonResourcePolicyRule
pub record ResourceRule : Type 0 where
  pub verbs : List String
  pub api_groups : List String
  pub resources : List String
  pub cluster_scope : Bool
  pub namespaces : List String

pub record NonResourceRule : Type 0 where
  pub verbs : List String
  pub non_resource_urls : List String

-- TrafficAPIServerRules
pub record ApiServerRules : Type 0 where
  pub resource_rules : List ResourceRule
  pub non_resource_rules : List NonResourceRule

-- TrafficRateLimitingBucket
pub record Bucket : Type 0 where
  pub qps : ℕ
  pub burst : ℕ

-- TrafficRateLimitingExponentialBackoff
pub record ExponentialBackoff : Type 0 where
  pub base_delay_in_millisecond : ℕ
  pub max_delay_in_millisecond : ℕ
  pub continuously_failure_times : ℕ

-- TrafficRateLimitingPolicy
pub record RateLimitingPolicy : Type 0 where
  pub rules : ApiServerRules
  pub max_in_flight : Option ℕ
  pub bucket : Option Bucket
  pub exponential_backoff : Option ExponentialBackoff

-- TrafficTargetVirtualApp
pub record TargetVirtualApp : Type 0 where
  pub name : String
  pub specific_subsets : List String

-- TrafficCircuitBreaking, as far as it is read
pub record CircuitBreaking : Type 0 where
  pub api_server : Option ApiServerRules

-- TrafficPolicy with its specification. No rate limiting is none of its policies.
pub record TrafficPolicy : Type 0 where
  pub name : String
  pub target_virtual_apps : List TargetVirtualApp
  pub circuit_breaking : Option CircuitBreaking
  pub rate_policies : List RateLimitingPolicy
