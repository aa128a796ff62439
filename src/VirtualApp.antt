-- ===== src/VirtualApp.antt =====
-- apis/ctrlmesh/v1alpha1/virtualapp_types.go: the VirtualApp resource. A pointer is an option; a
-- slice is a list, and an option of one where the code tells nil from empty.
pub mod Validation
use controllermesh.Prelude.{String, List, [], Option, none, some}
use controllermesh.Prelude.Int.{ℤ}
use controllermesh.Prelude.Maps.{Map}
use controllermesh.Selector.{LabelSelector}

pub record ApiGroupResource : Type 0 where
  pub api_groups : List String
  pub resources : List String

pub record MatchLimitSelector : Type 0 where
  pub namespace_selector : Option LabelSelector
  pub object_selector : Option LabelSelector
  pub namespace_regex : Option String
  pub resources : Option (List ApiGroupResource)

-- VirtualAppRouteSubRule
pub record SubRule : Type 0 where
  pub name : String
  pub match_limits : List MatchLimitSelector

-- VirtualAppRoute
pub record Route : Type 0 where
  pub global_limits : List MatchLimitSelector
  pub sub_rules : List SubRule
  pub subset_public_resources : List ApiGroupResource
  pub subset_default_only_user_agents : List String

-- VirtualAppSubset
pub record Subset : Type 0 where
  pub name : String
  pub labels : Map String
  pub route_rules : List String

-- VirtualAppControllerConfiguration
pub record ControllerConfiguration : Type 0 where
  pub leader_election_name : String

-- VirtualAppWebhookConfiguration
pub record WebhookConfiguration : Type 0 where
  pub cert_dir : String
  pub port : ℤ

-- VirtualAppRestConfigOverrides
pub record RestConfigOverrides : Type 0 where
  pub user_agent_or_prefix : Option String

-- VirtualAppConfiguration
pub record Configuration : Type 0 where
  pub controller : Option ControllerConfiguration
  pub webhook : Option WebhookConfiguration
  pub rest_config_overrides : Option RestConfigOverrides

-- VirtualAppSpec
pub record Spec : Type 0 where
  pub selector : Option LabelSelector
  pub configuration : Option Configuration
  pub route : Option Route
  pub subsets : List Subset

pub record VirtualApp : Type 0 where
  pub namespace : String
  pub name : String
  pub spec : Spec

abbrev pub slice {ℓ} : {A : Type ℓ} → Option (List A) → List A
slice none = []
slice (some xs) = xs
