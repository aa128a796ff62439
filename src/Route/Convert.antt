-- ===== src/Route/Convert.antt =====
-- ConvertProtoSpecToInternal: the received route, with its JSON selectors decoded. `decode` is
-- json.Unmarshal into an empty selector: the selector that it leaves, since an error is only logged.
use controllermesh.Prelude.{String, List, [], none, some, ◌==◌, map, if◌then◌else◌}
use controllermesh.Proto
use controllermesh.Proto.{ProxySpec}
use controllermesh.Selector.{LabelSelector}
use controllermesh.Route.{MatchLimitRule, SubsetLimit, InternalSpec}

module _ (decode : String → LabelSelector) where
  unfoldable pub convert_rule : Proto.MatchLimitRule → MatchLimitRule
  convert_rule limit =
      if limit.object_selector == ""
      then record {
        namespaces = limit.namespaces;
        object_selector = none;
        resources = limit.resources;
      }
      else record {
        namespaces = [];
        object_selector = some (decode limit.object_selector);
        resources = limit.resources;
      }

  unfoldable pub convert_proto_match_limit_rule_to_internal :
      List Proto.MatchLimitRule → List MatchLimitRule
  unfolding convert_rule
  convert_proto_match_limit_rule_to_internal limits = map convert_rule limits

  abbrev pub convert_subset_limit : Proto.SubsetLimit → SubsetLimit
  convert_subset_limit s = record {
    subset = s.subset;
    limits = convert_proto_match_limit_rule_to_internal s.limits;
  }

  unfoldable pub convert_proto_spec_to_internal : ProxySpec → InternalSpec
  unfolding convert_proto_match_limit_rule_to_internal
  convert_proto_spec_to_internal spec =
      let r = spec.route in
      record {
        proxy_spec = spec;
        route_internal = record {
          subset = r.subset;
          global_limits = convert_proto_match_limit_rule_to_internal r.global_limits;
          subset_limits = map convert_subset_limit r.subset_limits;
          subset_public_resources = r.subset_public_resources;
          subset_default_only_user_agents = r.subset_default_only_user_agents;
        };
      }
