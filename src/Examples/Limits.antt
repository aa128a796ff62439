-- ===== src/Examples/Limits.antt =====
-- A traffic policy that lets one request be in flight and backs off after each failure.
use controllermesh.Prelude.{◌≤◌, [], ◌∷◌, none, some, true, ◌≡◌, refl, arith}
use controllermesh.Prelude.Maps.{lookup}
use controllermesh.Traffic.{RateLimitingPolicy, ExponentialBackoff, TrafficPolicy, ApiServerRules}
use controllermesh.Traffic.Backoff.{delay, failed}
use controllermesh.Traffic.Backoff.Bounds.{delay-failed}
use controllermesh.Traffic.Rate.{RateControl, Call, limited, no_deferred, allow}
use controllermesh.Traffic.Rate.Exhausted.{after_all, allow-exhausted}
use controllermesh.Traffic.Rules.{
  RequestInfo, matches_api_server_rules, matches_a_resource_rule, matches_a_non_resource_rule,
  matches_resource_policy_rule, contains_string,
}
use controllermesh.Traffic.Filter.{
  serve_http, visit_policies, visit_rate_policies, hash_rate_policy,
}
use controllermesh.Traffic.Filter.Slots.{held_by}
use controllermesh.Traffic.Filter.Reached.{
  Handling, Reached, start, next, begin, idle, begun, Reached-in_flight,
}

abbrev backoff : ExponentialBackoff
backoff = record {
  base_delay_in_millisecond = 5;
  max_delay_in_millisecond = 1;
  continuously_failure_times = 0;
}

delay-failed_example : (delay 100 "x" (failed 0 100 backoff "x" [])).0 ≡ some 5
delay-failed_example = delay-failed 0 100 backoff "x" [] (omega arith) refl (omega arith)

abbrev everything : ApiServerRules
everything = record {
  resource_rules =
      record {
        verbs = "*" ∷ [];
        api_groups = "*" ∷ [];
        resources = "*" ∷ [];
        cluster_scope = true;
        namespaces = "*" ∷ [];
      }
      ∷ [];
  non_resource_rules = [];
}

abbrev rate_policy : RateLimitingPolicy
rate_policy = record {
  rules = everything;
  max_in_flight = some 1;
  bucket = none;
  exponential_backoff = some backoff;
}

abbrev control : RateControl
control = record { policy = rate_policy; in_flight = 0; failures = [] }

-- A request that cannot be the key of a map, and one that can.
abbrev call : Call
call = record { item = some "get pods"; reserved = 0; now = 100 }

abbrev unkeyed : Call
unkeyed = record { item = none; reserved = 0; now = 100 }

allow-exhausted_example :
    allow unkeyed (after_all (unkeyed ∷ []) control)
    ≡ (limited no_deferred 1, after_all (unkeyed ∷ []) control)
allow-exhausted_example =
    allow-exhausted 1 backoff (unkeyed ∷ []) control unkeyed (refl, refl) refl (omega arith) refl

abbrev policy : TrafficPolicy
policy = record {
  name = "p";
  target_virtual_apps = [];
  circuit_breaking = some (record { api_server = none });
  rate_policies = rate_policy ∷ [];
}

abbrev get_pods : RequestInfo
get_pods = record {
  is_resource_request = true;
  path = "/api/v1/pods";
  verb = "get";
  api_group = "";
  namespace = "";
  resource = "pods";
  subresource = "";
}

-- One request is in flight.
abbrev one_request : Handling
one_request =
    begun (serve_http (λ rp. "digest") (λ hash. call) (some get_pods) (some (policy ∷ [])) []).1
      idle

abbrev taken : RateControl
taken = record { policy = rate_policy; in_flight = 1; failures = [] }

one_request-Reached : Reached one_request
one_request-Reached =
    next (start refl)
      (begin (λ rp. "digest") (λ hash. call) (some get_pods) (some (policy ∷ [])) refl)

one_request-taken : lookup "p--digest" one_request.controls ≡ some taken
unfolding serve_http visit_policies visit_rate_policies hash_rate_policy allow delay
    matches_api_server_rules matches_a_resource_rule matches_a_non_resource_rule
    matches_resource_policy_rule contains_string
one_request-taken = refl

Reached-in_flight_example :
    (held_by "p--digest" one_request.requests ≤ taken.in_flight) × (taken.in_flight ≤ 1)
Reached-in_flight_example =
    Reached-in_flight one_request "p--digest" taken 1 one_request-Reached one_request-taken refl
