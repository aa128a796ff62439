-- ===== src/Traffic/Filter.antt =====
-- `trafficControlHandler` of proxy/filters/traffic/traffic.go.
pub mod Slots
pub mod Reached
use controllermesh.Prelude.{
  ℕ, ◌+◌, ◌*◌, String, List, [], ◌∷◌, Option, none, some, Bool, true, false, not, ◌&&◌, ◌||◌, ◌==◌,
  has, insert, nonempty, select, any, ltb, if◌then◌else◌,
}
use controllermesh.Prelude.Texts.{concat_text}
use controllermesh.Prelude.Maps.{Map, lookup, put}
use controllermesh.Traffic.{
  TrafficPolicy, RateLimitingPolicy, ApiServerRules, CircuitBreaking, TargetVirtualApp,
}
use controllermesh.Traffic.Rules.{RequestInfo, contains_string, matches_api_server_rules}
use controllermesh.Traffic.Rate.{
  RateControl, Deferred, Allowance, granted, limited, Call, allow, run_deferred, second,
}
use controllermesh.Traffic.Rate

-- cachedPolicies and cacheExpirationTime, in nanoseconds
pub record Cache : Type 0 where
  pub policies : List TrafficPolicy
  pub expiration_time : ℕ

abbrev pub is_target : String → String → TargetVirtualApp → Bool
is_target v_app_name subset target =
    if not (target.name == v_app_name)
    then false
    else if nonempty target.specific_subsets
        && not (contains_string subset target.specific_subsets "*")
    then false
    else true

-- `listed` is the answer of the lister, `none` an error.
unfoldable pub get_traffic_policies :
    String → String → ℕ → Option (List TrafficPolicy) → Cache → Option (List TrafficPolicy) × Cache
unfolding contains_string
get_traffic_policies v_app_name subset now listed cache =
    if ltb now cache.expiration_time then (some cache.policies, cache) else (elim listed [
      | none ↦ (none, cache)
      | some policies ↦
          let ret =
            select (λ p. any (is_target v_app_name subset) p.target_virtual_apps) policies in
          (some ret, record { policies = ret; expiration_time = now + 3 * second })
    ])

-- What the client gets: the handler's own response (with the wrapper or without), an error, or none.
pub data Answer : Type 0 where
  passed passed_wrapped : Answer
  no_request_info : Answer
  broken : String → Answer
  too_many : ℕ → Answer
  crashed : Answer

-- rateHashes, rateControls, and the deferred functions, the last one first.
pub record Round : Type 0 where
  pub rate_hashes : List String
  pub rate_controls : Map RateControl
  pub opened : List (String × Deferred)

pub data Progress : Type 0 where
  go_on : Round → Progress
  stop : Answer → Round → Progress

abbrev pub new_control : RateLimitingPolicy → RateControl
new_control rp = record { policy = rp; in_flight = 0; failures = [] }

-- LoadOrStore
abbrev pub control_or_new : RateLimitingPolicy → Option RateControl → RateControl
control_or_new rp none = new_control rp
control_or_new rp (some rc) = rc

abbrev pub open_deferred : String → Deferred → Round → Round
open_deferred hash d round =
    if d.slot || d.report then record round { opened = (hash, d) ∷ round.opened } else round

-- The first statement of tooManyRequests.
abbrev pub retry_after : ℕ → ℕ
retry_after delay_seconds = if ltb 1 delay_seconds then delay_seconds else 1

abbrev pub after_allow : String → Round → Allowance × RateControl → Progress
after_allow hash round (allowance, rc) =
    let round' = record round {
      rate_hashes = insert hash round.rate_hashes;
      rate_controls = put hash rc round.rate_controls;
    } in
    elim allowance [
      | granted d ↦ go_on (open_deferred hash d round')
      | limited d delay_seconds ↦
          stop (too_many (retry_after delay_seconds)) (open_deferred hash d round')
      | Rate.crashed ↦ stop crashed round'
    ]

abbrev pub and_then : Progress → (Round → Progress) → Progress
and_then (go_on round) f = f round
and_then (stop answer round) f = stop answer round

-- `digest` is the hash of a policy's JSON text; `call_of` says what is known of the request when it
-- meets the control of a hash.
module _ (digest : RateLimitingPolicy → String) (call_of : String → Call) (info : RequestInfo) where
  unfoldable pub hash_rate_policy : String → RateLimitingPolicy → String
  hash_rate_policy name rp = concat_text name (concat_text "--" (digest rp))

  -- One round of the loop over the rate policies.
  abbrev pub visit_rate_policy : String → RateLimitingPolicy → Round → Progress
  visit_rate_policy name rp round =
      let hash = hash_rate_policy name rp in
      if not (matches_api_server_rules info rp.rules)
      then go_on round
      else if has hash round.rate_hashes
      then go_on round
      else after_allow hash round
          (allow (call_of hash) (control_or_new rp (lookup hash round.rate_controls)))

  unfoldable pub visit_rate_policies : String → List RateLimitingPolicy → Round → Progress
  unfolding allow hash_rate_policy
  visit_rate_policies name [] round = go_on round
  visit_rate_policies name (rp ∷ rps) round =
      and_then (visit_rate_policy name rp round) (visit_rate_policies name rps)

  -- The first `if` of the loop over the policies; the code does not test CircuitBreaking for nil.
  abbrev pub check_circuit : TrafficPolicy → Option CircuitBreaking → Round → Progress
  check_circuit policy none round = stop crashed round
  check_circuit policy (some cb) round = elim cb.api_server [
    | none ↦ go_on round
    | some rules ↦
        if matches_api_server_rules info rules then stop (broken policy.name) round else go_on round
  ]

  unfoldable pub visit_policies : List TrafficPolicy → Round → Progress
  unfolding visit_rate_policies
  visit_policies [] round = go_on round
  visit_policies (p ∷ ps) round =
      and_then (check_circuit p p.circuit_breaking round)
        λ round. and_then (visit_rate_policies p.name p.rate_policies round) (visit_policies ps)

abbrev pub first_round : Map RateControl → Round
first_round controls = record { rate_hashes = []; rate_controls = controls; opened = [] }

abbrev pub answer_of : Progress → Answer × Round
answer_of (go_on round) = (passed_wrapped, round)
answer_of (stop answer round) = (answer, round)

-- ServeHTTP up to the call of the handler or the response: `policies` is the result of
-- getTrafficPolicies, `info` that of RequestInfoFrom.
unfoldable pub serve_http :
    (RateLimitingPolicy → String)
    → (String → Call)
    → Option RequestInfo
    → Option (List TrafficPolicy)
    → Map RateControl
    → Answer × Round
unfolding visit_policies
serve_http digest call_of info none controls = (passed, first_round controls)
serve_http digest call_of info (some policies) controls =
    if not (nonempty policies) then (passed, first_round controls) else (elim info [
      | none ↦ (no_request_info, first_round controls)
      | some ri ↦ answer_of (visit_policies digest call_of ri policies (first_round controls))
    ])

-- `atomic.LoadInt32(&wrapper.status)`: an argument of a deferred call is evaluated where it is
-- deferred, which is before the handler is called.
abbrev pub deferred_status : ℕ
deferred_status = 0

-- The deferred call on its control, which is in the map when the call is deferred.
abbrev pub run_on : ℕ → Call → Deferred → Option RateControl → Option RateControl
run_on overflowed call d none = none
run_on overflowed call d (some rc) = some (run_deferred overflowed call deferred_status d rc)

abbrev pub put_found {ℓ} : {V : Type ℓ} → String → Option V → Map V → Map V
put_found key none m = m
put_found key (some v) m = put key v m

abbrev pub run_opened_at :
    ℕ → (String → Call) → String × Deferred → Map RateControl → Map RateControl
run_opened_at overflowed call_of (hash, d) controls =
    put_found hash (run_on overflowed (call_of hash) d (lookup hash controls)) controls

-- The deferred calls, at the return of ServeHTTP or at its panic.
unfoldable pub run_opened :
    ℕ → (String → Call) → List (String × Deferred) → Map RateControl → Map RateControl
unfolding run_deferred
run_opened overflowed call_of [] controls = controls
run_opened overflowed call_of (x ∷ xs) controls =
    run_opened overflowed call_of xs (run_opened_at overflowed call_of x controls)
