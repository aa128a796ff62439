-- ===== src/Traffic/Rate.antt =====
-- `rateControl` of proxy/filters/traffic/rate_util.go: whether a request may go on now. The channel
-- maxInFlightChan is the number of its elements.
pub mod Exhausted
use controllermesh.Prelude.{
  ℕ, suc, ◌+◌, ◌-◌, ◌/◌, String, Option, none, some, Bool, true, false, ◌||◌, ltb, leb, nat_eq,
  if◌then◌else◌,
}
use controllermesh.Prelude.Maps.{Map}
use controllermesh.Traffic.{RateLimitingPolicy, ExponentialBackoff, Bucket}
use controllermesh.Traffic.Backoff.{Failure, delay, succeed, failed}

pub record RateControl : Type 0 where
  pub policy : RateLimitingPolicy
  pub in_flight : ℕ
  pub failures : Map Failure

-- What `deferFunc` does: maxInFlightDefer and exponentialBackoffDefer, where they are set.
pub record Deferred : Type 0 where
  pub slot : Bool
  pub report : Bool

abbrev pub no_deferred : Deferred
no_deferred = record { slot = false; report = false }

-- The result of `allow`: no error, an error with the seconds to wait, or a panic.
pub data Allowance : Type 0 where
  granted : Deferred → Allowance
  limited : Deferred → ℕ → Allowance
  crashed : Allowance

abbrev pub second : ℕ
second = 1_000_000_000

-- int(delay/time.Second) + 1
abbrev pub seconds_of : ℕ → ℕ
seconds_of delay_time = delay_time / second + 1

abbrev pub limited_if : ℕ → Deferred → Allowance
limited_if delay_time d = if ltb 0 delay_time then limited d (seconds_of delay_time) else granted d

-- What is known of the request at hand: the key that it is in a map of failures, `none` where a map
-- panics at it, since its type cannot be a key; the delay that the bucket's rate.Limiter reserves;
-- and the time.
pub record Call : Type 0 where
  pub item : Option String
  pub reserved : ℕ
  pub now : ℕ

abbrev pub with_failures : RateControl → Map Failure → RateControl
with_failures rc failures = record rc { failures = failures }

abbrev pub wait_backoff : RateControl → Deferred → Option ℕ × Map Failure → Allowance × RateControl
wait_backoff rc d (none, failures) = (granted d, with_failures rc failures)
wait_backoff rc d (some delay_time, failures) =
    (limited_if delay_time (record d { report = true }), with_failures rc failures)

-- The third `if` of `allow`.
abbrev pub check_backoff : Call → RateControl → Deferred → Allowance × RateControl
check_backoff call rc d = elim rc.policy.exponential_backoff [
  | none ↦ (granted d, rc)
  | some eb ↦ (elim call.item [
    | none ↦ (crashed, rc)
    | some item ↦ wait_backoff rc d (delay call.now item rc.failures)
  ])
]

-- The second `if`.
abbrev pub check_bucket : Call → RateControl → Deferred → Allowance × RateControl
check_bucket call rc d = elim rc.policy.bucket [
  | none ↦ check_backoff call rc d
  | some b ↦
      if ltb 0 call.reserved
      then (limited d (seconds_of call.reserved), rc)
      else check_backoff call rc d
]

-- A panic leaves the channel as it is.
unfoldable pub allow : Call → RateControl → Allowance × RateControl
unfolding delay
allow call rc = elim rc.policy.max_in_flight [
  | none ↦ check_bucket call rc no_deferred
  | some n ↦
      if ltb rc.in_flight n
      then check_bucket call (record rc { in_flight = suc rc.in_flight })
          (record no_deferred { slot = true })
      else (limited no_deferred 1, rc)
]

-- http.StatusBadRequest
abbrev pub bad_request : ℕ
bad_request = 400

module _ (overflowed : ℕ) where
  abbrev pub report_status : ℕ → ℕ → ExponentialBackoff → String → Map Failure → Map Failure
  report_status now status eb item failures =
      if nat_eq status 0
      then failures
      else if leb bad_request status
      then failed overflowed now eb item failures
      else succeed item failures

  abbrev pub after_report : Call → ℕ → RateControl → RateControl
  after_report call status rc = elim rc.policy.exponential_backoff [
    | none ↦ rc
    | some eb ↦ (elim call.item [
      | none ↦ rc
      | some item ↦ with_failures rc (report_status call.now status eb item rc.failures)
    ])
  ]

  abbrev pub release_slot : Bool → RateControl → RateControl
  release_slot slot rc = if slot then record rc { in_flight = rc.in_flight - 1 } else rc

  -- A call of `deferFunc` with a status.
  unfoldable pub run_deferred : Call → ℕ → Deferred → RateControl → RateControl
  unfolding failed succeed
  run_deferred call status d rc =
      let released = release_slot d.slot rc in
      if d.report then after_report call status released else released
