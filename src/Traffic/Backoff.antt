-- ===== src/Traffic/Backoff.antt =====
-- The exponential back-off of proxy/filters/traffic/rate_util.go. Times are in nanoseconds.
pub mod Bounds
use controllermesh.Prelude.{
  ℕ, suc, ◌+◌, ◌-◌, ◌*◌, ◌^◌, String, Option, none, some, ltb, leb, nat_eq, if◌then◌else◌,
}
use controllermesh.Prelude.Maps.{Map, lookup, put, delete}
use controllermesh.Traffic.{ExponentialBackoff}

-- rateExponentialFailure
pub record Failure : Type 0 where
  pub failure_times : ℕ
  pub next_time : Option ℕ

abbrev pub fresh_failure : Failure
fresh_failure = record { failure_times = 0; next_time = none }

abbrev pub millisecond : ℕ
millisecond = 1_000_000

-- math.MaxInt32
abbrev pub max_int32 : ℕ
max_int32 = 2_147_483_647

-- The value of float64(math.MaxInt64).
abbrev pub max_int64_as_float : ℕ
max_int64_as_float = 2 ^ 63

abbrev pub delay_of : ℕ → String → Map Failure → Failure → Option ℕ → Option ℕ × Map Failure
delay_of now item failures ef none = (some 0, failures)
delay_of now item failures ef (some t) =
    if ltb t now
    then (some 0, put item (record ef { next_time = none }) failures)
    else (some (t - now), failures)

-- The delay, `none` for `(0, false)`.
unfoldable pub delay : ℕ → String → Map Failure → Option ℕ × Map Failure
delay now item failures = elim (lookup item failures) [
  | none ↦ (none, failures)
  | some ef ↦ delay_of now item failures ef ef.next_time
]

unfoldable pub succeed : String → Map Failure → Map Failure
succeed item failures = delete item failures

abbrev pub failure_or_fresh : Option Failure → Failure
failure_or_fresh none = fresh_failure
failure_or_fresh (some ef) = ef

-- `failureTimes++`, up to its bound
abbrev pub count_failure : Failure → Failure
count_failure ef =
    if ltb ef.failure_times max_int32
    then record ef { failure_times = suc ef.failure_times }
    else ef

-- `overflowed` is the time that `time.Now().Add(calculated)` gives where the conversion of the
-- float is out of the range of an int64, which Go leaves to the implementation. A product of a
-- 32-bit number and a power of two is exact in a float64, or infinite.
module _ (overflowed : ℕ) where
  unfoldable pub next_try : ℕ → ExponentialBackoff → ℕ → ℕ
  next_try now eb delta =
      let backoff = eb.base_delay_in_millisecond * 2 ^ (delta - 1) in
      let max_backoff = eb.max_delay_in_millisecond * millisecond in
      if ltb max_int64_as_float backoff
      then now + max_backoff
      else if nat_eq backoff max_int64_as_float
      then overflowed
      else if ltb max_backoff backoff
      then now + max_backoff
      else now + backoff

  abbrev pub failed_again : ℕ → ExponentialBackoff → Failure → Failure
  failed_again now eb ef =
      if leb ef.failure_times eb.continuously_failure_times then ef else record ef {
        next_time = some (next_try now eb (ef.failure_times - eb.continuously_failure_times));
      }

  unfoldable pub failed : ℕ → ExponentialBackoff → String → Map Failure → Map Failure
  unfolding next_try
  failed now eb item failures =
      let ef = count_failure (failure_or_fresh (lookup item failures)) in
      put item (failed_again now eb ef) failures
