-- ===== src/Traffic/Backoff/Bounds.antt =====
-- How long a request is put off.
use controllermesh.Prelude.{
  ℕ, ◌+◌, ◌-◌, ◌*◌, ◌^◌, ◌≤◌, ◌<◌, String, some, false, ◌≡◌, arith, ltb, nat_eq, eq_refl,
  if◌then◌else◌,
}
use controllermesh.Prelude.Maps.{Map, lookup, lookup-put}
use controllermesh.Traffic.{ExponentialBackoff}
use controllermesh.Traffic.Backoff.{
  Failure, millisecond, max_int32, max_int64_as_float, delay, failed, next_try, count_failure,
  failure_or_fresh,
}

-- The smaller of two numbers.
abbrev pub min : ℕ → ℕ → ℕ
min a b = if ltb b a then b else a

-- The failures of an item in a row, as they are counted.
abbrev pub failures_of : String → Map Failure → ℕ
failures_of item failures = (failure_or_fresh (lookup item failures)).failure_times

module _ (overflowed now : ℕ) (eb : ExponentialBackoff) (item : String)
    (failures : Map Failure) where
  -- The number of failures in a row beyond those that are let pass, this one counted.
  abbrev pub excess : ℕ
  excess =
      (count_failure (failure_or_fresh (lookup item failures))).failure_times
      - eb.continuously_failure_times

  abbrev pub calculated : ℕ
  calculated = eb.base_delay_in_millisecond * 2 ^ (excess - 1)

  next_try-min :
      (delta : ℕ)
      → nat_eq (eb.base_delay_in_millisecond * 2 ^ (delta - 1)) max_int64_as_float ≡ false
      → eb.max_delay_in_millisecond ≤ max_int32
      → next_try overflowed now eb delta
        ≡ now
          + min
              (eb.base_delay_in_millisecond * 2 ^ (delta - 1))
              (eb.max_delay_in_millisecond * millisecond)
  unfolding next_try
  next_try-min delta n m = ground arith

  -- After one failure more than the policy lets pass, the item is put off by its base delay doubled
  -- for each further failure, where that number does not hit the bound of an int64 exactly, and
  -- never by more than its maximal delay, a number of 32 bits. The base delay counts as
  -- nanoseconds, the maximal one as milliseconds.
  pub delay-failed :
      0 < excess
      → nat_eq calculated max_int64_as_float ≡ false
      → eb.max_delay_in_millisecond ≤ max_int32
      → (delay now item (failed overflowed now eb item failures)).0
        ≡ some (min calculated (eb.max_delay_in_millisecond * millisecond))
  unfolding delay failed
  delay-failed x n m =
      let ef = count_failure (failure_or_fresh (lookup item failures)) in
      ground (
        arith,
        eq_refl item,
        lookup-put item item (record ef { next_time = some (next_try overflowed now eb excess) })
            failures,
        next_try-min excess n m,
      )
