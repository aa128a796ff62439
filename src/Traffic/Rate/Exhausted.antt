-- ===== src/Traffic/Rate/Exhausted.antt =====
-- A policy with both a bound on requests in flight and an exponential back-off.
use controllermesh.Prelude.{
  ℕ, suc, ◌+◌, ◌≤◌, List, [], ◌∷◌, some, Bool, true, not, ◌&&◌, ◌≡◌, arith, nat_eq, is_some, ltb,
  length, if◌then◌else◌,
}
use controllermesh.Traffic.{ExponentialBackoff}
use controllermesh.Traffic.Rate.{RateControl, Call, crashed, limited, no_deferred, allow}

-- The control after the requests of a list, of which none runs a `deferFunc`: no panic returns one.
abbrev pub after_all : List Call → RateControl → RateControl
after_all [] rc = rc
after_all (call ∷ calls) rc = after_all calls (allow call rc).1

-- The request cannot be a key of a map, and the bucket does not delay it.
abbrev pub is_unhashable : Call → Bool
is_unhashable call = not (is_some call.item) && nat_eq call.reserved 0

abbrev pub all_unhashable : List Call → Bool
all_unhashable [] = true
all_unhashable (call ∷ calls) = is_unhashable call && all_unhashable calls

module _ (n : ℕ) (eb : ExponentialBackoff) where
  -- The policy of a control that bounds its requests to `n` and backs off.
  abbrev pub BoundsAndBacksOff : RateControl → Type 0
  BoundsAndBacksOff rc =
      (rc.policy.max_in_flight ≡ some n) × (rc.policy.exponential_backoff ≡ some eb)

  allow-unhashable :
      (call : Call) (rc : RateControl)
      → BoundsAndBacksOff rc
      → is_unhashable call ≡ true
      → ((allow call rc).0 ≡ (if ltb rc.in_flight n then crashed else limited no_deferred 1))
        × ((allow call rc).1 ≡ record rc {
          in_flight = if ltb rc.in_flight n then suc rc.in_flight else rc.in_flight;
        })
  unfolding allow
  allow-unhashable call rc b u = ground arith

  after_all-in_flight :
      (calls : List Call) (rc : RateControl)
      → BoundsAndBacksOff rc
      → all_unhashable calls ≡ true
      → rc.in_flight ≤ n
      → n ≤ rc.in_flight + length calls
      → ((after_all calls rc).in_flight ≡ n) × BoundsAndBacksOff (after_all calls rc)
  after_all-in_flight [] rc b u le ge = ground arith
  after_all-in_flight (call ∷ calls) rc b u le ge =
      let rc' = (allow call rc).1 in
      ground (arith, allow-unhashable call rc b, after_all-in_flight calls rc')

  -- A policy bounds its requests in flight and backs off, its requests cannot be keys of a map,
  -- which Go says of the type RequestInfo with its slice, and its bucket delays none. With none in
  -- flight before, after as many of them as the bound, all over, the next one is refused and
  -- changes nothing, so that all later ones are.
  pub allow-exhausted :
      (calls : List Call) (rc : RateControl) (call : Call)
      → BoundsAndBacksOff rc
      → rc.in_flight ≡ 0
      → n ≤ length calls
      → all_unhashable (call ∷ calls) ≡ true
      → allow call (after_all calls rc) ≡ (limited no_deferred 1, after_all calls rc)
  allow-exhausted calls rc call b z l u =
      let full = after_all-in_flight calls rc b (ground arith) (ground arith) (ground arith) in
      let refused = allow-unhashable call (after_all calls rc) full.1 (ground arith) in ground arith
