-- ===== src/Traffic/Filter/Slots.antt =====
-- The requests in flight of a policy, over all interleavings of requests.
use controllermesh.Prelude.{
  ℕ, ◌+◌, ◌-◌, ◌≤◌, String, List, [], ◌∷◌, Option, none, some, Bool, true, false, not, ◌&&◌, ◌==◌,
  ◌≡◌, refl, arith, nonempty, leb, eq_iff, if◌then◌else◌,
}
use controllermesh.Prelude.Maps.{Map, lookup, lookup-put}
use controllermesh.Traffic.{TrafficPolicy, RateLimitingPolicy, CircuitBreaking}
use controllermesh.Traffic.Rules.{RequestInfo}
use controllermesh.Traffic.Rate.{
  RateControl, Deferred, Allowance, granted, limited, Call, allow, run_deferred,
}
use controllermesh.Traffic.Rate
use controllermesh.Traffic.Filter.{
  Round, Progress, go_on, stop, control_or_new, and_then, visit_rate_policy, visit_rate_policies,
  check_circuit, visit_policies, first_round, answer_of, serve_http, run_opened_at, run_opened,
  run_on, put_found, hash_rate_policy, deferred_status,
}

-- The slots of a control that the deferred calls of a list give back.
abbrev pub held : String → List (String × Deferred) → ℕ
held hash [] = 0
held hash ((h, d) ∷ ds) = (if hash == h && d.slot then 1 else 0) + held hash ds

abbrev pub held_by : String → List (List (String × Deferred)) → ℕ
held_by hash [] = 0
held_by hash (ds ∷ dss) = held hash ds + held_by hash dss

abbrev in_flight_of : Option RateControl → ℕ
in_flight_of none = 0
in_flight_of (some rc) = rc.in_flight

abbrev pub in_flight_at : String → Map RateControl → ℕ
in_flight_at hash controls = in_flight_of (lookup hash controls)

-- The channel holds at most what it has room for, and no failure is recorded.
abbrev pub is_sound : RateControl → Bool
is_sound rc =
    (elim rc.policy.max_in_flight [ none ↦ true | some n ↦ leb rc.in_flight n ])
    && not (nonempty rc.failures)

abbrev is_sound_if : Option RateControl → Bool
is_sound_if none = true
is_sound_if (some rc) = is_sound rc

abbrev pub is_sound_at : String → Map RateControl → Bool
is_sound_at hash controls = is_sound_if (lookup hash controls)

abbrev slots : Bool → ℕ
slots b = if b then 1 else 0

abbrev deferred_of : Allowance → Deferred
deferred_of (granted d) = d
deferred_of (limited d n) = d
deferred_of Rate.crashed = record { slot = false; report = false }

-- A call of `allow` takes at least the slots that its deferred function gives back.
allow-slots :
    (call : Call) (rc : RateControl)
    → (rc.in_flight + slots (deferred_of (allow call rc).0).slot ≤ (allow call rc).1.in_flight)
      × (is_sound rc ≡ true → is_sound (allow call rc).1 ≡ true)
unfolding allow
allow-slots call rc = ground arith

abbrev round_of : Progress → Round
round_of (go_on round) = round
round_of (stop answer round) = round

-- Of one control, between two rounds: what is held is covered by what is in flight.
abbrev pub Covers : String → Round → Round → Type 0
Covers hash before after =
    (in_flight_at hash before.rate_controls + held hash after.opened
      ≤ in_flight_at hash after.rate_controls + held hash before.opened)
    × (is_sound_at hash before.rate_controls ≡ true → is_sound_at hash after.rate_controls ≡ true)

module _ (hash : String) where
  Covers-trans : (a b c : Round) → Covers hash a b → Covers hash b c → Covers hash a c
  Covers-trans a b c p q = (omega (arith, p.0, q.0), λ f. q.1 (p.1 f))

  Covers-refl : (a : Round) → Covers hash a a
  Covers-refl a = (omega arith, λ f. f)

  and_then-Covers :
      (before : Round) (p : Progress) (f : Round → Progress)
      → Covers hash before (round_of p)
      → ((round : Round) → Covers hash round (round_of (f round)))
      → Covers hash before (round_of (and_then p f))
  and_then-Covers before (go_on round) f c next =
      Covers-trans before round (round_of (f round)) c (next round)
  and_then-Covers before (stop answer round) f c next = c

module _ (digest : RateLimitingPolicy → String) (call_of : String → Call) (info : RequestInfo)
    (hash : String) where
  visit_rate_policy-Covers :
      (name : String) (rp : RateLimitingPolicy) (round : Round)
      → Covers hash round (round_of (visit_rate_policy digest call_of info name rp round))
  visit_rate_policy-Covers name rp round =
      let h = hash_rate_policy digest call_of info name rp in
      let rc = control_or_new rp (lookup h round.rate_controls) in
      ground (
        arith,
        allow-slots (call_of h) rc,
        lookup-put h hash (allow (call_of h) rc).1 round.rate_controls,
        eq_iff hash h,
      )

  visit_rate_policies-Covers :
      (name : String) (rps : List RateLimitingPolicy) (round : Round)
      → Covers hash round (round_of (visit_rate_policies digest call_of info name rps round))
  unfolding visit_rate_policies
  visit_rate_policies-Covers name [] round = Covers-refl hash round
  visit_rate_policies-Covers name (rp ∷ rps) round =
      and_then-Covers hash round (visit_rate_policy digest call_of info name rp round)
        (visit_rate_policies digest call_of info name rps) (visit_rate_policy-Covers name rp round)
        (visit_rate_policies-Covers name rps)

  check_circuit-same :
      (p : TrafficPolicy) (cb : Option CircuitBreaking) (round : Round)
      → round_of (check_circuit digest call_of info p cb round) ≡ round
  check_circuit-same p none round = refl
  check_circuit-same p (some cb) round = ground arith

  check_circuit-Covers :
      (p : TrafficPolicy) (cb : Option CircuitBreaking) (round : Round)
      → Covers hash round (round_of (check_circuit digest call_of info p cb round))
  check_circuit-Covers p cb round = rw (check_circuit-same p cb round) (Covers-refl hash round)

  visit_policies-Covers :
      (ps : List TrafficPolicy) (round : Round)
      → Covers hash round (round_of (visit_policies digest call_of info ps round))
  unfolding visit_policies
  visit_policies-Covers [] round = Covers-refl hash round
  visit_policies-Covers (p ∷ ps) round =
      and_then-Covers hash round (check_circuit digest call_of info p p.circuit_breaking round)
        (λ r.
          and_then (visit_rate_policies digest call_of info p.name p.rate_policies r)
            (visit_policies digest call_of info ps))
        (check_circuit-Covers p p.circuit_breaking round)
        (λ r.
          and_then-Covers hash r (visit_rate_policies digest call_of info p.name p.rate_policies r)
            (visit_policies digest call_of info ps)
            (visit_rate_policies-Covers p.name p.rate_policies r) (visit_policies-Covers ps))

answer_of-round : (p : Progress) → (answer_of p).1 ≡ round_of p
answer_of-round (go_on r) = refl
answer_of-round (stop a r) = refl

-- What a request that begins takes, it holds.
pub serve_http-Covers :
    (digest : RateLimitingPolicy → String) (call_of : String → Call) (info : Option RequestInfo)
    (policies : Option (List TrafficPolicy)) (controls : Map RateControl) (hash : String)
    → Covers hash (first_round controls) (serve_http digest call_of info policies controls).1
unfolding serve_http
serve_http-Covers digest call_of info none controls hash = Covers-refl hash (first_round controls)
serve_http-Covers digest call_of none (some ps) controls hash = ground arith
serve_http-Covers digest call_of (some ri) (some ps) controls hash = ground (
  arith,
  Covers-refl hash (first_round controls),
  visit_policies-Covers digest call_of ri hash ps (first_round controls),
  answer_of-round (visit_policies digest call_of ri ps (first_round controls)),
)

run_deferred-in_flight :
    (overflowed : ℕ) (call : Call) (d : Deferred) (rc : RateControl)
    → ((run_deferred overflowed call deferred_status d rc).in_flight ≡ rc.in_flight - slots d.slot)
      × ((run_deferred overflowed call deferred_status d rc).policy ≡ rc.policy)
      × ((run_deferred overflowed call deferred_status d rc).failures ≡ rc.failures)
unfolding run_deferred
run_deferred-in_flight overflowed call d rc = ground arith

module _ (overflowed : ℕ) (call_of : String → Call) (hash : String) where
  run_opened_at-lookup :
      (h : String) (d : Deferred) (o : Option RateControl) (controls : Map RateControl)
      → lookup h controls ≡ o
      → lookup hash (put_found h (run_on overflowed (call_of h) d o) controls) ≡ (
          if hash == h
          then run_on overflowed (call_of h) d (lookup hash controls)
          else lookup hash controls)
  run_opened_at-lookup h d none controls e = ground (arith, eq_iff hash h)
  run_opened_at-lookup h d (some rc) controls e = ground (
    arith,
    eq_iff hash h,
    lookup-put h hash (run_deferred overflowed (call_of h) deferred_status d rc) controls,
  )

  run_on-in_flight :
      (h : String) (d : Deferred) (o : Option RateControl)
      → (in_flight_of (run_on overflowed (call_of h) d o) ≡ in_flight_of o - slots d.slot)
        × (is_sound_if o ≡ true → is_sound_if (run_on overflowed (call_of h) d o) ≡ true)
  run_on-in_flight h d none = ground arith
  run_on-in_flight h d (some rc) =
      ground (arith, run_deferred-in_flight overflowed (call_of h) d rc)

  run_opened_at-in_flight :
      (x : String × Deferred) (controls : Map RateControl)
      → (in_flight_at hash (run_opened_at overflowed call_of x controls)
          ≡ in_flight_at hash controls - held hash (x ∷ []))
        × (is_sound_at hash controls ≡ true
            → is_sound_at hash (run_opened_at overflowed call_of x controls) ≡ true)
  run_opened_at-in_flight (h, d) controls =
      rw (run_opened_at-lookup h d (lookup h controls) controls refl)
        (ground (arith, run_on-in_flight h d (lookup hash controls)))

  -- The deferred calls of a request give back what it holds.
  pub run_opened-in_flight :
      (ds : List (String × Deferred)) (controls : Map RateControl)
      → (in_flight_at hash (run_opened overflowed call_of ds controls)
          ≡ in_flight_at hash controls - held hash ds)
        × (is_sound_at hash controls ≡ true
            → is_sound_at hash (run_opened overflowed call_of ds controls) ≡ true)
  unfolding run_opened
  run_opened-in_flight [] controls = (omega arith, λ f. f)
  run_opened-in_flight ((h, d) ∷ ds) controls =
      let first = run_opened_at-in_flight (h, d) controls in
      let rest = run_opened-in_flight ds (run_opened_at overflowed call_of (h, d) controls) in
      (omega (arith, first.0, rest.0), λ f. rest.1 (first.1 f))
