-- ===== src/Traffic/Filter/Reached.antt =====
-- The requests that traffic.go handles together: a step begins one or ends one.
use controllermesh.Prelude.{
  ℕ, ◌+◌, ◌≤◌, String, List, [], ◌∷◌, ◌++◌, Option, some, true, ◌≡◌, refl, sym, arith,
}
use controllermesh.Prelude.Maps.{Map, lookup}
use controllermesh.Traffic.{TrafficPolicy, RateLimitingPolicy}
use controllermesh.Traffic.Rules.{RequestInfo}
use controllermesh.Traffic.Rate.{RateControl, Deferred, Call}
use controllermesh.Traffic.Filter.{Round, first_round, serve_http, run_opened}
use controllermesh.Traffic.Filter.Slots.{
  held, held_by, in_flight_at, is_sound_at, Covers, serve_http-Covers, run_opened-in_flight,
}

-- The controls of a proxy, and the deferred calls of the requests that it handles.
pub record Handling : Type 0 where
  pub controls : Map RateControl
  pub requests : List (List (String × Deferred))

abbrev pub idle : Handling
idle = record { controls = []; requests = [] }

abbrev pub begun : Round → Handling → Handling
begun round s = record { controls = round.rate_controls; requests = round.opened ∷ s.requests }

-- The state where the request between two lists of others returns.
abbrev pub ended :
    ℕ
    → (String → Call)
    → List (List (String × Deferred))
    → List (String × Deferred)
    → List (List (String × Deferred))
    → Handling
    → Handling
ended overflowed call_of before ds after s = record {
  controls = run_opened overflowed call_of ds s.controls;
  requests = before ++ after;
}

-- What is not the filter's own, the time and the contents of the request, is any at each step.
pub data Step : Handling → Handling → Type 0 where
  begin :
      {s s' : Handling} (digest : RateLimitingPolicy → String) (call_of : String → Call)
      (info : Option RequestInfo) (policies : Option (List TrafficPolicy))
      → s' ≡ begun (serve_http digest call_of info policies s.controls).1 s
      → Step s s'
  end :
      {s s' : Handling} (overflowed : ℕ) (call_of : String → Call)
      (before after : List (List (String × Deferred))) (ds : List (String × Deferred))
      → s.requests ≡ before ++ (ds ∷ after)
      → s' ≡ ended overflowed call_of before ds after s
      → Step s s'

pub data Reached : Handling → Type 0 where
  start : {s : Handling} → s ≡ idle → Reached s
  next : {s s' : Handling} → Reached s → Step s s' → Reached s'

-- The invariant, of one control.
abbrev pub Covered : String → Handling → Type 0
Covered hash s =
    (held_by hash s.requests ≤ in_flight_at hash s.controls) × (is_sound_at hash s.controls ≡ true)

held_by-middle :
    (hash : String) (before after : List (List (String × Deferred))) (ds : List (String × Deferred))
    → held_by hash (before ++ (ds ∷ after)) ≡ held hash ds + held_by hash (before ++ after)
held_by-middle hash [] after ds = refl
held_by-middle hash (b ∷ bs) after ds = omega (arith, held_by-middle hash bs after ds)

begun-Covered :
    (hash : String) (round : Round) (s : Handling)
    → Covers hash (first_round s.controls) round
    → Covered hash s
    → Covered hash (begun round s)
begun-Covered hash round s c i = (omega (arith, c.0, i.0), c.1 i.1)

ended-Covered :
    (hash : String) (overflowed : ℕ) (call_of : String → Call)
    (before after : List (List (String × Deferred))) (ds : List (String × Deferred)) (s : Handling)
    → s.requests ≡ before ++ (ds ∷ after)
    → Covered hash s
    → Covered hash (ended overflowed call_of before ds after s)
ended-Covered hash overflowed call_of before after ds s e i =
    let r = run_opened-in_flight overflowed call_of hash ds s.controls in
    let before_end : held_by hash (before ++ (ds ∷ after)) ≤ in_flight_at hash s.controls =
      rw (sym e) i.0 in
    (omega (arith, r.0, before_end, held_by-middle hash before after ds), r.1 i.1)

Step-Covered : {s s' : Handling} (hash : String) → Step s s' → Covered hash s → Covered hash s'
Step-Covered {s} hash (begin digest call_of info policies e) i = rw e (
    begun-Covered hash (serve_http digest call_of info policies s.controls).1 s
      (serve_http-Covers digest call_of info policies s.controls hash) i)
Step-Covered {s} hash (end overflowed call_of before after ds e e') i =
    rw e' (ended-Covered hash overflowed call_of before after ds s e i)

Reached-Covered : {s : Handling} (hash : String) → Reached s → Covered hash s
Reached-Covered hash (start e) = rw e (omega arith, refl)
Reached-Covered hash (next r step) = Step-Covered hash step (Reached-Covered hash r)

-- In every state that steps reach, from a filter without controls, by requests that begin and end in
-- any order, each with its own policies, contents and time: of a control with a bound, the requests
-- that will still give back a slot are at most the elements of its channel, and these at most the
-- bound.
pub Reached-in_flight :
    (s : Handling) (hash : String) (rc : RateControl) (n : ℕ)
    → Reached s
    → lookup hash s.controls ≡ some rc
    → rc.policy.max_in_flight ≡ some n
    → (held_by hash s.requests ≤ rc.in_flight) × (rc.in_flight ≤ n)
Reached-in_flight s hash rc n r e b =
    let i = Reached-Covered hash r in ground (arith, i.0, i.1, e, b)
