-- ===== src/Webhook/Dials.antt =====
-- Where the webhook proxy forwards reviews to, whatever it has forwarded before.
use controllermesh.Prelude.{
  String, List, [], ◌∷◌, Option, none, some, Bool, true, false, not, ◌&&◌, ◌==◌, ◌≡◌, refl, arith,
  has, all, nonempty, nat_eq, eq_iff, eq_refl, if◌then◌else◌,
}
use controllermesh.Prelude.Maps.{Map, lookup, put}
use controllermesh.Route.{GroupResource, InternalSpec}
use controllermesh.Router.{Admission, admit, ignore, redirect, no_endpoints, route_admission}
use controllermesh.Webhook.{
  Review, no_body, unreadable, body, Served, replied, forwarded, crashed, first_cached,
  cached_or_new, get_one_tripper, local_host, forward, serve_routed, serve_webhook,
}

-- Every round tripper dials the host that it is kept for.
abbrev is_own : String × String → Bool
is_own (host, rt) = host == rt

abbrev is_faithful : Map String → Bool
is_faithful = all is_own

put-is_faithful :
    (host : String) (cache : Map String)
    → is_faithful cache ≡ true
    → is_faithful (put host host cache) ≡ true
put-is_faithful host [] f = ground (arith, eq_refl host)
put-is_faithful host ((k, v) ∷ cache) f =
    ground (arith, eq_refl host, eq_iff host k, f, put-is_faithful host cache)

abbrev is_for : String → Option String → Bool
is_for host none = true
is_for host (some rt) = host == rt

lookup-is_for :
    (host : String) (cache : Map String)
    → is_faithful cache ≡ true
    → is_for host (lookup host cache) ≡ true
lookup-is_for host [] f = refl
lookup-is_for host ((k, v) ∷ cache) f =
    ground (arith, eq_iff host k, eq_iff k v, eq_iff host v, f, lookup-is_for host cache)

-- A host of the list, if there is any.
abbrev is_among : List String → Option String → Bool
is_among hosts none = true
is_among hosts (some rt) = has rt hosts

first_cached-is_among :
    (hosts : List String) (cache : Map String)
    → is_faithful cache ≡ true
    → is_among hosts (first_cached hosts cache) ≡ true
first_cached-is_among [] cache f = refl
first_cached-is_among (host ∷ hosts) cache f =
    one (lookup host cache) (first_cached hosts cache) (lookup-is_for host cache f)
      (first_cached-is_among hosts cache f)
  where
    one :
        (o rest : Option String)
        → is_for host o ≡ true
        → is_among hosts rest ≡ true
        → is_among (host ∷ hosts) (elim o [ none ↦ rest | some rt ↦ some rt ]) ≡ true
    one none none p q = refl
    one none (some rt) p q = ground (arith, q)
    one (some rt) rest p q = ground (arith, eq_iff host rt, eq_iff rt host, p)

-- What a request gets by the decision of the router.
abbrev pub is_served : Admission → Served → Bool
is_served admit (forwarded host) = host == local_host
is_served (redirect hosts) (forwarded host) = has host hosts
is_served ignore (replied reply) = reply.allowed
is_served no_endpoints (replied reply) = not reply.allowed && nat_eq reply.code 404
is_served _ _ = false

abbrev forwards : List String → Served × Map String → Bool
forwards hosts (forwarded host, cache) = has host hosts && is_faithful cache
forwards hosts _ = false

tripper-forwards :
    (hosts : List String) (cache : Map String) (o : Option String)
    → nonempty hosts ≡ true
    → is_faithful cache ≡ true
    → is_among hosts o ≡ true
    → forwards hosts (forward cache (cached_or_new hosts cache o)) ≡ true
tripper-forwards [] cache o n f a = cc
tripper-forwards (host ∷ hosts) cache none n f a =
    ground (arith, eq_refl host, put-is_faithful host cache f)
tripper-forwards (host ∷ hosts) cache (some rt) n f a = ground (arith, a, f)

-- The answer fits the decision, and the cache stays faithful.
abbrev fits : Admission → Served × Map String → Bool
fits a (served, cache) = is_served a served && is_faithful cache

abbrev has_hosts : Admission → Bool
has_hosts (redirect hosts) = nonempty hosts
has_hosts _ = true

forwards-fits_redirect :
    (hosts : List String) (x : Served × Map String)
    → forwards hosts x ≡ true
    → fits (redirect hosts) x ≡ true
forwards-fits_redirect hosts (forwarded host, cache) p = p
forwards-fits_redirect hosts (replied r, cache) p = cc
forwards-fits_redirect hosts (crashed, cache) p = cc

forwards-fits_admit :
    (x : Served × Map String) → forwards (local_host ∷ []) x ≡ true → fits admit x ≡ true
forwards-fits_admit (forwarded host, cache) p = ground (arith, p)
forwards-fits_admit (replied r, cache) p = cc
forwards-fits_admit (crashed, cache) p = cc

serve_routed-fits :
    (a : Admission) (cache : Map String)
    → has_hosts a ≡ true
    → is_faithful cache ≡ true
    → fits a (serve_routed cache a) ≡ true
unfolding get_one_tripper
serve_routed-fits no_endpoints cache h f = ground (arith, f)
serve_routed-fits ignore cache h f = ground (arith, f)
serve_routed-fits admit cache h f =
    let hosts = local_host ∷ [] in
    forwards-fits_admit (forward cache (get_one_tripper hosts cache)) (
      tripper-forwards hosts cache (first_cached hosts cache) refl f
        (first_cached-is_among hosts cache f))
serve_routed-fits (redirect hosts) cache h f =
    forwards-fits_redirect hosts (forward cache (get_one_tripper hosts cache)) (
      tripper-forwards hosts cache (first_cached hosts cache) h f
        (first_cached-is_among hosts cache f))

route_admission-has_hosts :
    (spec : InternalSpec) (ns : String) (gr : GroupResource)
    → has_hosts (route_admission spec ns gr) ≡ true
unfolding route_admission
route_admission-has_hosts spec ns gr = ground arith

abbrev is_refused : Served → Bool
is_refused (replied reply) = not reply.allowed && nat_eq reply.code 400
is_refused _ = false

-- The answer to a review: by the router's decision where it is one of JSON with a request, and else
-- the error 400.
abbrev pub is_answer : InternalSpec → Review → Served → Bool
is_answer spec (body content_type (some (some req))) served =
    if content_type == "application/json"
    then is_served (route_admission spec req.namespace req.group_resource) served
    else is_refused served
is_answer spec _ served = is_refused served

serve_webhook-is_answer :
    (spec : InternalSpec) (cache : Map String) (r : Review)
    → is_faithful cache ≡ true
    → (is_answer spec r (serve_webhook spec cache r).0 ≡ true)
      × (is_faithful (serve_webhook spec cache r).1 ≡ true)
unfolding serve_webhook
serve_webhook-is_answer spec cache no_body f = (refl, f)
serve_webhook-is_answer spec cache unreadable f = (refl, f)
serve_webhook-is_answer spec cache (body t none) f = ground (arith, f)
serve_webhook-is_answer spec cache (body t (some none)) f = ground (arith, f)
serve_webhook-is_answer spec cache (body t (some (some req))) f =
    let a = route_admission spec req.namespace req.group_resource in
    ground (
      arith,
      f,
      serve_routed-fits a cache (route_admission-has_hosts spec req.namespace req.group_resource) f,
    )

-- The cache behind the reviews of a list, each with the spec that the proxy had then.
abbrev pub cache_after : List (InternalSpec × Review) → Map String
cache_after [] = (local_host, local_host) ∷ []
cache_after ((spec, r) ∷ rs) = (serve_webhook spec (cache_after rs) r).1

cache_after-is_faithful : (rs : List (InternalSpec × Review)) → is_faithful (cache_after rs) ≡ true
cache_after-is_faithful [] = refl
cache_after-is_faithful ((spec, r) ∷ rs) =
    (serve_webhook-is_answer spec (cache_after rs) r (cache_after-is_faithful rs)).1

-- Whatever reviews a proxy has served, with whatever specs: it forwards a review that its router
-- admits to its own pod, and one that the router redirects to one of the hosts of that decision, not
-- of an earlier one; it allows what the router ignores, and answers with an error, 404 where there is
-- no endpoint and 400 where there is no request of JSON, in all other cases.
pub serve_webhook-dials :
    (rs : List (InternalSpec × Review)) (spec : InternalSpec) (r : Review)
    → is_answer spec r (serve_webhook spec (cache_after rs) r).0 ≡ true
serve_webhook-dials rs spec r =
    (serve_webhook-is_answer spec (cache_after rs) r (cache_after-is_faithful rs)).0
