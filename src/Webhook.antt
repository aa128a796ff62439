-- ===== src/Webhook.antt =====
-- proxy/webhook/webhook_handler.go: what a proxy does about an admission review, and where it
-- forwards it to. A round tripper is the host that it dials, at the port of the webhook.
pub mod Dials
use controllermesh.Prelude.{
  ℕ, String, List, [], ◌∷◌, Option, none, some, Bool, true, false, not, ◌==◌, has, if◌then◌else◌,
}
use controllermesh.Prelude.Maps.{Map, lookup, put}
use controllermesh.Route.{GroupResource, InternalSpec}
use controllermesh.Router.{Admission, admit, ignore, redirect, no_endpoints, route_admission}

-- What the router reads of an admission request.
pub record AdmissionRequest : Type 0 where
  pub uid : String
  pub namespace : String
  pub group_resource : GroupResource

-- The body of the request: none, one that cannot be read, or one of a content type that decodes to a
-- review, if it does, with a request, if there is one.
pub data Review : Type 0 where
  no_body unreadable : Review
  body : String → Option (Option AdmissionRequest) → Review

-- What writeResponse writes; the UID of the response is never set.
pub record Reply : Type 0 where
  pub uid : String
  pub allowed : Bool
  pub code : ℕ

pub data Served : Type 0 where
  replied : Reply → Served
  forwarded : String → Served
  crashed : Served

abbrev pub errored : ℕ → Served
errored code = replied (record { uid = ""; allowed = false; code = code })

-- admission.Allowed("")
abbrev pub allowed_reply : Reply
allowed_reply = record { uid = ""; allowed = true; code = 200 }

-- The loop of getOneTripper.
abbrev pub first_cached : List String → Map String → Option String
first_cached [] cache = none
first_cached (host ∷ hosts) cache =
    let rest = first_cached hosts cache in
    elim (lookup host cache) [ none ↦ rest | some rt ↦ some rt ]

abbrev pub new_tripper : List String → Map String → Option (String × Map String)
new_tripper [] cache = none
new_tripper (host ∷ hosts) cache = some (host, put host host cache)

abbrev pub cached_or_new : List String → Map String → Option String → Option (String × Map String)
cached_or_new hosts cache none = new_tripper hosts cache
cached_or_new hosts cache (some rt) = some (rt, cache)

-- `none` is the panic at an empty list.
unfoldable pub get_one_tripper : List String → Map String → Option (String × Map String)
get_one_tripper hosts cache = cached_or_new hosts cache (first_cached hosts cache)

abbrev pub local_host : String
local_host = "127.0.0.1"

abbrev pub forward : Map String → Option (String × Map String) → Served × Map String
forward cache none = (crashed, cache)
forward cache (some (rt, cache')) = (forwarded rt, cache')

abbrev pub serve_routed : Map String → Admission → Served × Map String
serve_routed cache no_endpoints = (errored 404, cache)
serve_routed cache ignore = (replied allowed_reply, cache)
serve_routed cache (redirect hosts) = forward cache (get_one_tripper hosts cache)
serve_routed cache admit = forward cache (get_one_tripper (local_host ∷ []) cache)

abbrev pub serve_decoded :
    InternalSpec → Map String → Option (Option AdmissionRequest) → Served × Map String
serve_decoded spec cache none = (errored 400, cache)
serve_decoded spec cache (some none) = (errored 400, cache)
serve_decoded spec cache (some (some req)) =
    serve_routed cache (route_admission spec req.namespace req.group_resource)

-- ServeHTTP up to the reverse proxy.
unfoldable pub serve_webhook : InternalSpec → Map String → Review → Served × Map String
unfolding get_one_tripper route_admission
serve_webhook spec cache no_body = (errored 400, cache)
serve_webhook spec cache unreadable = (errored 400, cache)
serve_webhook spec cache (body content_type decoded) =
    if not (content_type == "application/json")
    then (errored 400, cache)
    else serve_decoded spec cache decoded
