-- ===== src/ApiServer.antt =====
-- proxy/apiserver/apiserver_handler.go: the way of a request through a proxy, and the handling of a
-- list's response by listHandler of proxy/apiserver/router/router.go.
pub mod Agents
pub mod Lists
use controllermesh.Prelude.{
  ℕ, String, List, [], ◌∷◌, Option, none, some, Bool, true, false, not, ◌&&◌, ◌||◌, ◌==◌, has, leb,
  if◌then◌else◌,
}
use controllermesh.Prelude.Texts.{concat_text, has_suffix}
use controllermesh.Selector.{LabelSelector}
use controllermesh.Route.{GroupResource, InternalSpec}
use controllermesh.RequestsStore.{ResourceRequest}
use controllermesh.Router.{
  RequestInfo, Discovery, accept, accept_list, accept_watch, refuse, route, Item, ListObject,
  filter_items,
}
use controllermesh.Router
use controllermesh.LeaderElection.{
  Kind, HttpRequest, LockRequest, ElectionHandler, Handled, ignored, rejected, handled, handle,
}

-- request.RequestInfo with the request; `info` is `none` where the context has none.
pub record ApiRequest : Type 0 where
  pub info : Option RequestInfo
  pub subresource : String
  pub name : String
  pub kind : Option Kind
  pub http : HttpRequest

-- Where a request goes: an error by its code, to the handler of upgrades, on to the API server with
-- the holder that its response reports, or with what the router does to its response.
pub data Passage : Type 0 where
  http_error : ℕ → Passage
  upgraded : Passage
  to_lock : HttpRequest → Option String → Passage
  to_server : HttpRequest → Router.Answer → Passage
  crashed : Passage

-- upgradeSubresources
abbrev pub is_upgrade : String → Bool
is_upgrade subresource = has subresource ("exec" ∷ ("attach" ∷ []))

unfoldable pub override_user_agent : String → String → String
override_user_agent override user_agent =
    if override == ""
    then user_agent
    else if has_suffix override "/"
    then concat_text override user_agent
    else override

abbrev pub lock_request_of : ApiRequest → RequestInfo → LockRequest
lock_request_of r info = record {
  is_resource_request = info.is_resource_request;
  subresource = r.subresource;
  namespace = info.namespace;
  verb = info.verb;
  name = r.name;
  kind = r.kind;
}

abbrev pub pass_answer :
    HttpRequest → Router.Answer × Option ResourceRequest → Passage × Option ResourceRequest
pass_answer http (refuse code, rr) = (http_error code, rr)
pass_answer http (Router.crashed, rr) = (crashed, rr)
pass_answer http (accept, rr) = (to_server http accept, rr)
pass_answer http (accept_list denied, rr) = (to_server http (accept_list denied), rr)
pass_answer http (accept_watch denied, rr) = (to_server http (accept_watch denied), rr)

-- `inject_ok`, `current` and `known` are what the router uses; the election handler is none
-- where no lock's name is set.
module _ (parse : String → Option String) (inject_ok : LabelSelector → Bool) (override : String)
    (election : Option ElectionHandler) where
  abbrev pub serve_handled :
      Option InternalSpec → Discovery → RequestInfo → Handled → Passage × Option ResourceRequest
  serve_handled current known info rejected = (http_error 400, none)
  serve_handled current known info (handled http holder) = (to_lock http holder, none)
  serve_handled current known info (ignored http) =
      pass_answer http (route inject_ok current info known)

  abbrev pub elect : ApiRequest → RequestInfo → Handled
  elect r info = elim election [
    | none ↦ ignored r.http
    | some h ↦ handle parse h (lock_request_of r info) r.http
  ]

  abbrev pub serve_info :
      Option InternalSpec → Discovery → ApiRequest → RequestInfo → Passage × Option ResourceRequest
  serve_info current known r info =
      if info.is_resource_request && is_upgrade r.subresource
      then (upgraded, none)
      else serve_handled current known info (elect r info)

  -- ServeHTTP up to the reverse proxy, with the request that the spec is released with.
  unfoldable pub serve_api :
      Option InternalSpec → Discovery → ApiRequest → Passage × Option ResourceRequest
  unfolding override_user_agent handle route
  serve_api current known r = elim r.info [
    | none ↦ (http_error 400, none)
    | some info ↦
        serve_info current known r
          (record info { user_agent = override_user_agent override info.user_agent })
  ]

-- The response to a list, by its parts: does a serializer take it, what is decoded (with a list, if
-- it is one), and the encoding of the object, with its items replaced where it is a list.
pub record ListResponse : Type 0 where
  pub status : ℕ
  pub serializer_ok : Bool
  pub decoded : Option (Option ListObject)
  pub encode : Option (List Item) → Option String

-- The body stays, the handler returns an error, or there is a new body.
pub data Rewritten : Type 0 where
  kept failed : Rewritten
  replaced : String → Rewritten

abbrev pub encoded_or_failed : Option String → Rewritten
encoded_or_failed none = failed
encoded_or_failed (some text) = replaced text

module _ (spec : InternalSpec) (gr : GroupResource) (denied : Bool) where
  abbrev pub rewrite_list :
      ListResponse → Option (Option ListObject) → Rewritten × Option ResourceRequest
  rewrite_list resp none = (failed, none)
  rewrite_list resp (some none) = (encoded_or_failed (resp.encode none), none)
  rewrite_list resp (some (some list)) =
      let (items, rr) = filter_items spec gr denied list in
      (encoded_or_failed (resp.encode (some items)), rr)

  -- `handle`, with the request that filterItems releases.
  unfoldable pub handle_list : ListResponse → Rewritten × Option ResourceRequest
  unfolding filter_items
  handle_list resp =
      if not (leb 200 resp.status) || not (leb resp.status 206)
      then (kept, none)
      else if not resp.serializer_ok
      then (failed, none)
      else rewrite_list resp resp.decoded
