-- ===== src/ApiServer/Agents.antt =====
-- The user agents that a proxy decides by.
use controllermesh.Prelude.{String, Option, some, Bool, false, ◌==◌, ◌≡◌, ap, arith}
use controllermesh.Prelude.Texts.{has_suffix}
use controllermesh.Selector.{LabelSelector}
use controllermesh.Route.{InternalSpec}
use controllermesh.Router.{RequestInfo, Discovery}
use controllermesh.LeaderElection.{ElectionHandler}
use controllermesh.ApiServer.{ApiRequest, override_user_agent, serve_info, serve_api}

override_user_agent-same :
    (override ua ua' : String)
    → (override == "") ≡ false
    → has_suffix override "/" ≡ false
    → override_user_agent override ua ≡ override_user_agent override ua'
unfolding override_user_agent
override_user_agent-same override ua ua' e n = ground (arith, e, n)

-- With an override that is no prefix, the user agent of a request makes no difference to where it
-- goes, nor to what is recorded of it.
pub serve_api-overridden :
    (parse : String → Option String) (inject_ok : LabelSelector → Bool) (override : String)
    (election : Option ElectionHandler) (current : Option InternalSpec) (known : Discovery)
    (r : ApiRequest) (info : RequestInfo) (ua : String)
    → (override == "") ≡ false
    → has_suffix override "/" ≡ false
    → serve_api parse inject_ok override election current known (record r { info = some info })
      ≡ serve_api parse inject_ok override election current known
          (record r { info = some (record info { user_agent = ua }) })
unfolding serve_api
serve_api-overridden parse inject_ok override election current known r info ua e n =
    ap
      (λ agent.
        serve_info parse inject_ok override election current known r
          (record info { user_agent = agent }))
      (override_user_agent-same override info.user_agent ua e n)
