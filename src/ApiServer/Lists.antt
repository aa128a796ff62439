-- ===== src/ApiServer/Lists.antt =====
-- What a client gets for a list.
use controllermesh.Prelude.{[], some, Bool, true, ◌≡◌, ◌≤◌, arith, if◌then◌else◌}
use controllermesh.Route.{GroupResource, InternalSpec}
use controllermesh.Router.{ListObject}
use controllermesh.Router.Filter.{kept_items, filter_items-kept_items}
use controllermesh.ApiServer.{ListResponse, encoded_or_failed, handle_list}

-- The body of a list's response of a status from 200 to 206 that is decoded to a list is replaced by
-- the encoding of the list with the items that the proxy is to keep, none for a user agent that is
-- denied.
pub handle_list-kept_items :
    (spec : InternalSpec) (gr : GroupResource) (denied : Bool) (resp : ListResponse)
    (list : ListObject)
    → 200 ≤ resp.status
    → resp.status ≤ 206
    → resp.serializer_ok ≡ true
    → resp.decoded ≡ some (some list)
    → (handle_list spec gr denied resp).0
      ≡ encoded_or_failed (resp.encode (some (if denied then [] else kept_items spec gr list)))
unfolding handle_list
handle_list-kept_items spec gr denied resp list lo hi ok e =
    ground (arith, lo, hi, ok, e, filter_items-kept_items spec gr denied list)
