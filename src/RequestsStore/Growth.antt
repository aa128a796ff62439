-- ===== src/RequestsStore/Growth.antt =====
-- What `add` records of a request.
use controllermesh.Prelude.{
  String, List, [], ◌∷◌, Option, none, some, Bool, false, ◌==◌, ◌≡◌, refl, arith, insert_all,
  difference, nonempty, eq_iff,
}
use controllermesh.Prelude.Maps.{Map, lookup, put}
use controllermesh.Selector.{LabelSelector}
use controllermesh.Route.{GroupResource}
use controllermesh.RequestsStore.{
  ResourceRequest, RequestsPack, add_user_agent, merge_record, add_record, add,
}

abbrev pub is_agent : String → Option String → Bool
is_agent ua none = false
is_agent ua (some x) = ua == x

abbrev pub passed_of : Option ResourceRequest → List String
passed_of none = []
passed_of (some r) = r.namespace_passed

abbrev pub denied_of : Option ResourceRequest → List String
denied_of none = []
denied_of (some r) = r.namespace_denied

-- The namespaces recorded as passed, or as denied, under a key.
abbrev pub passed_in : String → RequestsPack → List String
passed_in k pack = passed_of (lookup k pack.requests_by_gr)

abbrev pub denied_in : String → RequestsPack → List String
denied_in k pack = denied_of (lookup k pack.requests_by_gr)

abbrev pub selector_of : Option ResourceRequest → Option LabelSelector
selector_of none = none
selector_of (some r) = r.object_selector

-- The object selector recorded under a key.
abbrev pub selector_in : String → RequestsPack → Option LabelSelector
selector_in k pack = selector_of (lookup k pack.requests_by_gr)

abbrev request_or : ResourceRequest → Option ResourceRequest → ResourceRequest
request_or r none = r
request_or _ (some r) = r

abbrev agent_or : String → Option String → String
agent_or x none = x
agent_or _ (some x) = x

module _ (gr_string : GroupResource → String)
    (deep_equal : Option LabelSelector → Option LabelSelector → Bool) where
  put-lookup :
      (k : String) (r : ResourceRequest) (m : Map ResourceRequest)
      → lookup k m ≡ some r
      → put k r m ≡ m
  put-lookup k r [] e = ground arith
  put-lookup k r ((j, w) ∷ m) e = ground (arith, eq_iff k j, put-lookup k r m)

  insert_all-none : (d xs : List String) → nonempty d ≡ false → insert_all d xs ≡ xs
  insert_all-none [] xs e = refl
  insert_all-none (x ∷ d) xs e = ground arith

  merge_record-unchanged :
      (old req : ResourceRequest)
      → (merge_record gr_string deep_equal old req).1 ≡ false
      → (merge_record gr_string deep_equal old req).0 ≡ old
  unfolding merge_record
  merge_record-unchanged old req e = ground (
    arith,
    insert_all-none (difference req.namespace_passed old.namespace_passed) old.namespace_passed,
    insert_all-none (difference req.namespace_denied old.namespace_denied) old.namespace_denied,
  )

  add_record-unchanged :
      (req : ResourceRequest) (pack : RequestsPack)
      → (add_record gr_string deep_equal req pack).1 ≡ false
      → (add_record gr_string deep_equal req pack).0 ≡ pack
  unfolding add_record
  add_record-unchanged req pack e =
      let old = request_or req (lookup (gr_string req.gr) pack.requests_by_gr) in
      ground (
        arith,
        merge_record-unchanged old req,
        put-lookup (gr_string req.gr) old pack.requests_by_gr,
      )

  add_user_agent-unchanged :
      (req : ResourceRequest) (pack : RequestsPack)
      → (add_user_agent req pack).1 ≡ false
      → (add_user_agent req pack).0 ≡ pack
  unfolding add_user_agent
  add_user_agent-unchanged req pack e = ground arith

  -- When `add` writes nothing, the recorded decisions are those that were there.
  pub add-unchanged :
      (req : Option ResourceRequest) (pack : RequestsPack)
      → (add gr_string deep_equal req pack).1 ≡ false
      → (add gr_string deep_equal req pack).0 ≡ pack
  unfolding add
  add-unchanged none pack e = refl
  add-unchanged (some req) pack e =
      let mid = (add_user_agent req pack).0 in
      ground (arith, add_user_agent-unchanged req pack, add_record-unchanged req mid)
