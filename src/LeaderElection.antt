-- ===== src/LeaderElection.antt =====
-- proxy/leaderelection/election_handler.go and adapter_util.go: the requests of a controller for its
-- lock, which its subset has one of its own of. LastReplace is of util/string.go.
pub mod Replace
pub mod Locks
pub mod Leader
use Prim.Native.String
use controllermesh.Prelude.{
  ℕ, zero, String, List, [], ◌∷◌, Option, none, some, Bool, true, false, not, ◌&&◌, ◌||◌, ◌==◌,
  is_some, nat_eq, if◌then◌else◌,
}
use controllermesh.Prelude.Texts.{concat_text, strip_prefix}
use controllermesh.Proto.{LeaderElectionState}
use controllermesh.SpecManager.{SpecManager, Env, update_leader_election}

-- The text with its last occurrence of `old` replaced, `none` where it has none.
unfoldable pub replace_in : String → String → String → Option String
replace_in String.[] old new = elim (strip_prefix old "") [
  | none ↦ none
  | some rest ↦ some (concat_text new rest)
]
replace_in (String.◌∷◌ c s) old new = elim (replace_in s old new) [
  | some replaced ↦ some (String.◌∷◌ c replaced)
  | none ↦ (elim (strip_prefix old (String.◌∷◌ c s)) [
    | none ↦ none
    | some rest ↦ some (concat_text new rest)
  ])
]

unfoldable pub last_replace : String → String → String → String
last_replace s old new = elim (replace_in s old new) [ none ↦ s | some replaced ↦ replaced ]

-- The three resources of locks: an object adapter for two, a lease adapter for the third.
pub data Kind : Type 0 where
  config_map endpoints lease : Kind

-- A decoded object: its name, its annotation with a record, and the holder of a lease's spec.
pub record Lock : Type 0 where
  pub name : String
  pub annotation : Option String
  pub holder_identity : Option String

-- The body of a request: as it came, with what decoding it gives, read and closed, or encoded anew.
pub data Body : Type 0 where
  unread : Option Lock → Body
  drained : Body
  encoded : Lock → Body

-- request.RequestInfo, with the kind of its group, version and resource, if it is of a lock.
pub record LockRequest : Type 0 where
  pub is_resource_request : Bool
  pub subresource : String
  pub namespace : String
  pub verb : String
  pub name : String
  pub kind : Option Kind

-- The parts of the http.Request that the handler reads or changes.
pub record HttpRequest : Type 0 where
  pub path : String
  pub body : Body

pub record ElectionHandler : Type 0 where
  pub namespace : String
  pub lock_name : String
  pub subset : String

-- The results of `Handle`: not handled, an error, and handled, with the identity that
-- modifyResponse reports, if there is one.
pub data Handled : Type 0 where
  ignored : HttpRequest → Handled
  rejected : Handled
  handled : HttpRequest → Option String → Handled

unfoldable pub set_subset_into_name : String → String → String
set_subset_into_name name subset = concat_text name (concat_text "---" subset)

-- `parse` is the holder that json.Unmarshal finds in a record.
module _ (parse : String → Option String) where
  abbrev pub holder_of_record : Option String → Option String
  holder_of_record none = none
  holder_of_record (some text) = elim (parse text) [ none ↦ some "" | some holder ↦ some holder ]

  -- GetHoldIdentity
  unfoldable pub get_hold_identity : Kind → Lock → Option String
  get_hold_identity config_map lock = holder_of_record lock.annotation
  get_hold_identity endpoints lock = holder_of_record lock.annotation
  get_hold_identity lease lock = lock.holder_identity

  -- DecodeFrom: what it gives.
  abbrev pub decode_from : Body → Option Lock
  decode_from (unread o) = o
  decode_from drained = none
  decode_from (encoded lock) = some lock

  abbrev pub encode_into : Lock → HttpRequest → HttpRequest
  encode_into lock r = record r { body = encoded lock }

  abbrev pub with_name : ElectionHandler → Lock → Lock
  with_name h lock =
      if h.subset == ""
      then lock
      else record lock { name = set_subset_into_name h.lock_name h.subset }

  -- The end of a case, by the holder.
  abbrev pub encode_held : Lock → HttpRequest → Option String → Handled
  encode_held lock r none = rejected
  encode_held lock r (some holder) = handled (encode_into lock r) (some holder)

  abbrev pub handle_create : ElectionHandler → Kind → HttpRequest → Option Lock → Handled
  handle_create h kind r none = rejected
  handle_create h kind r (some lock) =
      if not (lock.name == h.lock_name)
      then ignored (record r { body = drained })
      else encode_held (with_name h lock) r (get_hold_identity kind lock)

  abbrev pub handle_update : Kind → HttpRequest → Option Lock → Handled
  handle_update kind r none = rejected
  handle_update kind r (some lock) = encode_held lock r (get_hold_identity kind lock)

  abbrev pub handle_get : ElectionHandler → HttpRequest → Handled
  handle_get h r =
      if h.subset == ""
      then handled r none
      else handled
          (record r {
            path = last_replace r.path h.lock_name (set_subset_into_name h.lock_name h.subset);
          })
          none

  abbrev pub handle_verb : ElectionHandler → LockRequest → Kind → HttpRequest → Handled
  handle_verb h req kind r =
      if req.verb == "create"
      then handle_create h kind r (decode_from r.body)
      else if req.verb == "update"
      then handle_update kind r (decode_from r.body)
      else if req.verb == "get"
      then handle_get h r
      else ignored r

  unfoldable pub handle : ElectionHandler → LockRequest → HttpRequest → Handled
  unfolding get_hold_identity last_replace set_subset_into_name
  handle h req r =
      if not req.is_resource_request || not (req.subresource == "")
      then ignored r
      else if not (req.namespace == h.namespace)
      then ignored r
      else if not (req.verb == "create")
          && not (req.name == h.lock_name)
          && not (is_some (strip_prefix (concat_text h.lock_name "---") req.name))
      then ignored r
      else (elim req.kind [ none ↦ ignored r | some kind ↦ handle_verb h req kind r ])

-- modifyResponse at a response's status code
unfoldable pub modify_response : Env → Option String → ℕ → SpecManager → SpecManager
unfolding update_leader_election
modify_response env none status sm = sm
modify_response env (some identity) status sm =
    if nat_eq status 200
    then update_leader_election env (some (record { identity = identity; is_leader = true })) sm
    else sm
