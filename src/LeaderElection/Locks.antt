-- ===== src/LeaderElection/Locks.antt =====
-- The locks of the subsets of a controller: each is created, and read, as one of the subset's own.
use controllermesh.Prelude.{
  String, Option, none, some, true, ◌==◌, ◌≡◌, ◌≢◌, sym, ◌∙◌, arith, eq_refl, eq_iff, if◌then◌else◌,
}
use controllermesh.Prelude.Texts.{concat_text}
use controllermesh.LeaderElection.{
  Kind, Lock, Body, unread, encoded, LockRequest, ElectionHandler, handled, handle,
  set_subset_into_name, get_hold_identity,
}
use controllermesh.LeaderElection.Replace.{last_replace-append}
use text.Mathlib.TextLemmas.{append_cancel_left, append-nil, append-eq-nil_iff}

-- The name of a subset's lock.
abbrev pub own_name : ElectionHandler → String
own_name h = if h.subset == "" then h.lock_name else set_subset_into_name h.lock_name h.subset

set_subset_into_name-injective :
    (name s t : String) → set_subset_into_name name s ≡ set_subset_into_name name t → s ≡ t
unfolding set_subset_into_name
set_subset_into_name-injective name s t e =
    append_cancel_left "---" s t
      (append_cancel_left name (concat_text "---" s) (concat_text "---" t) e)

set_subset_into_name-other : (name s : String) → set_subset_into_name name s ≢ name
unfolding set_subset_into_name
set_subset_into_name-other name s e =
    let none_left = append_cancel_left name (concat_text "---" s) "" (e ∙ sym (append-nil name)) in
    let dashes = (append-eq-nil_iff.0 none_left).0 in cc

own_name-injective :
    (h h' : ElectionHandler)
    → h.lock_name ≡ h'.lock_name
    → own_name h ≡ own_name h'
    → h.subset ≡ h'.subset
own_name-injective h h' n e = ground (
  arith,
  eq_iff h.subset "",
  eq_iff h'.subset "",
  n,
  e,
  set_subset_into_name-injective h.lock_name h.subset h'.subset,
  set_subset_into_name-other h.lock_name h.subset,
  set_subset_into_name-other h.lock_name h'.subset,
)

-- The request of a controller for the lock of its name.
abbrev pub lock_request : ElectionHandler → String → Kind → LockRequest
lock_request h verb kind = record {
  is_resource_request = true;
  subresource = "";
  namespace = h.namespace;
  verb = verb;
  name = if verb == "create" then "" else h.lock_name;
  kind = some kind;
}

module _ (parse : String → Option String) (h : ElectionHandler) (kind : Kind) where
  get-own_name :
      (url : String) (body : Body)
      → handle parse h
          (lock_request h "get" kind)
          (record { path = concat_text url h.lock_name; body = body })
        ≡ handled (record { path = concat_text url (own_name h); body = body }) none
  unfolding handle
  get-own_name url body = ground (
    arith,
    eq_refl h.namespace,
    eq_refl h.lock_name,
    last_replace-append url h.lock_name (set_subset_into_name h.lock_name h.subset),
  )

  create-own_name :
      (path : String) (lock : Lock) (holder : String)
      → lock.name ≡ h.lock_name
      → get_hold_identity parse kind lock ≡ some holder
      → handle parse h
          (lock_request h "create" kind)
          (record { path = path; body = unread (some lock) })
        ≡ handled
            (record { path = path; body = encoded (record lock { name = own_name h }) })
            (some holder)
  unfolding handle
  create-own_name path lock holder n e =
      ground (arith, eq_refl h.namespace, n, eq_iff lock.name h.lock_name, e)

-- A controller that gets its lock, by a path that ends in the lock's name, gets the one of its subset,
-- and where it creates its lock, with a holder, it creates that one, whatever its kind is; two handlers of the same lock's name share
-- their own lock only where they are of the same subset.
pub handle-own_name :
    (parse : String → Option String) (h h' : ElectionHandler) (kind : Kind)
    (url path holder : String) (body : Body) (lock : Lock)
    → h.lock_name ≡ h'.lock_name
    → h.subset ≢ h'.subset
    → lock.name ≡ h.lock_name
    → get_hold_identity parse kind lock ≡ some holder
    → (handle parse h
          (lock_request h "get" kind)
          (record { path = concat_text url h.lock_name; body = body })
        ≡ handled (record { path = concat_text url (own_name h); body = body }) none)
      × (handle parse h
            (lock_request h "create" kind)
            (record { path = path; body = unread (some lock) })
          ≡ handled
              (record { path = path; body = encoded (record lock { name = own_name h }) })
              (some holder))
      × (own_name h ≢ own_name h')
handle-own_name parse h h' kind url path holder body lock n d e i = (
  get-own_name parse h kind url body,
  create-own_name parse h kind path lock holder e i,
  λ same. d (own_name-injective h h' n same),
)
