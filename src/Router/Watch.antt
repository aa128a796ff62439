-- ===== src/Router/Watch.antt =====
-- The response of a watch: `Read` of watchHandler in proxy/apiserver/router/router.go, by which the
-- reverse proxy reads the events that are left of a stream. Decoding and encoding are arguments.
pub mod Complete
use controllermesh.Prelude.{
  ℕ, zero, suc, String, List, [], ◌∷◌, Option, none, some, Bool, true, false, leb, nonempty, length,
  if◌then◌else◌,
}
use controllermesh.Route.{GroupResource, InternalSpec}
use controllermesh.Router.{EventResult, as_it_is, bookmark, event_error, filter_event}

module _ {A : Type 0} where
  abbrev pub take : ℕ → List A → List A
  take zero xs = []
  take (suc n) [] = []
  take (suc n) (x ∷ xs) = x ∷ take n xs

  abbrev pub drop : ℕ → List A → List A
  drop zero xs = xs
  drop (suc n) [] = []
  drop (suc n) (x ∷ xs) = drop n xs

-- DecodeWatch: an error (io.EOF or the end of the request's context included), or an event with
-- what there is to say of its object: nothing for a nil object, and else the namespace, if
-- apimeta.Accessor takes the object.
pub data Decoding (E : Type 0) : Type 0 where
  undecoded : Decoding E
  decoded : E → Option (Option String) → Decoding E

-- EncodeWatch, `none` for an error, and `e.Type = watch.Bookmark`.
pub record Events (E : Type 0) : Type 0 where
  pub encode : E → Option (List ℕ)
  pub to_bookmark : E → E

module _ {E : Type 0} (ev : Events E) (spec : InternalSpec) (gr : GroupResource)
    (denied : Bool) where
  abbrev pub encode_filtered : E → EventResult → Option (List ℕ)
  encode_filtered e as_it_is = ev.encode e
  encode_filtered e bookmark = ev.encode (ev.to_bookmark e)
  encode_filtered e event_error = none

  -- `read`, of what DecodeWatch returns; the spec is the one that filterEvent acquires.
  unfoldable pub read_body : Decoding E → Option (List ℕ)
  unfolding filter_event
  read_body undecoded = none
  read_body (decoded e none) = ev.encode e
  read_body (decoded e (some meta)) = encode_filtered e (filter_event spec gr denied meta).0

  -- `h.remaining`, and what DecodeWatch returns from now on; behind the list, io.EOF.
  pub record Watch : Type 0 where
    pub remaining : List ℕ
    pub coming : List (Decoding E)

  -- The bytes in the buffer, or an error.
  abbrev pub cut_body : ℕ → List (Decoding E) → Option (List ℕ) → Option (List ℕ) × Watch
  cut_body n ds none = (none, record { remaining = []; coming = ds })
  cut_body n ds (some body) =
      if leb (length body) n
      then (some body, record { remaining = []; coming = ds })
      else (some (take n body), record { remaining = drop n body; coming = ds })

  abbrev pub read_coming : ℕ → List (Decoding E) → Option (List ℕ) × Watch
  read_coming n [] = cut_body n [] none
  read_coming n (d ∷ ds) = cut_body n ds (read_body d)

  -- Read with a buffer of `n` bytes.
  unfoldable pub read : ℕ → Watch → Option (List ℕ) × Watch
  unfolding read_body
  read n w =
      if nonempty w.remaining
      then if leb (length w.remaining) n
        then (some w.remaining, record w { remaining = [] })
        else (some (take n w.remaining), record w { remaining = drop n w.remaining })
      else read_coming n w.coming
