-- ===== src/Query.antt =====
-- The raw query of a request: util/http/request_util.go, and injectSelector of
-- proxy/apiserver/router/router.go, which writes the selector of a subset into it.
pub mod Split
pub mod RoundTrip
pub mod Injected
use controllermesh.Prelude.{
  String, List, [], ◌∷◌, Option, none, some, Bool, true, false, ◌==◌, if◌then◌else◌,
}
use controllermesh.Prelude.Maps.{Map, lookup, put}
use controllermesh.Prelude.Texts.{concat_text, split_at}
use controllermesh.Selector.{
  LabelSelector, Selector, merge_label_selector, validated_label_selector_as_selector, and_then,
}

-- A pair that is no pair of a key and a value is an error.
abbrev pub put_pair : List String → Map String → Option (Map String)
put_pair (k ∷ v ∷ []) m = some (put k v m)
put_pair _ m = none

abbrev pub put_pairs : List String → Map String → Option (Map String)
put_pairs [] m = some m
put_pairs (pair ∷ pairs) m = and_then (put_pair (split_at "=" pair) m) (put_pairs pairs)

-- `none` is an error.
unfoldable pub parse_raw_query : String → Option (Map String)
unfolding split_at
parse_raw_query raw = if raw == "" then some [] else put_pairs (split_at "&" raw) []

abbrev pub pair_text : String × String → String
pair_text (k, v) = concat_text k (concat_text "=" v)

-- The loop, by what is written so far.
abbrev pub marshal_from : String → Map String → String
marshal_from result [] = result
marshal_from result (kv ∷ m) =
    marshal_from
      (if result == ""
        then concat_text result (pair_text kv)
        else concat_text result (concat_text "&" (pair_text kv)))
      m

unfoldable pub marshal_raw_query : Map String → String
marshal_raw_query m = marshal_from "" m

abbrev pub label_selector_key : String
label_selector_key = "labelSelector"

-- What injectSelector uses of other packages: the escaping of queries, the parser and the text of
-- selectors, and the order in which Go ranges over a map.
pub record QueryWorld : Type 0 where
  pub escape : String → String
  pub unescape : String → Option String
  pub parse_selector : String → Option LabelSelector
  pub selector_text : Selector → String
  pub order : Map String → Map String

module _ (w : QueryWorld) where
  -- The selector of the client: none, an error, or the one of its query.
  abbrev pub old_selector : Option String → Option (Option LabelSelector)
  old_selector none = some none
  old_selector (some text) =
      and_then (w.unescape text) λ plain. and_then (w.parse_selector plain) λ sel. some (some sel)

  abbrev pub write_selector : Map String → Selector → String
  write_selector m sel =
      marshal_raw_query (w.order (put label_selector_key (w.escape (w.selector_text sel)) m))

  abbrev pub inject_into : LabelSelector → Map String → Option String
  inject_into sel m = and_then (old_selector (lookup label_selector_key m)) λ old.
      and_then (validated_label_selector_as_selector (merge_label_selector (some sel) old))
        λ s. some (write_selector m s)

  -- The new raw query, `none` for an error.
  unfoldable pub inject_selector : String → LabelSelector → Option String
  unfolding parse_raw_query marshal_raw_query merge_label_selector
      validated_label_selector_as_selector
  inject_selector raw sel = and_then (parse_raw_query raw) (inject_into sel)
