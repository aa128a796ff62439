-- ===== src/Examples/Requests.antt =====
-- An admission review that is forwarded, and a query that a selector is written into.
use controllermesh.Prelude.{String, [], ◌∷◌, none, some, true, ◌≡◌, refl, arith, eq_refl}
use controllermesh.Prelude.Maps.{Map, lookup, delete, lookup-delete}
use controllermesh.Prelude.Texts.{split_at}
use controllermesh.Selector.{
  empty_selector, requirements, new_requirement, equals, merge_label_selector,
  validated_label_selector_as_selector,
}
use controllermesh.Selector.Merge.{one_label}
use controllermesh.Query.{QueryWorld, parse_raw_query, inject_selector}
use controllermesh.Query.Injected.{is_distinct, Documented, read_key, inject_selector-reads}
use controllermesh.Webhook.{Review, body, serve_webhook}
use controllermesh.Webhook.Dials.{is_answer, cache_after, serve_webhook-dials}
use controllermesh.Examples.{pods, proxy}

-- A review of a pod of the namespace of the subset "b".
abbrev review : Review
review =
    body "application/json"
      (some (some (record { uid = "u1"; namespace = "n2"; group_resource = pods })))

serve_webhook-dials_example :
    is_answer
      (proxy "a")
      review
      (serve_webhook (proxy "a") (cache_after ((proxy "a", review) ∷ [])) review).0
    ≡ true
serve_webhook-dials_example = serve_webhook-dials ((proxy "a", review) ∷ []) (proxy "a") review

-- Each key once, with its first value.
abbrev each_once : Map String → Map String
each_once [] = []
each_once ((k, v) ∷ m) = (k, v) ∷ delete k (each_once m)

lookup-each_once : (m : Map String) (k : String) → lookup k (each_once m) ≡ lookup k m
lookup-each_once [] k = refl
lookup-each_once ((j, v) ∷ m) k =
    ground (arith, lookup-each_once m k, lookup-delete j k (each_once m))

delete-is_distinct :
    (k : String) (m : Map String) → is_distinct m ≡ true → is_distinct (delete k m) ≡ true
delete-is_distinct k [] d = refl
delete-is_distinct k ((j, v) ∷ m) d = ground (arith, d, delete-is_distinct k m, lookup-delete k j m)

each_once-is_distinct : (m : Map String) → is_distinct (each_once m) ≡ true
each_once-is_distinct [] = refl
each_once-is_distinct ((k, v) ∷ m) = ground (
  arith,
  eq_refl k,
  lookup-delete k k (each_once m),
  delete-is_distinct k (each_once m) (each_once-is_distinct m),
)

abbrev world : QueryWorld
world = record {
  escape = λ s. "team";
  unescape = λ s. some s;
  parse_selector = λ s. some empty_selector;
  selector_text = λ s. "team";
  order = each_once;
}

documented : Documented world
documented = record {
  escaped = λ s. refl;
  ordered = lookup-each_once;
  once = each_once-is_distinct;
}

reads_limit : parse_raw_query "limit=1" ≡ some (("limit", "1") ∷ [])
unfolding parse_raw_query split_at
reads_limit = refl

compiles :
    validated_label_selector_as_selector (merge_label_selector (some (one_label "team" "x")) none)
    ≡ some (requirements (new_requirement "team" equals ("x" ∷ []) ∷ []))
unfolding validated_label_selector_as_selector merge_label_selector
compiles = refl

inject_selector-reads_example :
    read_key world "limit" (inject_selector world "limit=1" (one_label "team" "x")) ≡ some "1"
inject_selector-reads_example =
    inject_selector-reads world "limit=1" (one_label "team" "x") (("limit", "1") ∷ []) none
      (requirements (new_requirement "team" equals ("x" ∷ []) ∷ [])) "limit" documented reads_limit
      refl compiles
