-- ===== src/Query/Injected.antt =====
-- What injectSelector makes of a query.
use controllermesh.Prelude.{
  String, List, [], ◌∷◌, Option, none, some, Bool, true, not, ◌&&◌, ◌==◌, ◌≡◌, refl, ap, ◌∙◌, arith,
  all, is_some, eq_refl, eq_iff, if◌then◌else◌,
}
use controllermesh.Prelude.Maps.{Map, lookup, put, put_all, lookup-put}
use controllermesh.Prelude.Texts.{split_at}
use controllermesh.Selector.{
  LabelSelector, Selector, merge_label_selector, validated_label_selector_as_selector, and_then,
}
use controllermesh.Query.{
  put_pair, put_pairs, parse_raw_query, label_selector_key, QueryWorld, old_selector,
  write_selector, inject_into, inject_selector,
}
use controllermesh.Query.Split.{is_free, split_at-is_free, split_at-keeps_free}
use controllermesh.Query.RoundTrip.{is_plain, is_plain_pair, parse-marshal}

put-is_plain :
    (k v : String) (m : Map String)
    → is_plain_pair (k, v) ≡ true
    → all is_plain_pair m ≡ true
    → all is_plain_pair (put k v m) ≡ true
put-is_plain k v [] p q = ground (arith, p)
put-is_plain k v ((j, w) ∷ m) p q = ground (arith, p, q, put-is_plain k v m)

put_pair-is_plain :
    (pieces : List String) (m : Map String)
    → all (is_free "&") pieces ≡ true
    → all (is_free "=") pieces ≡ true
    → all is_plain_pair m ≡ true
    → (m' : Map String) → put_pair pieces m ≡ some m'
    → all is_plain_pair m' ≡ true
put_pair-is_plain [] m a b q m' e = cc
put_pair-is_plain (k ∷ []) m a b q m' e = cc
put_pair-is_plain (k ∷ v ∷ []) m a b q m' e = ground (arith, a, b, put-is_plain k v m, q, e)
put_pair-is_plain (k ∷ v ∷ x ∷ xs) m a b q m' e = cc

put_pair-then :
    (o : Option (Map String)) (pairs : List String) (m' : Map String)
    → and_then o (put_pairs pairs) ≡ some m'
    → ((n : Map String) → o ≡ some n → put_pairs pairs n ≡ some m' → all is_plain_pair m' ≡ true)
    → all is_plain_pair m' ≡ true
put_pair-then none pairs m' e next = cc
put_pair-then (some n) pairs m' e next = next n refl e

put_pairs-is_plain :
    (pairs : List String) (m : Map String)
    → all (is_free "&") pairs ≡ true
    → all is_plain_pair m ≡ true
    → (m' : Map String) → put_pairs pairs m ≡ some m'
    → all is_plain_pair m' ≡ true
put_pairs-is_plain [] m a q m' e = ground (arith, q, e)
put_pairs-is_plain (pair ∷ pairs) m a q m' e =
    put_pair-then (put_pair (split_at "=" pair) m) pairs m' e λ n p.
      put_pairs-is_plain pairs n (ground (arith, a))
        (put_pair-is_plain (split_at "=" pair) m
          (split_at-keeps_free "=" "&" pair (ground (arith, a))) (split_at-is_free "=" pair) q n p)
        m'

parse-is_plain :
    (raw : String) (m : Map String) → parse_raw_query raw ≡ some m → all is_plain_pair m ≡ true
unfolding parse_raw_query
parse-is_plain raw m e =
    ground (arith, e, put_pairs-is_plain (split_at "&" raw) [] (split_at-is_free "&" raw) refl m)

-- Each key stands once.
abbrev pub is_distinct : Map String → Bool
is_distinct [] = true
is_distinct ((k, v) ∷ m) = not (is_some (lookup k m)) && is_distinct m

lookup-put_all :
    (k : String) (n m : Map String)
    → is_distinct n ≡ true
    → lookup k (put_all n m) ≡ (if is_some (lookup k n) then lookup k n else lookup k m)
lookup-put_all k [] m d = refl
lookup-put_all k ((j, v) ∷ n) m d =
    lookup-put_all k n (put j v m) (ground (arith, d))
    ∙ ground (arith, d, lookup-put j k v m, eq_iff k j)

abbrev is_plain_at : String → Option String → Bool
is_plain_at k none = true
is_plain_at k (some v) = is_plain_pair (k, v)

plain-lookup :
    (k : String) (m : Map String) → all is_plain_pair m ≡ true → is_plain_at k (lookup k m) ≡ true
plain-lookup k [] p = refl
plain-lookup k ((j, v) ∷ m) p = ground (arith, p, eq_iff k j, plain-lookup k m)

lookups-plain :
    (n : Map String)
    → is_distinct n ≡ true
    → ((k : String) → is_plain_at k (lookup k n) ≡ true)
    → all is_plain_pair n ≡ true
lookups-plain [] d p = refl
lookups-plain ((j, v) ∷ n) d p =
    let first : is_plain_pair (j, v) ≡ true = ground (arith, p j, eq_refl j) in
    let rest = lookups-plain n (ground (arith, d)) (λ k. ground (arith, p k, d, eq_iff k j)) in
    ground (arith, first, rest)

module _ (w : QueryWorld) where
  -- What the documentation says: an escaped text has no separator, and a range over a map meets each
  -- entry once.
  pub record Documented : Type 0 where
    pub escaped : (s : String) → is_plain (w.escape s) ≡ true
    pub ordered : (m : Map String) (k : String) → lookup k (w.order m) ≡ lookup k m
    pub once : (m : Map String) → is_distinct (w.order m) ≡ true

  written :
      Documented
      → (m : Map String) → all is_plain_pair m ≡ true
      → (sel : Selector) (k : String)
      → (all is_plain_pair (w.order (put label_selector_key (w.escape (w.selector_text sel)) m))
          ≡ true)
        × (lookup k
              (put_all (w.order (put label_selector_key (w.escape (w.selector_text sel)) m)) [])
            ≡ (if k == label_selector_key
                then some (w.escape (w.selector_text sel))
                else lookup k m))
  written doc m p sel k =
      let text = w.escape (w.selector_text sel) in
      let key_plain : is_plain label_selector_key ≡ true = refl in
      let m' = put label_selector_key text m in
      let plain' =
        put-is_plain label_selector_key text m
          (ground (arith, key_plain, doc.escaped (w.selector_text sel))) p in
      (
        lookups-plain (w.order m') (doc.once m')
            (λ j. rw (doc.ordered m' j) (plain-lookup j m' plain')),
        lookup-put_all k (w.order m') [] (doc.once m')
            ∙ ground (arith, doc.ordered m' k, lookup-put label_selector_key k text m),
      )

  -- What a query that may be none has at a key.
  abbrev pub read_key : String → Option String → Option String
  read_key k raw = and_then raw λ text. and_then (parse_raw_query text) (lookup k)

  injected-reads :
      Documented
      → (m : Map String) → all is_plain_pair m ≡ true
      → (sel : Selector) (k : String)
      → read_key k (some (write_selector w m sel))
        ≡ (if k == label_selector_key then some (w.escape (w.selector_text sel)) else lookup k m)
  injected-reads doc m p sel k =
      let m' = w.order (put label_selector_key (w.escape (w.selector_text sel)) m) in
      let got = written doc m p sel k in
      ap (λ o. and_then o (lookup k)) (parse-marshal m' got.0) ∙ got.1

  -- With escaped texts that have no separator, and a range over a map that meets each entry once: of a
  -- query that can be read, whose label selector, if it has one, can be read too, and whose merged
  -- selector compiles, the query that the proxy sends instead has the merged selector, escaped, for
  -- its label selector, and all else as it was.
  pub inject_selector-reads :
      (raw : String) (sel : LabelSelector) (m : Map String) (old : Option LabelSelector)
      (s : Selector) (k : String)
      → Documented
      → parse_raw_query raw ≡ some m
      → old_selector w (lookup label_selector_key m) ≡ some old
      → validated_label_selector_as_selector (merge_label_selector (some sel) old) ≡ some s
      → read_key k (inject_selector w raw sel)
        ≡ (if k == label_selector_key then some (w.escape (w.selector_text s)) else lookup k m)
  unfolding inject_selector
  inject_selector-reads raw sel m old s k doc e o v =
      ap (λ x. read_key k (and_then x (inject_into w sel))) e
      ∙ ap
          (λ x. read_key k (
            and_then x λ old'.
              and_then (validated_label_selector_as_selector (merge_label_selector (some sel) old'))
                λ s'. some (write_selector w m s')))
          o
      ∙ ap (λ x. read_key k (and_then x λ s'. some (write_selector w m s'))) v
      ∙ injected-reads doc m (parse-is_plain raw m e) s k
