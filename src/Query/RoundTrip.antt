-- ===== src/Query/RoundTrip.antt =====
-- Queries that are written and read again.
use controllermesh.Prelude.{
  String, [], ◌∷◌, some, Bool, true, false, ◌&&◌, ◌==◌, ◌≡◌, ◌≢◌, refl, sym, ap, ◌∙◌, arith, all,
  map, eq_iff,
}
use controllermesh.Prelude.Maps.{Map, put, put_all}
use controllermesh.Prelude.Texts.{concat_text, split_at}
use controllermesh.Query.{put_pairs, parse_raw_query, pair_text, marshal_from, marshal_raw_query}
use controllermesh.Query.Split.{is_free, split_at-free, split_at-append, is_free-append}
use text.Mathlib.TextLemmas.{append-nil, nil-append, append_assoc, append-eq-nil_iff}

-- Neither separator stands in the text.
abbrev pub is_plain : String → Bool
is_plain s = is_free "&" s && is_free "=" s

abbrev pub is_plain_pair : String × String → Bool
is_plain_pair (k, v) = is_plain k && is_plain v

pair_text-is_free :
    (kv : String × String) → is_plain_pair kv ≡ true → is_free "&" (pair_text kv) ≡ true
pair_text-is_free (k, v) p =
    ground (arith, p, is_free-append "&" k (concat_text "=" v), is_free-append "&" "=" v)

split_at-pair_text :
    (k v : String) → is_plain_pair (k, v) ≡ true → split_at "=" (pair_text (k, v)) ≡ k ∷ v ∷ []
split_at-pair_text k v p =
    split_at-append "=" k v (ground (arith, p))
    ∙ ap (λ l. k ∷ l) (split_at-free "=" v (ground (arith, p)))

pair_text-nonempty : (kv : String × String) → (pair_text kv == "") ≡ false
pair_text-nonempty (k, v) =
    let no : pair_text (k, v) ≢ "" =
      λ e. let dash = (append-eq-nil_iff.0 (append-eq-nil_iff.0 e).1).0 in cc in
    ground (arith, eq_iff (pair_text (k, v)) "", no)

-- What the loop writes behind the first pair.
abbrev rest_text : Map String → String
rest_text [] = ""
rest_text (kv ∷ m) = concat_text "&" (concat_text (pair_text kv) (rest_text m))

append-nonempty : (s t : String) → (s == "") ≡ false → (concat_text s t == "") ≡ false
append-nonempty s t n =
    let no : concat_text s t ≢ "" =
      λ e. let first = (append-eq-nil_iff.0 e).0 in ground (arith, n, eq_iff s "", first) in
    ground (arith, eq_iff (concat_text s t) "", no)

marshal_from-rest :
    (result : String) (m : Map String)
    → (result == "") ≡ false
    → marshal_from result m ≡ concat_text result (rest_text m)
marshal_from-rest result [] n = sym (append-nil result)
marshal_from-rest result (kv ∷ m) n = rw n (
    marshal_from-rest (concat_text result (concat_text "&" (pair_text kv))) m
      (append-nonempty result (concat_text "&" (pair_text kv)) n)
    ∙ append_assoc result (concat_text "&" (pair_text kv)) (rest_text m)
    ∙ ap (concat_text result) (append_assoc "&" (pair_text kv) (rest_text m)))

split_at-rest :
    (kv : String × String) (m : Map String)
    → all is_plain_pair (kv ∷ m) ≡ true
    → split_at "&" (concat_text (pair_text kv) (rest_text m)) ≡ map pair_text (kv ∷ m)
split_at-rest kv [] p =
    rw (append-nil (pair_text kv))
      (split_at-free "&" (pair_text kv) (pair_text-is_free kv (ground (arith, p))))
split_at-rest kv (kv' ∷ m) p =
    split_at-append "&" (pair_text kv) (concat_text (pair_text kv') (rest_text m))
      (pair_text-is_free kv (ground (arith, p)))
    ∙ ap (λ l. pair_text kv ∷ l) (split_at-rest kv' m (ground (arith, p)))

put_pairs-text :
    (m acc : Map String)
    → all is_plain_pair m ≡ true
    → put_pairs (map pair_text m) acc ≡ some (put_all m acc)
put_pairs-text [] acc p = refl
put_pairs-text ((k, v) ∷ m) acc p =
    rw (split_at-pair_text k v (ground (arith, p)))
      (put_pairs-text m (put k v acc) (ground (arith, p)))

pub parse-marshal :
    (m : Map String)
    → all is_plain_pair m ≡ true
    → parse_raw_query (marshal_raw_query m) ≡ some (put_all m [])
unfolding parse_raw_query marshal_raw_query
parse-marshal [] p = refl
parse-marshal (kv ∷ m) p =
    let whole =
      ap (λ t. marshal_from t m) (nil-append (pair_text kv))
      ∙ marshal_from-rest (pair_text kv) m (pair_text-nonempty kv) in
    rw
      (
        whole,
        append-nonempty (pair_text kv) (rest_text m) (pair_text-nonempty kv),
        split_at-rest kv m p,
      )
      (put_pairs-text (kv ∷ m) [] p)
