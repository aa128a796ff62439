-- ===== src/Selector/Merge.antt =====
-- What a merged selector selects.
use controllermesh.Prelude.{
  String, [], ◌∷◌, none, some, Bool, ◌&&◌, is_some, ap, sym, if◌then◌else◌, ◌≡◌, refl, arith, all,
  ◌⊎◌, eq_iff,
}
use controllermesh.Prelude.Maps.{Map, lookup, put, put_all, lookup-put}
use controllermesh.Selector.{LabelSelector, merge_label_selector}
use controllermesh.Selector.Meaning.{
  Matching, label_selects, requirement_selects, selects, selects-parts, all-append,
}

-- The keys of a Go map are distinct.
abbrev pub DistinctKeys : Map String → Type 0
DistinctKeys [] = Unit
DistinctKeys ((k, v) ∷ n) = (lookup k n ≡ none) × DistinctKeys n

-- No label of `n` has another value in `m`.
abbrev pub Agrees : Map String → Map String → Type 0
Agrees [] m = Unit
Agrees ((k, v) ∷ n) m = ((lookup k m ≡ none) ⊎ (lookup k m ≡ some v)) × Agrees n m

Agrees-put :
    (k v : String) (n m : Map String) → lookup k n ≡ none → Agrees n m → Agrees n (put k v m)
Agrees-put k v [] m fresh a = tt
Agrees-put k v ((j, w) ∷ n) m fresh a =
    ground (arith, lookup-put k j v m, eq_iff j k, eq_iff k j, Agrees-put k v n m)

module _ (p : String × String → Bool) where
  all-put_new :
      (k v : String) (m : Map String)
      → lookup k m ≡ none
      → all p (put k v m) ≡ (p (k, v) && all p m)
  all-put_new k v [] h = refl
  all-put_new k v ((j, w) ∷ m) h = ground (arith, all-put_new k v m, eq_iff k j)

  all-put_old :
      (k v : String) (m : Map String)
      → lookup k m ≡ some v
      → all p (put k v m) ≡ (p (k, v) && all p m)
  all-put_old k v [] h = cc
  all-put_old k v ((j, w) ∷ m) h = ground (arith, all-put_old k v m, eq_iff k j)

  all-put_all :
      (n m : Map String) → DistinctKeys n → Agrees n m → all p (put_all n m) ≡ (all p n && all p m)
  all-put_all [] m d a = refl
  all-put_all ((k, v) ∷ n) m d a = ground (
    arith,
    all-put_all n (put k v m) d.1 (Agrees-put k v n m d.0 a.1),
    all-put_new k v m,
    all-put_old k v m,
  )

-- Where no label has two values, the merge of two selectors selects what both select.
pub merge-selects :
    (m : Matching) (ls : Map String) (a b : LabelSelector)
    → DistinctKeys b.match_labels
    → Agrees b.match_labels a.match_labels
    → selects m ls (merge_label_selector (some a) (some b))
      ≡ (selects m ls (some a) && selects m ls (some b))
unfolding merge_label_selector
merge-selects m ls a b d g =
    simp
      (
        selects-parts,
        all-append (requirement_selects m ls),
        all-put_all (label_selects m ls) b.match_labels a.match_labels d g,
      )
      (ground arith)

abbrev pub one_label : String → String → LabelSelector
one_label k v = record { match_labels = (k, v) ∷ []; match_expressions = [] }

-- The labels whose keys the second map does not have.
abbrev pub others_than : Map String → Map String → Map String
others_than n [] = []
others_than n ((k, v) ∷ m) =
    if is_some (lookup k n) then others_than n m else (k, v) ∷ others_than n m

abbrev pub without_labels_of : LabelSelector → LabelSelector → LabelSelector
without_labels_of b a = record a { match_labels = others_than b.match_labels a.match_labels }

others_than-nil : (m : Map String) → others_than [] m ≡ m
others_than-nil [] = refl
others_than-nil ((k, v) ∷ m) = ap (λ rest. (k, v) ∷ rest) (others_than-nil m)

others_than-absent :
    (k v : String) (n m : Map String)
    → lookup k m ≡ none
    → others_than ((k, v) ∷ n) m ≡ others_than n m
others_than-absent k v n [] h = refl
others_than-absent k v n ((j, w) ∷ m) h =
    ground (arith, others_than-absent k v n m, eq_iff j k, eq_iff k j)

put-DistinctKeys : (k v : String) (m : Map String) → DistinctKeys m → DistinctKeys (put k v m)
put-DistinctKeys k v [] d = (refl, tt)
put-DistinctKeys k v ((j, w) ∷ m) d =
    let rest = put-DistinctKeys k v m d.1 in
    ground (arith, d.0, rest, lookup-put k j v m, eq_iff k j, eq_iff j k)

module _ (p : String × String → Bool) where
  all-others_put :
      (k v : String) (n m : Map String)
      → lookup k n ≡ none
      → DistinctKeys m
      → all p (others_than n (put k v m)) ≡ (p (k, v) && all p (others_than ((k, v) ∷ n) m))
  all-others_put k v n [] f d = ground arith
  all-others_put k v n ((j, w) ∷ m) f d =
      ground (
        arith,
        d.0,
        all-others_put k v n m f d.1,
        others_than-absent k v n m,
        eq_iff k j,
        eq_iff j k,
      )

  all-put_any :
      (n m : Map String)
      → DistinctKeys n
      → DistinctKeys m
      → all p (put_all n m) ≡ (all p n && all p (others_than n m))
  all-put_any [] m d e = ap (all p) (sym (others_than-nil m))
  all-put_any ((k, v) ∷ n) m d e = ground (
    arith,
    all-put_any n (put k v m) d.1 (put-DistinctKeys k v m e),
    all-others_put k v n m d.0 e,
  )

-- For any two selectors, each with distinct keys: their merge selects what the second one selects and
-- the first one without the labels of the second one's keys. Where a key has two values, the first
-- one's condition on it is lost.
pub merge-overrides :
    (m : Matching) (ls : Map String) (a b : LabelSelector)
    → DistinctKeys a.match_labels
    → DistinctKeys b.match_labels
    → selects m ls (merge_label_selector (some a) (some b))
      ≡ (selects m ls (some (without_labels_of b a)) && selects m ls (some b))
unfolding merge_label_selector
merge-overrides m ls a b d e =
    simp
      (
        selects-parts,
        all-append (requirement_selects m ls),
        all-put_any (label_selects m ls) b.match_labels a.match_labels e d,
      )
      (ground arith)
