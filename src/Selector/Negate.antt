-- ===== src/Selector/Negate.antt =====
-- What a negated selector selects.
use controllermesh.Prelude.{
  String, List, [], ◌∷◌, some, Bool, not, ◌&&◌, ◌≡◌, refl, arith, all, map,
}
use controllermesh.Prelude.Maps.{Map}
use controllermesh.Prelude.Sorting.{insert_sorted, sort_stable}
use controllermesh.Selector.{
  Operator, unknown, in_op, not_in, exists, does_not_exist, Requirement, LabelSelector,
  negate_label_selector, negate_requirement, not_in_label, key_less,
}
use controllermesh.Selector.Meaning.{
  Matching, label_selects, requirement_selects, selects, selects-parts, all-append,
}

module _ {ℓ} {A : Type ℓ} (less : A → A → Bool) (p : A → Bool) where
  all-insert_sorted : (x : A) (xs : List A) → all p (insert_sorted less x xs) ≡ (p x && all p xs)
  all-insert_sorted x [] = refl
  all-insert_sorted x (y ∷ ys) = ground (arith, all-insert_sorted x ys)

  all-sort_stable : (xs : List A) → all p (sort_stable less xs) ≡ all p xs
  all-sort_stable [] = refl
  all-sort_stable (x ∷ xs) =
      ground (arith, all-insert_sorted x (sort_stable less xs), all-sort_stable xs)

-- Every operator is one of the four that Kubernetes defines.
abbrev pub IsKnown : Operator → Type 0
IsKnown unknown = ⊥
IsKnown _ = Unit

abbrev pub AllKnown : List Requirement → Type 0
AllKnown [] = Unit
AllKnown (r ∷ rs) = IsKnown r.operator × AllKnown rs

module _ (m : Matching) (ls : Map String) where
  negated_operator-selects :
      (k : String) (op : Operator) (vs : List String)
      → IsKnown op
      → requirement_selects m ls
          (negate_requirement (record { key = k; operator = op; values = vs }))
        ≡ not (requirement_selects m ls (record { key = k; operator = op; values = vs }))
  negated_operator-selects k in_op vs h = m.not_in_complements k vs ls
  negated_operator-selects k not_in vs h = ground (arith, m.not_in_complements k vs ls)
  negated_operator-selects k exists vs h = m.absent_complements k vs ls
  negated_operator-selects k does_not_exist vs h = ground (arith, m.absent_complements k vs ls)
  negated_operator-selects k unknown vs h = absurd h

  negated_labels-select :
      (ms : Map String)
      → all (requirement_selects m ls) (map not_in_label ms)
        ≡ all (λ kv. not (label_selects m ls kv)) ms
  negated_labels-select [] = refl
  negated_labels-select ((k, v) ∷ ms) =
      ground
        (arith, negated_labels-select ms, m.not_in_complements k (v ∷ []) ls, m.equals_in k v ls)

  negated_expressions-select :
      (es : List Requirement)
      → AllKnown es
      → all (requirement_selects m ls) (map negate_requirement es)
        ≡ all (λ e. not (requirement_selects m ls e)) es
  negated_expressions-select [] h = refl
  negated_expressions-select (e ∷ es) h = ground (
    arith,
    negated_expressions-select es h.1,
    negated_operator-selects e.key e.operator e.values h.0,
  )

  -- The negation of a selector whose operators are known selects the objects that meet none of
  -- its labels and expressions.
  pub negate-selects :
      (sel : LabelSelector)
      → AllKnown sel.match_expressions
      → selects m ls (negate_label_selector (some sel)) ≡ (
          all (λ kv. not (label_selects m ls kv)) sel.match_labels
          && all (λ e. not (requirement_selects m ls e)) sel.match_expressions)
  unfolding negate_label_selector
  negate-selects sel h = simp (
    selects-parts,
    all-append (requirement_selects m ls),
    all-sort_stable key_less (requirement_selects m ls),
    negated_labels-select sel.match_labels,
    negated_expressions-select sel.match_expressions h,
  )
