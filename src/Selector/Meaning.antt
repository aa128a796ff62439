-- ===== src/Selector/Meaning.antt =====
-- What a compiled selector selects. `labels.Requirement.Matches` is a vendored package's: a record
-- of the test and of the laws that its documentation gives.
use controllermesh.Prelude.{
  String, List, [], ◌∷◌, ◌++◌, Option, none, some, Bool, false, not, ◌&&◌, ◌≡◌, refl, arith, all,
}
use controllermesh.Prelude.Maps.{Map}
use controllermesh.Selector.{
  Operator, in_op, not_in, exists, does_not_exist, unknown, Requirement, LabelSelector, equals,
  in_set, not_in_set, present, absent, LabelRequirement, Selector, nothing, requirements,
  new_requirement, label_requirements, expression_requirements,
  validated_label_selector_as_selector, and_then,
}

pub record Matching : Type 0 where
  pub matches : LabelRequirement → Map String → Bool
  -- NotIn holds of an absent key too: it is the complement of In.
  pub not_in_complements :
      (k : String) (vs : List String) (ls : Map String)
      → matches (record { key = k; operator = not_in_set; values = vs }) ls
        ≡ not (matches (record { key = k; operator = in_set; values = vs }) ls)
  pub absent_complements :
      (k : String) (vs : List String) (ls : Map String)
      → matches (record { key = k; operator = absent; values = vs }) ls
        ≡ not (matches (record { key = k; operator = present; values = vs }) ls)
  -- Equals is In over its one value.
  pub equals_in :
      (k v : String) (ls : Map String)
      → matches (record { key = k; operator = equals; values = v ∷ [] }) ls
        ≡ matches (record { key = k; operator = in_set; values = v ∷ [] }) ls

pub all-append {ℓ} :
    {A : Type ℓ} (p : A → Bool) (xs ys : List A) → all p (xs ++ ys) ≡ (all p xs && all p ys)
all-append p [] ys = refl
all-append p (x ∷ xs) ys = ground (arith, all-append p xs ys)

module _ (m : Matching) (ls : Map String) where
  -- labels.Selector.Matches: every requirement matches.
  abbrev pub selector_matches : Selector → Bool
  selector_matches nothing = false
  selector_matches (requirements rs) = all (λ r. m.matches r ls) rs

  abbrev pub compiled_matches : Option Selector → Bool
  compiled_matches none = false
  compiled_matches (some s) = selector_matches s

  -- The use that the callers make of the compiled selector: an error selects nothing.
  abbrev pub selects : Option LabelSelector → Bool
  selects sel = compiled_matches (validated_label_selector_as_selector sel)

  -- The meaning of the parts, clause by clause.
  abbrev pub label_selects : String × String → Bool
  label_selects (k, v) = m.matches (record { key = k; operator = equals; values = v ∷ [] }) ls

  abbrev pub operator_selects : Operator → String → List String → Bool
  operator_selects in_op k vs = m.matches (record { key = k; operator = in_set; values = vs }) ls
  operator_selects not_in k vs =
      m.matches (record { key = k; operator = not_in_set; values = vs }) ls
  operator_selects exists k vs = m.matches (record { key = k; operator = present; values = vs }) ls
  operator_selects does_not_exist k vs =
      m.matches (record { key = k; operator = absent; values = vs }) ls
  operator_selects unknown k vs = false

  abbrev pub requirement_selects : Requirement → Bool
  requirement_selects r = operator_selects r.operator r.key r.values

  all-label_requirements :
      (ms : Map String) → all (λ r. m.matches r ls) (label_requirements ms) ≡ all label_selects ms
  unfolding new_requirement
  all-label_requirements [] = refl
  all-label_requirements ((k, v) ∷ ms) = ground (arith, all-label_requirements ms)

  abbrev expressions_match : Option (List LabelRequirement) → Bool
  expressions_match none = false
  expressions_match (some rs) = all (λ r. m.matches r ls) rs

  expression_requirements-selects :
      (es : List Requirement)
      → expressions_match (expression_requirements es) ≡ all requirement_selects es
  unfolding new_requirement
  expression_requirements-selects [] = refl
  expression_requirements-selects (e ∷ es) = ground (arith, expression_requirements-selects es)

  compile-parts :
      (ms : Map String) (r : Option (List LabelRequirement))
      → compiled_matches (and_then r (λ es. some (requirements (label_requirements ms ++ es))))
        ≡ (all label_selects ms && expressions_match r)
  compile-parts ms none = ground arith
  compile-parts ms (some es) = ground (
    arith,
    all-append (λ r. m.matches r ls) (label_requirements ms) es,
    all-label_requirements ms,
  )

  -- A compiled selector selects exactly what all of its labels and expressions select; an
  -- expression with an unknown operator makes it an error, which selects nothing.
  pub selects-parts :
      (sel : LabelSelector)
      → selects (some sel)
        ≡ (all label_selects sel.match_labels && all requirement_selects sel.match_expressions)
  unfolding validated_label_selector_as_selector
  selects-parts sel = ground (
    arith,
    compile-parts sel.match_labels (expression_requirements sel.match_expressions),
    expression_requirements-selects sel.match_expressions,
  )
