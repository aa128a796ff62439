-- ===== src/Selector.antt =====
-- util/selector.go: merging, negating and compiling label selectors. A Go map of labels is an
-- association list in the order in which a `range` over it visits the entries; a nil and an empty
-- map or slice are one value. `labels.Selector` is the data that `labels.NewSelector` collects.
pub mod Meaning
pub mod Merge
pub mod Negate
use controllermesh.Prelude.{
  String, List, [], ◌∷◌, ◌++◌, Option, none, some, nonempty, if◌then◌else◌, ◌||◌, map, Bool,
}
use controllermesh.Prelude.Maps.{Map, put_all}
use controllermesh.Prelude.Sorting.{text_lt, sort_stable}

-- metav1.LabelSelectorOperator, a text; `unknown` stands for any text but the four.
pub data Operator : Type 0 where
  in_op not_in exists does_not_exist unknown : Operator

-- metav1.LabelSelectorRequirement
pub record Requirement : Type 0 where
  pub key : String
  pub operator : Operator
  pub values : List String

-- metav1.LabelSelector
pub record LabelSelector : Type 0 where
  pub match_labels : Map String
  pub match_expressions : List Requirement

abbrev pub empty_selector : LabelSelector
empty_selector = record { match_labels = []; match_expressions = [] }

unfoldable pub merge_label_selector :
    Option LabelSelector → Option LabelSelector → Option LabelSelector
merge_label_selector sel_a none = sel_a
merge_label_selector none (some b) = some b
merge_label_selector (some a) (some b) = some (record {
  match_labels = put_all b.match_labels a.match_labels;
  match_expressions = a.match_expressions ++ b.match_expressions;
})

-- `unknown` becomes the empty operator, which is as unknown.
abbrev pub negate_operator : Operator → Operator
negate_operator in_op = not_in
negate_operator not_in = in_op
negate_operator exists = does_not_exist
negate_operator does_not_exist = exists
negate_operator unknown = unknown

abbrev pub not_in_label : String × String → Requirement
not_in_label (k, v) = record { key = k; operator = not_in; values = v ∷ [] }

abbrev pub negate_requirement : Requirement → Requirement
negate_requirement r = record r { operator = negate_operator r.operator }

abbrev key_less : Requirement → Requirement → Bool
key_less r s = text_lt r.key s.key

unfoldable pub negate_label_selector : Option LabelSelector → Option LabelSelector
negate_label_selector none = none
negate_label_selector (some sel) = some (record {
  match_labels = [];
  match_expressions =
      sort_stable key_less (map not_in_label sel.match_labels)
      ++ map negate_requirement sel.match_expressions;
})

-- selection.Operator, as far as it is used
pub data Selection : Type 0 where
  equals in_set not_in_set present absent : Selection

-- labels.Requirement, as `newRequirement` fills it: with no check of the key or the values
pub record LabelRequirement : Type 0 where
  pub key : String
  pub operator : Selection
  pub values : List String

-- labels.Selector: `labels.Nothing()`, or the requirements added to `labels.NewSelector()`.
-- `labels.Everything()` has no requirement.
pub data Selector : Type 0 where
  nothing : Selector
  requirements : List LabelRequirement → Selector

-- reflect and unsafe only set the fields
unfoldable pub new_requirement : String → Selection → List String → LabelRequirement
new_requirement key op vals = record { key = key; operator = op; values = vals }

abbrev pub selection_of : Operator → Option Selection
selection_of in_op = some in_set
selection_of not_in = some not_in_set
selection_of exists = some present
selection_of does_not_exist = some absent
selection_of unknown = none

abbrev pub label_requirements : Map String → List LabelRequirement
label_requirements [] = []
label_requirements ((k, v) ∷ m) = new_requirement k equals (v ∷ []) ∷ label_requirements m

abbrev pub and_then {ℓ κ} : {A : Type ℓ} {B : Type κ} → Option A → (A → Option B) → Option B
and_then none f = none
and_then (some a) f = f a

-- The loop over the expressions; `none` is the error return on an invalid operator.
abbrev pub expression_requirements : List Requirement → Option (List LabelRequirement)
expression_requirements [] = some []
expression_requirements (e ∷ es) = and_then (selection_of e.operator) λ op.
    and_then (expression_requirements es) λ rest. some (new_requirement e.key op e.values ∷ rest)

-- `none` is an error.
unfoldable pub validated_label_selector_as_selector : Option LabelSelector → Option Selector
unfolding new_requirement
validated_label_selector_as_selector none = some nothing
validated_label_selector_as_selector (some ps) =
    if nonempty ps.match_labels || nonempty ps.match_expressions
    then and_then (expression_requirements ps.match_expressions)
        (λ es. some (requirements (label_requirements ps.match_labels ++ es)))
    else some (requirements [])
