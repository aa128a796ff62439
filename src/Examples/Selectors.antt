-- ===== src/Examples/Selectors.antt =====
-- Label selectors, and the validation of a VirtualApp.
use controllermesh.Prelude.{
  String, [], ◌∷◌, Option, none, some, Bool, true, false, not, is_some, ◌≡◌, refl, inl, ◌&&◌, all,
}
use controllermesh.Prelude.Maps.{Map}
use controllermesh.Selector.{LabelSelector, in_op, merge_label_selector, negate_label_selector}
use controllermesh.Selector.Meaning.{selects, selects-parts, label_selects, requirement_selects}
use controllermesh.Selector.Merge.{one_label, merge-selects, merge-overrides, without_labels_of}
use controllermesh.Selector.Negate.{negate-selects}
use controllermesh.VirtualApp.Validation.{validate}
use controllermesh.VirtualApp.Validation.Accepted.{
  validate-is_well_formed, is_well_formed, selector_is_valid,
}
use controllermesh.VirtualApp.Validation.Panics.{is_panic, validate-panics}
use controllermesh.VirtualApp.Validation.Checks.{succeeds}
use controllermesh.Examples.{matching, v_app_with, configuration}

-- team=x, tier in (1, 2)
abbrev team_and_tier : LabelSelector
team_and_tier = record {
  match_labels = ("team", "x") ∷ [];
  match_expressions = record { key = "tier"; operator = in_op; values = "1" ∷ "2" ∷ [] } ∷ [];
}

abbrev labels : Map String
labels = ("team", "x") ∷ ("tier", "2") ∷ []

selects-parts_example : selects matching labels (some team_and_tier) ≡ (
    all (label_selects matching labels) team_and_tier.match_labels
    && all (requirement_selects matching labels) team_and_tier.match_expressions)
selects-parts_example = selects-parts matching labels team_and_tier

merge-selects_example :
    selects matching labels (merge_label_selector (some (one_label "app" "y")) (some team_and_tier))
    ≡ (selects matching labels (some (one_label "app" "y"))
        && selects matching labels (some team_and_tier))
merge-selects_example =
    merge-selects matching labels (one_label "app" "y") team_and_tier (refl, tt) (inl refl, tt)

-- app=y, team=z: another value of a label that the second selector has.
abbrev app_and_team : LabelSelector
app_and_team = record { match_labels = ("app", "y") ∷ ("team", "z") ∷ []; match_expressions = [] }

merge-overrides_example :
    selects matching labels (merge_label_selector (some app_and_team) (some team_and_tier)) ≡ (
      selects matching labels (some (without_labels_of team_and_tier app_and_team))
      && selects matching labels (some team_and_tier))
merge-overrides_example =
    merge-overrides matching labels app_and_team team_and_tier (refl, (refl, tt)) (refl, tt)

negate-selects_example : selects matching labels (negate_label_selector (some team_and_tier)) ≡ (
    all (λ kv. not (label_selects matching labels kv)) team_and_tier.match_labels
    && all (λ e. not (requirement_selects matching labels e)) team_and_tier.match_expressions)
negate-selects_example = negate-selects matching labels team_and_tier (tt, tt)

abbrev as_selector : Option LabelSelector → Option Bool
as_selector s = some false

abbrev compiles : String → Bool
compiles r = true

validate-is_well_formed_example :
    succeeds (validate as_selector compiles (v_app_with (some configuration)))
    ≡ is_well_formed as_selector compiles (v_app_with (some configuration))
validate-is_well_formed_example =
    validate-is_well_formed as_selector compiles (v_app_with (some configuration))

validate-panics_example : is_panic (validate as_selector compiles (v_app_with none)) ≡ (
    selector_is_valid as_selector compiles (v_app_with none).spec.selector
    && not (is_some (v_app_with none).spec.configuration))
validate-panics_example = validate-panics as_selector compiles (v_app_with none)
