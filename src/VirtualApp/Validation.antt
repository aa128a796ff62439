-- ===== src/VirtualApp/Validation.antt =====
-- webhook/virtualapp/virtualapp_validating_handler.go: which VirtualApps are admitted. Of the
-- vendored and library code that it calls, `as_selector` is metav1.LabelSelectorAsSelector (`none`
-- is an error, and the Boolean tells whether the selector is empty), `compiles` is regexp.Compile
-- with no error, and `deep_equal` is reflect.DeepEqual on selectors.
pub mod Checks
pub mod Accepted
pub mod Panics
use controllermesh.Prelude.{
  String, List, [], ◌∷◌, Option, none, some, Bool, true, false, not, ◌&&◌, ◌||◌, ◌==◌, has, insert,
  is_some, nonempty, if◌then◌else◌,
}
use controllermesh.Prelude.Int.{is_positive}
use controllermesh.Prelude.Results.{Result, ok, err, panic, ◌>>=◌, ◌>>◌, fail_if}
use controllermesh.Selector.{LabelSelector}
use controllermesh.VirtualApp.{
  VirtualApp, MatchLimitSelector, SubRule, Subset, Route, Configuration, ControllerConfiguration,
  WebhookConfiguration,
}

-- The error returns, in the order of the code.
pub data Error : Type 0 where
  invalid_selector empty_selector no_configuration empty_election_name empty_cert_dir bad_port :
      Error
  bad_namespace_selector bad_namespace_regex bad_object_selector empty_limit ambiguous_limit : Error
  object_selector_without_resources empty_rule_name duplicated_rule rule_without_match : Error
  empty_subset_name duplicated_subset subset_without_labels subset_without_rules : Error
  missing_rule rule_used_twice selector_modified : Error

module _ (as_selector : Option LabelSelector → Option Bool) (compiles : String → Bool) where
  abbrev pub is_selector : Option LabelSelector → Bool
  is_selector s = is_some (as_selector s)

  abbrev pub regex_compiles : Option String → Bool
  regex_compiles none = true
  regex_compiles (some r) = compiles r

  -- The switch.
  abbrev parse_limit : MatchLimitSelector → Result Error Unit
  parse_limit m =
      if is_some m.namespace_selector
      then fail_if (not (is_selector m.namespace_selector)) bad_namespace_selector
      else if is_some m.namespace_regex
      then fail_if (not (regex_compiles m.namespace_regex)) bad_namespace_regex
      else if is_some m.object_selector
      then fail_if (not (is_selector m.object_selector)) bad_object_selector
      else err empty_limit

  unfoldable pub validate_match_limit_selector : MatchLimitSelector → Result Error Unit
  validate_match_limit_selector m = do
    parse_limit m
    fail_if
        (is_some m.namespace_selector && is_some m.namespace_regex
          || is_some m.object_selector && is_some m.namespace_regex
          || is_some m.namespace_selector && is_some m.object_selector)
        ambiguous_limit
    fail_if (is_some m.object_selector && not (is_some m.resources))
        object_selector_without_resources

  unfoldable pub validate_limits : List MatchLimitSelector → Result Error Unit
  unfolding validate_match_limit_selector
  validate_limits [] = ok tt
  validate_limits (m ∷ ms) = validate_match_limit_selector m >> validate_limits ms

  -- The loop over the sub-rules; it returns the set of their names.
  unfoldable pub validate_sub_rules : List SubRule → List String → Result Error (List String)
  unfolding validate_limits
  validate_sub_rules [] sub_rules = ok sub_rules
  validate_sub_rules (r ∷ rs) sub_rules =
      fail_if (r.name == "") empty_rule_name
      >> fail_if (has r.name sub_rules) duplicated_rule
      >> fail_if (not (nonempty r.match_limits)) rule_without_match
      >> validate_limits r.match_limits
      >> validate_sub_rules rs (insert r.name sub_rules)

  unfoldable pub validate_route : Option Route → Result Error (List String)
  unfolding validate_sub_rules
  validate_route none = ok []
  validate_route (some route) =
      validate_limits route.global_limits >> validate_sub_rules route.sub_rules []

  -- The loop over the rule names of one subset; it returns usedRules.
  unfoldable pub validate_rule_names :
      List String → List String → List String → Result Error (List String)
  validate_rule_names sub_rules [] used = ok used
  validate_rule_names sub_rules (name ∷ names) used =
      fail_if (not (has name sub_rules)) missing_rule
      >> fail_if (has name used) rule_used_twice
      >> validate_rule_names sub_rules names (insert name used)

  unfoldable pub validate_subsets :
      List String → List Subset → List String → List String → Result Error Unit
  unfolding validate_rule_names
  validate_subsets sub_rules [] subsets used = ok tt
  validate_subsets sub_rules (s ∷ ss) subsets used =
      fail_if (s.name == "") empty_subset_name
      >> fail_if (has s.name subsets) duplicated_subset
      >> fail_if (not (nonempty s.labels)) subset_without_labels
      >> fail_if (not (nonempty s.route_rules)) subset_without_rules
      >> (validate_rule_names sub_rules s.route_rules used >>= λ used'.
          validate_subsets sub_rules ss (insert s.name subsets) used')

  abbrev validate_controller : Option ControllerConfiguration → Result Error Unit
  validate_controller none = ok tt
  validate_controller (some c) = fail_if (c.leader_election_name == "") empty_election_name

  abbrev validate_webhook : Option WebhookConfiguration → Result Error Unit
  validate_webhook none = ok tt
  validate_webhook (some w) =
      fail_if (w.cert_dir == "") empty_cert_dir >> fail_if (not (is_positive w.port)) bad_port

  -- `obj.Spec.Configuration.Controller` and `.Webhook` are read through a pointer that may be nil.
  unfoldable pub validate_configuration : List Subset → Option Configuration → Result Error Unit
  validate_configuration subsets none = panic
  validate_configuration subsets (some c) = do
    fail_if (nonempty subsets && not (is_some c.controller) && not (is_some c.webhook))
        no_configuration
    validate_controller c.controller
    validate_webhook c.webhook

  abbrev pub validate_selector : Option LabelSelector → Result Error Unit
  validate_selector s = elim (as_selector s) [
    | none ↦ err invalid_selector
    | some is_empty ↦ fail_if is_empty empty_selector
  ]

  unfoldable pub validate : VirtualApp → Result Error Unit
  unfolding validate_configuration validate_route validate_subsets
  validate obj = do
    validate_selector obj.spec.selector
    validate_configuration obj.spec.subsets obj.spec.configuration
    sub_rules ← validate_route obj.spec.route
    validate_subsets sub_rules obj.spec.subsets [] []

  module _ (deep_equal : Option LabelSelector → Option LabelSelector → Bool) where
    unfoldable pub validate_update : VirtualApp → VirtualApp → Result Error Unit
    validate_update obj old_obj =
        fail_if (not (deep_equal obj.spec.selector old_obj.spec.selector)) selector_modified

    -- What the decoder makes of the request: `none` is a decoding error.
    pub record Request : Type 0 where
      pub object : Option VirtualApp
      pub is_update : Bool
      pub old_object : Option VirtualApp

    -- admission.Response: allowed, or denied with a code; or the handler panicked
    pub data Response : Type 0 where
      allowed bad_request unprocessable panicked : Response

    abbrev respond : Result Error Unit → Response → Response
    respond (ok _) next = next
    respond (err _) next = unprocessable
    respond panic next = panicked

    abbrev handle_update : VirtualApp → Option VirtualApp → Response
    handle_update obj none = bad_request
    handle_update obj (some old) = respond (validate_update obj old) allowed

    unfoldable pub handle : Request → Response
    unfolding validate validate_update
    handle req = elim req.object [
      | none ↦ bad_request
      | some obj ↦
          respond (validate obj)
            (if req.is_update then handle_update obj req.old_object else allowed)
    ]
