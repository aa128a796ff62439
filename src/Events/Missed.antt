-- ===== src/Events/Missed.antt =====
-- Changes of a namespace that are not put into the queue.
use controllermesh.Prelude.{
  String, List, [], ◌∷◌, ◌++◌, Option, none, some, Bool, true, false, ◌&&◌, ◌||◌, ◌==◌, ◌≡◌, refl,
  arith, any, map, select, ap, ap₂, sym, ◌∙◌, eq_refl, Bool-cases, inl, inr,
}
use controllermesh.Prelude.Maps.{Map, lookup, put}
use controllermesh.Selector.Meaning.{Matching}
use controllermesh.Kube.{Namespace}
use controllermesh.VirtualApp.{VirtualApp, MatchLimitSelector, SubRule, Route, Subset}
use controllermesh.Server.{
  SelectorJson, Rules, is_namespace_matched, matched_names, unmatched_names, add_rules,
  generate_match_limit_rules, rules_map, sub_rules_of, limits_of_rules, generate_subset_limits,
  generate_proto_route,
}
use controllermesh.Events.Alike.{Alike, active, active-Alike}
use controllermesh.Events.{
  Key, key_of, match_differs, route_differs, has_limits, get_sensitive_v_apps, namespace_update,
}

abbrev pub has_key : Key → List Key → Bool
has_key k [] = false
has_key k (j ∷ js) = k.namespace == j.namespace && k.name == j.name || has_key k js

any-append :
    (p : MatchLimitSelector → Bool) (xs ys : List MatchLimitSelector)
    → any p xs ≡ false
    → any p ys ≡ false
    → any p (xs ++ ys) ≡ false
any-append p [] ys h k = k
any-append p (x ∷ xs) ys h k = ground (arith, any-append p xs ys)

abbrev RuleMap : Type 0
RuleMap = Map (List MatchLimitSelector)

-- Some limit of some rule satisfies `p`.
abbrev any_rule : (MatchLimitSelector → Bool) → RuleMap → Bool
any_rule p [] = false
any_rule p ((k, limits) ∷ rules) = any p limits || any_rule p rules

any_rule-put :
    (p : MatchLimitSelector → Bool) (k : String) (limits : List MatchLimitSelector)
    (rules : RuleMap)
    → any p limits ≡ false
    → any_rule p rules ≡ false
    → any_rule p (put k limits rules) ≡ false
any_rule-put p k limits [] h r = ground arith
any_rule-put p k limits ((j, w) ∷ rules) h r = ground (arith, any_rule-put p k limits rules)

any_rule-rules_map :
    (p : MatchLimitSelector → Bool) (rs : List SubRule) (rules : RuleMap)
    → any (λ r. any p r.match_limits) rs ≡ false
    → any_rule p rules ≡ false
    → any_rule p (rules_map rs rules) ≡ false
any_rule-rules_map p [] rules h r = r
any_rule-rules_map p (x ∷ xs) rules h r =
    any_rule-rules_map p xs (put x.name x.match_limits rules) (ground arith)
      (any_rule-put p x.name x.match_limits rules (ground arith) r)

abbrev globals_or_none : Option Route → List MatchLimitSelector
globals_or_none none = []
globals_or_none (some r) = r.global_limits

any-never {ℓ} :
    {A : Type ℓ} (p : A → Bool) → ((x : A) → p x ≡ false) → (xs : List A) → any p xs ≡ false
any-never p h [] = refl
any-never p h (x ∷ xs) = ground (arith, h x, any-never p h xs)

missed-key :
    (p q : VirtualApp → Bool) (v_app : VirtualApp) (others more : List VirtualApp)
    → has_key (key_of v_app) (map key_of (select p (select q (others ++ v_app ∷ more)))) ≡ false
    → (p v_app && q v_app) ≡ false
missed-key p q v_app [] more h = ground (arith, eq_refl v_app.namespace, eq_refl v_app.name)
missed-key p q v_app (x ∷ xs) more h = ground (arith, missed-key p q v_app xs more)

abbrev limits_or_none : Option (List MatchLimitSelector) → List MatchLimitSelector
limits_or_none none = []
limits_or_none (some limits) = limits

any_rule-lookup :
    (p : MatchLimitSelector → Bool) (k : String) (rules : RuleMap)
    → any_rule p rules ≡ false
    → any p (limits_or_none (lookup k rules)) ≡ false
any_rule-lookup p k [] h = refl
any_rule-lookup p k ((j, w) ∷ rules) h = ground (arith, any_rule-lookup p k rules)

any_rule-limits_of_rules :
    (p : MatchLimitSelector → Bool) (rules : RuleMap) (names : List String)
    → any_rule p rules ≡ false
    → any p (limits_of_rules rules names) ≡ false
any_rule-limits_of_rules p rules [] h = refl
any_rule-limits_of_rules p rules (name ∷ names) h =
    any-append p (limits_or_none (lookup name rules)) (limits_of_rules rules names)
      (any_rule-lookup p name rules h) (any_rule-limits_of_rules p rules names h)

module _ (m : Matching) (regex_match : String → String → Option Bool) (old new : Namespace)
    (same_name : old.name ≡ new.name) where
  abbrev differs : MatchLimitSelector → Bool
  differs = match_differs m regex_match (λ a b. false) old new

  names-same :
      (ms : MatchLimitSelector) (xs ys : List Namespace)
      → differs ms ≡ false
      → Alike old new xs ys
      → (matched_names m regex_match ms xs ≡ matched_names m regex_match ms ys)
        × (unmatched_names m regex_match ms xs ≡ unmatched_names m regex_match ms ys)
  names-same ms [] [] h l = ground arith
  names-same ms [] (y ∷ ys) h l = absurd l
  names-same ms (x ∷ xs) [] h l = absurd l
  names-same ms (x ∷ xs) (y ∷ ys) h l = let rest = names-same ms xs ys h l.1 in ground (arith, l.0)

  labels-same : (ms : MatchLimitSelector) → new.labels ≡ old.labels → differs ms ≡ false
  unfolding is_namespace_matched
  labels-same ms e =
      let same : is_namespace_matched m regex_match ms old
          ≡ is_namespace_matched m regex_match ms new =
        ap₂
          (λ (ls : Map String) (name : String).
            is_namespace_matched m regex_match ms
              (record { name = name; labels = ls; deleting = false }))
          (sym e) same_name in
      ground arith

  labels-route_same :
      (route : Option Route)
      → new.labels ≡ old.labels
      → route_differs m regex_match (λ a b. false) old new route ≡ false
  labels-route_same none e = refl
  labels-route_same (some r) e =
      let never = λ (ms : MatchLimitSelector). labels-same ms e in
      ground (
        arith,
        any-never differs never r.global_limits,
        any-never (λ (rule : SubRule). any differs rule.match_limits)
            (λ rule. any-never differs never rule.match_limits) r.sub_rules,
      )

  route_differs-limited :
      (route : Option Route)
      → has_limits route ≡ false
      → route_differs m regex_match (λ a b. false) old new route ≡ false
  route_differs-limited none h = refl
  route_differs-limited (some r) h = ground arith

  missed-route :
      (same_labels : Map String → Map String → Bool) (v_app : VirtualApp)
      (others more : List VirtualApp)
      → same_labels new.labels old.labels ≡ false
      → has_key
          (key_of v_app)
          (namespace_update m regex_match same_labels old new (some (others ++ v_app ∷ more)))
        ≡ false
      → route_differs m regex_match (λ a b. false) old new v_app.spec.route ≡ false
  unfolding namespace_update get_sensitive_v_apps
  missed-route same_labels v_app others more l h =
      let p = λ (v : VirtualApp). route_differs m regex_match (λ a b. false) old new v.spec.route in
      ground (
        arith,
        missed-key p (λ v. has_limits v.spec.route) v_app others more,
        route_differs-limited v_app.spec.route,
      )

  module _ (json : SelectorJson) (xs ys : List Namespace) (alike : Alike old new xs ys) where
    add_rules-same :
        (ms : MatchLimitSelector) (rest : Rules)
        → differs ms ≡ false
        → add_rules m regex_match json xs ms rest ≡ add_rules m regex_match json ys ms rest
    add_rules-same ms rest h = ground (arith, names-same ms xs ys h alike)

    rules-same :
        (limits : List MatchLimitSelector)
        → any differs limits ≡ false
        → generate_match_limit_rules m regex_match json xs limits
          ≡ generate_match_limit_rules m regex_match json ys limits
    unfolding generate_match_limit_rules
    rules-same [] h = refl
    rules-same (ms ∷ limits) h =
        let first : differs ms ≡ false = ground arith in
        let others : any differs limits ≡ false = ground arith in
        add_rules-same ms (generate_match_limit_rules m regex_match json xs limits) first
        ∙ ap (add_rules m regex_match json ys ms) (rules-same limits others)

    subset_limits-same :
        (rules : RuleMap) (ss : List Subset)
        → any_rule differs rules ≡ false
        → generate_subset_limits m regex_match json xs rules ss
          ≡ generate_subset_limits m regex_match json ys rules ss
    subset_limits-same rules [] h = refl
    subset_limits-same rules (s ∷ ss) h =
        let limits = limits_of_rules rules s.route_rules in
        ground (
          arith,
          rules-same limits (any_rule-limits_of_rules differs rules s.route_rules h),
          subset_limits-same rules ss h,
        )

    sub_rules-same :
        (route : Option Route)
        → route_differs m regex_match (λ a b. false) old new route ≡ false
        → any_rule differs (rules_map (sub_rules_of route) []) ≡ false
    sub_rules-same none h = refl
    sub_rules-same (some r) h = any_rule-rules_map differs r.sub_rules [] (ground arith) refl

    globals-same :
        (route : Option Route)
        → route_differs m regex_match (λ a b. false) old new route ≡ false
        → any differs (globals_or_none route) ≡ false
    globals-same none h = refl
    globals-same (some r) h = ground arith

    -- Of a VirtualApp none of whose limits tells the namespaces apart, the routes are the same.
    route-same :
        (v_app : VirtualApp)
        → route_differs m regex_match (λ a b. false) old new v_app.spec.route ≡ false
        → generate_proto_route m regex_match json xs v_app
          ≡ generate_proto_route m regex_match json ys v_app
    unfolding generate_proto_route
    route-same v_app h =
        let route = v_app.spec.route in
        ground (
          arith,
          rules-same (globals_or_none route) (globals-same route h),
          subset_limits-same (rules_map (sub_rules_of route) []) v_app.spec.subsets
              (sub_rules-same route h),
        )

  -- After an update of a namespace that does not start its deletion, where reflect.DeepEqual holds of
  -- equal labels only: the VirtualApps that the cache lists and that are not put into the queue have
  -- the routes that they had, from the active namespaces of the list with the old one as from those
  -- of the list with the new one.
  pub namespace_update-missed :
      (json : SelectorJson) (before after : List Namespace)
      (same_labels : Map String → Map String → Bool)
      → old.deleting ≡ new.deleting
      → (same_labels new.labels old.labels ≡ true → new.labels ≡ old.labels)
      → (v_app : VirtualApp) (others more : List VirtualApp)
      → has_key
          (key_of v_app)
          (namespace_update m regex_match same_labels old new (some (others ++ v_app ∷ more)))
        ≡ false
      → generate_proto_route m regex_match json (active (before ++ old ∷ after)) v_app
        ≡ generate_proto_route m regex_match json (active (before ++ new ∷ after)) v_app
  namespace_update-missed json before after same_labels d law v_app others more h =
      route-same json (active (before ++ old ∷ after)) (active (before ++ new ∷ after))
        (active-Alike old new same_name d before after) v_app
        (elim (Bool-cases (same_labels new.labels old.labels)) [
          | inl e ↦ labels-route_same v_app.spec.route (law e)
          | inr l ↦ missed-route same_labels v_app others more l h
        ])
