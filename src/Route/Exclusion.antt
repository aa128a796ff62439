-- ===== src/Route/Exclusion.antt =====
-- Object selectors of proxies of different subsets.
use controllermesh.Prelude.{
  String, List, [], ◌∷◌, ◌++◌, Option, none, some, Bool, true, false, not, ◌&&◌, ◌||◌, ◌≡◌, ◌≢◌,
  arith, subst, sym, ◌∙◌, Bool-cases, inl, inr, all, any, nonempty, ◌==◌, eq_iff, if◌then◌else◌,
}
use controllermesh.Prelude.Maps.{Map}
use controllermesh.Selector.{LabelSelector, Requirement, negate_label_selector}
use controllermesh.Selector.Meaning.{
  Matching, label_selects, requirement_selects, selects, selects-parts,
}
use controllermesh.Selector.Negate.{AllKnown, negate-selects}
use controllermesh.Route.{
  GroupResource, MatchLimitRule, SubsetLimit, InternalSpec, is_for_others, get_object_selector,
}
use controllermesh.Route.Isolation.{SharesLimits}
use controllermesh.Route.Objects.{
  LimitsAreConsistent, SubsetsAreConsistent, SelectorIsConsistent, passes, limit_passes,
  subsets_pass, get_object_selector-passes,
}

-- The limit is about the resource and has an object selector with a label or an expression.
abbrev pub selector_discriminates : Option LabelSelector → Bool
selector_discriminates none = false
selector_discriminates (some s) = nonempty s.match_labels || nonempty s.match_expressions

abbrev pub discriminates : GroupResource → MatchLimitRule → Bool
discriminates gr l = not (is_for_others gr l) && selector_discriminates l.object_selector

abbrev pub is_named : String → SubsetLimit → Bool
is_named name s = s.subset == name

module _ (m : Matching) (ls : Map String) where
  selects-negate :
      (s : LabelSelector)
      → AllKnown s.match_expressions
      → (nonempty s.match_labels || nonempty s.match_expressions) ≡ true
      → selects m ls (some s) ≡ true
      → selects m ls (negate_label_selector (some s)) ≡ true
      → ⊥
  selects-negate s k n p q =
      parts s.match_labels s.match_expressions n (rw (selects-parts m ls s) at p)
        (rw (negate-selects m ls s k) at q)
    where
      parts :
          (ms : Map String) (es : List Requirement)
          → (nonempty ms || nonempty es) ≡ true
          → (all (label_selects m ls) ms && all (requirement_selects m ls) es) ≡ true
          → (all (λ kv. not (label_selects m ls kv)) ms
              && all (λ e. not (requirement_selects m ls e)) es)
            ≡ true
          → ⊥
      parts (kv ∷ ms) es n p q = ground arith
      parts [] (e ∷ es) n p q = ground arith
      parts [] [] n p q = cc

  limit-exclusive :
      (w : Map String) (o : Option LabelSelector) (others : Bool)
      → SelectorIsConsistent w o
      → (not others && selector_discriminates o) ≡ true
      → elim o [ none ↦ true | some s ↦ if others then true else selects m ls (some s) ] ≡ true
      → elim o [
        | none ↦ true
        | some s ↦ if others then true else selects m ls (negate_label_selector (some s))
      ]
        ≡ true
      → ⊥
  limit-exclusive w none others c d p q = ground arith
  limit-exclusive w (some s) true c d p q = cc
  limit-exclusive w (some s) false c d p q = selects-negate s c.known d p q

  limits-exclusive :
      (w : Map String) (gr : GroupResource) (limits : List MatchLimitRule)
      → LimitsAreConsistent w limits
      → any (discriminates gr) limits ≡ true
      → all (limit_passes m ls gr true) limits ≡ true
      → all (limit_passes m ls gr false) limits ≡ true
      → ⊥
  limits-exclusive w gr [] c d p q = cc
  limits-exclusive w gr (l ∷ limits) c d p q = ground (
    arith,
    limit-exclusive w l.object_selector (is_for_others gr l) c.0,
    limits-exclusive w gr limits c.1,
  )

  subsets_pass-at :
      (gr : GroupResource) (name : String) (before : List SubsetLimit) (s : SubsetLimit)
      (after : List SubsetLimit)
      → any (is_named name) before ≡ false
      → subsets_pass m ls gr name (before ++ s ∷ after) ≡ true
      → all (limit_passes m ls gr (s.subset == name)) s.limits ≡ true
  subsets_pass-at gr name [] s after h p = ground arith
  subsets_pass-at gr name (b ∷ before) s after h p =
      ground (arith, subsets_pass-at gr name before s after)

  SubsetsAreConsistent-at :
      (w : Map String) (before : List SubsetLimit) (s : SubsetLimit) (after : List SubsetLimit)
      → SubsetsAreConsistent w (before ++ s ∷ after)
      → LimitsAreConsistent w s.limits
  SubsetsAreConsistent-at w [] s after c = c.0
  SubsetsAreConsistent-at w (b ∷ before) s after c = SubsetsAreConsistent-at w before s after c.1

  limits_pass-at :
      (w : Map String) (x : InternalSpec) (gr : GroupResource) (before : List SubsetLimit)
      (s : SubsetLimit) (after : List SubsetLimit)
      → x.route_internal.subset_limits ≡ before ++ s ∷ after
      → any (is_named x.route_internal.subset) before ≡ false
      → LimitsAreConsistent w x.route_internal.global_limits
      → SubsetsAreConsistent w x.route_internal.subset_limits
      → passes m ls (get_object_selector x gr) ≡ true
      → all (limit_passes m ls gr (s.subset == x.route_internal.subset)) s.limits ≡ true
  limits_pass-at w x gr before s after e n cg cs p =
      let r = x.route_internal in
      let parts = rw (get_object_selector-passes m ls w x gr cg cs) at p in
      let subsets : subsets_pass m ls gr r.subset r.subset_limits ≡ true = ground (arith, parts) in
      subsets_pass-at gr r.subset before s after n
        (subst (λ ss. subsets_pass m ls gr r.subset ss ≡ true) e subsets)

  -- Two proxies of different subsets are sent the same limits. The first one's subset stands first
  -- among them and has a limit for the resource with an object selector that has a label or an
  -- expression; the selectors' labels agree and their operators are known. Then an object that
  -- passes the object selector of the first does not pass that of the second.
  pub objects_exclusive :
      (w : Map String) (a b : InternalSpec) (gr : GroupResource) (before after : List SubsetLimit)
      (s : SubsetLimit)
      → SharesLimits a b
      → a.route_internal.subset_limits ≡ before ++ s ∷ after
      → any (is_named a.route_internal.subset) before ≡ false
      → any (is_named b.route_internal.subset) before ≡ false
      → s.subset ≡ a.route_internal.subset
      → a.route_internal.subset ≢ b.route_internal.subset
      → any (discriminates gr) s.limits ≡ true
      → LimitsAreConsistent w a.route_internal.global_limits
      → SubsetsAreConsistent w a.route_internal.subset_limits
      → passes m ls (get_object_selector a gr) ≡ true
      → passes m ls (get_object_selector b gr) ≡ false
  objects_exclusive w a b gr before after s sh e na nb own ne d cg cs pa =
      let mine : (s.subset == a.route_internal.subset) ≡ true = (eq_iff _ _).1 own in
      let theirs : (s.subset == b.route_internal.subset) ≡ false =
        ground (arith, eq_iff s.subset b.route_internal.subset) in
      elim (Bool-cases (passes m ls (get_object_selector b gr))) [
        | inr fails ↦ fails
        | inl pb ↦ absurd (
            limits-exclusive w gr s.limits
              (SubsetsAreConsistent-at w before s after (subst (SubsetsAreConsistent w) e cs)) d
              (rw mine at (limits_pass-at w a gr before s after e na cg cs pa))
              (rw theirs at (
                limits_pass-at w b gr before s after (sym sh.subsets ∙ e) nb
                  (subst (LimitsAreConsistent w) sh.globals cg)
                  (subst (SubsetsAreConsistent w) sh.subsets cs) pb)))
      ]
