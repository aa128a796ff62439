-- ===== src/Route/Objects.antt =====
-- What the object selector of a spec selects.
use controllermesh.Prelude.{
  String, List, [], ◌∷◌, Option, none, some, Bool, true, false, ◌&&◌, ◌≡◌, ◌⊎◌, inl, refl, arith,
  all, ◌==◌, eq_iff, if◌then◌else◌, ◌∙◌,
}
use controllermesh.Prelude.Maps.{Map, lookup, put, put_all}
use controllermesh.Selector.{LabelSelector, merge_label_selector, negate_label_selector}
use controllermesh.Selector.Meaning.{Matching, selects}
use controllermesh.Selector.Merge.{DistinctKeys, Agrees, merge-selects}
use controllermesh.Selector.Negate.{AllKnown}
use controllermesh.Route.{
  GroupResource, MatchLimitRule, SubsetLimit, InternalSpec, is_for_others, merge_limit,
  merge_limits, merge_subsets, get_object_selector,
}

-- Every label is one of the assignment `w`.
abbrev pub Within : Map String → Map String → Type 0
Within w [] = Unit
Within w ((k, v) ∷ n) = (lookup k w ≡ some v) × Within w n

lookup-Within :
    (w m : Map String) (k : String) → Within w m → (lookup k m ≡ none) ⊎ (lookup k m ≡ lookup k w)
lookup-Within w [] k h = inl refl
lookup-Within w ((j, v) ∷ m) k h = ground (arith, eq_iff k j, lookup-Within w m k h.1)

Within-put :
    (w m : Map String) (k v : String) → lookup k w ≡ some v → Within w m → Within w (put k v m)
Within-put w [] k v e h = (e, tt)
Within-put w ((j, u) ∷ m) k v e h = ground (arith, Within-put w m k v e h.1)

Within-put_all : (w n m : Map String) → Within w n → Within w m → Within w (put_all n m)
Within-put_all w [] m h k = k
Within-put_all w ((j, v) ∷ n) m h k = Within-put_all w n (put j v m) h.1 (Within-put w m j v h.0 k)

Within-Agrees : (w n m : Map String) → Within w n → Within w m → Agrees n m
Within-Agrees w [] m h k = tt
Within-Agrees w ((j, v) ∷ n) m h k =
    (ground (arith, lookup-Within w m j k), Within-Agrees w n m h.1 k)

-- A selector with known operators whose labels agree with those of the others: they are all in `w`.
pub record IsConsistent (w : Map String) (s : LabelSelector) : Type 0 where
  pub distinct : DistinctKeys s.match_labels
  pub within : Within w s.match_labels
  pub known : AllKnown s.match_expressions

abbrev pub SelectorIsConsistent : Map String → Option LabelSelector → Type 0
SelectorIsConsistent w none = Unit
SelectorIsConsistent w (some s) = IsConsistent w s

abbrev pub LimitIsConsistent : Map String → MatchLimitRule → Type 0
LimitIsConsistent w l = SelectorIsConsistent w l.object_selector

abbrev pub LimitsAreConsistent : Map String → List MatchLimitRule → Type 0
LimitsAreConsistent w [] = Unit
LimitsAreConsistent w (l ∷ ls) = LimitIsConsistent w l × LimitsAreConsistent w ls

abbrev pub SubsetsAreConsistent : Map String → List SubsetLimit → Type 0
SubsetsAreConsistent w [] = Unit
SubsetsAreConsistent w (s ∷ ss) = LimitsAreConsistent w s.limits × SubsetsAreConsistent w ss

and_assoc : (x y z : Bool) → ((x && y) && z) ≡ (x && (y && z))
and_assoc x y z = ground arith

abbrev pub AccWithin : Map String → Option LabelSelector → Type 0
AccWithin w none = Unit
AccWithin w (some s) = Within w s.match_labels

module _ (m : Matching) (ls : Map String) where
  -- No selector in a request lets every object through.
  abbrev pub passes : Option LabelSelector → Bool
  passes none = true
  passes (some s) = selects m ls (some s)

  -- What one limit asks of an object: in an earlier subset, that it is none of that limit's.
  abbrev pub limit_passes : GroupResource → Bool → MatchLimitRule → Bool
  limit_passes gr is_self l = elim l.object_selector [
    | none ↦ true
    | some s ↦
        if is_for_others gr l
        then true
        else if is_self
        then selects m ls (some s)
        else selects m ls (negate_label_selector (some s))
  ]

  merge-passes :
      (w : Map String) (acc : Option LabelSelector) (s : LabelSelector)
      → AccWithin w acc
      → DistinctKeys s.match_labels
      → Within w s.match_labels
      → (passes (merge_label_selector acc (some s)) ≡ (passes acc && selects m ls (some s)))
        × AccWithin w (merge_label_selector acc (some s))
  unfolding merge_label_selector
  merge-passes w none s a d h = (refl, h)
  merge-passes w (some t) s a d h = (
    unfold merge_label_selector in
        merge-selects m ls t s d (Within-Agrees w s.match_labels t.match_labels h a),
    Within-put_all w s.match_labels t.match_labels h a,
  )

  -- `merge_limit` and `limit_passes`, over the limit's selector and its test.
  abbrev merge_rule :
      Option LabelSelector → Bool → Bool → Option LabelSelector → Option LabelSelector
  merge_rule o others is_self acc = elim o [
    | none ↦ acc
    | some s ↦
        if others
        then acc
        else if is_self
        then merge_label_selector acc (some s)
        else merge_label_selector acc (negate_label_selector (some s))
  ]

  abbrev rule_passes : Option LabelSelector → Bool → Bool → Bool
  rule_passes o others is_self = elim o [
    | none ↦ true
    | some s ↦
        if others
        then true
        else if is_self
        then selects m ls (some s)
        else selects m ls (negate_label_selector (some s))
  ]

  merge_rule-passes :
      (w : Map String) (o : Option LabelSelector) (others is_self : Bool)
      (acc : Option LabelSelector)
      → AccWithin w acc
      → SelectorIsConsistent w o
      → (passes (merge_rule o others is_self acc) ≡ (passes acc && rule_passes o others is_self))
        × AccWithin w (merge_rule o others is_self acc)
  merge_rule-passes w none others is_self acc a c = (ground arith, a)
  merge_rule-passes w (some s) true is_self acc a c = (ground arith, a)
  merge_rule-passes w (some s) false true acc a c = merge-passes w acc s a c.distinct c.within
  merge_rule-passes w (some s) false false acc a c =
      unfold negate_label_selector in merge-passes w acc _ a tt tt

  merge_limits-passes :
      (w : Map String) (gr : GroupResource) (is_self : Bool) (limits : List MatchLimitRule)
      (acc : Option LabelSelector)
      → AccWithin w acc
      → LimitsAreConsistent w limits
      → (passes (merge_limits gr is_self limits acc)
          ≡ (passes acc && all (limit_passes gr is_self) limits))
        × AccWithin w (merge_limits gr is_self limits acc)
  unfolding merge_limits
  merge_limits-passes w gr is_self [] acc a c = (ground arith, a)
  merge_limits-passes w gr is_self (l ∷ limits) acc a c =
      let one = merge_rule-passes w l.object_selector (is_for_others gr l) is_self acc a c.0 in
      let rest = merge_limits-passes w gr is_self limits (merge_limit gr is_self l acc) one.1 c.1 in
      (rest.0 ∙ rw one.0 (and_assoc (passes acc) (limit_passes gr is_self l) _), rest.1)

  -- What the subsets up to the own one ask.
  abbrev pub subsets_pass : GroupResource → String → List SubsetLimit → Bool
  subsets_pass gr own [] = true
  subsets_pass gr own (s ∷ ss) =
      all (limit_passes gr (s.subset == own)) s.limits
      && (if s.subset == own then true else subsets_pass gr own ss)

  if-passes :
      (b : Bool) (x y : Option LabelSelector) (p q r : Bool)
      → passes x ≡ (p && q)
      → passes y ≡ (passes x && r)
      → passes (if b then x else y) ≡ (p && (q && (if b then true else r)))
  if-passes true x y p q r e f = ground arith
  if-passes false x y p q r e f = ground arith

  merge_subsets-passes :
      (w : Map String) (gr : GroupResource) (own : String) (ss : List SubsetLimit)
      (acc : Option LabelSelector)
      → AccWithin w acc
      → SubsetsAreConsistent w ss
      → passes (merge_subsets gr own ss acc) ≡ (passes acc && subsets_pass gr own ss)
  unfolding merge_subsets
  merge_subsets-passes w gr own [] acc a c = ground arith
  merge_subsets-passes w gr own (s ∷ ss) acc a c =
      let one = merge_limits-passes w gr (s.subset == own) s.limits acc a c.0 in
      let acc' = merge_limits gr (s.subset == own) s.limits acc in
      let rest = merge_subsets-passes w gr own ss acc' one.1 c.1 in
      if-passes (s.subset == own) acc' (merge_subsets gr own ss acc') _ _ _ one.0 rest

  -- The object selector of a spec lets through what every global limit and every subset limit up to
  -- its own subset's asks for, where their labels agree.
  pub get_object_selector-passes :
      (w : Map String) (spec : InternalSpec) (gr : GroupResource)
      → LimitsAreConsistent w spec.route_internal.global_limits
      → SubsetsAreConsistent w spec.route_internal.subset_limits
      → passes (get_object_selector spec gr) ≡ (
          all (limit_passes gr true) spec.route_internal.global_limits
          && subsets_pass gr spec.route_internal.subset spec.route_internal.subset_limits)
  unfolding get_object_selector
  get_object_selector-passes w spec gr cg cs =
      let r = spec.route_internal in
      let globals = merge_limits-passes w gr true r.global_limits none tt cg in
      merge_subsets-passes w gr r.subset r.subset_limits _ globals.1 cs ∙ rw globals.0
