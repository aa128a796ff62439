-- ===== src/Examples/Changes.antt =====
-- A namespace changes in a label that no VirtualApp asks for.
use controllermesh.Prelude.{
  String, [], ◌∷◌, ◌++◌, some, Bool, true, false, ◌&&◌, ◌==◌, ◌≡◌, refl, arith, eq_iff,
}
use controllermesh.Prelude.Maps.{Map}
use controllermesh.Kube.{Namespace}
use controllermesh.Selector.{validated_label_selector_as_selector, new_requirement}
use controllermesh.Server.{generate_proto_route, is_namespace_matched}
use controllermesh.Events.{key_of, namespace_update, get_sensitive_v_apps}
use controllermesh.Events.Alike.{active}
use controllermesh.Events.Missed.{has_key, namespace_update-missed}
use controllermesh.Examples.{matching, regex_match, json, namespace, v_app_with, configuration}

abbrev same_map : Map String → Map String → Bool
same_map [] [] = true
same_map ((k, v) ∷ a) ((j, w) ∷ b) = k == j && v == w && same_map a b
same_map _ _ = false

same_map-law : (a b : Map String) → same_map a b ≡ true → a ≡ b
same_map-law [] [] h = refl
same_map-law ((k, v) ∷ a) ((j, w) ∷ b) h = ground (arith, eq_iff k j, eq_iff v w, same_map-law a b)
same_map-law [] (x ∷ b) h = ground arith
same_map-law (x ∷ a) [] h = ground arith

abbrev relabelled : Namespace
relabelled = record (namespace "n1") { labels = ("owner", "z") ∷ ("env", "n1") ∷ [] }

not_queued :
    has_key (key_of (v_app_with (some configuration))) (
      namespace_update matching regex_match same_map
        (namespace "n1")
        relabelled
        (some ([] ++ v_app_with (some configuration) ∷ [])))
    ≡ false
unfolding namespace_update get_sensitive_v_apps is_namespace_matched
    validated_label_selector_as_selector new_requirement
not_queued = refl

namespace_update-missed_example :
    generate_proto_route matching regex_match json
      (active ([] ++ namespace "n1" ∷ namespace "n2" ∷ []))
      (v_app_with (some configuration))
    ≡ generate_proto_route matching regex_match json
        (active ([] ++ relabelled ∷ namespace "n2" ∷ []))
        (v_app_with (some configuration))
namespace_update-missed_example =
    namespace_update-missed matching regex_match (namespace "n1") relabelled refl json []
      (namespace "n2" ∷ []) same_map refl (same_map-law relabelled.labels (namespace "n1").labels)
      (v_app_with (some configuration)) [] [] not_queued
