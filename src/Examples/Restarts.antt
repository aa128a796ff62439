-- ===== src/Examples/Restarts.antt =====
-- Restarts of a proxy, with its files as they are written.
use controllermesh.Prelude.{String, [], false, none, some, true, ◌==◌, ◌≡◌, refl, if◌then◌else◌}
use controllermesh.Proto.{ProxySpec}
use controllermesh.Route.{
  InternalSpec, is_user_agent_match, is_namespace_match, determine_namespace_subset,
  passes_global_limits, visit_subsets, get_object_selector, merge_subsets, merge_limits,
  is_gr_matched_api_resources,
}
use controllermesh.Route.Convert.{
  convert_proto_spec_to_internal, convert_proto_match_limit_rule_to_internal,
}
use controllermesh.SpecManager.Loadable.{is_loadable, pack_agrees, namespaces_agree}
use controllermesh.RequestsStore.{empty_pack, add, add_user_agent, add_record}
use controllermesh.SpecManager.{Disk, Env, SpecManager, done, release_spec}
use controllermesh.SpecManager.Restart.{new_spec_manager}
use controllermesh.SpecManager.Restart.Resumed.{
  GoesOnWith, RestartsAs, new_spec_manager-resumes, new_spec_manager-forgets,
  release_spec-forgotten,
}
use controllermesh.Examples.Managers.{env, spec, io, loaded, one_pack, n1_passed}

-- A later spec, which takes the namespace "n1" from the subset.
abbrev next_spec : ProxySpec
next_spec = record spec {
  meta = record { v_app_name = "app"; hash = "2" };
  route = record (spec.route) { subset_limits = [] };
}

-- The history holds "{}", which is read as one pack; nothing else is read.
abbrev file_env : Env
file_env = record env {
  unmarshal_spec = λ t. if t == "1" then some spec else if t == "2" then some next_spec else none;
  unmarshal_pack = λ t. if t == "{}" then some one_pack else none;
}

abbrev files : String → Disk
files history = record { expected_spec = "2"; current_spec = "1"; history_requests = history }

abbrev converted : ProxySpec → InternalSpec
converted s = convert_proto_spec_to_internal file_env.decode s

new_spec_manager-resumes_example :
    RestartsAs
      (some (converted next_spec))
      (some (
        if is_loadable file_env (converted spec) (converted next_spec) one_pack
        then converted next_spec
        else converted spec))
      one_pack
      (new_spec_manager file_env io (files "{}"))
new_spec_manager-resumes_example =
    new_spec_manager-resumes file_env io next_spec spec one_pack (files "{}") refl refl refl refl
      refl refl refl refl

-- The recorded requests speak against the later spec.
next_spec-refused : is_loadable file_env (converted spec) (converted next_spec) one_pack ≡ false
unfolding pack_agrees convert_proto_spec_to_internal namespaces_agree is_user_agent_match
    is_namespace_match determine_namespace_subset passes_global_limits visit_subsets
    convert_proto_match_limit_rule_to_internal get_object_selector merge_subsets merge_limits
    is_gr_matched_api_resources
next_spec-refused = refl

new_spec_manager-forgets_example :
    GoesOnWith none empty_pack (new_spec_manager file_env io (files "{}{}"))
new_spec_manager-forgets_example = new_spec_manager-forgets file_env io (files "{}{}") refl refl

abbrev with_history : String → SpecManager
with_history history = record loaded { disk = files history }

abbrev recorded_twice : SpecManager
recorded_twice = record (with_history "{}{}") { pack = one_pack }

twice-records : release_spec file_env io (some n1_passed) (with_history "{}") ≡ done recorded_twice
unfolding release_spec add add_user_agent add_record
twice-records = refl

twice-changes :
    (add file_env.gr_string file_env.deep_equal (some n1_passed) (with_history "{}").pack).1 ≡ true
unfolding add add_user_agent add_record
twice-changes = refl

release_spec-forgotten_example :
    GoesOnWith none empty_pack (new_spec_manager file_env io recorded_twice.disk)
release_spec-forgotten_example =
    release_spec-forgotten file_env io one_pack (some n1_passed) (with_history "{}") recorded_twice
      (λ p q. refl) (λ p q. refl) refl twice-records twice-changes
