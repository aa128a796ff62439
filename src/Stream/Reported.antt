-- ===== src/Stream/Reported.antt =====
-- What a proxy reports once it has taken a spec in.
use controllermesh.Prelude.{
  String, Option, none, some, Bool, true, false, ◌≡◌, refl, ◌+◌, arith, eq_refl, is_some,
  Option-cases, inl, inr,
}
use controllermesh.Proto.{ProxySpec, ProxyStatus}
use controllermesh.SpecManager.{
  SpecManager, Env, Io, Outcome, done, panicked, update_spec, get_status, check_loadable, Reason,
}
use controllermesh.Route.{InternalSpec}
use controllermesh.RequestsStore.{RequestsPack}
use controllermesh.Route.Convert.{convert_proto_spec_to_internal}
use controllermesh.Reconciler.{hash_reported}

-- The hash that a status reports.
abbrev pub reports_hash : String → Outcome (Option ProxyStatus) → Bool
reports_hash hash (done (some st)) = hash_reported hash st
reports_hash hash _ = false

module _ (env : Env) where
  abbrev pub reports_after : String → Outcome SpecManager → Bool
  reports_after hash (done sm) =
      reports_hash hash (get_status env (record sm { reports = sm.reports + 1 }))
  reports_after hash panicked = false

  check_loadable-none :
      (o : Option InternalSpec) (new : InternalSpec) (pack : RequestsPack) (r : Reason)
      → check_loadable env o new pack ≡ some r
      → is_some o ≡ true
  unfolding check_loadable
  check_loadable-none none new pack r e = cc
  check_loadable-none (some cur) new pack r e = refl

  pub update_spec-reports :
      (io : Io) (spec : ProxySpec) (sm : SpecManager)
      → io.expected_ok ≡ true
      → io.current_ok ≡ true
      → reports_after spec.meta.hash (update_spec env io spec sm) ≡ true
  unfolding update_spec get_status convert_proto_spec_to_internal
  update_spec-reports io spec sm e e' =
      elim (Option-cases
        (check_loadable env sm.current (convert_proto_spec_to_internal env.decode spec) sm.pack)) [
          | inl n ↦ ground (arith, e, e', n, eq_refl spec.meta.hash)
          | inr (r, n) ↦ ground (
            arith,
            e,
            e',
            n,
            eq_refl spec.meta.hash,
            check_loadable-none sm.current (convert_proto_spec_to_internal env.decode spec) sm.pack
                r n,
          )
        ]
