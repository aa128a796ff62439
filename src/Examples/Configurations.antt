-- ===== src/Examples/Configurations.antt =====
-- Two runs on the configurations of the manager's webhooks.
use controllermesh.Prelude.{
  String, List, [], ◌∷◌, Option, none, some, Bool, true, false, ◌&&◌, ◌==◌, ◌≡◌, refl, arith,
  eq_iff, eq_refl, all,
}
use controllermesh.Configs.{
  ServiceReference, ClientConfig, WebhookWorld, Ensured, ensured, ensure_configurations,
}
use controllermesh.Configs.Stable.{is_ensured, ensure_configurations_again}

abbrev same_text : Option String → Option String → Bool
same_text none none = true
same_text (some a) (some b) = a == b
same_text _ _ = false

same_text-law : (a b : Option String) → same_text a b ≡ true → a ≡ b
same_text-law none none h = refl
same_text-law (some a) (some b) h = ground (arith, eq_iff a b)
same_text-law none (some b) h = cc
same_text-law (some a) none h = cc

same_text_refl : (a : Option String) → same_text a a ≡ true
same_text_refl none = refl
same_text_refl (some a) = eq_refl a

abbrev same_service : Option ServiceReference → Option ServiceReference → Bool
same_service none none = true
same_service (some a) (some b) =
    a.namespace == b.namespace && a.name == b.name && same_text a.path b.path
same_service _ _ = false

same_service-law : (a b : Option ServiceReference) → same_service a b ≡ true → a ≡ b
same_service-law none none h = refl
same_service-law (some a) (some b) h =
    ground
      (arith, eq_iff a.namespace b.namespace, eq_iff a.name b.name, same_text-law a.path b.path)
same_service-law none (some b) h = cc
same_service-law (some a) none h = cc

same_service_refl : (a : Option ServiceReference) → same_service a a ≡ true
same_service_refl none = refl
same_service_refl (some a) =
    ground (arith, eq_refl a.namespace, eq_refl a.name, same_text_refl a.path)

abbrev same_configs : List ClientConfig → List ClientConfig → Bool
same_configs [] [] = true
same_configs (a ∷ xs) (b ∷ ys) =
    same_text a.url b.url
    && same_service a.service b.service
    && a.ca_bundle == b.ca_bundle
    && same_configs xs ys
same_configs _ _ = false

same_configs-law : (xs ys : List ClientConfig) → same_configs xs ys ≡ true → xs ≡ ys
same_configs-law [] [] h = refl
same_configs-law (a ∷ xs) (b ∷ ys) h = ground (
  arith,
  same_text-law a.url b.url,
  same_service-law a.service b.service,
  eq_iff a.ca_bundle b.ca_bundle,
  same_configs-law xs ys,
)
same_configs-law [] (b ∷ ys) h = cc
same_configs-law (a ∷ xs) [] h = cc

same_configs_refl : (xs : List ClientConfig) → same_configs xs xs ≡ true
same_configs_refl [] = refl
same_configs_refl (a ∷ xs) = ground (
  arith,
  same_text_refl a.url,
  same_service_refl a.service,
  eq_refl a.ca_bundle,
  same_configs_refl xs,
)

abbrev in_cluster : WebhookWorld
in_cluster = record { namespace = "mesh"; service_name = "webhook"; host = ""; port_text = "9443" }

-- A webhook of a service, with the certificate `ca`.
abbrev config : String → String → ClientConfig
config namespace ca = record {
  url = none;
  service = some (record { namespace = namespace; name = "webhook"; path = some "/mutate-pod" });
  ca_bundle = ca;
}

abbrev first_run : Ensured in_cluster
first_run = record {
  mutating = config "mesh" "ca" ∷ [];
  validating = config "mesh" "ca" ∷ [];
  updated_mutating = true;
  updated_validating = false;
}

first_run-ensured :
    ensure_configurations in_cluster same_configs true true "ca"
      (some (config "default" "" ∷ []))
      (some (config "mesh" "ca" ∷ []))
    ≡ ensured first_run
unfolding ensure_configurations
first_run-ensured = refl

ensure_configurations_again_example :
    (all (is_ensured in_cluster "ca") first_run.mutating ≡ true)
    × (all (is_ensured in_cluster "ca") first_run.validating ≡ true)
    × (ensure_configurations in_cluster same_configs true true "ca"
          (some first_run.mutating)
          (some first_run.validating)
        ≡ ensured (record first_run { updated_mutating = false; updated_validating = false }))
ensure_configurations_again_example =
    ensure_configurations_again in_cluster "ca" same_configs (config "default" "" ∷ [])
      (config "mesh" "ca" ∷ []) first_run same_configs-law same_configs_refl first_run-ensured
