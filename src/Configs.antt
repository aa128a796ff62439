-- ===== src/Configs.antt =====
-- ensureConfigurations of webhook/util/controller/webhook_controller.go: the configurations by which
-- the API server calls the webhooks of the manager.
pub mod Stable
use controllermesh.Prelude.{
  ℕ, String, List, [], ◌∷◌, Option, none, some, Bool, true, false, not, ◌&&◌, ◌==◌, if◌then◌else◌,
}
use controllermesh.Prelude.Texts.{concat_text}

-- admissionregistrationv1.ServiceReference
pub record ServiceReference : Type 0 where
  pub namespace : String
  pub name : String
  pub path : Option String

-- WebhookClientConfig of a webhook
pub record ClientConfig : Type 0 where
  pub url : Option String
  pub service : Option ServiceReference
  pub ca_bundle : String

-- The namespace, service and host of the manager, and the text of its port.
pub record WebhookWorld : Type 0 where
  pub namespace : String
  pub service_name : String
  pub host : String
  pub port_text : String

module _ (w : WebhookWorld) where
  -- convertClientConfig; `none` is the panic at a nil path.
  abbrev pub convert_client_config : ClientConfig → ServiceReference → Option ClientConfig
  convert_client_config c s = elim s.path [
    | none ↦ none
    | some path ↦ some (record c {
      url = some (
          concat_text "https://"
            (concat_text w.host (concat_text ":" (concat_text w.port_text path))));
      service = none;
    })
  ]

  abbrev pub with_service : ClientConfig → Option ServiceReference → Option ClientConfig
  with_service c none = some c
  with_service c (some s) =
      let s' = record s { namespace = w.namespace; name = w.service_name } in
      if w.host == ""
      then some (record c { service = some s' })
      else convert_client_config (record c { service = some s' }) s'

  -- A round of either loop.
  abbrev pub ensure_client_config : String → ClientConfig → Option ClientConfig
  ensure_client_config ca c = with_service (record c { ca_bundle = ca }) c.service

  abbrev pub cons_config :
      Option ClientConfig → Option (List ClientConfig) → Option (List ClientConfig)
  cons_config none cs = none
  cons_config (some c) none = none
  cons_config (some c) (some cs) = some (c ∷ cs)

  abbrev pub ensure_all : String → List ClientConfig → Option (List ClientConfig)
  ensure_all ca [] = some []
  ensure_all ca (c ∷ cs) = cons_config (ensure_client_config ca c) (ensure_all ca cs)

  -- The two configurations, and whether the run has updated each.
  pub record Ensured : Type 0 where
    pub mutating : List ClientConfig
    pub validating : List ClientConfig
    pub updated_mutating : Bool
    pub updated_validating : Bool

  pub data Ensuring : Type 0 where
    ensured : Ensured → Ensuring
    failed crashed : Ensuring

  module _ (equal : List ClientConfig → List ClientConfig → Bool)
      (mutating_ok validating_ok : Bool) where
    -- The updates; the first one that fails ends the run, the one before it stays.
    abbrev pub update_both :
        List ClientConfig
        → List ClientConfig
        → Option (List ClientConfig)
        → Option (List ClientConfig)
        → Ensuring
    update_both m v none v' = crashed
    update_both m v (some m') none = crashed
    update_both m v (some m') (some v') =
        if not (equal m' m) && not mutating_ok
        then failed
        else if not (equal v' v) && not validating_ok
        then failed
        else ensured (record {
          mutating = if equal m' m then m else m';
          validating = if equal v' v then v else v';
          updated_mutating = not (equal m' m);
          updated_validating = not (equal v' v);
        })

    abbrev pub ensure_found :
        String → Option (List ClientConfig) → Option (List ClientConfig) → Ensuring
    ensure_found ca none v = failed
    ensure_found ca (some m) none = failed
    ensure_found ca (some m) (some v) = update_both m v (ensure_all ca m) (ensure_all ca v)

    -- The arguments are the answers to the two gets, `none` an error.
    unfoldable pub ensure_configurations :
        String → Option (List ClientConfig) → Option (List ClientConfig) → Ensuring
    ensure_configurations ca m v = ensure_found ca m v
