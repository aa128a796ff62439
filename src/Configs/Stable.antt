-- ===== src/Configs/Stable.antt =====
-- Configurations that a run leaves alone.
use controllermesh.Prelude.{
  String, List, [], ◌∷◌, Option, none, some, Bool, true, false, ◌≡◌, refl, arith, ◌&&◌, ◌==◌, all,
  eq_refl,
}
use controllermesh.Configs.{
  ClientConfig, WebhookWorld, ensure_client_config, cons_config, ensure_all, Ensured, ensured,
  update_both, ensure_configurations,
}

module _ (w : WebhookWorld) (ca : String) where
  -- It has the certificate, and its service, if it has one, is the manager's; where the manager has a
  -- host, it has none.
  abbrev pub is_ensured : ClientConfig → Bool
  is_ensured c = c.ca_bundle == ca && (elim c.service [
    | none ↦ true
    | some s ↦ w.host == "" && s.namespace == w.namespace && s.name == w.service_name
  ])

  ensure_client_config-ensured :
      (c c' : ClientConfig) → ensure_client_config w ca c ≡ some c' → is_ensured c' ≡ true
  ensure_client_config-ensured c c' e =
      ground (arith, e, eq_refl ca, eq_refl w.namespace, eq_refl w.service_name)

  cons_config-ensured :
      (o : Option ClientConfig) (os : Option (List ClientConfig)) (cs' : List ClientConfig)
      → cons_config w o os ≡ some cs'
      → ((c : ClientConfig) → o ≡ some c → is_ensured c ≡ true)
      → ((cs : List ClientConfig) → os ≡ some cs → all is_ensured cs ≡ true)
      → all is_ensured cs' ≡ true
  cons_config-ensured none os cs' e p q = cc
  cons_config-ensured (some c) none cs' e p q = cc
  cons_config-ensured (some c) (some cs) [] e p q = refl
  cons_config-ensured (some c) (some cs) (c' ∷ cs') e p q = ground (arith, e, p c refl, q cs refl)

  ensure_all-ensured :
      (cs cs' : List ClientConfig) → ensure_all w ca cs ≡ some cs' → all is_ensured cs' ≡ true
  ensure_all-ensured [] [] e = refl
  ensure_all-ensured [] (c' ∷ cs') e = cc
  ensure_all-ensured (c ∷ cs) cs' e =
      cons_config-ensured (ensure_client_config w ca c) (ensure_all w ca cs) cs' e
        (ensure_client_config-ensured c) (ensure_all-ensured cs)

  ensure_client_config_again :
      (c c' : ClientConfig)
      → ensure_client_config w ca c ≡ some c'
      → ensure_client_config w ca c' ≡ some c'
  ensure_client_config_again c c' e = ground (arith, e)

  cons_config_again :
      (o : Option ClientConfig) (os : Option (List ClientConfig)) (cs' : List ClientConfig)
      → cons_config w o os ≡ some cs'
      → ((c : ClientConfig) → o ≡ some c → ensure_client_config w ca c ≡ some c)
      → ((cs : List ClientConfig) → os ≡ some cs → ensure_all w ca cs ≡ some cs)
      → ensure_all w ca cs' ≡ some cs'
  cons_config_again none os cs' e p q = cc
  cons_config_again (some c) none cs' e p q = cc
  cons_config_again (some c) (some cs) [] e p q = cc
  cons_config_again (some c) (some cs) (c' ∷ cs') e p q = ground (arith, e, p c refl, q cs refl)

  ensure_all_again :
      (cs cs' : List ClientConfig) → ensure_all w ca cs ≡ some cs' → ensure_all w ca cs' ≡ some cs'
  ensure_all_again [] [] e = refl
  ensure_all_again [] (c' ∷ cs') e = cc
  ensure_all_again (c ∷ cs) cs' e =
      cons_config_again (ensure_client_config w ca c) (ensure_all w ca cs) cs' e
        (ensure_client_config_again c) (ensure_all_again cs)

  module _ (equal : List ClientConfig → List ClientConfig → Bool) where
    update_both_again :
        (m v : List ClientConfig) (o o' : Option (List ClientConfig)) (r : Ensured w)
        → ((a b : List ClientConfig) → equal a b ≡ true → a ≡ b)
        → ((a : List ClientConfig) → equal a a ≡ true)
        → ensure_all w ca m ≡ o
        → ensure_all w ca v ≡ o'
        → update_both w equal true true m v o o' ≡ ensured r
        → (ensure_all w ca r.mutating ≡ some r.mutating)
          × (ensure_all w ca r.validating ≡ some r.validating)
    update_both_again m v none o' r sound same e e' u = cc
    update_both_again m v (some m') none r sound same e e' u = cc
    update_both_again m v (some m') (some v') r sound same e e' u =
        ground (
          arith,
          u,
          e,
          e',
          sound m' m,
          sound v' v,
          ensure_all_again m m' e,
          ensure_all_again v v' e',
        )

    update_both-ensured :
        (m v : List ClientConfig) (o o' : Option (List ClientConfig)) (r : Ensured w)
        → ((a b : List ClientConfig) → equal a b ≡ true → a ≡ b)
        → ensure_all w ca m ≡ o
        → ensure_all w ca v ≡ o'
        → update_both w equal true true m v o o' ≡ ensured r
        → (all is_ensured r.mutating ≡ true) × (all is_ensured r.validating ≡ true)
    update_both-ensured m v none o' r sound e e' u = cc
    update_both-ensured m v (some m') none r sound e e' u = cc
    update_both-ensured m v (some m') (some v') r sound e e' u = ground (
      arith,
      u,
      e,
      e',
      sound m' m,
      sound v' v,
      ensure_all-ensured m m' e,
      ensure_all-ensured v v' e',
    )

    -- The updates of a run succeed, and DeepEqual says what equality is: then every webhook of both
    -- configurations has the certificate and, if it has a service, that of a manager without a host;
    -- and the next run with the same certificate finds both as it wants them and updates none.
    pub ensure_configurations_again :
        (m v : List ClientConfig) (r : Ensured w)
        → ((a b : List ClientConfig) → equal a b ≡ true → a ≡ b)
        → ((a : List ClientConfig) → equal a a ≡ true)
        → ensure_configurations w equal true true ca (some m) (some v) ≡ ensured r
        → (all is_ensured r.mutating ≡ true)
          × (all is_ensured r.validating ≡ true)
          × (ensure_configurations w equal true true ca (some r.mutating) (some r.validating)
              ≡ ensured (record r { updated_mutating = false; updated_validating = false }))
    unfolding ensure_configurations
    ensure_configurations_again m v r sound same u =
        let again =
          update_both_again m v (ensure_all w ca m) (ensure_all w ca v) r sound same refl refl u in
        let done =
          update_both-ensured m v (ensure_all w ca m) (ensure_all w ca v) r sound refl refl u in
        (done.0, done.1, rw (again.0, again.1) (ground (arith, same r.mutating, same r.validating)))
