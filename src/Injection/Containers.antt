-- ===== src/Injection/Containers.antt =====
-- The containers that virutalapp_injection.go builds.
use controllermesh.Prelude.{
  ℕ, String, List, [], ◌∷◌, ◌++◌, Option, none, some, Bool, true, false, ◌==◌, if◌then◌else◌,
}
use controllermesh.Prelude.Int.{ℤ}
use controllermesh.Prelude.Texts.{concat_text}
use controllermesh.VirtualApp.{ControllerConfiguration, WebhookConfiguration, RestConfigOverrides}
use controllermesh.Injection.{
  EnvVar, VolumeMount, Container, Flags, SecretAnswers, env_var, field_env, get_extra_envs,
  get_cert_volume_mounts,
}

-- The containers while the code builds them.
pub record Containers : Type 0 where
  pub init : Container
  pub proxy : Container

abbrev pub volume_mount : VolumeMount
volume_mount = record { name = "ctrlmesh"; mount_path = "/ctrlmesh"; read_only = false }

-- What the code reads of other packages: a number's and a port's text, whether `MustParse` takes a
-- quantity, the pods' answers about secrets, and the namespace of the manager.
pub record World : Type 0 where
  pub flags : Flags
  pub itoa : ℕ → String
  pub port_text : ℤ → String
  pub is_quantity : String → Bool
  pub manager_namespace : String
  pub secrets : String → SecretAnswers

abbrev pub pull_policy : Flags → String
pull_policy flags =
    if flags.proxy_image_pull_policy == "IfNotPresent" then "IfNotPresent" else "Always"

abbrev pub flag_arg : String → String → String
flag_arg flag value = concat_text "--" (concat_text flag (concat_text "=" value))

abbrev pub init_container : World → Container
init_container w = record {
  name = "ctrlmesh-init";
  image = w.flags.init_image;
  image_pull_policy = pull_policy w.flags;
  args = [];
  env = [];
  post_start = [];
  readiness_probe = none;
  limits = [];
  requests = [];
  security_context = record {
    privileged = some true;
    add_capabilities = "NET_ADMIN" ∷ [];
    read_only_root_filesystem = none;
    run_as_user = none;
  };
  volume_mounts = volume_mount ∷ [];
}

abbrev pub proxy_container : World → Container
proxy_container w = record {
  name = "ctrlmesh-proxy";
  image = w.flags.proxy_image;
  image_pull_policy = pull_policy w.flags;
  args = concat_text "--v=" (w.itoa w.flags.proxy_log_level) ∷ [];
  env =
      field_env "POD_NAME" "metadata.name"
      ∷ (field_env "POD_NAMESPACE" "metadata.namespace"
          ∷ (field_env "POD_IP" "status.podIP" ∷ get_extra_envs w.flags));
  post_start = "/bin/sh" ∷ ("-c" ∷ ("/poststart.sh" ∷ []));
  readiness_probe = some (record { path = "/readyz"; port = 5441; period_seconds = 3 });
  limits = ("cpu", w.flags.proxy_resource_cpu) ∷ (("memory", w.flags.proxy_resource_memory) ∷ []);
  requests = ("cpu", "0") ∷ (("memory", "0") ∷ []);
  security_context = record {
    privileged = some true;
    add_capabilities = [];
    read_only_root_filesystem = some true;
    run_as_user = some 1359;
  };
  volume_mounts = volume_mount ∷ [];
}

abbrev pub add_args : List String → Containers → Containers
add_args args cs = record cs { proxy = record cs.proxy { args = cs.proxy.args ++ args } }

abbrev pub add_envs : List EnvVar → Containers → Containers
add_envs envs cs = record {
  init = record cs.init { env = cs.init.env ++ envs };
  proxy = record cs.proxy { env = cs.proxy.env ++ envs };
}

abbrev pub configure_controller : Option ControllerConfiguration → Containers → Containers
configure_controller none cs = cs
configure_controller (some c) cs =
    add_args (flag_arg "leader-election-name" c.leader_election_name ∷ []) cs

abbrev pub add_mount : VolumeMount → Containers → Containers
add_mount m cs = record cs {
  proxy = record cs.proxy { volume_mounts = cs.proxy.volume_mounts ++ (m ∷ []) };
}

-- The mounts at the directory of certificates have to be one.
abbrev pub mount_certs : List VolumeMount → Containers → Option Containers
mount_certs (m ∷ []) cs = some (add_mount m cs)
mount_certs _ cs = none

abbrev pub configure_webhook :
    World → List Container → Option WebhookConfiguration → Containers → Option Containers
configure_webhook w containers none cs = some cs
configure_webhook w containers (some hook) cs =
    mount_certs (get_cert_volume_mounts containers hook.cert_dir) (
      add_args
        (flag_arg "webhook-cert-dir" hook.cert_dir
          ∷ (flag_arg "webhook-serve-port" (w.port_text hook.port) ∷ []))
        (record cs {
          init = record cs.init {
            env = cs.init.env ++ (env_var "INBOUND_WEBHOOK_PORT" (w.port_text hook.port) ∷ []);
          };
        }))

abbrev pub configure_user_agent : Option String → Containers → Containers
configure_user_agent none cs = cs
configure_user_agent (some ua) cs = add_args (flag_arg "user-agent-override" ua ∷ []) cs

abbrev pub configure_rest : Option RestConfigOverrides → Containers → Containers
configure_rest none cs = cs
configure_rest (some overrides) cs = configure_user_agent overrides.user_agent_or_prefix cs
