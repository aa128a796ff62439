-- ===== src/Injection.antt =====
-- webhook/pod: the containers that a pod gets which a VirtualApp matches. A pod and its containers
-- are cut to what virutalapp_injection.go reads or sets.
pub mod Containers
pub mod Inject
pub mod Matched
pub mod Labelled
use controllermesh.Prelude.{
  ℕ, String, List, [], ◌∷◌, ◌++◌, Option, none, some, Bool, true, false, not, ◌&&◌, ◌||◌, ◌==◌,
  nonempty, if◌then◌else◌,
}
use controllermesh.Prelude.Int.{ℤ}
use controllermesh.Prelude.Maps.{Map}
use controllermesh.Prelude.Texts.{concat_text, split_at}

-- v1.EnvVar; the last field is ValueFrom.FieldRef.FieldPath.
pub record EnvVar : Type 0 where
  pub name : String
  pub value : String
  pub field_path : Option String

pub record VolumeMount : Type 0 where
  pub name : String
  pub mount_path : String
  pub read_only : Bool

-- v1.SecurityContext
pub record SecurityContext : Type 0 where
  pub privileged : Option Bool
  pub add_capabilities : List String
  pub read_only_root_filesystem : Option Bool
  pub run_as_user : Option ℕ

-- ReadinessProbe of an HTTPGet
pub record Probe : Type 0 where
  pub path : String
  pub port : ℕ
  pub period_seconds : ℕ

-- v1.Container; `post_start` is the command of its lifecycle.
pub record Container : Type 0 where
  pub name : String
  pub image : String
  pub image_pull_policy : String
  pub args : List String
  pub env : List EnvVar
  pub post_start : List String
  pub readiness_probe : Option Probe
  pub limits : Map String
  pub requests : Map String
  pub security_context : SecurityContext
  pub volume_mounts : List VolumeMount

-- v1.Pod; a volume is an EmptyDir by its name.
pub record PodSpec : Type 0 where
  pub namespace : String
  pub name : String
  pub labels : Option (Map String)
  pub host_network : Bool
  pub init_containers : List Container
  pub containers : List Container
  pub volumes : List String
  pub image_pull_secrets : List String

-- The flags of the manager; a quantity is the text that `MustParse` parses.
pub record Flags : Type 0 where
  pub init_image : String
  pub proxy_image : String
  pub proxy_image_pull_secrets : String
  pub proxy_image_pull_policy : String
  pub proxy_resource_cpu : String
  pub proxy_resource_memory : String
  pub proxy_log_level : ℕ
  pub proxy_extra_envs : String

abbrev pub env_var : String → String → EnvVar
env_var name value = record { name = name; value = value; field_path = none }

abbrev pub field_env : String → String → EnvVar
field_env name path = record { name = name; value = ""; field_path = some path }

-- GetContainerEnvVar of util/pod.go
unfoldable pub get_container_env_var : List EnvVar → String → Option EnvVar
get_container_env_var [] key = none
get_container_env_var (e ∷ es) key = if e.name == key then some e else get_container_env_var es key

abbrev pub env_of_pair : List String → List EnvVar
env_of_pair (k ∷ v ∷ []) = env_var k v ∷ []
env_of_pair _ = []

abbrev pub envs_of : List String → List EnvVar
envs_of [] = []
envs_of (text ∷ texts) = env_of_pair (split_at "=" text) ++ envs_of texts

unfoldable pub get_extra_envs : Flags → List EnvVar
unfolding split_at
get_extra_envs flags =
    if flags.proxy_extra_envs == "" then [] else envs_of (split_at ";" flags.proxy_extra_envs)

-- Two variables that a container sets for the same key and other values: `none`, an error.
abbrev pub merge_env : Option EnvVar → Option EnvVar → Option (Option EnvVar)
merge_env current none = some current
merge_env none (some e) = some (some e)
merge_env (some current) (some e) = if current.value == e.value then some (some e) else none

-- The variables that are found, `none` for an error.
abbrev pub find_env : String → List Container → Option EnvVar → Option (Option EnvVar)
find_env key [] current = some current
find_env key (c ∷ cs) current = elim (merge_env current (get_container_env_var c.env key)) [
  | none ↦ none
  | some e ↦ find_env key cs e
]

abbrev pub listed {ℓ} : {A : Type ℓ} → Option A → List A
listed none = []
listed (some a) = a ∷ []

abbrev pub both_envs : Option (Option EnvVar) → Option (Option EnvVar) → Option (List EnvVar)
both_envs none port = none
both_envs (some host) none = none
both_envs (some host) (some port) = some (listed host ++ listed port)

-- The one loop of the code goes over both keys; an error of either is the error of the loop.
unfoldable pub get_kubernetes_service_host_port : List Container → Option (List EnvVar)
unfolding get_container_env_var
get_kubernetes_service_host_port containers =
    both_envs (find_env "KUBERNETES_SERVICE_HOST" containers none)
      (find_env "KUBERNETES_SERVICE_PORT" containers none)

abbrev pub mounts_at : String → List VolumeMount → List VolumeMount
mounts_at dir [] = []
mounts_at dir (m ∷ ms) =
    let rest = mounts_at dir ms in
    if m.mount_path == dir then record m { read_only = true } ∷ rest else rest

unfoldable pub get_cert_volume_mounts : List Container → String → List VolumeMount
get_cert_volume_mounts [] dir = []
get_cert_volume_mounts (c ∷ cs) dir = mounts_at dir c.volume_mounts ++ get_cert_volume_mounts cs dir

-- The answers about a secret's name: is it in the pod's namespace, is the one that an injection
-- makes, is it in the manager's, and does its creation succeed.
pub record SecretAnswers : Type 0 where
  pub found : Bool
  pub injection_found : Bool
  pub manager_found : Bool
  pub created : Bool

abbrev pub injection_name : String → String
injection_name name = concat_text "ctrlmesh-injection-" name

-- A round of the loop: the reference, and the secret that it tries to create.
abbrev pub secret_ref : String → SecretAnswers → List String × List String
secret_ref name a =
    if a.found
    then (name ∷ [], [])
    else if a.injection_found
    then (injection_name name ∷ [], [])
    else if not a.manager_found
    then ([], [])
    else (if a.created then injection_name name ∷ [] else [], injection_name name ∷ [])

abbrev pub secret_refs : (String → SecretAnswers) → List String → List String × List String
secret_refs answers [] = ([], [])
secret_refs answers (n ∷ ns) =
    let (refs, created) = secret_ref n (answers n) in
    let (refs', created') = secret_refs answers ns in (refs ++ refs', created ++ created')

-- getImagePullSecrets, with the secrets that it tries to create in the pod's namespace.
unfoldable pub get_image_pull_secrets :
    String → (String → SecretAnswers) → String → List String → List String × List String
get_image_pull_secrets manager_namespace answers pod_namespace names =
    if manager_namespace == pod_namespace then (names, []) else secret_refs answers names
