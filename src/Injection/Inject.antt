-- ===== src/Injection/Inject.antt =====
-- injectByVirtualApp of webhook/pod/virutalapp_injection.go and Handle of
-- webhook/pod/pod_mutating_handler.go.
use controllermesh.Prelude.{
  ℕ, String, List, [], ◌∷◌, ◌++◌, Option, none, some, Bool, not, ◌&&◌, ◌||◌, ◌==◌, if◌then◌else◌,
}
use controllermesh.Prelude.Maps.{Map, put}
use controllermesh.Prelude.Texts.{split_at}
use controllermesh.Selector.{validated_label_selector_as_selector}
use controllermesh.Selector.Meaning.{Matching, compiled_matches}
use controllermesh.VirtualApp.{VirtualApp, Configuration}
use controllermesh.Events.{injected_key}
use controllermesh.Injection.{
  EnvVar, PodSpec, get_extra_envs, get_kubernetes_service_host_port, get_cert_volume_mounts,
  get_image_pull_secrets,
}
use controllermesh.Injection.Containers.{
  Containers, World, init_container, proxy_container, add_envs, configure_controller,
  configure_webhook, configure_rest,
}

pub data Match : Type 0 where
  matched : Option VirtualApp → Match
  multiple : VirtualApp → VirtualApp → Match

abbrev pub labels_of : PodSpec → Map String
labels_of pod = elim pod.labels [ none ↦ [] | some m ↦ m ]

-- Does the selector of the application, if it compiles, match the pod?
abbrev pub matches_pod : Matching → Map String → VirtualApp → Bool
matches_pod m labels v_app =
    compiled_matches m labels (validated_label_selector_as_selector v_app.spec.selector)

abbrev pub two_of : VirtualApp → Option VirtualApp → Match → Match
two_of v none rest = rest
two_of v (some w) rest = multiple w v

-- The first loop, over the applications of the pod's namespace.
unfoldable pub find_match : Matching → Map String → List VirtualApp → Option VirtualApp → Match
unfolding validated_label_selector_as_selector
find_match m labels [] current = matched current
find_match m labels (v ∷ vs) current =
    let is_match = matches_pod m labels v in
    let rest = find_match m labels vs (if is_match then some v else current) in
    if is_match then two_of v current rest else rest

-- The result: no error with the pod as it is, an error, a panic, or no error with a changed pod and
-- the secrets that it tries to create.
pub data Injected : Type 0 where
  untouched failed crashed : Injected
  injected : PodSpec → List String → Injected

abbrev pub add_pull_secrets : World → PodSpec → List String × List String
add_pull_secrets w pod =
    if w.flags.proxy_image_pull_secrets == ""
    then ([], [])
    else get_image_pull_secrets w.manager_namespace w.secrets pod.namespace
        (split_at "," w.flags.proxy_image_pull_secrets)

-- The statements from the one that sets InitContainers.
abbrev pub change_pod : World → VirtualApp → PodSpec → Containers → Injected
change_pod w v_app pod cs =
    let (refs, created) = add_pull_secrets w pod in
    injected
      (record pod {
        init_containers = cs.init ∷ pod.init_containers;
        containers = cs.proxy ∷ pod.containers;
        volumes = pod.volumes ++ ("ctrlmesh" ∷ []);
        image_pull_secrets = pod.image_pull_secrets ++ refs;
        labels = some (put injected_key v_app.name (labels_of pod));
      })
      created

abbrev pub change_configured :
    World → VirtualApp → PodSpec → Configuration → Option Containers → Injected
change_configured w v_app pod conf none = failed
change_configured w v_app pod conf (some cs) =
    change_pod w v_app pod (configure_rest conf.rest_config_overrides cs)

abbrev pub configure : World → VirtualApp → PodSpec → Containers → Option Configuration → Injected
configure w v_app pod cs none = crashed
configure w v_app pod cs (some conf) =
    change_configured w v_app pod conf
      (configure_webhook w pod.containers conf.webhook (configure_controller conf.controller cs))

abbrev pub configure_with : World → VirtualApp → PodSpec → Option (List EnvVar) → Injected
configure_with w v_app pod none = failed
configure_with w v_app pod (some envs) =
    configure w v_app pod
      (add_envs envs (record { init = init_container w; proxy = proxy_container w }))
      v_app.spec.configuration

-- The code behind the first loop, for the application that matches.
unfoldable pub inject_matched : World → VirtualApp → PodSpec → Injected
unfolding get_extra_envs get_kubernetes_service_host_port get_cert_volume_mounts
    get_image_pull_secrets split_at
inject_matched w v_app pod =
    if pod.host_network
    then failed
    else if w.flags.init_image == "" || w.flags.proxy_image == ""
    then failed
    else if not
        (w.is_quantity w.flags.proxy_resource_cpu && w.is_quantity w.flags.proxy_resource_memory)
    then crashed
    else configure_with w v_app pod (get_kubernetes_service_host_port pod.containers)

abbrev pub inject_match : World → PodSpec → Match → Injected
inject_match w pod (multiple v v') = failed
inject_match w pod (matched none) = untouched
inject_match w pod (matched (some v_app)) = inject_matched w v_app pod

abbrev pub inject_listed : World → Matching → PodSpec → Option (List VirtualApp) → Injected
inject_listed w m pod none = failed
inject_listed w m pod (some v_apps) = inject_match w pod (find_match m (labels_of pod) v_apps none)

-- `list` is the answer to the listing of the applications of a namespace, `none` an error.
unfoldable pub inject_by_virtual_app :
    World → Matching → (String → Option (List VirtualApp)) → PodSpec → Injected
unfolding find_match inject_matched
inject_by_virtual_app w m list pod = inject_listed w m pod (list pod.namespace)

-- The response: allowed as it is, an error by its code, a patch to a pod, or a panic.
pub data Response : Type 0 where
  allowed : Response
  errored : ℕ → Response
  patched : PodSpec → Response
  response_crashed : Response

abbrev pub respond : (PodSpec → Bool) → PodSpec → Injected → Response
respond marshals pod untouched = if marshals pod then patched pod else errored 500
respond marshals pod failed = errored 400
respond marshals pod crashed = response_crashed
respond marshals pod (injected pod' created) = if marshals pod' then patched pod' else errored 500

-- `Handle`: `decoded` is the pod of the request, `none` an error.
unfoldable pub handle :
    World
    → Matching
    → (String → Option (List VirtualApp))
    → (PodSpec → Bool)
    → Bool
    → String
    → Option PodSpec
    → Response
unfolding inject_by_virtual_app
handle w m list marshals is_create namespace decoded =
    if not is_create then allowed else (elim decoded [
      | none ↦ errored 400
      | some pod ↦
          let pod' = if pod.namespace == "" then record pod { namespace = namespace } else pod in
          respond marshals pod' (inject_by_virtual_app w m list pod')
    ])
