-- ===== src/Injection/Labelled.antt =====
-- What becomes of a pod that gets containers, up to the registration of its proxy at the manager.
use controllermesh.Prelude.{
  String, List, [], ◌∷◌, Option, none, some, Bool, true, false, not, ◌&&◌, ◌||◌, ◌==◌, ◌≡◌, sym, ap,
  ◌∙◌, arith, select, if◌then◌else◌,
}
use controllermesh.Prelude.Maps.{put, lookup-put}
use controllermesh.Selector.Meaning.{Matching}
use controllermesh.VirtualApp.{VirtualApp, Configuration}
use controllermesh.Proto.{ProxyStatus}
use controllermesh.Kube.{Pod, is_pod_active, label_of}
use controllermesh.Events.{injected_key}
use controllermesh.Reconciler.{ServerState}
use controllermesh.Stream.{pod_found, registered, register_v1, is_valid_self, store_connection}
use controllermesh.Injection.{PodSpec, Container, EnvVar, get_kubernetes_service_host_port}
use controllermesh.Injection.Containers.{
  World, Containers, configure_webhook, configure_controller, configure_rest, init_container,
  proxy_container, add_envs,
}
use controllermesh.Injection.Inject.{
  labels_of, matches_pod, Injected, injected, failed, crashed, change_pod, configure,
  configure_with, change_configured, inject_matched, inject_by_virtual_app,
}
use controllermesh.Injection.Matched.{inject-only, inject_only}

abbrev tail : List Container → List Container
tail [] = []
tail (c ∷ cs) = cs

-- The pod that comes out of it has its containers behind the new ones, and the label.
abbrev pub Labelled : VirtualApp → PodSpec → PodSpec → Type 0
Labelled v pod pod' =
    (tail pod'.containers ≡ pod.containers)
    × (tail pod'.init_containers ≡ pod.init_containers)
    × (labels_of pod' ≡ put injected_key v.name (labels_of pod))
    × (pod'.namespace ≡ pod.namespace)

abbrev LabelledIf : VirtualApp → PodSpec → Injected → Type 0
LabelledIf v pod x =
    (pod' : PodSpec) (created : List String) → x ≡ injected pod' created → Labelled v pod pod'

change_pod-Labelled :
    (w : World) (v : VirtualApp) (pod : PodSpec) (cs : Containers)
    → LabelledIf v pod (change_pod w v pod cs)
change_pod-Labelled w v pod cs = λ pod' created e. ground (arith, e)

change_configured-Labelled :
    (w : World) (v : VirtualApp) (pod : PodSpec) (conf : Configuration) (o : Option Containers)
    → LabelledIf v pod (change_configured w v pod conf o)
change_configured-Labelled w v pod conf none = λ pod' created e. cc
change_configured-Labelled w v pod conf (some cs) =
    change_pod-Labelled w v pod (configure_rest conf.rest_config_overrides cs)

configure-Labelled :
    (w : World) (v : VirtualApp) (pod : PodSpec) (cs : Containers) (o : Option Configuration)
    → LabelledIf v pod (configure w v pod cs o)
configure-Labelled w v pod cs none = λ pod' created e. cc
configure-Labelled w v pod cs (some conf) =
    change_configured-Labelled w v pod conf
      (configure_webhook w pod.containers conf.webhook (configure_controller conf.controller cs))

configure_with-Labelled :
    (w : World) (v : VirtualApp) (pod : PodSpec) (o : Option (List EnvVar))
    → LabelledIf v pod (configure_with w v pod o)
configure_with-Labelled w v pod none = λ pod' created e. cc
configure_with-Labelled w v pod (some envs) =
    configure-Labelled w v pod
      (add_envs envs (record { init = init_container w; proxy = proxy_container w }))
      v.spec.configuration

if-LabelledIf :
    (v : VirtualApp) (pod : PodSpec) (b : Bool) (x y : Injected)
    → LabelledIf v pod x
    → LabelledIf v pod y
    → LabelledIf v pod (if b then x else y)
if-LabelledIf v pod true x y p q = p
if-LabelledIf v pod false x y p q = q

inject_matched-Labelled :
    (w : World) (v : VirtualApp) (pod : PodSpec) → LabelledIf v pod (inject_matched w v pod)
unfolding inject_matched
inject_matched-Labelled w v pod =
    let no_pod : LabelledIf v pod failed = λ pod' created e. cc in
    let no_crash : LabelledIf v pod crashed = λ pod' created e. cc in
    if-LabelledIf v pod pod.host_network _ _ no_pod (
      if-LabelledIf v pod (w.flags.init_image == "" || w.flags.proxy_image == "") _ _ no_pod (
        if-LabelledIf v pod
          (not (
            w.is_quantity w.flags.proxy_resource_cpu
            && w.is_quantity w.flags.proxy_resource_memory))
          _ _ no_crash
          (configure_with-Labelled w v pod (get_kubernetes_service_host_port pod.containers))))

registers :
    (status : ProxyStatus) (p : Pod) (s : ServerState) (name : String)
    → is_valid_self status.self_info ≡ true
    → is_pod_active p ≡ true
    → label_of injected_key p.labels ≡ name
    → (name == "") ≡ false
    → register_v1 (some status) (pod_found p) s
      ≡ registered p.uid name (store_connection status p s)
unfolding register_v1
registers status p s name ok active e ne = ground (arith, ok, active, e, ne)

-- A pod gets containers, and one VirtualApp of its namespace, with a name, is all that match it: its
-- own containers and init containers stay behind the new ones, its namespace and its labels stay but
-- for the label that names the VirtualApp; and when its proxy registers, with the pod's name and
-- namespace, while the pod is active with those labels, the manager takes it for a proxy of that
-- VirtualApp.
pub injected-registers :
    (w : World) (m : Matching) (list : String → Option (List VirtualApp)) (pod pod' : PodSpec)
    (v_apps : List VirtualApp) (v : VirtualApp) (created : List String) (status : ProxyStatus)
    (p : Pod) (s : ServerState)
    → list pod.namespace ≡ some v_apps
    → select (matches_pod m (labels_of pod)) v_apps ≡ v ∷ []
    → (v.name == "") ≡ false
    → inject_by_virtual_app w m list pod ≡ injected pod' created
    → p.labels ≡ labels_of pod'
    → is_pod_active p ≡ true
    → is_valid_self status.self_info ≡ true
    → Labelled v pod pod'
      × (register_v1 (some status) (pod_found p) s
          ≡ registered p.uid v.name (store_connection status p s))
injected-registers w m list pod pod' v_apps v created status p s l one ne e same active ok =
    let only = inject-only w m list pod v_apps l ∙ ap (inject_only w pod) one in
    let kept = inject_matched-Labelled w v pod pod' created (sym only ∙ e) in
    let label : label_of injected_key p.labels ≡ v.name =
      ground (arith, same, kept.2, lookup-put injected_key injected_key v.name (labels_of pod)) in
    (kept, registers status p s v.name ok active label ne)
