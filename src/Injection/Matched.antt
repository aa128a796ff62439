-- ===== src/Injection/Matched.antt =====
-- Which VirtualApp a pod gets its containers of.
use controllermesh.Prelude.{
  String, List, [], ◌∷◌, ◌++◌, Option, none, some, ◌≡◌, refl, ap, ◌∙◌, arith, select,
}
use controllermesh.Prelude.Maps.{Map}
use controllermesh.Selector.Meaning.{Matching}
use controllermesh.VirtualApp.{VirtualApp}
use controllermesh.Injection.{PodSpec, listed}
use controllermesh.Injection.Containers.{World}
use controllermesh.Injection.Inject.{
  Match, matched, multiple, labels_of, matches_pod, find_match, Injected, untouched, failed,
  inject_matched, inject_match, inject_listed, inject_by_virtual_app,
}

-- The first two of a list decide.
abbrev pub match_of : List VirtualApp → Match
match_of [] = matched none
match_of (v ∷ []) = matched (some v)
match_of (v ∷ w ∷ vs) = multiple v w

pub find_match-select :
    (m : Matching) (labels : Map String) (vs : List VirtualApp) (current : Option VirtualApp)
    → find_match m labels vs current ≡ match_of (listed current ++ select (matches_pod m labels) vs)
unfolding find_match
find_match-select m labels [] none = refl
find_match-select m labels [] (some u) = refl
find_match-select m labels (v ∷ vs) none =
    ground (arith, find_match-select m labels vs none, find_match-select m labels vs (some v))
find_match-select m labels (v ∷ vs) (some u) =
    ground (arith, find_match-select m labels vs (some u), find_match-select m labels vs (some v))

-- By the applications of the namespace whose selectors match the pod.
abbrev pub inject_only : World → PodSpec → List VirtualApp → Injected
inject_only w pod [] = untouched
inject_only w pod (v ∷ []) = inject_matched w v pod
inject_only w pod (v ∷ v' ∷ vs) = failed

inject_match-only :
    (w : World) (pod : PodSpec) (vs : List VirtualApp)
    → inject_match w pod (match_of vs) ≡ inject_only w pod vs
inject_match-only w pod [] = refl
inject_match-only w pod (v ∷ []) = refl
inject_match-only w pod (v ∷ v' ∷ vs) = refl

-- A pod of a namespace whose applications can be listed stays as it is where none of them matches
-- it, its creation fails where two or more do, and it gets the containers of the one that does where
-- it is the only one; one whose selector does not compile counts for nothing.
pub inject-only :
    (w : World) (m : Matching) (list : String → Option (List VirtualApp)) (pod : PodSpec)
    (v_apps : List VirtualApp)
    → list pod.namespace ≡ some v_apps
    → inject_by_virtual_app w m list pod
      ≡ inject_only w pod (select (matches_pod m (labels_of pod)) v_apps)
unfolding inject_by_virtual_app
inject-only w m list pod v_apps e =
    ap (inject_listed w m pod) e
    ∙ ap (inject_match w pod) (find_match-select m (labels_of pod) v_apps none)
    ∙ inject_match-only w pod (select (matches_pod m (labels_of pod)) v_apps)
