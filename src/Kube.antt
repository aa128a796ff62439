-- ===== src/Kube.antt =====
-- The Kubernetes objects that the program reads, cut to the fields that it reads, and util/pod.go.
-- A timestamp that is only compared with nil is a Boolean.
use controllermesh.Prelude.{
  ℕ, suc, String, List, [], ◌∷◌, Option, none, some, Bool, true, false, ◌&&◌, ◌==◌, not,
  if◌then◌else◌,
}
use controllermesh.Prelude.Maps.{Map, lookup}

-- v1.PodPhase
pub data Phase : Type 0 where
  pending running succeeded failed unknown_phase : Phase

pub record Condition : Type 0 where
  pub type : String
  pub status : String

pub record ContainerStatus : Type 0 where
  pub name : String
  pub running : Bool

pub record Pod : Type 0 where
  pub namespace : String
  pub name : String
  pub uid : String
  pub labels : Map String
  pub phase : Phase
  pub deleting : Bool
  pub conditions : List Condition
  pub container_statuses : List ContainerStatus
  pub pod_ip : String
  -- seconds since its creation, when it is read
  pub age : ℕ

pub record Namespace : Type 0 where
  pub name : String
  pub labels : Map String
  pub deleting : Bool

-- `labels[key]`, which is "" for a missing key
abbrev pub label_of : String → Map String → String
label_of k m = elim (lookup k m) [ none ↦ "" | some v ↦ v ]

abbrev pub is_terminal : Phase → Bool
is_terminal succeeded = true
is_terminal failed = true
is_terminal _ = false

unfoldable pub is_pod_active : Pod → Bool
is_pod_active p = not (is_terminal p.phase) && not p.deleting

-- The index and the condition, or `none` for -1 and nil.
unfoldable pub get_pod_condition_from_list : List Condition → String → Option (ℕ × Condition)
get_pod_condition_from_list [] type = none
get_pod_condition_from_list (c ∷ cs) type =
    let rest = get_pod_condition_from_list cs type in
    if c.type == type
    then some (0, c)
    else (elim rest [ none ↦ none | some (i, d) ↦ some (suc i, d) ])

unfoldable pub get_pod_ready_condition : List Condition → Option Condition
unfolding get_pod_condition_from_list
get_pod_ready_condition conditions = elim (get_pod_condition_from_list conditions "Ready") [
  | none ↦ none
  | some (i, c) ↦ some c
]

unfoldable pub is_pod_ready : Pod → Bool
unfolding get_pod_ready_condition
is_pod_ready pod = elim (get_pod_ready_condition pod.conditions) [
  | none ↦ false
  | some c ↦ c.status == "True"
]
