-- ===== src/Pods/Drifted.antt =====
-- `DriftedPodUpdater` of engine/internal/runtime/drifted_pod_updater.go: it deletes pods that differ
-- from the template of their stateful set, one at a time.
use inference_manager.Base.{
  Bool, List, Option, String, [], contains, delete, eqb, if◌then◌else◌, insert, length, ltb, map,
  nat_eq, none, not, some, string_eq, suc, ℕ, ◌&&◌, ◌==◌, ◌||◌, ◌∷◌,
}
use inference_manager.Pods.{
  Pod, PodIndex, is_pod_crash_looping, is_pod_ready, is_pod_unschedulable, no_label, pod_index,
  unparsable,
}
use inference_manager.Infprocessor.State.{in_progress}
use inference_manager.Router.RouteMap.{model_eq}
use inference_manager.Router.Tenants.{names}
use inference_manager.Sse.{index}
pub mod Up
pub mod Safe

pub record DriftedSet : Type 0 where
  pub name : String
  pub replicas : ℕ
  pub update_revision : String

-- What is deleted, or that the index of a pod cannot be read.
pub data Deletions : Type 0 where
  deletes : List Pod → Deletions
  bad_index : Deletions

-- The index of a pod on a scale that starts with the missing label.
abbrev pub rank : PodIndex → Option ℕ
rank no_label = some 0
rank unparsable = none
rank (pod_index n) = some (suc n)

-- The loop of `chooseDeletionCandidateFromDriftedPods`, with the candidate and its rank.
unfoldable pub choose_from : List Pod → Option (Pod × ℕ) → Option (Option (Pod × ℕ))
choose_from [] best = some best
choose_from (p ∷ ps) best = elim (rank p.index) [
  | none ↦ none
  | some i ↦ elim best [
    | none ↦ choose_from ps (some (p, i))
    | some b ↦ choose_from ps (if ltb b.1 i then some (p, i) else some b)
  ]
]

unfoldable pub choose_deletion_candidate : List Pod → Option (Option (Pod × ℕ))
unfolding choose_from
choose_deletion_candidate ps = choose_from ps none

module _ (has_major_change : Pod → Bool) where
  unfoldable pub drifted_pods : String → List Pod → List Pod
  drifted_pods revision [] = []
  drifted_pods revision (p ∷ ps) =
      let rest = drifted_pods revision ps in
      if p.revision == revision || not (has_major_change p) then rest else p ∷ rest

-- Ready, and not being updated.
unfoldable pub settled_pods : List String → List Pod → List Pod
settled_pods in_progress [] = []
settled_pods in_progress (p ∷ ps) =
    let rest = settled_pods in_progress ps in
    if is_pod_ready p && not (contains p.name in_progress) then p ∷ rest else rest

abbrev pub pod_names : List Pod → List String
pod_names = map (λ p. p.name)

unfoldable pub first_not_in : List String → List Pod → Option Pod
first_not_in names [] = none
first_not_in names (p ∷ ps) =
    let rest = first_not_in names ps in if contains p.name names then rest else some p

unfoldable pub failing_pods : List Pod → List Pod
failing_pods [] = []
failing_pods (p ∷ ps) =
    let rest = failing_pods ps in
    if is_pod_unschedulable p || is_pod_crash_looping p then p ∷ rest else rest

abbrev pub delete_candidate : Option (Option (Pod × ℕ)) → Deletions
delete_candidate none = bad_index
delete_candidate (some none) = deletes []
delete_candidate (some (some (p, i))) = deletes (p ∷ [])

abbrev pub delete_first : Option Pod → Deletions
delete_first none = deletes []
delete_first (some p) = deletes (p ∷ [])

-- More than one replica: `ready` are the ready pods.
unfoldable pub delete_one : DriftedSet → List Pod → List Pod → Deletions
unfolding choose_deletion_candidate first_not_in failing_pods
delete_one sts ready drifted =
    if eqb (length ready) sts.replicas
    then delete_candidate (choose_deletion_candidate drifted)
    else if eqb (suc (length ready)) sts.replicas
    then delete_first (first_not_in (pod_names ready) drifted)
    else delete_candidate (choose_deletion_candidate (failing_pods drifted))

unfoldable pub delete_drifted_pods : (Pod → Bool) → List String → DriftedSet → List Pod → Deletions
unfolding delete_one
delete_drifted_pods has_major_change in_progress sts pods =
    let drifted = drifted_pods has_major_change sts.update_revision pods in
    if eqb (length drifted) 0
    then deletes []
    else if eqb sts.replicas 1
    then deletes drifted
    else delete_one sts (settled_pods in_progress pods) drifted

-- `createOrUpdateStatefulSet` and `deleteStatefulSet`.
unfoldable pub create_or_update_stateful_set :
    DriftedSet → List (String × DriftedSet) → List (String × DriftedSet)
create_or_update_stateful_set sts m = insert sts.name sts m

unfoldable pub delete_stateful_set :
    String → List (String × DriftedSet) → List (String × DriftedSet)
delete_stateful_set name m = delete name m
