-- ===== src/Pods/Adapters/Reconciler.antt =====
-- `LoRAReconciler` of engine/internal/runtime/lora_reconciler.go.
use inference_manager.Base.{
  Bool, List, Option, String, [], contains, delete, false, if◌then◌else◌, insert, lookup, nat_eq,
  none, not, some, string_eq, true, ◌==◌, ◌||◌, ◌∷◌,
}
use inference_manager.Pods.{Pod, is_pod_ready}
use inference_manager.Pods.Adapters.{AdapterStatus, PodStatus}
use inference_manager.Runtime.Events.{LoraAdapterStatusUpdate}
use inference_manager.Infprocessor.Schedule.{found}
use inference_manager.Router.RouteMap.{model_eq}
pub mod Updates

abbrev pub PodStatuses : Type 0
PodStatuses = List (String × PodStatus)

pub data FetchedPod : Type 0 where
  pod_failed pod_not_found : FetchedPod
  found_pod : Pod → FetchedPod

unfoldable pub add_pod : Pod → PodStatuses → PodStatuses
add_pod pod m = elim (lookup pod.name m) [
  | some s ↦ m
  | none ↦ insert pod.name (record { pod = pod; lstatus = none }) m
]

abbrev pub ids_of : Option AdapterStatus → List String
ids_of none = []
ids_of (some s) = s.adapter_ids

abbrev pub base_of : Option AdapterStatus → String
base_of none = ""
base_of (some s) = s.base_model_id

abbrev pub update_of : Pod → String → List String → List String → LoraAdapterStatusUpdate
update_of pod base added removed = record {
  pod_name = pod.name;
  pod_ip = pod.pod_ip;
  gpu = pod.gpu;
  base_model_id = base;
  added_adapter_ids = added;
  removed_adapter_ids = removed;
}

-- `deletePod`: the pod is forgotten, and its adapters are reported as removed.
unfoldable pub delete_pod : String → PodStatuses → PodStatuses × List LoraAdapterStatusUpdate
delete_pod name m = elim (lookup name m) [
  | none ↦ (m, [])
  | some s ↦
      (delete name m, record (update_of s.pod "" [] (ids_of s.lstatus)) { pod_name = name } ∷ [])
]

-- `Reconcile`; the flag is false where it fails.
unfoldable pub reconcile_pod :
    String → FetchedPod → PodStatuses → PodStatuses × List LoraAdapterStatusUpdate × Bool
unfolding add_pod delete_pod
reconcile_pod name pod_failed m = (m, [], false)
reconcile_pod name pod_not_found m = ((delete_pod name m).0, (delete_pod name m).1, true)
reconcile_pod name (found_pod pod) m =
    if pod.pod_ip == "" || not (is_pod_ready pod) then (m, [], true) else (add_pod pod m, [], true)

-- `getLoRALoadingStatus`: the pods whose status can be got and has a base model.
unfoldable pub get_lora_loading_status :
    (String → Option AdapterStatus) → PodStatuses → PodStatuses → PodStatuses
get_lora_loading_status get [] found = found
get_lora_loading_status get ((k, s) ∷ m) found =
    get_lora_loading_status get m (elim (get s.pod.pod_ip) [
      | none ↦ found
      | some l ↦
          if l.base_model_id == ""
          then found
          else insert s.pod.name (record { pod = s.pod; lstatus = some l }) found
    ])

abbrev pub missing_from : List String → List String → List String
missing_from ids [] = []
missing_from ids (x ∷ xs) =
    let rest = missing_from ids xs in if contains x ids then rest else x ∷ rest

-- The result of `updateLoRALoadingStatusForPod`.
pub data PodUpdate : Type 0 where
  no_update base_model_changed : PodUpdate
  update : LoraAdapterStatusUpdate → PodUpdate

abbrev pub changed : Pod → String → List String → List String → PodUpdate
changed pod base [] [] = no_update
changed pod base added removed = update (update_of pod base added removed)

abbrev pub compare_statuses : Pod → AdapterStatus → AdapterStatus → PodUpdate
compare_statuses pod old new =
    if not (old.base_model_id == new.base_model_id)
    then base_model_changed
    else changed pod new.base_model_id (missing_from old.adapter_ids new.adapter_ids)
        (missing_from new.adapter_ids old.adapter_ids)

-- The new status of a pod that is there has always been got.
unfoldable pub update_for_pod : PodStatus → Option PodStatus → PodUpdate
update_for_pod old none = elim old.lstatus [
  | none ↦ no_update
  | some o ↦ update (update_of old.pod o.base_model_id [] o.adapter_ids)
]
update_for_pod old (some new) = elim old.lstatus [
  | none ↦ update (update_of new.pod (base_of new.lstatus) (ids_of new.lstatus) [])
  | some o ↦
      compare_statuses new.pod o
        (record { base_model_id = base_of new.lstatus; adapter_ids = ids_of new.lstatus })
]

-- The loop of `updateLoRALoadingStatus`; `none` is an error.
unfoldable pub updates_of : PodStatuses → PodStatuses → Option (List LoraAdapterStatusUpdate)
unfolding update_for_pod
updates_of [] found = some []
updates_of ((k, old) ∷ m) found =
    let rest = updates_of m found in
    elim (update_for_pod old (lookup k found)) [
      | base_model_changed ↦ none
      | no_update ↦ rest
      | update u ↦ elim rest [ none ↦ none | some us ↦ some (u ∷ us) ]
    ]

unfoldable pub update_lora_loading_status :
    PodStatuses → PodStatuses → PodStatuses × Option (List LoraAdapterStatusUpdate)
unfolding updates_of
update_lora_loading_status found m = elim (updates_of m found) [
  | none ↦ (m, none)
  | some us ↦ (found, some us)
]

-- `run`: between the statuses and the update, other goroutines may change the pods; `m'` is what
-- they leave.
unfoldable pub run_reconciler :
    (String → Option AdapterStatus)
    → PodStatuses
    → PodStatuses
    → PodStatuses × Option (List LoraAdapterStatusUpdate)
unfolding get_lora_loading_status update_lora_loading_status
run_reconciler get m m' = update_lora_loading_status (get_lora_loading_status get m []) m'
