-- ===== src/Pods/Adapters/Reconciler/Updates.antt =====
-- What the reconciler reports of the adapters of a pod, and which pods it keeps.
use inference_manager.Base.{
  ==_iff, All, Bool-cases, List, Option, Option-cases, String, [], arith, contains,
  contains-keys-insert, false, inl, inr, insert, keys, nat_eq, none, not, refl, some, string_eq,
  ◌&&◌, ◌==◌, ◌∷◌, ◌≡◌, ◌≢◌,
}
use inference_manager.Pods.{Pod}
use inference_manager.Pods.Adapters.{AdapterStatus, PodStatus}
use inference_manager.Pods.Adapters.Reconciler.{
  PodStatuses, PodUpdate, base_model_changed, base_of, changed, compare_statuses,
  get_lora_loading_status, ids_of, missing_from, no_update, run_reconciler, update, update_for_pod,
  update_lora_loading_status, updates_of,
}
use inference_manager.Infprocessor.Schedule.{found}
use inference_manager.Router.RouteMap.{model_eq}
use inference_manager.Runtime.Events.{LoraAdapterStatusUpdate}

abbrev pub status_ids : Option PodStatus → List String
status_ids none = []
status_ids (some s) = ids_of s.lstatus

abbrev pub added_in : PodUpdate → List String
added_in (update u) = u.added_adapter_ids
added_in no_update = []
added_in base_model_changed = []

abbrev pub removed_in : PodUpdate → List String
removed_in (update u) = u.removed_adapter_ids
removed_in no_update = []
removed_in base_model_changed = []

contains-missing_from :
    (id : String) (ids xs : List String)
    → contains id (missing_from ids xs) ≡ (contains id xs && not (contains id ids))
unfolding contains
contains-missing_from id ids [] = ground arith
contains-missing_from id ids (x ∷ xs) = ground (arith, contains-missing_from id ids xs, ==_iff x id)

added_in-changed :
    (pod : Pod) (base : String) (added removed : List String)
    → (added_in (changed pod base added removed) ≡ added)
      × (removed_in (changed pod base added removed) ≡ removed)
added_in-changed pod base [] [] = (refl, refl)
added_in-changed pod base [] (x ∷ xs) = (refl, refl)
added_in-changed pod base (x ∷ xs) removed = (refl, refl)

-- The update says exactly what came and what went.
abbrev pub Describes : PodUpdate → List String → List String → Type 0
Describes u old new =
    (id : String)
    → (contains id (added_in u) ≡ (contains id new && not (contains id old)))
      × (contains id (removed_in u) ≡ (contains id old && not (contains id new)))

compare_statuses-Describes :
    (pod : Pod) (old new : AdapterStatus)
    → compare_statuses pod old new ≢ base_model_changed
    → Describes (compare_statuses pod old new) old.adapter_ids new.adapter_ids
compare_statuses-Describes pod old new kept id =
    elim (Bool-cases (old.base_model_id == new.base_model_id)) [
      | inr n ↦ absurd (kept (rw n refl))
      | inl y ↦
          let added = missing_from old.adapter_ids new.adapter_ids in
          let removed = missing_from new.adapter_ids old.adapter_ids in
          let (a, r) = added_in-changed pod new.base_model_id added removed in
          rw (y, a, r)
            (
              contains-missing_from id old.adapter_ids new.adapter_ids,
              contains-missing_from id new.adapter_ids old.adapter_ids,
            )
    ]

-- Unless the base model of a pod changes, the update of the pod names as added exactly the
-- adapters that it has and did not have, and as removed exactly those that it had and does not
-- have; a pod whose status is missing has none.
pub update_for_pod-Describes :
    (old : PodStatus) (new : Option PodStatus)
    → update_for_pod old new ≢ base_model_changed
    → Describes (update_for_pod old new) (ids_of old.lstatus) (status_ids new)
unfolding update_for_pod contains
update_for_pod-Describes old none kept id = elim (Option-cases old.lstatus) [
  | inl n ↦ rw n (refl, refl)
  | inr (o, n) ↦ rw n (ground arith, ground arith)
]
update_for_pod-Describes old (some new) kept id = elim (Option-cases old.lstatus) [
  | inl n ↦ rw n (ground arith, ground arith)
  | inr (o, n) ↦
      let now : AdapterStatus = record {
        base_model_id = base_of new.lstatus;
        adapter_ids = ids_of new.lstatus;
      } in
      rw n (compare_statuses-Describes new.pod o now (λ h. kept (rw n h)) id)
]

get_lora_loading_status-keys :
    (get : String → Option AdapterStatus) (name : String) (m found : PodStatuses)
    → All (λ x. x.1.pod.name ≡ x.0) m
    → contains name (keys m) ≡ false
    → contains name (keys found) ≡ false
    → contains name (keys (get_lora_loading_status get m found)) ≡ false
unfolding get_lora_loading_status contains
get_lora_loading_status-keys get name [] found k h f = f
get_lora_loading_status-keys get name ((j, s) ∷ m) found (x, k) h f =
    elim (Option-cases (get s.pod.pod_ip)) [
      | inl n ↦ ground (arith, get_lora_loading_status-keys get name m found k)
      | inr (l, n) ↦
          let found' = insert s.pod.name (record { pod = s.pod; lstatus = some l }) found in
          let still : contains name (keys found') ≡ false = ground (
            arith,
            contains-keys-insert name s.pod.name (record { pod = s.pod; lstatus = some l }) found,
            x,
          ) in
          ground (
            arith,
            get_lora_loading_status-keys get name m found k,
            get_lora_loading_status-keys get name m found' k,
            still,
          )
    ]

-- x
pub run_reconciler-forgets :
    (get : String → Option AdapterStatus) (m m' : PodStatuses) (name : String)
    (us : List LoraAdapterStatusUpdate)
    → All (λ x. x.1.pod.name ≡ x.0) m
    → contains name (keys m) ≡ false
    → (run_reconciler get m m').1 ≡ some us
    → contains name (keys (run_reconciler get m m').0) ≡ false
unfolding run_reconciler update_lora_loading_status contains
run_reconciler-forgets get m m' name us keyed new done =
    let found = get_lora_loading_status get m [] in
    let out = get_lora_loading_status-keys get name m [] keyed new refl in
    elim (Option-cases (updates_of m' found)) [
      | inl n ↦ ground (arith, done, n)
      | inr (vs, n) ↦ ground (arith, n, out)
    ]
