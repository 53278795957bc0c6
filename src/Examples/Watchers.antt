-- ===== src/Examples/Watchers.antt =====
-- Runs of the parts of the engine that watch pods and models.
use inference_manager.Base.{
  Bool, List, Option, String, [], add, arith, contains, false, leb, nat_eq, not, refl, some,
  string_eq, true, ◌&&◌, ◌||◌, ◌∷◌, ◌≡◌,
}
use inference_manager.Pods.{Pod, is_pod_ready, pod_index}
use inference_manager.Pods.Drifted.{
  DriftedSet, choose_deletion_candidate, choose_from, delete_drifted_pods, delete_one, deletes,
  drifted_pods, settled_pods,
}
use inference_manager.Pods.Adapters.{AdapterStatus, PodStatus}
use inference_manager.Pods.Activator.{
  ListedModel, ModelActivator, activate_all, activate_one, active, active_bases, inactive,
  reconcile_model_activation,
}
use inference_manager.Pods.Activator.Chosen.{any_to_go, has_deletion, is_listed, reconcile-deletes}
use inference_manager.Pods.Adapters.Rebalancer.{rebalance}
use inference_manager.Pods.Adapters.Rebalancer.Loads.{
  any_has, any_named, has_load, pod_has, rebalance-loads,
}
use inference_manager.Pods.Adapters.Reconciler.{update_for_pod}
use inference_manager.Pods.Adapters.Reconciler.Updates.{Describes, update_for_pod-Describes}
use inference_manager.Pods.Drifted.Safe.{
  AllDeleted, IsDrifted, MayGo, count_deleted, delete_drifted_pods-safe,
}
use inference_manager.Router.RouteMap.{model_eq}

abbrev pod_0 : Pod
pod_0 = record {
  name = "rt-0";
  pod_ip = "10.0.0.1";
  conditions = record { kind = "Ready"; status = "True"; reason = "" } ∷ [];
  init_waiting = [];
  waiting = [];
  revision = "1";
  index = pod_index 0;
  gpu = 1;
}

abbrev pod_1 : Pod
pod_1 = record pod_0 { name = "rt-1"; pod_ip = "10.0.0.2"; index = pod_index 1 }

abbrev drifting : DriftedSet
drifting = record { name = "rt"; replicas = 2; update_revision = "2" }

abbrev all_major : Pod → Bool
all_major p = true

-- The pod with the largest index goes.
drifting_deletes :
    delete_drifted_pods all_major [] drifting (pod_0 ∷ pod_1 ∷ []) ≡ deletes (pod_1 ∷ [])
unfolding delete_drifted_pods drifted_pods delete_one settled_pods is_pod_ready
    choose_deletion_candidate choose_from contains
drifting_deletes = refl

delete_drifted_pods-safe_example :
    AllDeleted
      (λ p. IsDrifted all_major drifting p × MayGo drifting [] (pod_0 ∷ pod_1 ∷ []) p)
      (delete_drifted_pods all_major [] drifting (pod_0 ∷ pod_1 ∷ []))
    × (leb (count_deleted (delete_drifted_pods all_major [] drifting (pod_0 ∷ pod_1 ∷ []))) 1
        ≡ true)
delete_drifted_pods-safe_example =
    delete_drifted_pods-safe all_major [] drifting (pod_0 ∷ pod_1 ∷ []) (λ h. omega (arith, h))

abbrev adapter : ListedModel
adapter = record {
  id = "ft";
  is_base_model = false;
  base_model_id = "small";
  activation_status = active;
}

abbrev base : ListedModel
base = record {
  id = "small";
  is_base_model = true;
  base_model_id = "";
  activation_status = inactive;
}

abbrev activator : ModelActivator
activator = record { preloaded_model_ids = []; is_dynamic_lora_loading_enabled = true }

reconcile-deletes_example :
    has_deletion "old"
      (reconcile_model_activation activator (some (adapter ∷ base ∷ [])) ("old" ∷ [])).0
    ≡ (any_to_go activator (adapter ∷ base ∷ []) "old" (adapter ∷ base ∷ [])
        || contains {K = String} "old" ("old" ∷ []) && not (is_listed "old" (adapter ∷ base ∷ [])))
unfolding reconcile_model_activation activate_all activate_one active_bases contains add
reconcile-deletes_example =
    reconcile-deletes activator (adapter ∷ base ∷ []) ("old" ∷ []) "old" refl

abbrev loaded : List String → Option AdapterStatus
loaded ids = some (record { base_model_id = "small"; adapter_ids = ids })

abbrev before : PodStatus
before = record { pod = pod_0; lstatus = loaded ("a" ∷ "b" ∷ []) }

abbrev after : PodStatus
after = record { pod = pod_0; lstatus = loaded ("b" ∷ "c" ∷ []) }

update_for_pod-Describes_example :
    Describes (update_for_pod before (some after)) ("a" ∷ "b" ∷ []) ("b" ∷ "c" ∷ [])
unfolding update_for_pod contains
update_for_pod-Describes_example = update_for_pod-Describes before (some after) (λ h. absurd (cc h))

abbrev answers : String → Option AdapterStatus
answers ip = loaded ("a" ∷ [])

abbrev balanced : List PodStatus
balanced = before ∷ record { pod = pod_1; lstatus = loaded [] } ∷ []

rebalance-loads_example :
    has_load "a" "rt-1" (rebalance balanced)
    ≡ (any_has "a" balanced && any_named "rt-1" balanced && not (pod_has "a" "rt-1" balanced))
rebalance-loads_example = rebalance-loads "a" "rt-1" balanced
